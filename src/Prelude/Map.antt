-- ===== src/Prelude/Map.antt =====
-- `std::map` and `std::unordered_map` with numbers for keys, as association lists. An iteration
-- visits the entries in the order of the list; the code relies on no order of an unordered map.
use Prim.Native.Nat.{ℕ, ◌+◌}
use mathlib.Core.Path.{◌≡◌, refl}
use mathlib.Core.Bool.{Bool, true, false}
use mathlib.Core.Logic.{inl, inr}
use mathlib.Core.List.{List, [], ◌∷◌}
use mathlib.Core.Option.{Option, none, some}
use native.Mathlib.Omega.{arith}
use utispace_chain.Prelude.Tests.{◌==◌, ltb, if◌then◌else◌, Bool-cases}
use utispace_chain.Prelude.Lists.{All, length}

abbrev pub Map {ℓ} : Type ℓ → Type ℓ
Map V = List (ℕ × V)

module _ {ℓ} {V : Type ℓ} where
  -- `m.find(k)`
  unfoldable pub find : ℕ → Map V → Option V
  find k [] = none
  find k ((j, v) ∷ m) = if j == k then some v else find k m

  -- `m.find(k) != m.end()`
  unfoldable pub has : ℕ → Map V → Bool
  has k [] = false
  has k ((j, v) ∷ m) = if j == k then true else has k m

  -- `m[k] = v`
  unfoldable pub insert : ℕ → V → Map V → Map V
  insert k v [] = (k, v) ∷ []
  insert k v ((j, w) ∷ m) = if j == k then (j, v) ∷ m else (j, w) ∷ insert k v m

  -- `m.erase(k)`
  unfoldable pub erase : ℕ → Map V → Map V
  erase k [] = []
  erase k ((j, v) ∷ m) = if j == k then m else (j, v) ∷ erase k m

  -- What `m[k]` reads: a default value if the key is missing.
  unfoldable pub at : V → ℕ → Map V → V
  at d k [] = d
  at d k ((j, v) ∷ m) = if j == k then v else at d k m

  -- What `m[k]` leaves behind: the key is there, with a default value if it was missing.
  unfoldable pub touch : V → ℕ → Map V → Map V
  touch d k [] = (k, d) ∷ []
  touch d k ((j, v) ∷ m) = if j == k then (j, v) ∷ m else (j, v) ∷ touch d k m

  -- `auto it = m.find(k); if (it != m.end()) it->second = f(it->second);`
  unfoldable pub modify : ℕ → (V → V) → Map V → Map V
  modify k f [] = []
  modify k f ((j, v) ∷ m) = if j == k then (j, f v) ∷ m else (j, v) ∷ modify k f m

module _ {ℓ} {V : Type ℓ} where
  pub find-insert :
      (k j : ℕ) (v : V) (m : Map V) → find j (insert k v m) ≡ (if k == j then some v else find j m)
  unfolding find insert
  find-insert k j v [] = refl
  find-insert k j v ((i, w) ∷ m) = ground (arith, find-insert k j v m)

  pub has-insert_self : (k : ℕ) (v : V) (m : Map V) → has k (insert k v m) ≡ true
  unfolding has insert
  has-insert_self k v [] = ground arith
  has-insert_self k v ((i, w) ∷ m) = ground (arith, has-insert_self k v m)

  -- A new key makes a map one entry longer; an old one keeps the length.
  pub length-insert :
      (k : ℕ) (v : V) (m : Map V)
      → length (insert k v m) ≡ (if has k m then length m else length m + 1)
  unfolding has insert
  length-insert k v [] = omega arith
  length-insert k v ((i, w) ∷ m) = ground (arith, length-insert k v m)

  pub at-touch : (d : V) (k j : ℕ) (m : Map V) → at d j (touch d k m) ≡ at d j m
  unfolding at touch
  at-touch d k j [] = ground arith
  at-touch d k j ((i, w) ∷ m) = ground (arith, at-touch d k j m)

  pub at-insert :
      (d : V) (k j : ℕ) (v : V) (m : Map V)
      → at d j (insert k v m) ≡ (if k == j then v else at d j m)
  unfolding at insert
  at-insert d k j v [] = ground arith
  at-insert d k j v ((i, w) ∷ m) = ground (arith, at-insert d k j v m)

  -- A property of every entry, key and value.
  module _ {κ} (P : ℕ × V → Type κ) where
    pub All-insert : (k : ℕ) (v : V) (m : Map V) → P (k, v) → All P m → All P (insert k v m)
    unfolding insert
    All-insert k v [] p h = (p, tt)
    All-insert k v ((i, w) ∷ m) p h = elim (Bool-cases (i == k)) [
      | inl e ↦ rw e (same e, h.1)
      | inr e ↦ rw e (h.0, All-insert k v m p h.1)
    ]
      where
        same : (i == k) ≡ true → P (i, v)
        same e = let q : i ≡ k = ground arith in rw q p

    pub All-erase : (k : ℕ) (m : Map V) → All P m → All P (erase k m)
    unfolding erase
    All-erase k [] h = tt
    All-erase k ((i, w) ∷ m) h = elim (Bool-cases (i == k)) [
      | inl e ↦ rw e h.1
      | inr e ↦ rw e (h.0, All-erase k m h.1)
    ]

    pub All-touch : (d : V) (k : ℕ) (m : Map V) → P (k, d) → All P m → All P (touch d k m)
    unfolding touch
    All-touch d k [] p h = (p, tt)
    All-touch d k ((i, w) ∷ m) p h = elim (Bool-cases (i == k)) [
      | inl e ↦ rw e h
      | inr e ↦ rw e (h.0, All-touch d k m p h.1)
    ]

    pub All-at : (d : V) (k : ℕ) (m : Map V) → P (k, d) → All P m → P (k, at d k m)
    unfolding at
    All-at d k [] p h = p
    All-at d k ((i, w) ∷ m) p h = elim (Bool-cases (i == k)) [
      | inl e ↦ rw e (same e)
      | inr e ↦ rw e (All-at d k m p h.1)
    ]
      where
        same : (i == k) ≡ true → P (k, w)
        same e = let q : k ≡ i = ground arith in rw q h.0

    pub All-modify :
        (k : ℕ) (f : V → V) (m : Map V)
        → ((v : V) → P (k, v) → P (k, f v))
        → All P m
        → All P (modify k f m)
    unfolding modify
    All-modify k f [] g h = tt
    All-modify k f ((i, w) ∷ m) g h = elim (Bool-cases (i == k)) [
      | inl e ↦ rw e (same e, h.1)
      | inr e ↦ rw e (h.0, All-modify k f m g h.1)
    ]
      where
        same : (i == k) ≡ true → P (i, f w)
        same e = let q : i ≡ k = ground arith in rw q (g w (rw q at h.0))

-- Every entry with the key goes, and an entry that is put in an ordered map takes its place.
module _ {ℓ} {V : Type ℓ} where
  -- `m.erase(k)` where the key may stand once at most: all the entries with the key.
  unfoldable pub remove_key : ℕ → Map V → Map V
  remove_key k [] = []
  remove_key k ((j, v) ∷ m) = let rest = remove_key k m in if j == k then rest else (j, v) ∷ rest

  -- `m[k] = v` of a `std::map`, whose entries stand in the order of the keys.
  unfoldable pub insert_ordered : ℕ → V → Map V → Map V
  insert_ordered k v [] = (k, v) ∷ []
  insert_ordered k v ((j, w) ∷ m) =
      let rest = insert_ordered k v m in
      if j == k then (j, v) ∷ m else if ltb k j then (k, v) ∷ (j, w) ∷ m else (j, w) ∷ rest

  pub find-remove_key :
      (k j : ℕ) (m : Map V) → find j (remove_key k m) ≡ (if k == j then none else find j m)
  unfolding find remove_key
  find-remove_key k j [] = ground arith
  find-remove_key k j ((i, w) ∷ m) = ground (arith, find-remove_key k j m)

  pub find-insert_ordered :
      (k j : ℕ) (v : V) (m : Map V)
      → find j (insert_ordered k v m) ≡ (if k == j then some v else find j m)
  unfolding find insert_ordered
  find-insert_ordered k j v [] = refl
  find-insert_ordered k j v ((i, w) ∷ m) = ground (arith, find-insert_ordered k j v m)

  pub has-find :
      (k : ℕ) (m : Map V)
      → has k m ≡ elim (find k m) as (λ _. Bool) [ none ↦ false | some _ ↦ true ]
  unfolding find has
  has-find k [] = refl
  has-find k ((i, w) ∷ m) = ground (arith, has-find k m)
