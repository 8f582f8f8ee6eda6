-- ===== src/StateDb/Nibbles/Slices/Compared.antt =====
-- What the comparisons of slices say of the nibbles, libdevcore/TrieCommon.h.
use utispace_chain.Prelude.{
  ℕ, zero, suc, ◌+◌, ◌-◌, ◌%◌, ◌*◌, ◌<◌, ◌≤◌, ◌≡◌, ◌↔◌, ◌⊎◌, refl, sym, ap, ◌∙◌, inl, inr, List, [],
  ◌∷◌, ◌++◌, Bool, true, false, ltb, ◌==◌, if◌then◌else◌, length, Bool-cases, ==_iff, and-true,
  arith,
}
use utispace_chain.StateDb.Nibbles.{word_mod, nibble, range, NibbleSlice, slice_size, slice_nibbles}
use utispace_chain.StateDb.Nibbles.Prefix.{length-range}
use utispace_chain.StateDb.Nibbles.Slices.{
  shared_loop, shared, contains, is_same_slice, earlier_loop, is_earlier_than,
}

-- The number of entries that two lists begin with alike.
unfoldable pub common : List ℕ → List ℕ → ℕ
common [] ms = 0
common (n ∷ ns) [] = 0
common (n ∷ ns) (m ∷ ms) = let rest = common ns ms in if n == m then suc rest else 0

-- The first list starts the second.
abbrev pub IsPrefix : List ℕ → List ℕ → Type 0
IsPrefix ms ns = (rest : List ℕ) × (ms ++ rest ≡ ns)

-- The first list comes before the second, which does not start it.
unfoldable pub IsEarlier : List ℕ → List ℕ → Type 0
IsEarlier ns [] = ⊥
IsEarlier [] (m ∷ ms) = Unit
IsEarlier (n ∷ ns) (m ∷ ms) = (n < m) ⊎ ((n ≡ m) × IsEarlier ns ms)

shared_loop-common :
    (n m : ℕ) (f : List ℕ) (b : ℕ) (g : List ℕ) (c : ℕ)
    → shared_loop n f b (b + n) g c (c + m) ≡ common (range f b n) (range g c m)
unfolding shared_loop common range
shared_loop-common zero m f b g c = refl
shared_loop-common (suc n) zero f b g c = ground arith
shared_loop-common (suc n) (suc m) f b g c =
    let first : b + suc n ≡ suc b + n = omega arith in
    let second : c + suc m ≡ suc c + m = omega arith in
    rw (first, second, shared_loop-common n m f (suc b) g (suc c)) (ground arith)

common-IsPrefix : (ns ms : List ℕ) → common ns ms ≡ length ms → IsPrefix ms ns
unfolding common
common-IsPrefix ns [] h = (ns, refl)
common-IsPrefix [] (m ∷ ms) h = absurd (omega (arith, h))
common-IsPrefix (n ∷ ns) (m ∷ ms) h = elim (Bool-cases (n == m)) [
  | inl e ↦
      let less : common ns ms ≡ length ms = ground (arith, e, h) in
      let same : m ≡ n = ground (arith, e) in
      let p = common-IsPrefix ns ms less in
      (p.0, ap (λ x. x ∷ (ms ++ p.0)) same ∙ ap (λ l. n ∷ l) p.1)
  | inr e ↦ absurd (ground (arith, e, h))
]

common-append : (ms rest : List ℕ) → common (ms ++ rest) ms ≡ length ms
unfolding common
common-append [] [] = refl
common-append [] (n ∷ rest) = refl
common-append (m ∷ ms) rest = rw (common-append ms rest) (ground arith)

common_le : (ns ms : List ℕ) → length ns ≡ length ms → common ns ms ≡ length ms → ns ≡ ms
unfolding common
common_le [] [] size h = refl
common_le [] (m ∷ ms) size h = absurd (omega (arith, size))
common_le (n ∷ ns) [] size h = absurd (omega (arith, size))
common_le (n ∷ ns) (m ∷ ms) size h = elim (Bool-cases (n == m)) [
  | inl e ↦
      let less : common ns ms ≡ length ms = ground (arith, e, h) in
      let same : n ≡ m = ground (arith, e) in
      ap (λ x. x ∷ ns) same ∙ ap (λ l. m ∷ l) (common_le ns ms (omega (arith, size)) less)
  | inr e ↦ absurd (ground (arith, e, h))
]

common_self : (ns : List ℕ) → common ns ns ≡ length ns
unfolding common
common_self [] = refl
common_self (n ∷ ns) = rw (common_self ns) (ground arith)

compare-cases : (a b : ℕ) → (a < b) ⊎ ((a ≡ b) ⊎ (b < a))
compare-cases a b = ground arith

-- One round of `isEarlierThan`, both indices inside.
one_nibble :
    {P : Type 0} {rest : Bool} (a b : ℕ)
    → (rest ≡ true) ↔ P
    → ((if ltb a b then true else if ltb b a then false else rest) ≡ true)
      ↔ ((a < b) ⊎ ((a ≡ b) × P))
one_nibble a b rest = elim (compare-cases a b) [
  | inl less ↦ (λ h. inl less, λ h. ground (arith, less))
  | inr (inl same) ↦ (
    λ h. inr (same, rest.0 (ground (arith, h, same))),
    λ h. elim h [
      | inl less ↦ absurd (omega (arith, less, same))
      | inr (e, p) ↦ let r = rest.1 p in ground (arith, r, same)
    ],
  )
  | inr (inr more) ↦ (
    λ h. absurd (ground (arith, h, more)),
    λ h. elim h [
      | inl less ↦ absurd (omega (arith, less, more))
      | inr (e, p) ↦ absurd (omega (arith, e, more))
    ],
  )
]

length-slice : (k : NibbleSlice) → length (slice_nibbles k) ≡ slice_size k
length-slice k = length-range k.bytes k.offset (slice_size k)

-- A view of fewer than 2^31 bytes that starts inside them.
abbrev pub Starts : NibbleSlice → Type 0
Starts s = (s.offset ≤ length s.bytes * 2) × (length s.bytes * 2 < word_mod)

no_wrap : (s : NibbleSlice) → Starts s → s.offset + slice_size s < word_mod
no_wrap s h = omega (arith, h.0, h.1)

module _ (s k : NibbleSlice) (first : Starts s) (second : Starts k) where
  -- The nibbles of a slice from an index on, and those of a prefix that are left.
  earlier_loop_lem :
      (n p i : ℕ)
      → slice_size k ≡ i + n
      → slice_size s ≡ i + p
      → (earlier_loop n i s k ≡ true)
        ↔ IsEarlier (range s.bytes (s.offset + i) p) (range k.bytes (k.offset + i) n)
  unfolding earlier_loop IsEarlier range
  earlier_loop_lem zero zero i size_k size_s = (λ h. ground (arith, size_k, h), λ h. absurd h)
  earlier_loop_lem zero (suc p) i size_k size_s = (λ h. ground (arith, size_k, h), λ h. absurd h)
  earlier_loop_lem (suc n) zero i size_k size_s = (λ h. tt, λ h. ground (arith, size_k, size_s))
  earlier_loop_lem (suc n) (suc p) i size_k size_s =
      let next_s : suc (s.offset + i) ≡ s.offset + suc i = omega arith in
      let next_k : suc (k.offset + i) ≡ k.offset + suc i = omega arith in
      let at_s : (s.offset + i) % word_mod ≡ s.offset + i =
        omega (arith, no_wrap s first, size_s) in
      let at_k : (k.offset + i) % word_mod ≡ k.offset + i =
        omega (arith, no_wrap k second, size_k) in
      let rest = earlier_loop_lem n p (suc i) (omega (arith, size_k)) (omega (arith, size_s)) in
      let in_k : ltb i (slice_size k) ≡ true = ground (arith, size_k) in
      let in_s : ltb i (slice_size s) ≡ true = ground (arith, size_s) in
      rw (next_s, next_k, at_s, at_k, in_k, in_s)
        (one_nibble (nibble s.bytes (s.offset + i)) (nibble k.bytes (k.offset + i)) rest)

  shared-common : shared s k ≡ common (slice_nibbles s) (slice_nibbles k)
  unfolding shared
  shared-common =
      let end_s : (s.offset + slice_size s) % word_mod ≡ s.offset + slice_size s =
        omega (arith, no_wrap s first) in
      let end_k : (k.offset + slice_size k) % word_mod ≡ k.offset + slice_size k =
        omega (arith, no_wrap k second) in
      let rounds : s.offset + slice_size s - s.offset ≡ slice_size s = omega arith in
      rw (end_s, end_k, rounds)
        (shared_loop-common (slice_size s) (slice_size k) s.bytes s.offset k.bytes k.offset)

  contains_iff : (contains s k ≡ true) ↔ IsPrefix (slice_nibbles k) (slice_nibbles s)
  contains_iff =
      let size = length-slice k in
      (
        (λ h.
            common-IsPrefix (slice_nibbles s) (slice_nibbles k)
              (sym shared-common ∙ (==_iff (shared s k) (slice_size k)).0 h ∙ sym size)),
        (λ p. (==_iff (shared s k) (slice_size k)).1 (
            shared-common
            ∙ ap (λ l. common l (slice_nibbles k)) (sym p.1)
            ∙ common-append (slice_nibbles k) p.0
            ∙ size)),
      )

  same_iff : (is_same_slice s k ≡ true) ↔ (slice_nibbles s ≡ slice_nibbles k)
  same_iff =
      let size_s = length-slice s in
      let size_k = length-slice k in
      (
        (λ h.
            let both = and-true (slice_size k == slice_size s) (shared s k == slice_size k) h in
            let sizes = (==_iff (slice_size k) (slice_size s)).0 both.0 in
            let alike = (==_iff (shared s k) (slice_size k)).0 both.1 in
            common_le (slice_nibbles s) (slice_nibbles k) (size_s ∙ sym sizes ∙ sym size_k)
              (sym shared-common ∙ alike ∙ sym size_k)),
        (λ e.
            let sizes : slice_size k ≡ slice_size s = sym size_k ∙ ap length (sym e) ∙ size_s in
            let alike : shared s k ≡ slice_size k =
              shared-common
              ∙ ap (λ l. common l (slice_nibbles k)) e
              ∙ common_self (slice_nibbles k)
              ∙ size_k in
            ground (arith, sizes, alike)),
      )

  is_earlier_than_iff : (is_earlier_than s k ≡ true) ↔ IsEarlier (slice_nibbles s) (slice_nibbles k)
  is_earlier_than_iff =
      let from_s : s.offset + 0 ≡ s.offset = omega arith in
      let from_k : k.offset + 0 ≡ k.offset = omega arith in
      let loop = earlier_loop_lem (slice_size k) (slice_size s) 0 (omega arith) (omega arith) in
      rw (from_s, from_k) at loop

-- For slices of fewer than 2^31 bytes that start inside them: `contains` answers true exactly if
-- the nibbles of the second slice are a prefix of those of the first, `operator==` exactly if the
-- nibbles are the same, and `isEarlierThan` exactly if the first nibbles come before the second
-- ones in the order of the lexicon and the second ones are no prefix of them.
pub slices-compared :
    (s k : NibbleSlice)
    → Starts s
    → Starts k
    → ((contains s k ≡ true) ↔ IsPrefix (slice_nibbles k) (slice_nibbles s))
      × ((is_same_slice s k ≡ true) ↔ (slice_nibbles s ≡ slice_nibbles k))
      × ((is_earlier_than s k ≡ true) ↔ IsEarlier (slice_nibbles s) (slice_nibbles k))
slices-compared s k first second =
    (contains_iff s k first second, same_iff s k first second, is_earlier_than_iff s k first second)
