-- ===== src/StateDb/Overlay/Committed.antt =====
-- Writing the nodes to disk changes no value that is read, libdevcore/OverlayDB.cpp.
use utispace_chain.Prelude.{
  ℕ, ◌≤◌, ◌≡◌, ◌⊎◌, refl, sym, ap, ◌∙◌, inl, inr, List, [], ◌∷◌, ◌++◌, Option, none, some, Bool,
  true, false, not, ◌==◌, if◌then◌else◌, length, keep, All, Bool-cases, Option-cases, arith,
}
use mathlib.Core.Path.{subst}
use utispace_chain.Prelude.Map.{Map, find}
use utispace_chain.StateDb.Memory.{MemoryNode, Aux, lookup_node, exists_node, clear_nodes}
use utispace_chain.StateDb.Overlay.{
  DiskKey, node_key, same_key, put_all, LevelDb, OverlayDb, node_puts, aux_puts, commit, lookup,
  exists,
}

-- A hash stands once in the map.
abbrev pub UniqueKeys : Map MemoryNode → Type 0
UniqueKeys [] = Unit
UniqueKeys ((h, n) ∷ m) = (find h m ≡ none) × UniqueKeys m

-- A node that is referred to has a value; the code takes an empty one for a missing one.
abbrev pub HasValue : ℕ × MemoryNode → Type 0
HasValue e = (e.1.refs ≡ 0) ⊎ (1 ≤ length e.1.value)

put_all-append :
    (ps qs : List (DiskKey × List ℕ)) (k : DiskKey) (old : List ℕ)
    → put_all (ps ++ qs) k old ≡ put_all qs k (put_all ps k old)
unfolding put_all
put_all-append [] qs k old = refl
put_all-append (p ∷ ps) qs k old = put_all-append ps qs k (if same_key (p.0) k then p.1 else old)

-- Aux values have keys of their own.
put_all-aux : (m : Map Aux) (h : ℕ) (old : List ℕ) → put_all (aux_puts m) (node_key h) old ≡ old
unfolding put_all aux_puts keep
put_all-aux [] h old = refl
put_all-aux ((j, a) ∷ m) h old = elim (Bool-cases a.is_live) [
  | inl y ↦ rw y (put_all-aux m h old)
  | inr n ↦ rw n (put_all-aux m h old)
]

-- What a hash reads as after the puts.
abbrev after_puts : Option MemoryNode → List ℕ → List ℕ
after_puts none old = old
after_puts (some n) old = if n.refs == 0 then old else n.value

unchanged : (b : Bool) (old : List ℕ) → (if b then old else old) ≡ old
unchanged true old = refl
unchanged false old = refl

first_put :
    (j : ℕ) (n : MemoryNode) (m : Map MemoryNode) (h : ℕ) (old : List ℕ)
    → put_all (node_puts ((j, n) ∷ m)) (node_key h) old
      ≡ put_all
          (node_puts m)
          (node_key h)
          (if n.refs == 0 then old else (if j == h then n.value else old))
unfolding put_all node_puts keep
first_put j n m h old = elim (Bool-cases (n.refs == 0)) [
  | inl y ↦ rw y refl
  | inr no_refs ↦ rw no_refs refl
]

put_all-node :
    (m : Map MemoryNode) (h : ℕ) (old : List ℕ)
    → UniqueKeys m
    → put_all (node_puts m) (node_key h) old ≡ after_puts (find h m) old
unfolding find
put_all-node [] h old u = unfold put_all node_puts keep in refl
put_all-node ((j, n) ∷ m) h old u =
    first_put j n m h old
    ∙ put_all-node m h (if n.refs == 0 then old else (if j == h then n.value else old)) u.1
    ∙ elim (Bool-cases (j == h)) [
      | inl own ↦
          let gone : find h m ≡ none = ap (λ (i : ℕ). find i m) (ground (arith, own)) ∙ u.0 in
          ground (arith, own, gone)
      | inr other ↦ rw (other, unchanged (n.refs == 0) old) refl
    ]

find-All :
    (P : ℕ × MemoryNode → Type 0) (h : ℕ) (n : MemoryNode) (m : Map MemoryNode)
    → All P m
    → find h m ≡ some n
    → P (h, n)
unfolding find
find-All P h n [] v f = absurd (cc)
find-All P h n ((j, o) ∷ m) v f = elim (Bool-cases (j == h)) [
  | inl own ↦
      let key : j ≡ h = ground (arith, own) in
      let same : o ≡ n = ground (arith, own, f) in
      subst (λ i. P (i, n)) key (subst (λ x. P (j, x)) same v.0)
  | inr other ↦ find-All P h n m v.1 (ground (arith, other, f))
]

module _ {D : Type 0} (level : LevelDb D) (s : OverlayDb D) (unique : UniqueKeys s.memory.main)
    (values : All HasValue s.memory.main) (enforced : s.memory.enforce_refs ≡ true) where
  after_commit :
      (h : ℕ) (d : D)
      → s.disk ≡ some d
      → lookup level h (commit level s)
        ≡ after_puts (find h s.memory.main) (level.get d (node_key h))
  unfolding lookup commit lookup_node find
  after_commit h d e =
      let w = level.get-write (node_puts s.memory.main ++ aux_puts s.memory.aux) d (node_key h) in
      let a =
        put_all-append (node_puts s.memory.main) (aux_puts s.memory.aux) (node_key h)
          (level.get d (node_key h)) in
      let b =
        put_all-aux s.memory.aux h
          (put_all (node_puts s.memory.main) (node_key h) (level.get d (node_key h))) in
      let c = put_all-node s.memory.main h (level.get d (node_key h)) unique in
      ground (arith, e, w, a, b, c)

  before_commit :
      (h : ℕ) (d : D)
      → s.disk ≡ some d
      → lookup level h s ≡ after_puts (find h s.memory.main) (level.get d (node_key h))
  unfolding lookup lookup_node
  before_commit h d e = elim (Option-cases (find h s.memory.main)) [
    | inl n ↦ ground (arith, e, n)
    | inr (n, f) ↦ elim (find-All HasValue h n s.memory.main values f) [
      | inl none_left ↦ ground (arith, e, f, enforced, none_left)
      | inr some_value ↦ ground (arith, e, f, enforced, some_value)
    ]
  ]

  lookup-commit : (h : ℕ) → lookup level h (commit level s) ≡ lookup level h s
  unfolding commit
  lookup-commit h = elim (Option-cases s.disk) [
    | inl n ↦ let no_disk : commit level s ≡ s = ground (arith, n) in ap (lookup level h) no_disk
    | inr (d, e) ↦ after_commit h d e ∙ sym (before_commit h d e)
  ]

-- A hash exists if it has a value.
exists-lookup :
    {D : Type 0} (level : LevelDb D) (s : OverlayDb D) (h : ℕ)
    → All HasValue s.memory.main
    → s.memory.enforce_refs ≡ true
    → exists level h s ≡ not (length (lookup level h s) == 0)
unfolding exists exists_node lookup lookup_node
exists-lookup level s h values enforced = elim (Option-cases (find h s.memory.main)) [
  | inl n ↦ ground (arith, n)
  | inr (n, f) ↦ elim (find-All HasValue h n s.memory.main values f) [
    | inl none_left ↦ ground (arith, f, enforced, none_left)
    | inr some_value ↦ ground (arith, f, enforced, some_value)
  ]
]

-- With the reference counts enforced, every hash once in the map, and values that are not empty
-- for the nodes that are referred to, `commit` changes neither the value of a hash nor whether it
-- exists.
pub commit-reads :
    {D : Type 0} (level : LevelDb D) (s : OverlayDb D) (h : ℕ)
    → UniqueKeys s.memory.main
    → All HasValue s.memory.main
    → s.memory.enforce_refs ≡ true
    → (lookup level h (commit level s) ≡ lookup level h s)
      × (exists level h (commit level s) ≡ exists level h s)
unfolding commit
commit-reads {D} level s h unique values enforced =
    let same = lookup-commit level s unique values enforced h in
    let after =
      elim (Option-cases s.disk)
        as (λ _.
          exists level h (commit level s) ≡ not (length (lookup level h (commit level s)) == 0)) [
            | inl n ↦
                let no_disk : commit level s ≡ s = ground (arith, n) in
                rw no_disk (exists-lookup level s h values enforced)
            | inr (d, e) ↦
                let c : OverlayDb D = record {
                  memory = clear_nodes s.memory;
                  disk = some (level.write (node_puts s.memory.main ++ aux_puts s.memory.aux) d);
                } in
                let committed : commit level s ≡ c = ground (arith, e) in
                rw committed (exists-lookup level c h tt enforced)
          ] in
    (
      same,
      after
          ∙ ap (λ (v : List ℕ). not (length v == 0)) same
          ∙ sym (exists-lookup level s h values enforced),
    )
