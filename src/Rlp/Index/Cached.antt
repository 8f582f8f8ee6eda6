-- ===== src/Rlp/Index/Cached.antt =====
-- The cache of `operator[]` changes no result, libdevcore/RLP.cpp.
use utispace_chain.Prelude.{
  ℕ, zero, suc, ◌+◌, ◌-◌, ◌≤◌, ◌<◌, ◌≡◌, ◌⊎◌, refl, sym, ap, ◌∙◌, inl, inr, List, [], ◌∷◌, Option,
  none, some, true, false, if◌then◌else◌, ltb, ◌==◌, length, Bool-cases, Option-cases, All, arith,
}
use utispace_chain.Rlp.Reader.{payload, drop}
use utispace_chain.Rlp.Item.{rlp, not_too_small, size_as_encoded}
use utispace_chain.Rlp.Index.{
  ListCache, no_index, new_cache, first_of, restart, steps, at, left_by_steps, left_by,
}

-- A step of the loop: the item is the last one, or the next one is found.
abbrev Next : List ℕ → ListCache → ListCache → Type 0
Next d c next =
    (p : List ℕ) × (payload d ≡ some p)
    × (first_of (suc c.last_index) c.last_end (drop c.last_end p) ≡ some next)

steps-cases :
    (n : ℕ) (d : List ℕ) (c last : ListCache)
    → steps (suc n) d c ≡ some last
    → ((length c.last_item == 0) ≡ true) × (last ≡ c)
      ⊎ ((length c.last_item == 0) ≡ false)
        × (next : ListCache) × (Next d c next)
        × (steps n d next ≡ some last)
unfolding steps
steps-cases n d c last h = elim (Bool-cases (length c.last_item == 0)) [
  | inl z ↦ inl (z, ground (arith, z, h))
  | inr nz ↦ elim (Option-cases (payload d)) [
    | inl e ↦ absurd (ground (arith, nz, e, h))
    | inr (p, e) ↦
        elim (Option-cases (first_of (suc c.last_index) c.last_end (drop c.last_end p))) [
          | inl f ↦ absurd (ground (arith, nz, e, f, h))
          | inr (next, f) ↦ inr (nz, next, (p, e, f), ground (arith, nz, e, f, h))
        ]
  ]
]

steps-Next :
    (n : ℕ) (d : List ℕ) (c next : ListCache)
    → (length c.last_item == 0) ≡ false
    → Next d c next
    → steps (suc n) d c ≡ steps n d next
unfolding steps
steps-Next n d c next nz (p, e, f) = ground (arith, nz, e, f)

first_of-index :
    (i begin : ℕ) (l : List ℕ) (next : ListCache)
    → first_of i begin l ≡ some next
    → next.last_index ≡ i
unfolding first_of
first_of-index i begin l next f = elim (Option-cases (size_as_encoded l)) [
  | inl n ↦ absurd (ground (arith, n, f))
  | inr (s, e) ↦ ground (arith, e, f)
]

steps-stopped :
    (n : ℕ) (d : List ℕ) (c : ListCache) → (length c.last_item == 0) ≡ true → steps n d c ≡ some c
unfolding steps
steps-stopped zero d c z = refl
steps-stopped (suc n) d c z = ground (arith, z)

steps_add :
    (a b : ℕ) (d : List ℕ) (c m : ListCache)
    → steps a d c ≡ some m
    → steps (a + b) d c ≡ steps b d m
steps_add zero b d c m h =
    let same : c ≡ m = unfold steps in ground (arith, h) in
    let none_more : 0 + b ≡ b = omega arith in
    ap (λ n. steps n d c) none_more ∙ ap (λ t. steps b d t) same
steps_add (suc a) b d c m h = elim (steps-cases a d c m h) [
  | inl (z, e) ↦ rw e (steps-stopped (suc a + b) d c z ∙ sym (steps-stopped b d c z))
  | inr (nz, next, t, r) ↦
      let rounds : suc a + b ≡ suc (a + b) = omega arith in
      ap (λ n. steps n d c) rounds ∙ steps-Next (a + b) d c next nz t ∙ steps_add a b d next m r
]

-- As many rounds as the index says lead to where the loop has stopped.
steps-settled :
    (n : ℕ) (d : List ℕ) (c last : ListCache)
    → steps n d c ≡ some last
    → (k : ℕ) × (last.last_index ≡ c.last_index + k) × (steps k d c ≡ some last)
steps-settled zero d c last h = (0, unfold steps in ground (arith, h), h)
steps-settled (suc n) d c last h = elim (steps-cases n d c last h) [
  | inl (z, e) ↦ (0, rw e (omega arith), rw e (unfold steps in refl))
  | inr (nz, next, t, r) ↦
      let (k, i, s) = steps-settled n d next last r in
      let (p, e, f) = t in
      (
        suc k,
        omega (arith, i, first_of-index (suc c.last_index) c.last_end (drop c.last_end p) next f),
        steps-Next k d c next nz t ∙ s,
      )
]

-- A cache that `operator[]` of the same object has left behind, or a new one.
abbrev pub Reached : List ℕ → ListCache → Type 0
Reached d c =
    (first : ListCache) × (restart d ≡ some first)
    × (first.last_index ≡ 0)
    × (steps c.last_index d first ≡ some c)

abbrev pub IsCache : List ℕ → ListCache → Type 0
IsCache d c = (c ≡ new_cache) ⊎ Reached d c

at-restart :
    (d : List ℕ) (i : ℕ) (c : ListCache)
    → i < c.last_index
    → i < no_index
    → at d i c ≡ at d i new_cache
unfolding at
at-restart d i c h g = ground (arith, h, g)

at-continue :
    (d : List ℕ) (i : ℕ) (c : ListCache)
    → c.last_index ≤ i
    → i < no_index
    → Reached d c
    → at d i c ≡ at d i new_cache
unfolding at
at-continue d i c h g (first, r, z, s) =
    let joined : steps i d first ≡ steps (i - c.last_index) d c =
      ap (λ n. steps n d first) (omega (arith, h))
      ∙ steps_add c.last_index (i - c.last_index) d first c s in
    ground (arith, h, g, r, z, joined)

-- At every index that a size can have, `operator[]` gives with every cache that it has left behind
-- what it gives with a new one, the exceptions and the cache afterwards included.
pub at-cached :
    (d : List ℕ) (i : ℕ) (c : ListCache) → i < no_index → IsCache d c → at d i c ≡ at d i new_cache
at-cached d i c g (inl e) = ap (at d i) e
at-cached d i c g (inr r) = elim (Bool-cases (ltb i c.last_index)) [
  | inl low ↦ at-restart d i c (ground (arith, low)) g
  | inr high ↦ at-continue d i c (ground (arith, high)) g r
]

at-parts :
    (d : List ℕ) (i : ℕ) (m : List ℕ) (c : ListCache)
    → i < no_index
    → at d i new_cache ≡ some (m, c)
    → (first : ListCache) × (restart d ≡ some first)
      × (steps (i - first.last_index) d first ≡ some c)
unfolding at
at-parts d i m c h e = elim (Option-cases (restart d)) [
  | inl n ↦ absurd (ground (arith, h, n, e))
  | inr (first, r) ↦ elim (Option-cases (steps (i - first.last_index) d first)) [
    | inl n ↦ absurd (ground (arith, h, r, n, e))
    | inr (stop, s) ↦ elim (Option-cases (rlp not_too_small stop.last_item)) [
      | inl n ↦ absurd (ground (arith, h, r, s, n, e))
      | inr (l, t) ↦ (first, r, s ∙ ground (arith, h, r, s, t, e))
    ]
  ]
]

restart-index : (d : List ℕ) (first : ListCache) → restart d ≡ some first → first.last_index ≡ 0
unfolding restart
restart-index d first r = elim (Option-cases (payload d)) [
  | inl n ↦ absurd (ground (arith, n, r))
  | inr (p, e) ↦ first_of-index 0 0 p first (ground (arith, e, r))
]

-- What `operator[]` leaves behind is such a cache.
pub at-IsCache :
    (d : List ℕ) (i : ℕ) (c next : ListCache) (m : List ℕ)
    → i < no_index
    → IsCache d c
    → at d i c ≡ some (m, next)
    → IsCache d next
at-IsCache d i c next m h v e =
    let (first, r, s) = at-parts d i m next h (sym (at-cached d i c h v) ∙ e) in
    let z = restart-index d first r in
    let (k, n, t) = steps-settled (i - first.last_index) d first next s in
    let whole : next.last_index ≡ k = omega (arith, n, z) in
    inr (first, r, z, ap (λ j. steps j d first) whole ∙ t)

left_by_steps-steps :
    (n : ℕ) (d : List ℕ) (c last : ListCache) → steps n d c ≡ some last → left_by_steps n d c ≡ last
unfolding left_by_steps
left_by_steps-steps zero d c last h = unfold steps in ground (arith, h)
left_by_steps-steps (suc n) d c last h = elim (steps-cases n d c last h) [
  | inl (z, e) ↦ ground (arith, z, e)
  | inr (nz, next, (p, e, f), r) ↦ ground (arith, nz, e, f, left_by_steps-steps n d next last r)
]

-- A call that does not throw leaves the cache that it hands on.
left_by-at :
    (d : List ℕ) (i : ℕ) (c next : ListCache) (m : List ℕ)
    → at d i c ≡ some (m, next)
    → left_by d i c ≡ next
unfolding at left_by
left_by-at d i c next m h = elim (Option-cases (if ltb i c.last_index then restart d else some c)) [
  | inl n ↦ absurd (ground (arith, h, n))
  | inr (begin, e) ↦ elim (Option-cases (steps (i - begin.last_index) d begin)) [
    | inl n ↦ absurd (ground (arith, h, e, n))
    | inr (stop, s) ↦
        let left = left_by_steps-steps (i - begin.last_index) d begin stop s in
        elim (Option-cases (rlp not_too_small stop.last_item)) [
          | inl n ↦ absurd (ground (arith, h, e, s, n))
          | inr (l, t) ↦ ground (arith, h, e, s, t, left)
        ]
  ]
]

-- Reading items one after another from one object, up to the first exception.
unfoldable pub at_all : List ℕ → List ℕ → ListCache → Option (List (List ℕ))
at_all d [] c = some []
at_all d (i ∷ is) c = elim (at d i c) [
  | none ↦ none
  | some r ↦ elim (at_all d is (left_by d i c)) [ none ↦ none | some ms ↦ some (r.0 ∷ ms) ]
]

-- Each from a new object.
unfoldable pub at_each : List ℕ → List ℕ → Option (List (List ℕ))
at_each d [] = some []
at_each d (i ∷ is) = elim (at d i new_cache) [
  | none ↦ none
  | some r ↦ elim (at_each d is) [ none ↦ none | some ms ↦ some (r.0 ∷ ms) ]
]

at_all-IsCache :
    (d is : List ℕ) (c : ListCache)
    → All (λ i. i < no_index) is
    → IsCache d c
    → at_all d is c ≡ at_each d is
unfolding at_all at_each
at_all-IsCache d [] c h v = refl
at_all-IsCache d (i ∷ is) c (g, h) v = elim (Option-cases (at d i new_cache)) [
  | inl n ↦ ground (arith, at-cached d i c g v, n)
  | inr ((m, next), e) ↦
      let ih = at_all-IsCache d is next h (at-IsCache d i c next m g v (at-cached d i c g v ∙ e)) in
      let left = left_by-at d i c next m (at-cached d i c g v ∙ e) in
      let ih' = ap (at_all d is) left ∙ ih in ground (arith, at-cached d i c g v, e, ih')
]

-- Reading items of one object in any order, at indices that a size can have, up to the first
-- exception, throws exactly if one of the items throws when it is read from a new object, and gives
-- the same items otherwise.
pub at_all-new : (d is : List ℕ) → All (λ i. i < no_index) is → at_all d is new_cache ≡ at_each d is
at_all-new d is h = at_all-IsCache d is new_cache h (inl refl)
