-- ===== src/Rlp/Index/Nth.antt =====
-- `operator[]` of a list finds the item with that index, libdevcore/RLP.cpp.
use utispace_chain.Prelude.{
  ℕ, zero, suc, ◌+◌, ◌<◌, ◌≡◌, refl, sym, ap, ◌∙◌, List, [], ◌∷◌, ◌++◌, some, length, length-append,
  All, map, arith,
}
use mathlib.Core.List.{append_assoc, append-nil}
use utispace_chain.Rlp.Reader.{payload, drop, take, cropped}
use utispace_chain.Rlp.Reader.Bytes.{take-append, drop-append}
use utispace_chain.Rlp.Item.{rlp, not_too_small, size_as_encoded, actual_size}
use utispace_chain.Rlp.Item.Written.{IsItem, rlp-sized}
use utispace_chain.Rlp.Index.{ListCache, no_index, new_cache, first_of, restart, steps, at}
use utispace_chain.Rlp.Index.Cached.{at_all, at_each, at_all-new}

-- The bytes of items that stand one after another.
abbrev pub joined : List (List ℕ) → List ℕ
joined [] = []
joined (e ∷ es) = e ++ joined es

-- The item with that index; past the end there is none.
abbrev pub nth : List (List ℕ) → ℕ → List ℕ
nth [] i = []
nth (e ∷ es) zero = e
nth (e ∷ es) (suc i) = nth es i

first_item :
    (i begin : ℕ) (e rest : List ℕ)
    → size_as_encoded (e ++ rest) ≡ some (length e)
    → cropped 0 (length e) (e ++ rest) ≡ e
    → first_of i begin (e ++ rest)
      ≡ some record { last_index = i; last_end = begin + length e; last_item = e }
unfolding first_of
first_item i begin e rest h same = ground (arith, h, same)

-- The item at the front, and nothing at the end.
found :
    (i begin : ℕ) (es : List (List ℕ))
    → All IsItem es
    → first_of i begin (joined es)
      ≡ some record { last_index = i; last_end = begin + length (nth es 0); last_item = nth es 0 }
unfolding first_of size_as_encoded rlp actual_size cropped drop take
found i begin [] h = ground arith
found i begin (e ∷ es) h =
    let same : cropped 0 (length e) (e ++ joined es) ≡ e =
      ground (arith, length-append e (joined es), take-append e (joined es)) in
    first_item i begin e (joined es) (h.0.1 (joined es)) same

-- From an item of the list on, in the list behind it.
abbrev At : List ℕ → List (List ℕ) → ListCache → Type 0
At pre (es) c = (c.last_end ≡ length pre + length (nth es 0)) × (c.last_item ≡ nth es 0)

steps_item :
    (d p pre : List ℕ) (es : List (List ℕ)) (n : ℕ) (c : ListCache)
    → payload d ≡ some p
    → p ≡ pre ++ joined es
    → All IsItem es
    → At pre es c
    → (last : ListCache) × (steps n d c ≡ some last) × (last.last_item ≡ nth es n)
unfolding steps
steps_item d p pre es zero c h q v (g, r) = (c, refl, r)
steps_item d p pre [] (suc n) c h q v (g, r) = (c, ground (arith, r), r)
steps_item d p pre (e ∷ es) (suc n) c h q v (g, r) =
    let next : ListCache = record {
      last_index = suc c.last_index;
      last_end = c.last_end + length (nth es 0);
      last_item = nth es 0;
    } in
    let behind : p ≡ (pre ++ e) ++ joined es = q ∙ sym (append_assoc pre e (joined es)) in
    let rest : drop c.last_end p ≡ joined es =
      ap (λ k. drop k p) (omega (arith, g, length-append pre e))
      ∙ ap (drop (length (pre ++ e))) behind
      ∙ drop-append (pre ++ e) (joined es) in
    let f : first_of (suc c.last_index) c.last_end (drop c.last_end p) ≡ some next =
      ap (first_of (suc c.last_index) c.last_end) rest
      ∙ found (suc c.last_index) c.last_end es v.1 in
    let (last, s, t) =
      steps_item d p (pre ++ e) es n next h behind v.1
        (omega (arith, g, length-append pre e), refl) in
    (last, ground (arith, h, f, s, r, v.0.0), t)

rlp-nth :
    (es : List (List ℕ)) (i : ℕ) → All IsItem es → rlp not_too_small (nth es i) ≡ some (nth es i)
rlp-nth [] i h = unfold rlp actual_size in ground arith
rlp-nth (e ∷ es) zero h =
    rlp-sized not_too_small e (ap size_as_encoded (sym (append-nil e)) ∙ h.0.1 [])
rlp-nth (e ∷ es) (suc i) h = rlp-nth es i h.1

pub at-nth :
    (d : List ℕ) (es : List (List ℕ)) (i : ℕ)
    → payload d ≡ some (joined es)
    → All IsItem es
    → i < no_index
    → (c : ListCache) × (at d i new_cache ≡ some (nth es i, c))
unfolding at restart
at-nth d es i h v g =
    let begin : ListCache = record {
      last_index = 0;
      last_end = 0 + length (nth es 0);
      last_item = nth es 0;
    } in
    let f = found 0 0 es v in
    let (last, s, t) = steps_item d (joined es) [] es i begin h refl v (omega arith, refl) in
    (last, ground (arith, g, h, f, s, t, rlp-nth es i v))

each-nth :
    (d : List ℕ) (es : List (List ℕ)) (is : List ℕ)
    → payload d ≡ some (joined es)
    → All IsItem es
    → All (λ i. i < no_index) is
    → at_each d is ≡ some (map (nth es) is)
unfolding at_each
each-nth d es [] h v g = refl
each-nth d es (i ∷ is) h v g =
    let (c, e) = at-nth d es i h v g.0 in ground (arith, e, each-nth d es is h v g.1)

-- In the payload of items that stand one after another, `operator[]`, called on one object in any
-- order, gives the item with that index, and an empty item past the end.
pub at_all-nth :
    (d : List ℕ) (es : List (List ℕ)) (is : List ℕ)
    → payload d ≡ some (joined es)
    → All IsItem es
    → All (λ i. i < no_index) is
    → at_all d is new_cache ≡ some (map (nth es) is)
at_all-nth d es is h v g = at_all-new d is g ∙ each-nth d es is h v g
