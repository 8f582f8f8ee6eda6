-- ===== src/Rlp/Index/Count.antt =====
-- The loop of `RLP::items()` ends, and counts the items of a list, libdevcore/RLP.cpp.
use utispace_chain.Prelude.{
  ℕ, zero, suc, ◌+◌, ◌-◌, ◌≤◌, ◌<◌, ◌≡◌, refl, sym, ap, ◌∙◌, inl, inr, List, [], ◌∷◌, ◌++◌, Option,
  none, some, true, ltb, length, length-append, All, map, Bool-cases, Option-cases, arith,
}
use utispace_chain.Rlp.Integer.{data_imm_len_start}
use utispace_chain.Rlp.Reader.{payload, drop, item_length, payload_offset, byte_at}
use utispace_chain.Rlp.Reader.Bytes.{drop-append}
use utispace_chain.Rlp.Item.{rlp, size_as_encoded, actual_size, counted, items_loop, items, is_list}
use utispace_chain.Rlp.Item.Written.{IsItem, written-IsListOf}
use utispace_chain.Rlp.Item.Sized.{max_payload}
use utispace_chain.Rlp.Stream.{list_bytes}
use utispace_chain.Rlp.Index.{new_cache, no_index}
use utispace_chain.Rlp.Index.Cached.{at_all}
use mathlib.Core.List.{append-nil}
use utispace_chain.Rlp.Index.Nth.{joined, nth, at_all-nth}

-- An item has a byte at least.
actual_size-positive : (b : ℕ) (bs : List ℕ) (n : ℕ) → actual_size (b ∷ bs) ≡ some n → 1 ≤ n
unfolding actual_size byte_at payload_offset
actual_size-positive b bs n h = elim (Bool-cases (ltb b data_imm_len_start)) [
  | inl low ↦ ground (arith, low, h)
  | inr high ↦ elim (Option-cases (item_length (b ∷ bs))) [
    | inl e ↦ absurd (ground (arith, high, e, h))
    | inr (l, e) ↦ ground (arith, high, e, h)
  ]
]

size-positive : (b : ℕ) (bs : List ℕ) (n : ℕ) → size_as_encoded (b ∷ bs) ≡ some n → 1 ≤ n
unfolding size_as_encoded rlp
size-positive b bs n h = elim (Option-cases (actual_size (b ∷ bs))) [
  | inl e ↦ absurd (ground (arith, e, h))
  | inr (s, e) ↦ elim (Bool-cases (ltb (suc (length bs)) s)) [
    | inl few ↦ absurd (ground (arith, e, few, h))
    | inr enough ↦ actual_size-positive b bs n (ground (arith, e, enough, h))
  ]
]

length-drop : (n : ℕ) (l : List ℕ) → length (drop n l) ≡ length l - n
unfolding drop
length-drop zero l = omega arith
length-drop (suc n) [] = omega arith
length-drop (suc n) (b ∷ bs) = omega (arith, length-drop n bs)

loop_ends :
    (fuel i : ℕ) (l : List ℕ) → length l ≤ fuel → (o : Option ℕ) × (items_loop fuel i l ≡ counted o)
unfolding items_loop
loop_ends fuel i [] h = (some i, refl)
loop_ends zero i (b ∷ bs) h = absurd (omega (arith, h))
loop_ends (suc fuel) i (b ∷ bs) h = elim (Option-cases (size_as_encoded (b ∷ bs))) [
  | inl e ↦ (none, ground (arith, e))
  | inr (n, e) ↦
      let (o, r) =
        loop_ends fuel (suc i) (drop n (b ∷ bs))
          (omega (arith, h, length-drop n (b ∷ bs), size-positive b bs n e)) in
      (o, ground (arith, e, r))
]

one_round :
    (fuel i b : ℕ) (bs : List ℕ) (n : ℕ)
    → size_as_encoded (b ∷ bs) ≡ some n
    → items_loop (suc fuel) i (b ∷ bs) ≡ items_loop fuel (suc i) (drop n (b ∷ bs))
unfolding items_loop
one_round fuel i b bs n e = ground (arith, e)

loop_counts :
    (fuel i : ℕ) (es : List (List ℕ))
    → All IsItem es
    → length (joined es) ≤ fuel
    → items_loop fuel i (joined es) ≡ counted (some (i + length es))
unfolding items_loop
loop_counts fuel i [] v h = ap (λ n. counted (some n)) (omega arith)
loop_counts fuel i ([] ∷ es) v h = absurd (omega (arith, v.0.0))
loop_counts zero i ((b ∷ bs) ∷ es) v h = absurd (omega (arith, h))
loop_counts (suc fuel) i ((b ∷ bs) ∷ es) v h =
    let e : List ℕ = b ∷ bs in
    let rest : drop (length e) (e ++ joined es) ≡ joined es = drop-append e (joined es) in
    let ih = loop_counts fuel (suc i) es v.1 (omega (arith, h, length-append bs (joined es))) in
    let same : suc i + length es ≡ i + length (e ∷ es) = omega arith in
    one_round fuel i b (bs ++ joined es) (length e) (v.0.1 (joined es))
    ∙ ap (items_loop fuel (suc i)) rest
    ∙ ih
    ∙ ap (λ n. counted (some n)) same

-- The loop of `items()` ends on every input, by its condition or by an exception.
pub items-ends : (d : List ℕ) → (o : Option ℕ) × (items d ≡ counted o)
unfolding items
items-ends d = elim (Bool-cases (is_list d)) [
  | inr n ↦ (some 0, ground (arith, n))
  | inl y ↦ elim (Option-cases (payload d)) [
    | inl e ↦ (none, ground (arith, y, e))
    | inr (p, e) ↦
        let (o, r) = loop_ends (length p) 0 p (omega arith) in (o, ground (arith, y, e, r))
  ]
]

-- A list of items that were written one after another is counted right.
pub items-count :
    (d : List ℕ) (es : List (List ℕ))
    → is_list d ≡ true
    → payload d ≡ some (joined es)
    → All IsItem es
    → items d ≡ counted (some (length es))
unfolding items
items-count d es l p v = ground (arith, l, p, loop_counts (length (joined es)) 0 es v (omega arith))

-- A list whose items fit, written with its prefix: `items()` counts its items, and `operator[]`,
-- called on one object in any order at indices that a size can have, gives the item with that
-- index, and an empty item past the end.
pub list-read :
    (es : List (List ℕ)) (e : List ℕ) (is : List ℕ)
    → All IsItem es
    → length (joined es) < max_payload
    → list_bytes (joined es) ≡ some e
    → All (λ i. i < no_index) is
    → (items e ≡ counted (some (length es))) × (at_all e is new_cache ≡ some (map (nth es) is))
list-read es e is v small b g =
    let (_, p, l) = written-IsListOf (joined es) e [] small b in
    let whole = append-nil e in
    let lists : is_list e ≡ true = ap is_list (sym whole) ∙ l in
    let q : payload e ≡ some (joined es) = ap payload (sym whole) ∙ p in
    (items-count e es lists q v, at_all-nth e es is q v g)
