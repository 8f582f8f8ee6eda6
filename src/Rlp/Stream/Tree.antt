-- ===== src/Rlp/Stream/Tree.antt =====
-- Nested lists written item by item, libdevcore/RLP.h and RLP.cpp.
use utispace_chain.Prelude.{
  ℕ, suc, ◌-◌, ◌≡◌, refl, ◌∙◌, inl, inr, List, [], ◌∷◌, ◌++◌, Option, none, some, false, length,
  length-append, Option-cases, arith,
}
use mathlib.Core.List.{append_assoc, append-nil}
use utispace_chain.Rlp.Reader.Bytes.{take-append, drop-append}
use utispace_chain.Rlp.Stream.{
  RlpStream, note_appended, data_bytes, append_bytes, append_list_bytes, append_list, list_header,
  list_bytes, stream_out, new_stream,
}

-- A value that is a byte string or a list of values, as the templates of `append` nest.
mutual
  pub data Item : Type 0 where
    text : List ℕ → Item
    list : Items → Item

  pub data Items : Type 0 where
    nil : Items
    cons : Item → Items → Items

unfoldable pub list_size : Items → ℕ
list_size nil = 0
list_size (cons x xs) = suc (list_size xs)

-- `append` of a value: a vector is `appendList` of its list_size and `append` of each element.
unfoldable mutual
  pub write : Item → RlpStream → Option RlpStream
  write (text l) s = append_bytes false l s
  write (list xs) s = elim (append_list (list_size xs) s) [
    | none ↦ none
    | some t ↦ write_items xs t
  ]

  pub write_items : Items → RlpStream → Option RlpStream
  write_items nil s = some s
  write_items (cons x xs) s = elim (write x s) [ none ↦ none | some t ↦ write_items xs t ]

-- The encoding of a value from those of its parts.
unfoldable mutual
  pub encode : Item → Option (List ℕ)
  encode (text l) = data_bytes l
  encode (list xs) = elim (encode_items xs) [ none ↦ none | some es ↦ list_bytes es ]

  pub encode_items : Items → Option (List ℕ)
  encode_items nil = some []
  encode_items (cons x xs) = elim (encode x) [
    | none ↦ none
    | some e ↦ elim (encode_items xs) [ none ↦ none | some es ↦ some (e ++ es) ]
  ]

-- The last item of the innermost list.
abbrev closed : List ℕ → List ℕ → List (ℕ × ℕ) → Option RlpStream
closed o a st = elim (list_header (length a)) [
  | none ↦ none
  | some h ↦ note_appended 1 (o ++ (h ++ a)) st
]

note_appended-last :
    (o a : List ℕ) (st : List (ℕ × ℕ))
    → note_appended 1 (o ++ a) ((1, length o) ∷ st) ≡ closed o a st
unfolding note_appended
note_appended-last o a st =
    let e : length (o ++ a) - length o ≡ length a = omega (arith, length-append o a) in
    ground (arith, e, take-append o a, drop-append o a)

note_appended-more :
    (n : ℕ) (o : List ℕ) (p : ℕ) (st : List (ℕ × ℕ))
    → note_appended 1 o ((suc (suc n), p) ∷ st)
      ≡ some record { out = o; list_stack = (suc n, p) ∷ st }
unfolding note_appended
note_appended-more n o p st = ground arith

-- What the encodings of the parts are, when the whole has one.
cons-parts :
    (x : Item) (xs : Items) (es : List ℕ)
    → encode_items (cons x xs) ≡ some es
    → (e : List ℕ) × (r : List ℕ) × (encode x ≡ some e) × (encode_items xs ≡ some r) × (es ≡ e ++ r)
unfolding encode_items
cons-parts x xs es h = elim (Option-cases (encode x)) [
  | inl n ↦ absurd (ground (arith, n, h))
  | inr (e, p) ↦ elim (Option-cases (encode_items xs)) [
    | inl n ↦ absurd (ground (arith, n, p, h))
    | inr (r, q) ↦ (e, r, p, q, ground (arith, p, q, h))
  ]
]

list-parts :
    (xs : Items) (e : List ℕ)
    → encode (list xs) ≡ some e
    → (es : List ℕ) × (h : List ℕ) × (encode_items xs ≡ some es)
      × (list_header (length es) ≡ some h)
      × (e ≡ h ++ es)
unfolding encode list_bytes
list-parts xs e p = elim (Option-cases (encode_items xs)) [
  | inl n ↦ absurd (ground (arith, n, p))
  | inr (es, q) ↦ elim (Option-cases (list_header (length es))) [
    | inl n ↦ absurd (ground (arith, n, p, q))
    | inr (h, r) ↦ (es, h, q, r, ground (arith, p, q, r))
  ]
]

-- Writing an item where one is wanted, and where others are.
abbrev Writes : Item → Type 0
Writes x =
    (s : RlpStream) (e : List ℕ)
    → encode x ≡ some e
    → write x s ≡ note_appended 1 (s.out ++ e) s.list_stack

abbrev Completes : Item → Items → Type 0
Completes x xs =
    (o a : List ℕ) (st : List (ℕ × ℕ)) (es : List ℕ)
    → encode_items (cons x xs) ≡ some es
    → write_items (cons x xs)
        record { out = o ++ a; list_stack = (suc (list_size xs), length o) ∷ st }
      ≡ closed o (a ++ es) st

text_item : (l : List ℕ) → Writes (text l)
unfolding write append_bytes encode
text_item l s e h = ground (arith, h)

write_items-one : (x : Item) (s : RlpStream) → write_items (cons x nil) s ≡ write x s
unfolding write_items
write_items-one x s = elim (Option-cases (write x s)) [
  | inl n ↦ ground (arith, n)
  | inr (t, p) ↦ ground (arith, p)
]

write_items-cons :
    (x : Item) (xs : Items) (s t : RlpStream)
    → write x s ≡ some t
    → write_items (cons x xs) s ≡ write_items xs t
unfolding write_items
write_items-cons x xs s t h = ground (arith, h)

last_item : (x : Item) → Writes x → Completes x nil
unfolding encode_items list_size
last_item x ih o a st es h =
    let (e, r, p, q, w) = cons-parts x nil es h in
    let same : es ≡ e = ground (arith, q, w, append-nil e) in
    let s : RlpStream = record { out = o ++ a; list_stack = (1, length o) ∷ st } in
    write_items-one x s
    ∙ ih s e p
    ∙ rw (append_assoc o a e, same) (note_appended-last o (a ++ e) st)

more_items : (x y : Item) (ys : Items) → Writes x → Completes y ys → Completes x (cons y ys)
unfolding list_size
more_items x y ys ih ihs o a st es h =
    let (e, r, p, q, w) = cons-parts x (cons y ys) es h in
    let s : RlpStream = record {
      out = o ++ a;
      list_stack = (suc (suc (list_size ys)), length o) ∷ st;
    } in
    let t : RlpStream = record {
      out = o ++ (a ++ e);
      list_stack = (suc (list_size ys), length o) ∷ st;
    } in
    let first : write x s ≡ some t =
      ih s e p
      ∙ rw (append_assoc o a e) (note_appended-more (list_size ys) (o ++ (a ++ e)) (length o) st) in
    write_items-cons x (cons y ys) s t first
    ∙ ihs o (a ++ e) st r q
    ∙ rw (w, append_assoc a e r) refl

written-IsListOf :
    (es h o : List ℕ) (st : List (ℕ × ℕ))
    → list_header (length es) ≡ some h
    → closed o es st ≡ note_appended 1 (o ++ (h ++ es)) st
written-IsListOf es h o st e = ground (arith, e)

full_list : (x : Item) (xs : Items) → Completes x xs → Writes (list (cons x xs))
unfolding write append_list list_size
full_list x xs ih s e h =
    let (es, hd, p, q, r) = list-parts (cons x xs) e h in
    let start : write (list (cons x xs)) s
        ≡ write_items (cons x xs) record {
          out = s.out ++ [];
          list_stack = (suc (list_size xs), length s.out) ∷ s.list_stack;
        } =
      ground (arith, append-nil s.out) in
    start ∙ ih s.out [] s.list_stack es p ∙ written-IsListOf es hd s.out s.list_stack q ∙ rw r refl

empty_list : Writes (list nil)
unfolding write append_list list_size append_list_bytes encode_items
empty_list s e h =
    let (es, hd, p, q, r) = list-parts nil e h in ground (arith, p, q, r, append_assoc s.out hd [])

abbrev AllComplete : Items → Type 0
AllComplete nil = Unit
AllComplete (cons x xs) = Completes x xs

any_items : (x : Item) (xs : Items) → Writes x → AllComplete xs → Completes x xs
any_items x nil ih _ = last_item x ih
any_items x (cons y ys) ih ihs = more_items x y ys ih ihs

any_list : (xs : Items) → AllComplete xs → Writes (list xs)
any_list nil _ = empty_list
any_list (cons x xs) ih = full_list x xs ih

mutual
  write-Writes : (x : Item) → Writes x
  write-Writes (text l) = text_item l
  write-Writes (list xs) = any_list xs (write_items-AllComplete xs)

  write_items-AllComplete : (xs : Items) → AllComplete xs
  write_items-AllComplete nil = tt
  write_items-AllComplete (cons x xs) = any_items x xs (write-Writes x) (write_items-AllComplete xs)

-- Writing a value of nested lists item by item, with the sizes of the lists announced first, gives
-- its encoding, built from the encodings of the parts, whenever that has one.
pub stream_out-write :
    (x : Item) (e : List ℕ)
    → encode x ≡ some e
    → elim (write x new_stream) as (λ _. Option (List ℕ)) [ none ↦ none | some s ↦ stream_out s ]
      ≡ some e
unfolding note_appended stream_out
stream_out-write x e h = rw (write-Writes x new_stream e h) refl
