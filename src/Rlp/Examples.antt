-- ===== src/Rlp/Examples.antt =====
-- Numbers and lists, written and read by libdevcore/RLP.h and RLP.cpp.
use utispace_chain.Prelude.{◌≡◌, refl, ℕ, ◌<◌, List, [], ◌∷◌, Option, none, some, length, arith}
use utispace_chain.Rlp.Integer.{int_bytes, bytes_required, bytes_required_loop, push_int, lt_wf}
use utispace_chain.Rlp.Reader.{
  byte_at, payload, payload_offset, length_size, drop, cropped, take, item_length, require_good,
  long_length,
}
use utispace_chain.Rlp.Stream.{
  new_stream, stream_out, data_bytes, data_header, list_bytes, list_header,
}
use utispace_chain.Rlp.Stream.Tree.{Item, text, list, nil, cons, write, encode, stream_out-write}
use utispace_chain.Rlp.Item.{counted, items, size_as_encoded, rlp, actual_size}
use utispace_chain.Rlp.Item.Sized.{max_payload}
use utispace_chain.Rlp.Item.Typed.{int_bytes-IsItem}
use utispace_chain.Rlp.Index.{new_cache, at, steps, restart, first_of, left_by, left_by_steps}
use utispace_chain.Rlp.Index.Cached.{at_all, at_each, at_all-new}
use utispace_chain.Rlp.Index.Nth.{joined}
use utispace_chain.Rlp.Index.Count.{items-ends, list-read}

-- A byte string, and a list that holds the empty list and a byte.
abbrev nested : Item
nested =
    list (cons (text (7 ∷ 8 ∷ [])) (cons (list (cons (list nil) (cons (text (5 ∷ [])) nil))) nil))

abbrev nested_bytes : List ℕ
nested_bytes = 198 ∷ 130 ∷ 7 ∷ 8 ∷ 194 ∷ 192 ∷ 5 ∷ []

nested_encoded : encode nested ≡ some nested_bytes
unfolding encode data_bytes data_header list_bytes list_header byte_at
nested_encoded = refl

stream_out-write_example :
    elim (write nested new_stream) as (λ _. Option (List ℕ)) [ none ↦ none | some s ↦ stream_out s ]
    ≡ some nested_bytes
stream_out-write_example = stream_out-write nested nested_bytes nested_encoded

abbrev numbers : List (List ℕ)
numbers = int_bytes 5 ∷ int_bytes 1000 ∷ []

abbrev list_of_numbers : List ℕ
list_of_numbers = 196 ∷ 5 ∷ 130 ∷ 3 ∷ 232 ∷ []

numbers_bytes : list_bytes (joined numbers) ≡ some list_of_numbers
unfolding list_bytes list_header int_bytes bytes_required bytes_required_loop push_int lt_wf
numbers_bytes = refl

numbers_size : length (joined numbers) < max_payload
unfolding int_bytes bytes_required bytes_required_loop push_int lt_wf
numbers_size = omega arith

list-read_example :
    (items list_of_numbers ≡ counted (some 2))
    × (at_all list_of_numbers (1 ∷ 0 ∷ 2 ∷ []) new_cache
        ≡ some (int_bytes 1000 ∷ int_bytes 5 ∷ [] ∷ []))
list-read_example =
    list-read numbers list_of_numbers (1 ∷ 0 ∷ 2 ∷ [])
      (int_bytes-IsItem 5 (omega arith), (int_bytes-IsItem 1000 (omega arith), tt)) numbers_size
      numbers_bytes (omega arith, (omega arith, (omega arith, tt)))

at_all-new_example :
    at_all list_of_numbers (1 ∷ 0 ∷ []) new_cache ≡ at_each list_of_numbers (1 ∷ 0 ∷ [])
at_all-new_example = at_all-new list_of_numbers (1 ∷ 0 ∷ []) (omega arith, (omega arith, tt))

-- A list whose second item ends in the middle: after the exception the object throws for its first
-- item as well, which a new object reads.
abbrev broken : List ℕ
broken = 194 ∷ 5 ∷ 184 ∷ []

broken-second : at broken 1 new_cache ≡ none
unfolding at steps restart first_of payload payload_offset length_size byte_at drop cropped take
    size_as_encoded rlp actual_size item_length require_good long_length
broken-second = refl

broken-first : at broken 0 new_cache ≡ some (5 ∷ [], left_by broken 0 new_cache)
unfolding at left_by left_by_steps steps restart first_of payload payload_offset length_size byte_at
    drop cropped take size_as_encoded rlp actual_size item_length require_good long_length
broken-first = refl

broken-again : at broken 0 (left_by broken 1 new_cache) ≡ none
unfolding at left_by left_by_steps steps restart first_of payload payload_offset length_size byte_at
    drop cropped take size_as_encoded rlp actual_size item_length require_good long_length
broken-again = refl

items-ends_example : (o : Option ℕ) × (items (193 ∷ 184 ∷ []) ≡ counted o)
items-ends_example = items-ends (193 ∷ 184 ∷ [])
