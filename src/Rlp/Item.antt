-- ===== src/Rlp/Item.antt =====
-- An item among others: the constructor of `RLP`, `actualSize`, `sizeAsEncoded`, `items` and the
-- conversions to bytes of libdevcore/RLP.h and RLP.cpp. An exception is `none`.
pub mod Sized
pub mod Written
pub mod Typed
use utispace_chain.Prelude.{
  ℕ, zero, suc, ◌+◌, ◌-◌, ◌*◌, List, [], ◌∷◌, Option, none, some, Bool, true, false, not, ◌&&◌,
  ◌||◌, ltb, leb, ◌==◌, if◌then◌else◌, length,
}
use utispace_chain.Rlp.Integer.{data_imm_len_start}
use utispace_chain.Rlp.Reader.{
  list_start, take, drop, byte_at, require_good, from_big_endian, item_length, payload_offset,
  payload,
}

-- `isData()`
abbrev pub is_data : List ℕ → Bool
is_data d = not (length d == 0) && ltb (byte_at d 0) list_start

-- `isList()`
abbrev pub is_list : List ℕ → Bool
is_list d = not (length d == 0) && leb list_start (byte_at d 0)

-- `actualSize()`
unfoldable pub actual_size : List ℕ → Option ℕ
actual_size d =
    if length d == 0
    then some 0
    else if ltb (byte_at d 0) data_imm_len_start
    then some 1
    else elim (item_length d) [ none ↦ none | some l ↦ some (payload_offset d + l) ]

-- The flags of the constructor and of the conversions.
pub record Strictness : Type 0 where
  pub allow_non_canon : Bool
  pub throw_on_fail : Bool
  pub fail_if_too_big : Bool
  pub fail_if_too_small : Bool

abbrev pub very_strict : Strictness
very_strict = record {
  allow_non_canon = false;
  throw_on_fail = true;
  fail_if_too_big = true;
  fail_if_too_small = true;
}

abbrev pub not_too_small : Strictness
not_too_small = record very_strict { fail_if_too_big = false }

-- `RLP(_d, _s)`: the `m_data` that it keeps, which is null if a check fails that does not throw.
unfoldable pub rlp : Strictness → List ℕ → Option (List ℕ)
rlp s d = elim (actual_size d) [
  | none ↦ if s.fail_if_too_big || s.fail_if_too_small then none else some d
  | some size ↦
      let failed : Option (List ℕ) = if s.throw_on_fail then none else some [] in
      if s.fail_if_too_big && ltb size (length d)
      then failed
      else if s.fail_if_too_small && ltb (length d) size
      then failed
      else some d
]

-- `sizeAsEncoded(_data)`
unfoldable pub size_as_encoded : List ℕ → Option ℕ
size_as_encoded d = elim (rlp not_too_small d) [ none ↦ none | some m ↦ actual_size m ]

-- `toBytes(_flags)` and `toBytesConstRef(_flags)`
unfoldable pub to_bytes : Strictness → List ℕ → Option (List ℕ)
to_bytes s d = if is_data d then payload d else if s.throw_on_fail then none else some []

-- `toHash<FixedHash<_N>>(_flags)`: the bytes are right-aligned, and the hash is a number.
unfoldable pub to_hash : ℕ → Strictness → List ℕ → Option ℕ
to_hash n s d = if not (require_good d) then none else elim (payload d) [
  | none ↦ none
  | some p ↦
      if not (is_data d)
        || (ltb n (length p) && s.fail_if_too_big)
        || (ltb (length p) n && s.fail_if_too_small)
      then (if s.throw_on_fail then none else some 0)
      else some (from_big_endian (8 * n) 0 (take n p))
]

-- The loop of `items()` on what is left of the payload, with fuel; `none` in it is an exception.
pub data ItemCount : Type 0 where
  counted : Option ℕ → ItemCount
  out_of_fuel : ItemCount

unfoldable pub items_loop : ℕ → ℕ → List ℕ → ItemCount
items_loop fuel i [] = counted (some i)
items_loop zero i (b ∷ bs) = out_of_fuel
items_loop (suc fuel) i (b ∷ bs) = elim (size_as_encoded (b ∷ bs)) [
  | none ↦ counted none
  | some size ↦ items_loop fuel (suc i) (drop size (b ∷ bs))
]

-- `items()`
unfoldable pub items : List ℕ → ItemCount
items d =
    if not (is_list d)
    then counted (some 0)
    else elim (payload d) [ none ↦ counted none | some p ↦ items_loop (length p) 0 p ]
