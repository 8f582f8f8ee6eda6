-- ===== src/StateDb/Nibbles.antt =====
-- Keys of the trie as half bytes: `nibble`, `hexPrefixEncode`, `keyOf` and `isLeaf` of
-- libdevcore/TrieCommon.h and TrieCommon.cpp. A `|` into a half byte that is zero is `+`.
pub mod Prefix
pub mod Encoded
pub mod Slices
use utispace_chain.Prelude.{
  ℕ, zero, suc, ◌+◌, ◌-◌, ◌*◌, ◌/◌, ◌%◌, ◌^◌, List, [], ◌∷◌, ◌++◌, Option, none, some, Bool, true,
  false, ◌==◌, if◌then◌else◌, length,
}
use utispace_chain.Rlp.Reader.{byte_at, take, drop}

-- `nibble(_data, _i)`
unfoldable pub nibble : List ℕ → ℕ → ℕ
nibble d i = if i % 2 == 1 then byte_at d (i / 2) % 16 else byte_at d (i / 2) / 16

-- The `n` nibbles from the index `i` on, as the loops visit them.
unfoldable pub range : List ℕ → ℕ → ℕ → List ℕ
range d i zero = []
range d i (suc n) = nibble d i ∷ range d (suc i) n

-- The loop over nibbles: `|` into the last byte and a new byte take turns.
unfoldable pub pack : Bool → ℕ → List ℕ → List ℕ
pack odd last [] = last ∷ []
pack true last (n ∷ ns) = pack false (last + n) ns
pack false last (n ∷ ns) = last ∷ pack true (n * 16) ns

-- The first byte of the encoding.
abbrev pub flags : Bool → Bool → ℕ
flags leaf odd = ((if leaf then 2 else 0) + (if odd then 1 else 0)) * 16

abbrev pub is_odd : ℕ → Bool
is_odd n = n % 2 == 1

-- The flags, and the nibbles behind them.
abbrev pub packed : Bool → Bool → List ℕ → List ℕ
packed odd leaf ns = pack odd (flags leaf odd) ns

abbrev pub word_mod : ℕ
word_mod = 2 ^ 32

-- `hexPrefixEncode(_data, _leaf, _beginNibble, _endNibble, _offset)`; the end -1 is `none`. The
-- last bit of the unsigned `end - begin` is that of the sum.
unfoldable pub hex_prefix_encode : List ℕ → Bool → ℕ → Option ℕ → ℕ → List ℕ
hex_prefix_encode d leaf begin_nibble end_nibble offset =
    let begin = (begin_nibble + offset) % word_mod in
    let last = elim end_nibble as (λ _. ℕ) [ none ↦ length d * 2 | some e ↦ e + offset ] in
    let end = last % word_mod in packed (is_odd (end + begin)) leaf (range d begin (end - begin))

-- `hexPrefixEncode(_d1, _o1, _d2, _o2, _leaf)`
unfoldable pub hex_prefix_encode_two : List ℕ → ℕ → List ℕ → ℕ → Bool → List ℕ
hex_prefix_encode_two d1 o1 d2 o2 leaf =
    let end1 = length d1 * 2 % word_mod in
    let end2 = length d2 * 2 % word_mod in
    packed (is_odd (end1 + o1 + end2 + o2)) leaf
      (range d1 o1 (end1 - o1) ++ range d2 o2 (end2 - o2))

-- The loop of `hexPrefixEncode(_hexVector, _leaf, _begin, _end)` over pairs of nibbles.
unfoldable pub pairs : List ℕ → List ℕ
pairs [] = []
pairs (a ∷ []) = []
pairs (a ∷ b ∷ ns) = (a * 16 + b) ∷ pairs ns

-- `hexPrefixEncode(_hexVector, _leaf)`, of which the end is an `unsigned`.
unfoldable pub hex_prefix_encode_vector : List ℕ → Bool → List ℕ
hex_prefix_encode_vector v leaf =
    let read = take (length v % word_mod) v in
    let odd = is_odd (length read) in
    if odd
    then (flags leaf odd + byte_at read 0) ∷ pairs (drop 1 read)
    else flags leaf odd ∷ pairs read

-- `NibbleSlice`
pub record NibbleSlice : Type 0 where
  pub bytes : List ℕ
  pub offset : ℕ

-- `size()`, an `unsigned`, and the nibbles that `operator[]` gives.
abbrev pub slice_size : NibbleSlice → ℕ
slice_size s = (length s.bytes * 2 + word_mod - s.offset) % word_mod

abbrev pub slice_nibbles : NibbleSlice → List ℕ
slice_nibbles s = range s.bytes s.offset (slice_size s)

-- `keyOf(_hpe)`
unfoldable pub key_of_hpe : List ℕ → NibbleSlice
key_of_hpe hpe =
    if length hpe == 0
    then record { bytes = hpe; offset = 0 }
    else if (byte_at hpe 0 / 16) % 2 == 1
    then record { bytes = hpe; offset = 1 }
    else record { bytes = hpe; offset = 2 }

-- `isLeaf` of the payload of the first item.
unfoldable pub is_leaf : List ℕ → Bool
is_leaf pl = (byte_at pl 0 / 32) % 2 == 1
