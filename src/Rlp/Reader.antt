-- ===== src/Rlp/Reader.antt =====
-- Reading an item of RLP: `requireGood`, `isInt`, `length`, `payload` and `toInt` of
-- libdevcore/RLP.h and RLP.cpp. An exception is `none`, or `false` in a check.
pub mod Bytes
pub mod RoundTrip
use utispace_chain.Prelude.{
  ℕ, zero, suc, ◌+◌, ◌-◌, ◌*◌, ◌%◌, ◌^◌, List, [], ◌∷◌, Option, none, some, Bool, true, false, not,
  ◌&&◌, ◌||◌, ltb, leb, ◌==◌, if◌then◌else◌, length,
}
use utispace_chain.Rlp.Integer.{data_imm_len_start, data_ind_len_zero}

abbrev pub list_start : ℕ
list_start = 0xc0

abbrev pub max_length_bytes : ℕ
max_length_bytes = 8

abbrev pub list_ind_len_zero : ℕ
list_ind_len_zero = list_start + (256 - list_start - max_length_bytes) - 1

-- `m_data[i]`, which the code reads in range only.
unfoldable pub byte_at : List ℕ → ℕ → ℕ
byte_at [] i = 0
byte_at (b ∷ bs) zero = b
byte_at (b ∷ bs) (suc i) = byte_at bs i

unfoldable pub take : ℕ → List ℕ → List ℕ
take zero l = []
take (suc n) [] = []
take (suc n) (b ∷ bs) = b ∷ take n bs

unfoldable pub drop : ℕ → List ℕ → List ℕ
drop zero l = l
drop (suc n) [] = []
drop (suc n) (b ∷ bs) = drop n bs

-- `cropped(_begin, _count)`, which is empty out of range.
unfoldable pub cropped : ℕ → ℕ → List ℕ → List ℕ
cropped begin count d = if leb (begin + count) (length d) then take count (drop begin d) else []

-- The loop of `fromBigEndian` in an integer of `w` bits. A byte fits into the bits that the shift
-- clears.
unfoldable pub from_big_endian : ℕ → ℕ → List ℕ → ℕ
from_big_endian w ret [] = ret
from_big_endian w ret (b ∷ bs) = from_big_endian w ((ret * 256 + b) % 2 ^ w) bs

-- `requireGood`: a byte below 0x80 stands for itself.
unfoldable pub require_good : List ℕ → Bool
require_good d =
    if length d == 0
    then false
    else if not (byte_at d 0 == data_imm_len_start + 1)
    then true
    else if ltb (length d) 2
    then false
    else not (ltb (byte_at d 1) data_imm_len_start)

-- `isInt`
unfoldable pub is_int : List ℕ → Option Bool
is_int d =
    let n = byte_at d 0 in
    if length d == 0
    then some false
    else if not (require_good d)
    then none
    else if ltb n data_imm_len_start
    then some (not (n == 0))
    else if n == data_imm_len_start
    then some true
    else if leb n data_ind_len_zero
    then (if leb (length d) 1 then none else some (not (byte_at d 1 == 0)))
    else if ltb n list_start
    then (if leb (length d) (1 + n - data_ind_len_zero)
        then none
        else some (not (byte_at d (1 + n - data_ind_len_zero) == 0)))
    else some false

-- The length that stands in `size` bytes, if it has no leading zero, needs so many bytes, and
-- leaves room to add an offset.
unfoldable pub long_length : ℕ → ℕ → List ℕ → Option ℕ
long_length size limit d =
    let ret = from_big_endian 64 0 (take size (drop 1 d)) in
    if leb (length d) size || byte_at d 1 == 0
    then none
    else if ltb max_length_bytes size
    then none
    else if ltb ret limit
    then none
    else if leb (2 ^ 64 - 1 - 0x100) ret
    then none
    else some ret

-- `length()`
unfoldable pub item_length : List ℕ → Option ℕ
item_length d =
    let n = byte_at d 0 in
    if length d == 0
    then some 0
    else if not (require_good d)
    then none
    else if ltb n data_imm_len_start
    then some 1
    else if leb n data_ind_len_zero
    then some (n - data_imm_len_start)
    else if ltb n list_start
    then long_length (n - data_ind_len_zero) (list_start - data_imm_len_start - max_length_bytes) d
    else if leb n list_ind_len_zero
    then some (n - list_start)
    else long_length (n - list_ind_len_zero) (0x100 - list_start - max_length_bytes) d

-- `lengthSize()`
unfoldable pub length_size : List ℕ → ℕ
length_size d =
    let n = byte_at d 0 in
    if length d == 0
    then 0
    else if ltb n list_start
    then (if ltb data_ind_len_zero n then n - data_ind_len_zero else 0)
    else if ltb list_ind_len_zero n
    then n - list_ind_len_zero
    else 0

-- `payloadOffset()`
unfoldable pub payload_offset : List ℕ → ℕ
payload_offset d =
    if not (length d == 0) && ltb (byte_at d 0) data_imm_len_start then 0 else 1 + length_size d

-- `payload()`
unfoldable pub payload : List ℕ → Option (List ℕ)
payload d = elim (item_length d) [
  | none ↦ none
  | some l ↦ if ltb (length d) l then none else some (cropped (payload_offset d) l d)
]

-- `toInt<u256>()` with the flags `Strict`: an integer of at most 32 bytes, or an exception.
unfoldable pub to_int : List ℕ → Option ℕ
to_int d = if not (require_good d) then none else elim (is_int d) [
  | none ↦ none
  | some false ↦ none
  | some true ↦ if length d == 0 || leb list_start (byte_at d 0) then none else elim (payload d) [
    | none ↦ none
    | some p ↦ if ltb 32 (length p) then none else some (from_big_endian 256 0 p)
  ]
]
