-- ===== src/Rlp/Stream.antt =====
-- Writing RLP: `RLPStream` of libdevcore/RLP.h and RLP.cpp. An exception is `none`.
pub mod Tree
use utispace_chain.Prelude.{
  ℕ, zero, suc, ◌+◌, ◌-◌, List, [], ◌∷◌, ◌++◌, Option, none, some, Bool, true, false, ◌&&◌, ltb,
  ◌==◌, if◌then◌else◌, length,
}
use utispace_chain.Rlp.Integer.{
  bytes_required, push_int, int_bytes, data_imm_len_start, data_imm_len_count, data_ind_len_zero,
}
use utispace_chain.Rlp.Reader.{list_start, list_ind_len_zero, byte_at, take, drop}

abbrev pub list_imm_len_count : ℕ
list_imm_len_count = 256 - list_start - 8

-- `m_out` and `m_listStack`, the innermost open list first: how many items it still wants, and
-- where it begins.
pub record RlpStream : Type 0 where
  pub out : List ℕ
  pub list_stack : List (ℕ × ℕ)

-- A new stream.
abbrev pub new_stream : RlpStream
new_stream = record { out = []; list_stack = [] }

-- `pushCount`: what it writes.
unfoldable pub count_bytes : ℕ → ℕ → Option (List ℕ)
count_bytes count base =
    let br = bytes_required count in
    if ltb 0xff (br + base) then none else some ((br + base) ∷ push_int br count)

-- The prefix of a list whose items take `s` bytes, as `noteAppended` and `appendList` write it.
unfoldable pub list_header : ℕ → Option (List ℕ)
list_header s =
    if ltb s list_imm_len_count
    then some ((s + list_start) ∷ [])
    else count_bytes s list_ind_len_zero

-- The prefix of a byte string of `s` bytes.
unfoldable pub data_header : ℕ → Option (List ℕ)
data_header s =
    if ltb s data_imm_len_count
    then some ((s + data_imm_len_start) ∷ [])
    else count_bytes s data_ind_len_zero

-- `noteAppended`: an item less is wanted; a list that is complete gets its prefix, its bytes move
-- up, and it is itself an item of the list around it.
unfoldable pub note_appended : ℕ → List ℕ → List (ℕ × ℕ) → Option RlpStream
note_appended items out [] = some record { out = out; list_stack = [] }
note_appended items out ((wanted, p) ∷ st) = elim (items == 0) [
  | true ↦ some record { out = out; list_stack = (wanted, p) ∷ st }
  | false ↦ elim (ltb wanted items) [
    | true ↦ none
    | false ↦ elim (wanted - items == 0) [
      | false ↦ some record { out = out; list_stack = (wanted - items, p) ∷ st }
      | true ↦ elim (list_header (length out - p)) [
        | none ↦ none
        | some h ↦ note_appended 1 (take p out ++ (h ++ drop p out)) st
      ]
    ]
  ]
]

-- `appendRaw`
abbrev pub append_raw : List ℕ → ℕ → RlpStream → Option RlpStream
append_raw l items s = note_appended items (s.out ++ l) s.list_stack

-- `append(bigint)`
unfoldable pub append_int : ℕ → RlpStream → Option RlpStream
append_int n s = note_appended 1 (s.out ++ int_bytes n) s.list_stack

-- The bytes without their leading zeros, which the flag `_compact` drops.
unfoldable pub compacted : List ℕ → List ℕ
compacted [] = []
compacted (b ∷ bs) = let rest = compacted bs in if b == 0 then rest else b ∷ bs

-- What `append(bytesConstRef)` writes.
unfoldable pub data_bytes : List ℕ → Option (List ℕ)
data_bytes d =
    if (length d == 1) && ltb (byte_at d 0) data_imm_len_start
    then some d
    else elim (data_header (length d)) [ none ↦ none | some h ↦ some (h ++ d) ]

-- `append(bytesConstRef, _compact)`
unfoldable pub append_bytes : Bool → List ℕ → RlpStream → Option RlpStream
append_bytes compact d s = elim (data_bytes (if compact then compacted d else d)) [
  | none ↦ none
  | some e ↦ note_appended 1 (s.out ++ e) s.list_stack
]

-- What `appendList(bytesConstRef)` writes.
unfoldable pub list_bytes : List ℕ → Option (List ℕ)
list_bytes l = elim (list_header (length l)) [ none ↦ none | some h ↦ some (h ++ l) ]

-- `appendList(bytesConstRef)`
unfoldable pub append_list_bytes : List ℕ → RlpStream → Option RlpStream
append_list_bytes l s = elim (list_header (length l)) [
  | none ↦ none
  | some h ↦ append_raw l 1 record s { out = s.out ++ h }
]

-- `appendList(size_t)`
unfoldable pub append_list : ℕ → RlpStream → Option RlpStream
append_list zero s = append_list_bytes [] s
append_list (suc n) s = some record s { list_stack = (suc n, length s.out) ∷ s.list_stack }

-- `out()`, `invalidate()` and `swapOut()`: an open list is an exception.
unfoldable pub stream_out : RlpStream → Option (List ℕ)
stream_out s = elim s.list_stack [ [] ↦ some s.out | _ ∷ _ ↦ none ]
