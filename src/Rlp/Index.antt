-- ===== src/Rlp/Index.antt =====
-- `RLP::operator[]` with its cache, libdevcore/RLP.h and RLP.cpp. An exception is `none`; `left_by`
-- is what a call leaves in the cache, with an exception or without.
pub mod Cached
pub mod Nth
pub mod Count
use utispace_chain.Prelude.{
  ℕ, zero, suc, ◌+◌, ◌-◌, ◌^◌, List, [], ◌∷◌, Option, none, some, Bool, true, false, ltb, ◌==◌,
  if◌then◌else◌, length,
}
use utispace_chain.Rlp.Reader.{drop, cropped, payload}
use utispace_chain.Rlp.Item.{rlp, not_too_small, size_as_encoded}

-- `m_lastIndex`, `m_lastEnd` and `m_lastItem`
pub record ListCache : Type 0 where
  pub last_index : ℕ
  pub last_end : ℕ
  pub last_item : List ℕ

-- The cache of a new `RLP`; its index is `(size_t)-1`.
abbrev pub no_index : ℕ
no_index = 2 ^ 64 - 1

abbrev pub new_cache : ListCache
new_cache = record { last_index = no_index; last_end = 0; last_item = [] }

-- The item at the front of what is left, and where it ends.
unfoldable pub first_of : ℕ → ℕ → List ℕ → Option ListCache
first_of index begin l = elim (size_as_encoded l) [
  | none ↦ none
  | some size ↦
      let item = cropped 0 size l in
      some record { last_index = index; last_end = begin + length item; last_item = item }
]

-- Back to the first item.
unfoldable pub restart : List ℕ → Option ListCache
restart d = elim (payload d) [ none ↦ none | some p ↦ first_of 0 0 p ]

-- `n` rounds of the loop, which stops at an empty item.
unfoldable pub steps : ℕ → List ℕ → ListCache → Option ListCache
steps zero d c = some c
steps (suc n) d c = elim (length c.last_item == 0) [
  | true ↦ some c
  | false ↦ elim (payload d) [
    | none ↦ none
    | some p ↦ elim (first_of (suc c.last_index) c.last_end (drop c.last_end p)) [
      | none ↦ none
      | some next ↦ steps n d next
    ]
  ]
]

-- `operator[](_i)`: the item, and the cache afterwards.
unfoldable pub at : List ℕ → ℕ → ListCache → Option (List ℕ × ListCache)
at d i c = elim (if ltb i c.last_index then restart d else some c) [
  | none ↦ none
  | some begin ↦ elim (steps (i - begin.last_index) d begin) [
    | none ↦ none
    | some stop ↦ elim (rlp not_too_small stop.last_item) [ none ↦ none | some m ↦ some (m, stop) ]
  ]
]

-- What `n` rounds of the loop leave: `m_lastItem` is the whole rest while `sizeAsEncoded` throws.
unfoldable pub left_by_steps : ℕ → List ℕ → ListCache → ListCache
left_by_steps zero d c = c
left_by_steps (suc n) d c = elim (length c.last_item == 0) [
  | true ↦ c
  | false ↦ elim (payload d) [
    | none ↦ c
    | some p ↦ elim (first_of (suc c.last_index) c.last_end (drop c.last_end p)) [
      | none ↦ record c { last_item = drop c.last_end p }
      | some next ↦ left_by_steps n d next
    ]
  ]
]

-- What `operator[](_i)` leaves. The step back to the first item assigns nothing if it throws.
unfoldable pub left_by : List ℕ → ℕ → ListCache → ListCache
left_by d i c = elim (if ltb i c.last_index then restart d else some c) [
  | none ↦ c
  | some begin ↦ left_by_steps (i - begin.last_index) d begin
]
