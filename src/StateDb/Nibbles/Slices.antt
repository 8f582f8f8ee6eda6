-- ===== src/StateDb/Nibbles/Slices.antt =====
-- Slices of nibbles compared: `sharedNibbles` and the members of `NibbleSlice` of
-- libdevcore/TrieCommon.h. An index is an `unsigned`.
pub mod Compared
use utispace_chain.Prelude.{
  ℕ, zero, suc, ◌+◌, ◌-◌, ◌%◌, List, Bool, true, false, ◌&&◌, ltb, leb, ◌==◌, if◌then◌else◌,
}
use utispace_chain.StateDb.Nibbles.{word_mod, nibble, NibbleSlice, slice_size}

-- The loop of `sharedNibbles`, with the rounds that its first range allows.
unfoldable pub shared_loop : ℕ → List ℕ → ℕ → ℕ → List ℕ → ℕ → ℕ → ℕ
shared_loop zero first b1 e1 second b2 e2 = 0
shared_loop (suc rounds) first b1 e1 second b2 e2 =
    let rest = shared_loop rounds first (suc b1) e1 second (suc b2) e2 in
    if ltb b1 e1 && ltb b2 e2 && (nibble first b1 == nibble second b2) then suc rest else 0

-- `sharedNibbles(_first, _beginFirst, _endFirst, _second, _beginSecond, _endSecond)`
abbrev pub shared_nibbles : List ℕ → ℕ → ℕ → List ℕ → ℕ → ℕ → ℕ
shared_nibbles first b1 e1 second b2 e2 = shared_loop (e1 - b1) first b1 e1 second b2 e2

-- `operator[](_index)`
abbrev pub nibble_at : NibbleSlice → ℕ → ℕ
nibble_at s i = nibble s.bytes ((s.offset + i) % word_mod)

-- `mid(_index)`
abbrev pub mid : ℕ → NibbleSlice → NibbleSlice
mid i s = record s { offset = (s.offset + i) % word_mod }

-- `shared(_k)`
unfoldable pub shared : NibbleSlice → NibbleSlice → ℕ
shared s k =
    shared_nibbles s.bytes s.offset ((s.offset + slice_size s) % word_mod) k.bytes k.offset
      ((k.offset + slice_size k) % word_mod)

-- `contains(_k)`
abbrev pub contains : NibbleSlice → NibbleSlice → Bool
contains s k = shared s k == slice_size k

-- `operator==(_k)`
abbrev pub is_same_slice : NibbleSlice → NibbleSlice → Bool
is_same_slice s k = (slice_size k == slice_size s) && (shared s k == slice_size k)

-- The loop of `isEarlierThan` from the index `i` on, with the rounds that the prefix allows.
unfoldable pub earlier_loop : ℕ → ℕ → NibbleSlice → NibbleSlice → Bool
earlier_loop zero i s k = if leb (slice_size k) i then false else true
earlier_loop (suc rounds) i s k =
    let rest = earlier_loop rounds (suc i) s k in
    if ltb i (slice_size k) && ltb i (slice_size s)
    then if ltb (nibble_at s i) (nibble_at k i)
      then true
      else if ltb (nibble_at k i) (nibble_at s i)
      then false
      else rest
    else if leb (slice_size k) i
    then false
    else true

-- `isEarlierThan(_k)`
abbrev pub is_earlier_than : NibbleSlice → NibbleSlice → Bool
is_earlier_than s k = earlier_loop (slice_size k) 0 s k
