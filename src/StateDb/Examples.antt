-- ===== src/StateDb/Examples.antt =====
-- A database on disk that is a list of puts, for libdevcore/OverlayDB.cpp, and the encoding of a
-- key, for libdevcore/TrieCommon.cpp.
use utispace_chain.Prelude.{
  ℕ, ◌≡◌, ◌↔◌, refl, inr, inl, List, [], ◌∷◌, ◌++◌, none, some, true, not, if◌then◌else◌, keep,
  arith,
}
use utispace_chain.Prelude.Map.{find}
use utispace_chain.StateDb.Overlay.{
  DiskKey, node_key, same_key, put_all, LevelDb, OverlayDb, commit, lookup, exists,
}
use utispace_chain.Rlp.Reader.{byte_at}
use utispace_chain.StateDb.Nibbles.{
  nibble, range, pack, hex_prefix_encode, hex_prefix_encode_two, hex_prefix_encode_vector,
  NibbleSlice, slice_nibbles,
}
use utispace_chain.StateDb.Nibbles.Prefix.{ReadsAs}
use utispace_chain.StateDb.Nibbles.Encoded.{hex_prefix_encode-ReadsAs}
use utispace_chain.StateDb.Nibbles.Slices.{
  shared, shared_loop, contains, is_same_slice, is_earlier_than,
}
use utispace_chain.StateDb.Nibbles.Slices.Compared.{IsPrefix, IsEarlier, slices-compared}
use utispace_chain.StateDb.Overlay.Committed.{UniqueKeys, commit-reads}

-- The puts so far, in their order.
abbrev Puts : Type 0
Puts = List (DiskKey × List ℕ)

put_all-later :
    (ps qs : Puts) (k : DiskKey) (old : List ℕ)
    → put_all (ps ++ qs) k old ≡ put_all qs k (put_all ps k old)
unfolding put_all
put_all-later [] qs k old = refl
put_all-later (p ∷ ps) qs k old = put_all-later ps qs k (if same_key (p.0) k then p.1 else old)

abbrev put_list : LevelDb Puts
put_list = record {
  get = λ d k. put_all d k [];
  write = λ ps d. d ++ ps;
  delete = λ k d. keep (λ p. not (same_key (p.0) k)) d;
  get-write = λ ps d k. put_all-later d ps k [];
}

-- A node with one reference, one with none left, and one that is on disk only.
abbrev overlay : OverlayDb Puts
overlay = record {
  memory = record {
    main =
        (7, record { value = 1 ∷ 2 ∷ []; refs = 1 })
        ∷ (8, record { value = 3 ∷ []; refs = 0 })
        ∷ [];
    aux = (7, record { content = 9 ∷ []; is_live = true }) ∷ [];
    enforce_refs = true;
  };
  disk = some ((node_key 9, 4 ∷ []) ∷ (node_key 7, 5 ∷ []) ∷ []);
}

distinct_hashes : UniqueKeys overlay.memory.main
unfolding find
distinct_hashes = (refl, (refl, tt))

commit-reads_example :
    (lookup put_list 7 (commit put_list overlay) ≡ lookup put_list 7 overlay)
    × (exists put_list 7 (commit put_list overlay) ≡ exists put_list 7 overlay)
commit-reads_example =
    commit-reads put_list overlay 7 distinct_hashes (inr (omega arith), (inl refl, tt)) refl

-- Three nibbles behind the first one of two bytes, and the two of one byte.
abbrev slice : NibbleSlice
slice = record { bytes = 18 ∷ 52 ∷ []; offset = 1 }

abbrev last_byte : NibbleSlice
last_byte = record { bytes = 171 ∷ []; offset = 0 }

hex_prefix_encode-ReadsAs_example :
    ReadsAs true (slice_nibbles slice) (hex_prefix_encode (18 ∷ 52 ∷ []) true 0 none 1)
    × ReadsAs true
        (slice_nibbles slice ++ slice_nibbles last_byte)
        (hex_prefix_encode_two (18 ∷ 52 ∷ []) 1 (171 ∷ []) 0 true)
    × (hex_prefix_encode_vector (slice_nibbles slice) true
        ≡ hex_prefix_encode (18 ∷ 52 ∷ []) true 0 none 1)
hex_prefix_encode-ReadsAs_example =
    hex_prefix_encode-ReadsAs true slice last_byte
      ((omega arith, (omega arith, tt)), omega arith, omega arith)
      ((omega arith, tt), omega arith, omega arith) (omega arith)

encoded : hex_prefix_encode (18 ∷ 52 ∷ []) true 0 none 1 ≡ 50 ∷ 52 ∷ []
unfolding hex_prefix_encode pack range nibble byte_at
encoded = refl

-- The nibbles 2 and 3, which begin those of `slice`.
abbrev start : NibbleSlice
start = record { bytes = 35 ∷ []; offset = 0 }

slices-compared_example :
    ((contains slice start ≡ true) ↔ IsPrefix (slice_nibbles start) (slice_nibbles slice))
    × ((is_same_slice slice start ≡ true) ↔ (slice_nibbles slice ≡ slice_nibbles start))
    × ((is_earlier_than slice start ≡ true) ↔ IsEarlier (slice_nibbles slice) (slice_nibbles start))
slices-compared_example =
    slices-compared slice start (omega arith, omega arith) (omega arith, omega arith)

start-contained : contains slice start ≡ true
unfolding shared shared_loop nibble byte_at
start-contained = refl
