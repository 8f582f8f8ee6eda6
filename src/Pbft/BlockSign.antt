-- ===== src/Pbft/BlockSign.antt =====
-- `checkBlockSign` of libpbftseal/PBFT.cpp, which decides whether the signatures of a block that
-- comes from another node are enough.
pub mod Accepted
use utispace_chain.Prelude.{
  ℕ, ◌+◌, ◌-◌, ◌/◌, ◌%◌, ◌^◌, List, [], ◌∷◌, none, some, Bool, true, false, not, ◌&&◌, ltb, leb,
  ◌==◌, if◌then◌else◌, length, get_elem?,
}
use utispace_chain.Pbft.Msg.{sub256}
use utispace_chain.Pbft.State.{Net}
use utispace_chain.Pbft.Leader.{get_miner_list}

abbrev pub size_mod : ℕ
size_mod = 2 ^ 64

-- `operator==` of two vectors of keys.
unfoldable pub same_keys : List ℕ → List ℕ → Bool
same_keys [] [] = true
same_keys [] (y ∷ ys) = false
same_keys (x ∷ xs) [] = false
same_keys (x ∷ xs) (y ∷ ys) = (x == y) && same_keys xs ys

-- `miner_list.size() - (miner_list.size() - 1) / 3`, of which the unsigned subtractions wrap.
unfoldable pub required_signs : ℕ → ℕ
required_signs n = (n + size_mod - (n + size_mod - 1) % size_mod / 3) % size_mod

-- `static_cast<int>(_i)` as the `size_t` that a vector is read at: the low 32 bits with their sign.
unfoldable pub int_index : ℕ → ℕ
int_index i = let low = i % 2 ^ 32 in if ltb low (2 ^ 31) then low else low + size_mod - 2 ^ 32

module _ (net : Net) where
  -- The loop over the signatures. A read behind the end of the vector, which an index of 2^31 or
  -- more can make, is undefined in the code and fails here.
  unfoldable pub check_signs : ℕ → List ℕ → List (ℕ × ℕ) → Bool
  check_signs hash miners [] = true
  check_signs hash miners ((i, sig) ∷ l) =
      let rest = check_signs hash miners l in
      if leb (length miners) i then false else elim (get_elem? miners (int_index i)) [
        | none ↦ false
        | some id ↦ if not (net.verify id sig hash) then false else rest
      ]

  -- `checkBlockSign`, over the header's number, list of nodes and hash without seal.
  unfoldable pub check_block_sign : ℕ → List ℕ → ℕ → List (ℕ × ℕ) → Bool
  check_block_sign number node_list hash sign_list =
      let (miners, found) = get_miner_list net (net.block_of (sub256 number 1)) [] in
      if not found
      then false
      else if not (same_keys node_list miners)
      then false
      else if ltb (length sign_list) (required_signs (length miners))
      then false
      else check_signs hash miners sign_list
