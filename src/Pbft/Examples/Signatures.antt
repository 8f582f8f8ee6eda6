-- ===== src/Pbft/Examples/Signatures.antt =====
-- `getMinerList` and `checkBlockSign` of libpbftseal/PBFT.cpp on four nodes.
use utispace_chain.Prelude.{
  ℕ, ◌≡◌, ◌↔◌, refl, List, [], ◌∷◌, none, true, All, length, replicate, arith,
}
use utispace_chain.Nodes.{count_miners, get_all_nodes, get_god_miner, put_node, put_nodes}
use utispace_chain.Pbft.Leader.{get_miner_list, fill_miners, resize}
use utispace_chain.Pbft.Leader.Config.{DistinctSlots, Placed, get_miner_list_places}
use utispace_chain.Pbft.BlockSign.{check_block_sign}
use utispace_chain.Pbft.BlockSign.Accepted.{
  miners_before, Acceptable, check_block_sign_iff, repeated_signer_accepted,
}
use utispace_chain.Pbft.Examples.{four}

four-DistinctSlots : DistinctSlots (get_all_nodes four.registry none)
unfolding get_all_nodes get_god_miner
four-DistinctSlots = (
  ((λ m e. omega (arith, e)), ((λ m e. omega (arith, e)), ((λ m e. omega (arith, e)), tt))),
  (
    ((λ m e. omega (arith, e)), ((λ m e. omega (arith, e)), tt)),
    (((λ m e. omega (arith, e)), tt), (tt, tt)),
  ),
)

get_miner_list_places_example :
    (length (get_miner_list four none (7 ∷ [])).0 ≡ count_miners (get_all_nodes four.registry none))
    × All
        (Placed
          (count_miners (get_all_nodes four.registry none))
          (get_miner_list four none (7 ∷ [])).0)
        (get_all_nodes four.registry none)
unfolding get_miner_list fill_miners resize count_miners get_all_nodes get_god_miner put_node
    put_nodes
get_miner_list_places_example = get_miner_list_places four none (7 ∷ []) four-DistinctSlots refl

-- The signatures of the nodes 0, 1 and 2 for the block hash 99.
abbrev three_signs : List (ℕ × ℕ)
three_signs = (0, 109) ∷ (1, 119) ∷ (2, 129) ∷ []

abbrev keys : List ℕ
keys = 10 ∷ 20 ∷ 30 ∷ 40 ∷ []

check_block_sign_iff_example : (check_block_sign four 1 keys 99 three_signs ≡ true) ↔ (
    ((miners_before four 1).1 ≡ true)
    × Acceptable four 99 keys (miners_before four 1).0 three_signs)
unfolding get_miner_list fill_miners resize count_miners get_all_nodes get_god_miner put_node
    put_nodes
check_block_sign_iff_example =
    check_block_sign_iff four 1 keys 99 three_signs (omega arith) (omega arith)

repeated_signer_accepted_example : check_block_sign four 1 keys 99 (replicate 3 (1, 119)) ≡ true
unfolding get_miner_list fill_miners resize count_miners get_all_nodes get_god_miner put_node
    put_nodes
repeated_signer_accepted_example =
    repeated_signer_accepted four 1 keys 99 3 (1, 119) (omega arith) (omega arith) refl refl
      (omega arith) (20, refl, refl) (omega arith)
