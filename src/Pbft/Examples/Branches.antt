-- ===== src/Pbft/Examples/Branches.antt =====
-- The operations of libpbftseal/PBFT.cpp on single states.
use utispace_chain.Prelude.{
  ℕ, ◌+◌, ◌<◌, ◌≡◌, ◌↔◌, inr, refl, [], ◌∷◌, Bool, false, ◌&&◌, ltb, ◌==◌, length, arith,
}
use utispace_chain.Prelude.Map.{Map, at, has, find}
use utispace_chain.Nodes.{get_public_key, find_idx, get_god_miner}
use utispace_chain.Pbft.Msg.{PbftMsg, PrepareReq, key_eq, fields_without_block}
use utispace_chain.Pbft.State.{State, seal_generated}
use utispace_chain.Pbft.Caches.{
  is_exist, is_exist_prepare, is_exist_sign, is_exist_commit, add_commit_req,
}
use utispace_chain.Pbft.Leader.{quorum}
use utispace_chain.Pbft.Leader.Quorum.{Configured, count_below, quorum_overlap}
use utispace_chain.Pbft.Sending.{check_sign, sign_msg}
use utispace_chain.Pbft.Commit.{have_sign, have_commit, sig_list, check_and_save}
use utispace_chain.Pbft.Commit.Sealing.{IsReady, check_and_save_iff, check_and_save_not_ready}
use utispace_chain.Pbft.Prepare.{handle_prepare_msg}
use utispace_chain.Pbft.Handlers.{
  handle_sign_msg, handle_commit_msg, handle_msg, relay, decoded, sign_req, commit_req,
}
use utispace_chain.Pbft.Handlers.Counted.{Accepted, last_commit_seals, overfull_never_sealed}
use utispace_chain.Pbft.Handlers.Signers.{two_signatures_of_one_node}
use utispace_chain.Pbft.Handlers.Rejected.{
  unsigned_ignored, forged_prepare_blocks, forged_prepare_committed,
}
use utispace_chain.Pbft.Engine.{fresh_state}
use utispace_chain.Pbft.Examples.{four, world, vote, ready}

-- The arithmetic of the quorum, with nodes 0, 1, 2 and nodes 1, 2, 3.
abbrev first_three : ℕ → Bool
first_three i = ltb i 3

abbrev last_three : ℕ → Bool
last_three i = ltb 0 i

abbrev only_last : ℕ → Bool
only_last i = i == 3

ready-Configured : Configured ready
ready-Configured = record { small = omega arith; faults = refl; some_node = inr (omega arith) }

quorum_overlap_example : 1 < count_below 4 (λ i. first_three i && last_three i)
unfolding quorum count_below fresh_state
quorum_overlap_example =
    quorum_overlap ready first_three last_three ready-Configured refl (omega arith) (omega arith)

-- Requests of the nodes for the prepared block.
abbrev pub m₀ : PbftMsg
m₀ = vote 10 0

abbrev pub m₁ : PbftMsg
m₁ = vote 20 1

abbrev pub m₂ : PbftMsg
m₂ = vote 30 2

abbrev again : PbftMsg
again = record m₁ { sig = 1119 }

abbrev unsigned : PbftMsg
unsigned = record m₁ { block_hash = 77; sig = 0 }

abbrev forged : PrepareReq
forged = record { msg = unsigned; block = 6 ∷ [] }

abbrev two_votes : Map (Map PbftMsg)
two_votes = (99, (109, m₀) ∷ (119, m₁) ∷ []) ∷ []

abbrev pub three_votes : Map (Map PbftMsg)
three_votes = (99, (109, m₀) ∷ (119, m₁) ∷ (129, m₂) ∷ []) ∷ []

-- One signature is missing, one commit is missing, none is missing, and one is too many.
abbrev signing_state : State
signing_state = record ready { sign_cache = two_votes }

abbrev committing : State
committing = record ready { sign_cache = three_votes; commit_cache = two_votes }

abbrev pub complete : State
complete = record ready { sign_cache = three_votes; commit_cache = three_votes }

abbrev overfull : State
overfull = record ready {
  sign_cache = three_votes;
  commit_cache = (99, (109, m₀) ∷ (119, m₁) ∷ (129, m₂) ∷ (1119, again) ∷ []) ∷ [];
}

m₁-Accepted : Accepted four m₁ ready
unfolding check_sign sign_msg get_public_key find_idx get_god_miner fresh_state fields_without_block
m₁-Accepted = (ground arith, refl, refl, refl)

again-Accepted : Accepted four again ready
unfolding check_sign sign_msg get_public_key find_idx get_god_miner fresh_state fields_without_block
again-Accepted = (ground arith, refl, refl, refl)

m₂-Accepted : Accepted four m₂ ready
unfolding check_sign sign_msg get_public_key find_idx get_god_miner fresh_state fields_without_block
m₂-Accepted = (ground arith, refl, refl, refl)

unsigned-rejected : check_sign four unsigned ≡ false
unfolding check_sign sign_msg get_public_key find_idx get_god_miner fields_without_block
unsigned-rejected = refl

complete-IsReady : IsReady complete
unfolding quorum at fresh_state sign_msg
complete-IsReady = (omega arith, refl, refl, omega arith)

check_and_save_iff_example :
    (((check_and_save complete).events
        ≡ seal_generated complete.prepare_cache
            (sig_list complete)
            (complete.prepare_cache.idx == complete.node_idx)
          ∷ complete.events)
      ↔ IsReady complete)
    × (length (sig_list complete) ≡ have_commit complete)
check_and_save_iff_example = check_and_save_iff complete

complete-sealed :
    (check_and_save complete).events
    ≡ seal_generated complete.prepare_cache
        (sig_list complete)
        (complete.prepare_cache.idx == complete.node_idx)
      ∷ complete.events
complete-sealed = (check_and_save_iff complete).0.1 complete-IsReady

committing-not-IsReady : ¬ IsReady committing
unfolding quorum at fresh_state sign_msg
committing-not-IsReady r = omega (arith, r.1)

check_and_save_not_ready_example : (check_and_save committing).events ≡ committing.events
check_and_save_not_ready_example = check_and_save_not_ready committing committing-not-IsReady

last_commit_seals_example :
    (handle_commit_msg four world m₂ committing).events
    ≡ seal_generated committing.prepare_cache
        (sig_list (add_commit_req m₂ committing))
        (committing.prepare_cache.idx == committing.node_idx)
      ∷ committing.events
unfolding quorum at is_exist_commit is_exist find has sign_msg fresh_state
last_commit_seals_example =
    last_commit_seals four world m₂ committing m₂-Accepted refl (omega arith) refl refl
      (omega arith)

overfull-lt : quorum overfull < have_commit overfull
unfolding quorum at fresh_state sign_msg
overfull-lt = omega arith

overfull_never_sealed_example :
    ((handle_commit_msg four world m₂ overfull).events ≡ overfull.events)
    × (quorum (handle_commit_msg four world m₂ overfull)
        < have_commit (handle_commit_msg four world m₂ overfull))
overfull_never_sealed_example = overfull_never_sealed four world m₂ overfull overfull-lt

unsigned_ignored_example :
    (handle_sign_msg four world unsigned ready ≡ ready)
    × (handle_commit_msg four world unsigned ready ≡ ready)
    × (handle_msg four world 2 2 (decoded (sign_req unsigned)) ready
        ≡ relay four world 2 (sign_req unsigned) ready)
    × (handle_msg four world 2 2 (decoded (commit_req unsigned)) ready
        ≡ relay four world 2 (commit_req unsigned) ready)
unsigned_ignored_example = unsigned_ignored four world unsigned 2 2 ready unsigned-rejected

two_signatures_of_one_node_example :
    have_sign (handle_sign_msg four world again (handle_sign_msg four world m₁ ready))
    ≡ have_sign ready + 2
unfolding is_exist_sign is_exist find sign_msg fresh_state
two_signatures_of_one_node_example =
    two_signatures_of_one_node four world m₁ again ready m₁-Accepted again-Accepted refl
      (ground arith) refl refl

forged_prepare_blocks_example :
    ((handle_prepare_msg four world 0 forged false ready).raw_prepare_cache ≡ forged)
    × ((from' : ℕ) (genuine : PrepareReq)
        → genuine.block_hash ≡ 77
        → handle_prepare_msg four world from' genuine false
            (handle_prepare_msg four world 0 forged false ready)
          ≡ handle_prepare_msg four world 0 forged false ready)
unfolding is_exist_prepare sign_msg fresh_state
forged_prepare_blocks_example =
    forged_prepare_blocks four world 0 forged ready unsigned-rejected refl (ground arith) refl refl

forged_prepare_committed_example :
    (handle_sign_msg four world m₂
      (handle_prepare_msg four world 0 forged false signing_state)).committed_prepare_cache
    ≡ forged
unfolding is_exist_prepare is_exist_sign is_exist find has sign_msg fresh_state quorum at
forged_prepare_committed_example =
    forged_prepare_committed four world 0 forged m₂ signing_state unsigned-rejected refl
      (ground arith) refl refl m₂-Accepted refl refl refl
