-- ===== src/Pbft/Examples/Progress.antt =====
-- Prepare requests, view changes and new blocks of libpbftseal/PBFT.cpp on single states.
use utispace_chain.Prelude.{
  ℕ, List, ◌+◌, ◌≤◌, ◌<◌, ◌≡◌, ◌≢◌, ◌⊎◌, refl, sym, ap, ◌∙◌, inl, inr, [], ◌∷◌, some, true, false,
  min, arith,
}
use utispace_chain.Nodes.{get_public_key, find_idx, get_god_miner}
use utispace_chain.Prelude.Map.{at, insert, modify}
use utispace_chain.Pbft.Msg.{PrepareReq, invalid256, add256, fields_without_block}
use utispace_chain.Pbft.State.{State, Executed}
use utispace_chain.Pbft.Caches.{
  is_exist_prepare, add_raw_prepare, add_prepare_req, add_sign_req, put_msg,
}
use utispace_chain.Pbft.Leader.{quorum, get_leader}
use utispace_chain.Pbft.Sending.{sign_msg, check_sign, own_msg, if_sent, broadcast_sign_req}
use utispace_chain.Pbft.Wire.Fields.{InRange}
use utispace_chain.Pbft.Peers.{broadcast_msg}
use utispace_chain.Pbft.Commit.{check_and_commit}
use utispace_chain.Pbft.ViewChange.{
  check_and_change_view, check_timeout, timed_out, max_change_cycle,
}
use utispace_chain.Pbft.ViewChange.Entering.{
  asking, Entered, looked_up, check_and_change_view_cases, check_timeout_escalates,
}
use utispace_chain.Pbft.Prepare.{
  handle_prepare_msg, check_prepare, is_from_leader, execute_prepare, execute_block,
  executed_prepare, adopt_prepare, send_sign,
}
use utispace_chain.Pbft.Prepare.Guarded.{Executable, prepared_behind_guards, leader_prepare_adopted}
use utispace_chain.Pbft.Prepare.Twice.{IsProposal, second_prepare_adopted}
use utispace_chain.Pbft.Engine.{init_env, report_block, fresh_state}
use utispace_chain.Pbft.Engine.Heights.{heights, report_block_cases, commit_survives_restart}
use utispace_chain.Pbft.Leader.Quorum.{Configured}
use utispace_chain.Pbft.Examples.{four, world, setup, genesis, net_of, vote, ready}

-- Node 1 gets the request of node 0, the leader, for the block 50.
abbrev follower : State
follower = record ready { node_idx = 1; view = 0; leader_failed = false; cfg_err = false }

abbrev proposed : PrepareReq
proposed = record { msg = sign_msg (net_of 10) 1 0 0 1000 50; block = 4 ∷ [] }

abbrev executed : Executed
executed = record {
  checked_hash = 50;
  pending_size = 1;
  real_hash = 50;
  sealed = true;
  block_data = 4 ∷ [];
}

proposed-signed : check_sign four proposed.msg ≡ true
unfolding check_sign sign_msg get_public_key find_idx get_god_miner fields_without_block
proposed-signed = refl

executed-Executable : Executable four world proposed executed follower
unfolding sign_msg
executed-Executable = (refl, refl, refl, refl)

leader_prepare_adopted_example :
    (handle_prepare_msg four world 0 proposed false follower).prepare_cache
    ≡ executed_prepare four world proposed executed
unfolding is_exist_prepare sign_msg fresh_state get_leader
leader_prepare_adopted_example =
    leader_prepare_adopted four world 0 proposed executed follower refl (ground arith) refl refl
      refl (inl (ground arith)) proposed-signed executed-Executable

replaced :
    (handle_prepare_msg four world 0 proposed false follower).prepare_cache ≢ follower.prepare_cache
unfolding executed_prepare sign_msg
replaced h =
    omega (arith, ap (λ (p : PrepareReq). p.block_hash) (sym h ∙ leader_prepare_adopted_example))

prepared_behind_guards_example :
    (get_leader follower ≡ some proposed.idx)
    × (check_sign four proposed.msg ≡ true)
    × (proposed.height ≡ follower.consensus_block_number)
    × (proposed.view ≡ follower.view)
    × ((b : Executed) × Executable four world proposed b follower
        × ((handle_prepare_msg four world 0 proposed false follower).prepare_cache
            ≡ executed_prepare four world proposed b))
prepared_behind_guards_example =
    prepared_behind_guards four world 0 proposed false follower replaced

-- Nodes 1 and 2 ask for view 1, which this node wants.
abbrev outvoted : State
outvoted = record ready {
  to_view = 1;
  cfg_err = false;
  recv_view_change_req = (1, (1, vote 20 1) ∷ (2, vote 30 2) ∷ []) ∷ [];
}

outvoted-Configured : Configured outvoted
outvoted-Configured = record { small = omega arith; faults = refl; some_node = inr (omega arith) }

check_and_change_view_cases_example :
    ((quorum outvoted ≤ asking outvoted + 1)
      × Entered 1 outvoted.committed_prepare_cache (check_and_change_view outvoted))
    ⊎ ((asking outvoted + 1 < quorum outvoted)
        × (check_and_change_view outvoted ≡ looked_up outvoted))
check_and_change_view_cases_example = check_and_change_view_cases outvoted outvoted-Configured refl

abbrev waiting : State
waiting = record ready {
  to_view = 0;
  change_cycle = 3;
  last_consensus_time = 0;
  last_sign_time = 0;
  view_timeout = 500;
}

waiting-late : timed_out world waiting ≡ true
unfolding timed_out
waiting-late = refl

check_timeout_escalates_example :
    ((check_timeout four world waiting).to_view ≡ add256 0 1)
    × ((check_timeout four world waiting).change_cycle ≡ min 4 max_change_cycle)
    × (timed_out world (check_timeout four world waiting) ≡ false)
check_timeout_escalates_example =
    check_timeout_escalates four world waiting waiting-late (omega arith) (omega arith)

report_block_cases_example :
    ((ready.consensus_block_number ≤ genesis.number)
      × (heights (report_block four world genesis ready)
          ≡ (genesis, add256 0 1, 0, 0, 0, false, 1000)))
    ⊎ ((genesis.number < ready.consensus_block_number)
        × (heights (report_block four world genesis ready)
            ≡ heights (record ready { highest_block = genesis })))
report_block_cases_example = report_block_cases four world genesis ready

-- The block 99 with three signatures, and nothing in the database.
abbrev signed : State
signed = record ready {
  view = 0;
  backup_db = some [];
  sign_cache = (99, (109, vote 10 0) ∷ (119, vote 20 1) ∷ (129, vote 30 2) ∷ []) ∷ [];
}

signed-InRange : InRange signed.raw_prepare_cache.msg
unfolding sign_msg fresh_state fields_without_block
signed-InRange = record {
  height_range = omega arith;
  view_range = omega arith;
  idx_range = omega arith;
  timestamp_range = omega arith;
  hash_range = omega arith;
  sig_range = omega arith;
  sig2_range = omega arith;
}

commit_survives_restart_example :
    (rlp : List ℕ) × (t : State) × ((check_and_commit four world signed).backup_db ≡ some rlp)
    × (init_env four world (record setup { stored = rlp }) ≡ some t)
    × (t.committed_prepare_cache ≡ signed.raw_prepare_cache)
    × ((check_and_commit four world signed).committed_prepare_cache ≡ signed.raw_prepare_cache)
unfolding quorum sign_msg at fresh_state
commit_survives_restart_example =
    commit_survives_restart four world world setup signed [] refl refl refl refl signed-InRange
      (omega arith)

-- The leader's second block at the same height and in the same view is the block 51.
abbrev proposed_too : PrepareReq
proposed_too = record { msg = sign_msg (net_of 10) 1 0 0 1000 51; block = 8 ∷ [] }

abbrev executed_too : Executed
executed_too = record {
  checked_hash = 51;
  pending_size = 1;
  real_hash = 51;
  sealed = true;
  block_data = 8 ∷ [];
}

proposed-IsProposal : IsProposal four world proposed follower
unfolding sign_msg get_leader fresh_state
proposed-IsProposal = record {
  other = ground arith;
  height = refl;
  view = refl;
  leads = refl;
  signed = proposed-signed;
}

proposed_too-IsProposal : IsProposal four world proposed_too follower
unfolding sign_msg get_leader fresh_state check_sign get_public_key find_idx get_god_miner
    fields_without_block
proposed_too-IsProposal = record {
  other = ground arith;
  height = refl;
  view = refl;
  leads = refl;
  signed = refl;
}

once_uncommitted :
    (handle_prepare_msg four world 0 proposed false follower).committed_prepare_cache.height
    ≡ invalid256
unfolding handle_prepare_msg check_prepare is_exist_prepare add_raw_prepare is_from_leader
    get_leader execute_prepare execute_block executed_prepare adopt_prepare add_prepare_req
    send_sign broadcast_sign_req own_msg if_sent broadcast_msg add_sign_req put_msg check_and_commit
    quorum sign_msg check_sign get_public_key find_idx get_god_miner fields_without_block
    fresh_state insert at modify
once_uncommitted = refl

second_prepare_adopted_example :
    (handle_prepare_msg four world 0 proposed_too false
      (handle_prepare_msg four world 0 proposed false follower)).prepare_cache
    ≡ executed_prepare four world proposed_too executed_too
unfolding is_exist_prepare fresh_state sign_msg
second_prepare_adopted_example =
    second_prepare_adopted four world 0 proposed proposed_too executed_too follower
      proposed-IsProposal proposed_too-IsProposal refl (ground arith)
      (ground (arith, once_uncommitted)) (refl, refl, refl, refl)
