-- ===== src/Pbft/Prepare.antt =====
-- The prepare requests: `handlePrepareMsg`, `recvFutureBlock`, `handleFutureBlock` and
-- `reHandlePrepareReq` of libpbftseal/PBFT.cpp.
pub mod Guarded
pub mod Twice
use utispace_chain.Prelude.{
  ℕ, [], none, some, Bool, true, false, not, ◌&&◌, ◌||◌, ltb, ◌==◌, if◌then◌else◌,
}
use utispace_chain.Nodes.{account_type_miner}
use utispace_chain.Pbft.Msg.{PrepareReq, hash_key, prepare_req_packet, invalid256, no_prepare}
use utispace_chain.Pbft.State.{Net, World, State, Executed, block_cached, emit}
use utispace_chain.Pbft.Peers.{broadcast_msg, clear_mask}
use utispace_chain.Pbft.Caches.{is_exist_prepare, add_raw_prepare, add_prepare_req}
use utispace_chain.Pbft.Leader.{get_leader}
use utispace_chain.Pbft.Sending.{check_sign, sign_msg, own_prepare, broadcast_sign_req}
use utispace_chain.Pbft.Commit.{check_and_commit}
use utispace_chain.Pbft.ViewChange.{change_view_for_empty_block_without_lock}

-- `recvFutureBlock`
unfoldable pub recv_future_block : ℕ → PrepareReq → State → State
recv_future_block from req s =
    if s.future_prepare_cache.1.block_hash == req.block_hash
    then s
    else record s { future_prepare_cache = (from, req) }

-- `!leader.first || _req.idx != leader.second`
unfoldable pub is_from_leader : PrepareReq → State → Bool
is_from_leader req s = elim (get_leader s) [ none ↦ false | some i ↦ req.idx == i ]

module _ (net : Net) (w : World) where
  -- The prepare request for the executed block, under the index of the one that was received.
  unfoldable pub executed_prepare : PrepareReq → Executed → PrepareReq
  executed_prepare req b = record {
    msg = sign_msg net req.height req.view req.idx w.now b.real_hash;
    block = b.block_data;
  }

  -- `if (m_account_type == EN_ACCOUNT_TYPE_MINER && !broadcastSignReq(req)) …`
  unfoldable pub send_sign : PrepareReq → State → State
  send_sign req s =
      if s.account_type == account_type_miner then (broadcast_sign_req net w req s).0 else s

  -- `handlePrepareMsg` from the re-executed block on.
  unfoldable pub adopt_prepare : PrepareReq → State → State
  adopt_prepare req s = check_and_commit net w (send_sign req (add_prepare_req req s))

  -- What `handlePrepareMsg` does with the block that `checkBlockValid` yields.
  unfoldable pub execute_block : PrepareReq → Executed → State → State
  execute_block req b s =
      if not (b.checked_hash == req.block_hash)
      then s
      else let s₁ : State = record s { last_exec_finish_time = w.now } in
        if (b.pending_size == 0) && s.omit_empty_block
        then change_view_for_empty_block_without_lock s₁
        else let s₂ = emit (block_cached b.real_hash) s₁ in
          if not b.sealed then s₂ else adopt_prepare (executed_prepare req b) s₂

  -- `handlePrepareMsg` from the call of `checkBlockValid` on.
  unfoldable pub execute_prepare : PrepareReq → State → State
  execute_prepare req s = elim (w.check_block_valid req.block_hash req.block) [
    | none ↦ s
    | some b ↦ execute_block req b s
  ]

  -- `handlePrepareMsg` behind `addRawPrepare`.
  unfoldable pub check_prepare : PrepareReq → State → State
  check_prepare req s =
      if not (is_from_leader req s)
      then s
      else if (req.height == s.committed_prepare_cache.height)
          && not (req.block_hash == s.committed_prepare_cache.block_hash)
      then s
      else if not (check_sign net req.msg)
      then s
      else execute_prepare req s

  -- `handlePrepareMsg(_from, _req, _self)`
  unfoldable pub handle_prepare_msg : ℕ → PrepareReq → Bool → State → State
  handle_prepare_msg from req self s =
      if is_exist_prepare req s
      then s
      else if not self && (req.idx == s.node_idx)
      then s
      else if ltb req.height s.consensus_block_number || ltb req.view s.view
      then s
      else if ltb s.consensus_block_number req.height || ltb s.view req.view
      then recv_future_block from req s
      else check_prepare req (add_raw_prepare req s)

  -- `handleFutureBlock`
  unfoldable pub handle_future_block : State → State
  handle_future_block s =
      let (from, req) = s.future_prepare_cache in
      if (req.height == s.consensus_block_number) && (req.view == s.view)
      then record (handle_prepare_msg from req false s) {
        future_prepare_cache = (invalid256, no_prepare);
      }
      else s

  -- `reHandlePrepareReq`
  unfoldable pub re_handle_prepare_req : PrepareReq → State → State
  re_handle_prepare_req old s =
      let s₁ = clear_mask s in
      let req = own_prepare net w old.height s.view old.block_hash old.block s₁ in
      let s₂ = (broadcast_msg net (hash_key req.block_hash) prepare_req_packet req [] s₁).0 in
      handle_prepare_msg s.node_idx req true s₂
