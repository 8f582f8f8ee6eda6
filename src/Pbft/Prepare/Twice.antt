-- ===== src/Pbft/Prepare/Twice.antt =====
-- Two prepare requests of one leader for one height and view, libpbftseal/PBFT.cpp.
use utispace_chain.Prelude.{
  ℕ, ◌≡◌, ◌≢◌, refl, ◌∙◌, inl, inr, [], some, Bool, true, false, Option-cases, arith,
}
use utispace_chain.Prelude.Map.{touch}
use utispace_chain.Pbft.Msg.{PrepareReq}
use utispace_chain.Pbft.State.{Net, World, State, Header, Executed, block_cached, emit}
use utispace_chain.Pbft.Caches.{
  is_exist_prepare, add_sign_req, add_commit_req, add_raw_prepare, add_prepare_req,
}
use utispace_chain.Pbft.Peers.{broadcast_msg}
use utispace_chain.Pbft.Leader.{get_leader}
use utispace_chain.Pbft.Sending.{check_sign, broadcast_sign_req, broadcast_commit_req, if_sent}
use utispace_chain.Pbft.Commit.{
  touch_caches, check_and_save, backup_msg, send_commit, commit_prepared, check_and_commit,
}
use utispace_chain.Pbft.ViewChange.{change_view_for_empty_block_without_lock}
use utispace_chain.Pbft.Prepare.{
  executed_prepare, send_sign, adopt_prepare, execute_block, execute_prepare, check_prepare,
  handle_prepare_msg,
}
use utispace_chain.Pbft.Prepare.Guarded.{Executable, leader_prepare_adopted}

-- The members that decide whether a prepare request is taken up, but for the committed block.
abbrev Seat : Type 0
Seat = ℕ × ℕ × ℕ × ℕ × Header × Bool × Bool × Bool × PrepareReq

abbrev seat : State → Seat
seat s = (
  s.node_idx, s.consensus_block_number, s.view, s.node_num, s.highest_block, s.cfg_err,
  s.leader_failed, s.omit_empty_block, s.raw_prepare_cache,
)

seat-check_and_save : (s : State) → seat (check_and_save s) ≡ seat s
unfolding check_and_save touch_caches
seat-check_and_save s = ground arith

module _ (net : Net) (w : World) where
  seat-send_commit : (s : State) → seat (send_commit net w s) ≡ seat s
  unfolding send_commit broadcast_commit_req if_sent add_commit_req broadcast_msg
  seat-send_commit s = ground arith

  seat-backup_msg : (req : PrepareReq) (s : State) → seat (backup_msg w req s) ≡ seat s
  unfolding backup_msg
  seat-backup_msg req s = ground arith

  seat-commit_prepared : (s : State) → seat (commit_prepared net w s) ≡ seat s
  unfolding commit_prepared
  seat-commit_prepared s = seat-check_and_save _ ∙ seat-send_commit _ ∙ seat-backup_msg _ _

  seat-check_and_commit : (s : State) → seat (check_and_commit net w s) ≡ seat s
  unfolding check_and_commit
  seat-check_and_commit s = ground (
    arith,
    seat-commit_prepared
        (record s { sign_cache = touch [] s.prepare_cache.block_hash s.sign_cache }),
  )

  seat-send_sign : (req : PrepareReq) (s : State) → seat (send_sign net w req s) ≡ seat s
  unfolding send_sign broadcast_sign_req if_sent add_sign_req broadcast_msg
  seat-send_sign req s = ground arith

  seat-adopt_prepare : (req : PrepareReq) (s : State) → seat (adopt_prepare net w req s) ≡ seat s
  unfolding adopt_prepare add_prepare_req
  seat-adopt_prepare req s = seat-check_and_commit _ ∙ seat-send_sign req _

  seat-execute_block :
      (req : PrepareReq) (b : Executed) (s : State) → seat (execute_block net w req b s) ≡ seat s
  unfolding execute_block change_view_for_empty_block_without_lock
  seat-execute_block req b s = ground (
    arith,
    seat-adopt_prepare (executed_prepare net w req b)
        (emit (block_cached b.real_hash) (record s { last_exec_finish_time = w.now })),
  )

  seat-execute_prepare :
      (req : PrepareReq) (s : State) → seat (execute_prepare net w req s) ≡ seat s
  unfolding execute_prepare
  seat-execute_prepare req s = elim (Option-cases (w.check_block_valid req.block_hash req.block)) [
    | inl e ↦ rw (e, execute_prepare) refl
    | inr (b, e) ↦ rw (e, execute_prepare) (seat-execute_block req b s)
  ]

  -- A prepare request of the leader that the engine takes up.
  pub record IsProposal (req : PrepareReq) (s : State) : Type 0 where
    pub other : req.idx ≢ s.node_idx
    pub height : req.height ≡ s.consensus_block_number
    pub view : req.view ≡ s.view
    pub leads : get_leader s ≡ some req.idx
    pub signed : check_sign net req.msg ≡ true

  seat-handle_prepare_msg :
      (from : ℕ) (req : PrepareReq) (s : State)
      → IsProposal req s
      → is_exist_prepare req s ≡ false
      → seat (handle_prepare_msg net w from req false s) ≡ seat (add_raw_prepare req s)
  unfolding handle_prepare_msg check_prepare
  seat-handle_prepare_msg from req s p new = ground (
    arith,
    p.other,
    p.height,
    p.view,
    p.signed,
    new,
    seat-execute_prepare req (add_raw_prepare req s),
  )

  IsProposal-stays :
      (req req' : PrepareReq) (s t : State)
      → seat t ≡ seat (add_raw_prepare req s)
      → IsProposal req' s
      → IsProposal req' t
  unfolding add_raw_prepare get_leader
  IsProposal-stays req req' s t e p = record {
    other = ground (arith, e, p.other);
    height = ground (arith, e, p.height);
    view = ground (arith, e, p.view);
    leads = ground (arith, e, p.leads);
    signed = p.signed;
  }

  -- If the leader sends a second prepare request for another block of the same height and view,
  -- after the first was taken up and while no block of that height is committed, then the node
  -- takes up the second one too, provided that its block executes as it was sent, is not an empty
  -- block that is to be left out, and is sealed: the executed second block replaces the first.
  pub second_prepare_adopted :
      (from : ℕ) (req req' : PrepareReq) (b : Executed) (s : State)
      → IsProposal req s
      → IsProposal req' s
      → is_exist_prepare req s ≡ false
      → req.block_hash ≢ req'.block_hash
      → req'.height ≢ (handle_prepare_msg net w from req false s).committed_prepare_cache.height
      → Executable net w req' b s
      → (handle_prepare_msg net w from req' false
          (handle_prepare_msg net w from req false s)).prepare_cache
        ≡ executed_prepare net w req' b
  second_prepare_adopted from req req' b s p p' new differ free x =
      let t = handle_prepare_msg net w from req false s in
      let e = seat-handle_prepare_msg from req s p new in
      let q = IsProposal-stays req req' s t e p' in
      let (valid, same, kept, ok) = x in
      leader_prepare_adopted net w from req' b t
        (unfold is_exist_prepare add_raw_prepare in ground (arith, e, differ)) q.other q.height
        q.view q.leads (inl free) q.signed
        (valid, same, (unfold add_raw_prepare in ground (arith, e, kept)), ok)
