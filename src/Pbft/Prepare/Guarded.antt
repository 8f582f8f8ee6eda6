-- ===== src/Pbft/Prepare/Guarded.antt =====
-- When `handlePrepareMsg` of libpbftseal/PBFT.cpp replaces the prepared block.
use utispace_chain.Prelude.{
  ℕ, ◌≡◌, ◌≢◌, ◌⊎◌, refl, ap, ◌∙◌, inl, inr, some, Bool, true, false, ◌&&◌, ◌==◌, Option-cases,
  arith,
}
use utispace_chain.Pbft.Msg.{PrepareReq}
use utispace_chain.Pbft.State.{Net, World, State, Executed, block_cached, emit}
use utispace_chain.Pbft.Caches.{is_exist_prepare, add_sign_req, add_raw_prepare, add_prepare_req}
use utispace_chain.Pbft.Peers.{broadcast_msg}
use utispace_chain.Pbft.Leader.{get_leader}
use utispace_chain.Pbft.Sending.{check_sign, broadcast_sign_req, if_sent}
use utispace_chain.Pbft.ViewChange.{change_view_for_empty_block_without_lock}
use utispace_chain.Pbft.Prepare.{
  recv_future_block, is_from_leader, executed_prepare, send_sign, adopt_prepare, execute_block,
  execute_prepare, check_prepare, handle_prepare_msg,
}
use utispace_chain.Pbft.Handlers.Counted.{proposal, proposal-check_and_commit}

is_from_leader-get_leader :
    (req : PrepareReq) (s : State) → is_from_leader req s ≡ true → get_leader s ≡ some req.idx
unfolding is_from_leader
is_from_leader-get_leader req s h = ground arith

module _ (net : Net) (w : World) where
  proposal-send_sign :
      (req : PrepareReq) (s : State) → proposal (send_sign net w req s) ≡ proposal s
  unfolding send_sign broadcast_sign_req if_sent add_sign_req broadcast_msg
  proposal-send_sign req s = ground arith

  prepared-adopt_prepare :
      (req : PrepareReq) (s : State) → (adopt_prepare net w req s).prepare_cache ≡ req
  unfolding adopt_prepare
  prepared-adopt_prepare req s =
      ap (λ (p : ℕ × PrepareReq). p.1)
        (proposal-check_and_commit net w _ ∙ proposal-send_sign req _)
      ∙ unfold add_prepare_req in refl

  -- A block that was executed and is worth a round: unchanged, not an empty one that is left out,
  -- and sealed.
  abbrev pub Executable : PrepareReq → Executed → State → Type 0
  Executable req b s =
      (w.check_block_valid req.block_hash req.block ≡ some b)
      × (b.checked_hash ≡ req.block_hash)
      × (((b.pending_size == 0) && s.omit_empty_block) ≡ false)
      × (b.sealed ≡ true)

  execute_block_prepares :
      (req : PrepareReq) (b : Executed) (s : State)
      → (execute_block net w req b s).prepare_cache ≢ s.prepare_cache
      → (b.checked_hash ≡ req.block_hash)
        × (((b.pending_size == 0) && s.omit_empty_block) ≡ false)
        × (b.sealed ≡ true)
        × ((execute_block net w req b s).prepare_cache ≡ executed_prepare net w req b)
  unfolding execute_block change_view_for_empty_block_without_lock
  execute_block_prepares req b s h =
      let e =
        prepared-adopt_prepare (executed_prepare net w req b)
          (emit (block_cached b.real_hash) (record s { last_exec_finish_time = w.now })) in
      (ground (arith, h), ground (arith, h), ground (arith, h), ground (arith, h, e))

  execute_prepare_prepares :
      (req : PrepareReq) (s : State)
      → (execute_prepare net w req s).prepare_cache ≢ s.prepare_cache
      → (b : Executed) × Executable req b s
        × ((execute_prepare net w req s).prepare_cache ≡ executed_prepare net w req b)
  unfolding execute_prepare
  execute_prepare_prepares req s h =
      elim (Option-cases (w.check_block_valid req.block_hash req.block)) [
        | inl e ↦ absurd (h (rw (e, execute_prepare) refl))
        | inr (b, e) ↦
            let (same, kept, ok, is) =
              execute_block_prepares req b s (rw (e, execute_prepare) at h) in
            (b, (e, same, kept, ok), rw (e, execute_prepare) is)
      ]

  prepared-execute_block :
      (req : PrepareReq) (b : Executed) (s : State)
      → Executable req b s
      → (execute_block net w req b s).prepare_cache ≡ executed_prepare net w req b
  unfolding execute_block
  prepared-execute_block req b s (valid, same, kept, ok) =
      let e =
        prepared-adopt_prepare (executed_prepare net w req b)
          (emit (block_cached b.real_hash) (record s { last_exec_finish_time = w.now })) in
      ground (arith, same, kept, ok, e)

  prepared-execute_prepare :
      (req : PrepareReq) (b : Executed) (s : State)
      → Executable req b s
      → (execute_prepare net w req s).prepare_cache ≡ executed_prepare net w req b
  unfolding execute_prepare executed_prepare
  prepared-execute_prepare req b s x = rw (x.0, execute_prepare) (prepared-execute_block req b s x)

  prepared-recv_future_block :
      (from : ℕ) (req : PrepareReq) (s : State)
      → (recv_future_block from req s).prepare_cache ≡ s.prepare_cache
  unfolding recv_future_block
  prepared-recv_future_block from req s = ground arith

  -- The states in which a change of the prepared block can begin.
  changed_behind_guards :
      (from : ℕ) (req : PrepareReq) (self : Bool) (s : State)
      → (handle_prepare_msg net w from req self s).prepare_cache ≢ s.prepare_cache
      → (is_from_leader req (add_raw_prepare req s) ≡ true)
        × (check_sign net req.msg ≡ true)
        × (req.height ≡ s.consensus_block_number)
        × (req.view ≡ s.view)
        × (handle_prepare_msg net w from req self s
            ≡ execute_prepare net w req (add_raw_prepare req s))
  unfolding handle_prepare_msg check_prepare add_raw_prepare
  changed_behind_guards from req self s h =
      let e = prepared-recv_future_block from req s in
      (
        ground (arith, h, e),
        ground (arith, h, e),
        ground (arith, h, e),
        ground (arith, h, e),
        ground (arith, h, e),
      )

  -- If `handlePrepareMsg` replaces the prepared block, then the request is of the present leader,
  -- passes `checkSign`, and is for the height that the engine works on and the present view; its
  -- block was executed, came out as it was sent, is not an empty block that is to be left out, and
  -- was sealed; and the prepared block is the executed one under this node's own signature.
  pub prepared_behind_guards :
      (from : ℕ) (req : PrepareReq) (self : Bool) (s : State)
      → (handle_prepare_msg net w from req self s).prepare_cache ≢ s.prepare_cache
      → (get_leader s ≡ some req.idx)
        × (check_sign net req.msg ≡ true)
        × (req.height ≡ s.consensus_block_number)
        × (req.view ≡ s.view)
        × ((b : Executed) × Executable req b s
            × ((handle_prepare_msg net w from req self s).prepare_cache
                ≡ executed_prepare net w req b))
  unfolding add_raw_prepare get_leader
  prepared_behind_guards from req self s h =
      let (lead, signed, height, view, is) = changed_behind_guards from req self s h in
      (
        is_from_leader-get_leader req (add_raw_prepare req s) lead,
        signed,
        height,
        view,
        rw is (execute_prepare_prepares req (add_raw_prepare req s) (rw is at h)),
      )

  leads-is_from_leader :
      (req : PrepareReq) (s : State)
      → get_leader s ≡ some req.idx
      → is_from_leader req (add_raw_prepare req s) ≡ true
  unfolding is_from_leader add_raw_prepare get_leader
  leads-is_from_leader req s h = ground arith

  -- The leader's prepare request is taken up: if it is new, of another node, for the height that
  -- the engine works on and the present view, passes `checkSign`, does not compete with a committed
  -- block of its height, and its block executes as it was sent, is not an empty block that is to be
  -- left out, and is sealed, then the executed block is the prepared one.
  pub leader_prepare_adopted :
      (from : ℕ) (req : PrepareReq) (b : Executed) (s : State)
      → is_exist_prepare req s ≡ false
      → req.idx ≢ s.node_idx
      → req.height ≡ s.consensus_block_number
      → req.view ≡ s.view
      → get_leader s ≡ some req.idx
      → (req.height ≢ s.committed_prepare_cache.height)
        ⊎ (req.block_hash ≡ s.committed_prepare_cache.block_hash)
      → check_sign net req.msg ≡ true
      → Executable req b s
      → (handle_prepare_msg net w from req false s).prepare_cache ≡ executed_prepare net w req b
  unfolding handle_prepare_msg check_prepare add_raw_prepare
  leader_prepare_adopted from req b s new other height view leads free signed x =
      let i = leads-is_from_leader req s leads in
      let e = prepared-execute_prepare req b (add_raw_prepare req s) x in
      ground (arith, i, e, free, signed, new)
