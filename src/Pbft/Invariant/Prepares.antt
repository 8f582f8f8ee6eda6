-- ===== src/Pbft/Invariant/Prepares.antt =====
-- The handlers of the prepare, sign and commit requests keep the invariant, libpbftseal/PBFT.cpp.
use utispace_chain.Prelude.{
  ℕ, ◌≡◌, refl, Bool, true, false, inl, inr, Bool-cases, Option-cases, arith,
}
use utispace_chain.Pbft.Msg.{PbftMsg, PrepareReq, invalid256, no_prepare}
use utispace_chain.Pbft.State.{Net, World, State, Executed, block_cached, emit}
use utispace_chain.Pbft.Caches.{add_raw_prepare}
use utispace_chain.Pbft.Sending.{check_sign}
use utispace_chain.Pbft.Prepare.{
  recv_future_block, executed_prepare, send_sign, adopt_prepare, execute_block, execute_prepare,
  check_prepare, handle_prepare_msg, handle_future_block, re_handle_prepare_req,
}
use utispace_chain.Pbft.Handlers.{
  Request, prepare_req, sign_req, commit_req, view_change_req, Packet, decoded, unknown_id,
  undecodable, handle_sign_msg, handle_commit_msg, dispatch, relay, relay_filter, key_of,
  packet_id_of, body_of, handle_msg,
}
use utispace_chain.Pbft.Invariant.{core, Inv}
use utispace_chain.Pbft.Invariant.Sends.{
  core-Inv, broadcast_msg-Inv, clear_mask-Inv, check_sign-Signed, add_sign_req-Inv,
  add_commit_req-Inv, add_prepare_req-Inv, broadcast_sign_req-Inv,
}
use utispace_chain.Pbft.Invariant.Commits.{check_and_save-Inv, check_and_commit-Inv}
use utispace_chain.Pbft.Invariant.Views.{
  change_view_for_empty_block_without_lock-Inv, handle_view_change_msg-Inv,
}

module _ (net : Net) where
  emit_cached-Inv : (h : ℕ) (s : State) → Inv net s → Inv net (emit (block_cached h) s)
  unfolding Inv
  emit_cached-Inv h s v = record {
    configured = v.configured;
    cycle = v.cycle;
    signs = v.signs;
    commits = v.commits;
    changes = v.changes;
    sealed = (tt, v.sealed);
  }

  core-recv_future_block :
      (from : ℕ) (req : PrepareReq) (s : State) → core (recv_future_block from req s) ≡ core s
  unfolding recv_future_block
  core-recv_future_block from req s = ground arith

  core-add_raw_prepare : (req : PrepareReq) (s : State) → core (add_raw_prepare req s) ≡ core s
  unfolding add_raw_prepare
  core-add_raw_prepare req s = refl

  recv_future_block-Inv :
      (from : ℕ) (req : PrepareReq) (s : State) → Inv net s → Inv net (recv_future_block from req s)
  recv_future_block-Inv from req s v = core-Inv net _ s (core-recv_future_block from req s) v

  module _ (w : World) where
    send_sign-Inv : (req : PrepareReq) (s : State) → Inv net s → Inv net (send_sign net w req s)
    unfolding send_sign
    send_sign-Inv req s v = ground (arith, v, broadcast_sign_req-Inv net w req s v)

    pub adopt_prepare-Inv :
        (req : PrepareReq) (s : State) → Inv net s → Inv net (adopt_prepare net w req s)
    unfolding adopt_prepare
    adopt_prepare-Inv req s v =
        check_and_commit-Inv net w _ (send_sign-Inv req _ (add_prepare_req-Inv net req s v))

    execute_block-Inv :
        (req : PrepareReq) (b : Executed) (s : State)
        → Inv net s
        → Inv net (execute_block net w req b s)
    unfolding execute_block
    execute_block-Inv req b s v =
        let u = core-Inv net (record s { last_exec_finish_time = w.now }) s refl v in
        let c = emit_cached-Inv b.real_hash _ u in
        ground (
          arith,
          v,
          change_view_for_empty_block_without_lock-Inv net _ u,
          c,
          adopt_prepare-Inv (executed_prepare net w req b) _ c,
        )

    execute_prepare-Inv :
        (req : PrepareReq) (s : State) → Inv net s → Inv net (execute_prepare net w req s)
    unfolding execute_prepare
    execute_prepare-Inv req s v =
        elim (Option-cases (w.check_block_valid req.block_hash req.block)) [
          | inl e ↦ rw (e, execute_prepare) v
          | inr (b, e) ↦ rw (e, execute_prepare) (execute_block-Inv req b s v)
        ]

    check_prepare-Inv :
        (req : PrepareReq) (s : State) → Inv net s → Inv net (check_prepare net w req s)
    unfolding check_prepare
    check_prepare-Inv req s v = ground (arith, v, execute_prepare-Inv req s v)

    pub handle_prepare_msg-Inv :
        (from : ℕ) (req : PrepareReq) (self : Bool) (s : State)
        → Inv net s
        → Inv net (handle_prepare_msg net w from req self s)
    unfolding handle_prepare_msg
    handle_prepare_msg-Inv from req self s v = ground (
      arith,
      v,
      recv_future_block-Inv from req s v,
      check_prepare-Inv req _
          (core-Inv net (add_raw_prepare req s) s (core-add_raw_prepare req s) v),
    )

    pub handle_future_block-Inv : (s : State) → Inv net s → Inv net (handle_future_block net w s)
    unfolding handle_future_block
    handle_future_block-Inv s v =
        let (from, req) = s.future_prepare_cache in
        let u = handle_prepare_msg-Inv from req false s v in
        ground (
          arith,
          v,
          core-Inv net
              (record (handle_prepare_msg net w from req false s) {
                future_prepare_cache = (invalid256, no_prepare);
              })
              _ refl u,
        )

    pub re_handle_prepare_req-Inv :
        (old : PrepareReq) (s : State) → Inv net s → Inv net (re_handle_prepare_req net w old s)
    unfolding re_handle_prepare_req
    re_handle_prepare_req-Inv old s v =
        handle_prepare_msg-Inv _ _ true _ (broadcast_msg-Inv net _ _ _ _ _ (clear_mask-Inv net s v))

    pub handle_sign_msg-Inv :
        (req : PbftMsg) (s : State) → Inv net s → Inv net (handle_sign_msg net w req s)
    unfolding handle_sign_msg
    handle_sign_msg-Inv req s v = elim (Bool-cases (check_sign net req)) [
      | inl ok ↦
          let u = add_sign_req-Inv net req s (check_sign-Signed net req ok) v in
          ground (arith, v, u, check_and_commit-Inv net w _ u)
      | inr bad ↦ ground (arith, v)
    ]

    pub handle_commit_msg-Inv :
        (req : PbftMsg) (s : State) → Inv net s → Inv net (handle_commit_msg net w req s)
    unfolding handle_commit_msg
    handle_commit_msg-Inv req s v = elim (Bool-cases (check_sign net req)) [
      | inl ok ↦
          let u = add_commit_req-Inv net req s (check_sign-Signed net req ok) v in
          ground (arith, v, u, check_and_save-Inv net _ u)
      | inr bad ↦ ground (arith, v)
    ]

    dispatch-Inv :
        (from : ℕ) (r : Request) (s : State) → Inv net s → Inv net (dispatch net w from r s)
    unfolding dispatch
    dispatch-Inv from (prepare_req r) s v = handle_prepare_msg-Inv from r false s v
    dispatch-Inv from (sign_req m) s v = handle_sign_msg-Inv m s v
    dispatch-Inv from (commit_req m) s v = handle_commit_msg-Inv m s v
    dispatch-Inv from (view_change_req m) s v = handle_view_change_msg-Inv net w m s v

    relay-Inv : (node : ℕ) (r : Request) (s : State) → Inv net s → Inv net (relay net w node r s)
    unfolding relay
    relay-Inv node r s v = ground (
      arith,
      v,
      broadcast_msg-Inv net (key_of r) (packet_id_of r) (body_of r)
          (relay_filter net w node (body_of r).msg) s v,
    )

    pub handle_msg-Inv :
        (from node : ℕ) (p : Packet) (s : State)
        → Inv net s
        → Inv net (handle_msg net w from node p s)
    unfolding handle_msg
    handle_msg-Inv from node (decoded r) s v = relay-Inv node r _ (dispatch-Inv from r s v)
    handle_msg-Inv from node unknown_id s v = v
    handle_msg-Inv from node undecodable s v = v
