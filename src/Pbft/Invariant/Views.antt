-- ===== src/Pbft/Invariant/Views.antt =====
-- View changes keep the invariant, libpbftseal/PBFT.cpp.
use utispace_chain.Prelude.{◌≡◌, refl, [], true, All-keep, arith}
use utispace_chain.Prelude.Map.{touch}
use utispace_chain.Pbft.Msg.{PbftMsg}
use utispace_chain.Pbft.State.{Net, World, State, emit, view_changed}
use utispace_chain.Pbft.Caches.{put_msg}
use utispace_chain.Pbft.Caches.Entries.{AllMsgs-touch, AllMsgs-put_msg, AllMsgs-modify_keep}
use utispace_chain.Pbft.Sending.{check_sign}
use utispace_chain.Pbft.ViewChange.{
  above_view, new_view, enter_view, answer_lagging, check_and_change_view,
  change_view_for_empty_block_without_lock, change_view_for_empty_block_with_lock,
  start_view_change, check_timeout, fast_start, is_acceptable, accept_view_change,
  handle_view_change_msg,
}
use utispace_chain.Pbft.Invariant.{core, Inv, FiledView}
use utispace_chain.Pbft.Invariant.Sends.{core-Inv, clear_mask-Inv, broadcast_view_change_req-Inv}

module _ (net : Net) where
  -- Everything that `checkAndChangeView` drops before it clears the peers' masks.
  entered-Inv : (s : State) → Inv net s → Inv net (new_view s)
  unfolding Inv new_view
  entered-Inv s v = record {
    configured = v.configured;
    cycle = v.cycle;
    signs = tt;
    commits = tt;
    changes = All-keep _ (above_view s.to_view) s.recv_view_change_req v.changes;
    sealed = v.sealed;
  }

  enter_view-Inv : (s : State) → Inv net s → Inv net (enter_view s)
  unfolding enter_view
  enter_view-Inv s v = clear_mask-Inv net _ (entered-Inv s v)

  touch_changes-Inv :
      (s : State)
      → Inv net s
      → Inv net (record s { recv_view_change_req = touch [] s.to_view s.recv_view_change_req })
  unfolding Inv
  touch_changes-Inv s v = record {
    configured = v.configured;
    cycle = v.cycle;
    signs = v.signs;
    commits = v.commits;
    changes = AllMsgs-touch (FiledView net) s.to_view s.recv_view_change_req v.changes;
    sealed = v.sealed;
  }

  pub check_and_change_view-Inv : (s : State) → Inv net s → Inv net (check_and_change_view s)
  unfolding check_and_change_view
  check_and_change_view-Inv s v =
      let u = touch_changes-Inv s v in ground (arith, u, enter_view-Inv _ u)

  pub change_view_for_empty_block_without_lock-Inv :
      (s : State) → Inv net s → Inv net (change_view_for_empty_block_without_lock s)
  unfolding Inv change_view_for_empty_block_without_lock
  change_view_for_empty_block_without_lock-Inv s v = record {
    configured = v.configured;
    cycle = omega arith;
    signs = v.signs;
    commits = v.commits;
    changes = v.changes;
    sealed = v.sealed;
  }

  pub change_view_for_empty_block_with_lock-Inv :
      (s : State) → Inv net s → Inv net (change_view_for_empty_block_with_lock s)
  unfolding Inv change_view_for_empty_block_with_lock
  change_view_for_empty_block_with_lock-Inv s v = record {
    configured = v.configured;
    cycle = omega arith;
    signs = v.signs;
    commits = v.commits;
    changes = v.changes;
    sealed = v.sealed;
  }

  emit_view_changed-Inv : (s : State) → Inv net s → Inv net (emit view_changed s)
  unfolding Inv
  emit_view_changed-Inv s v = record {
    configured = v.configured;
    cycle = v.cycle;
    signs = v.signs;
    commits = v.commits;
    changes = v.changes;
    sealed = (tt, v.sealed);
  }

  core-fast_start : (s : State) → core (fast_start s) ≡ core s
  unfolding fast_start
  core-fast_start s = ground arith

  fast_start-Inv : (s : State) → Inv net s → Inv net (fast_start s)
  fast_start-Inv s v = core-Inv net _ s (core-fast_start s) v

  store_view_change-Inv :
      (req : PbftMsg) (s : State)
      → check_sign net req ≡ true
      → Inv net s
      → Inv net
          (record s { recv_view_change_req = put_msg req.view req.idx req s.recv_view_change_req })
  unfolding Inv
  store_view_change-Inv req s ok v = record {
    configured = v.configured;
    cycle = v.cycle;
    signs = v.signs;
    commits = v.commits;
    changes =
        AllMsgs-put_msg (FiledView net) req.view req.idx req s.recv_view_change_req (refl, refl, ok)
          v.changes;
    sealed = v.sealed;
  }

  module _ (w : World) where
    start_view_change-Inv : (s : State) → Inv net s → Inv net (start_view_change w s)
    unfolding Inv start_view_change
    start_view_change-Inv s v = record {
      configured = v.configured;
      cycle = omega arith;
      signs = v.signs;
      commits = v.commits;
      changes =
          AllMsgs-modify_keep (FiledView net) _ _ _
            (AllMsgs-touch (FiledView net) _ s.recv_view_change_req v.changes);
      sealed = v.sealed;
    }

    pub check_timeout-Inv : (s : State) → Inv net s → Inv net (check_timeout net w s)
    unfolding check_timeout
    check_timeout-Inv s v =
        let u = broadcast_view_change_req-Inv net w _ (start_view_change-Inv s v) in
        ground (arith, v, u, emit_view_changed-Inv _ (check_and_change_view-Inv _ u))

    is_acceptable-check_sign :
        (req : PbftMsg) (s : State) → is_acceptable net w req s ≡ true → check_sign net req ≡ true
    unfolding is_acceptable
    is_acceptable-check_sign req s h = ground arith

    accept_view_change-Inv :
        (req : PbftMsg) (s : State)
        → check_sign net req ≡ true
        → Inv net s
        → Inv net (accept_view_change req s)
    unfolding accept_view_change
    accept_view_change-Inv req s ok v =
        let u = store_view_change-Inv req s ok v in
        ground (arith, check_and_change_view-Inv _ u, fast_start-Inv _ u)

    answered-Inv : (req : PbftMsg) (s : State) → Inv net s → Inv net (answer_lagging net w req s)
    unfolding answer_lagging
    answered-Inv req s v = ground (arith, v, broadcast_view_change_req-Inv net w s v)

    pub handle_view_change_msg-Inv :
        (req : PbftMsg) (s : State) → Inv net s → Inv net (handle_view_change_msg net w req s)
    unfolding handle_view_change_msg
    handle_view_change_msg-Inv req s v =
        let u = answered-Inv req s v in
        ground (
          arith,
          v,
          u,
          is_acceptable-check_sign req (answer_lagging net w req s),
          accept_view_change-Inv req (answer_lagging net w req s),
        )
