-- ===== src/Pbft/Engine/Progress.antt =====
-- The view and the wanted view through every call of the engine, libpbftseal/PBFT.cpp.
use utispace_chain.Prelude.{ℕ, ◌≤◌, ◌<◌, ◌≡◌, ◌≢◌, ◌⊎◌, refl, ◌∙◌, List, [], true, false, arith}
use utispace_chain.Prelude.Map.{touch}
use utispace_chain.Pbft.Msg.{PbftMsg, PrepareReq, invalid256}
use utispace_chain.Pbft.State.{Net, World, State, Header}
use utispace_chain.Pbft.Caches.{
  put_msg, add_prepare_req, del_cache, del_view_change, collect_garbage,
}
use utispace_chain.Pbft.Sending.{own_prepare, broadcast_sign_req, broadcast_view_change_req}
use utispace_chain.Pbft.ViewChange.{
  new_view, enter_view, check_and_change_view, change_view_for_empty_block_without_lock,
  change_view_for_empty_block_with_lock, start_view_change, check_timeout, accept_view_change,
  answer_lagging, handle_view_change_msg,
}
use utispace_chain.Pbft.ViewChange.Counting.{fast_start_forward}
use utispace_chain.Pbft.Prepare.{handle_future_block, re_handle_prepare_req}
use utispace_chain.Pbft.Handlers.{
  Request, prepare_req, sign_req, commit_req, view_change_req, Packet, decoded, unknown_id,
  undecodable, dispatch, relay, relay_filter, key_of, packet_id_of, body_of, handle_msg,
}
use utispace_chain.Pbft.Engine.{
  generate_seal, generate_commit, watch_leader, lead, should_seal, next_height, advance,
  report_block, Step, message, timer, future, garbage, seal, commit, poll, report, empty_block,
  empty_block_unlocked, start_generation, start, omit_empty,
}
use utispace_chain.Pbft.Engine.Forward.{
  views, views-clear_mask, views-broadcast_msg, views-reset_config, views-broadcast_sign_req,
  views-broadcast_prepare_req, views-broadcast_view_change_req, views-check_and_commit,
  views-handle_prepare_msg, views-handle_sign_msg, views-handle_commit_msg,
}

-- The wanted view is the view or a later one.
abbrev pub IsAhead : ℕ × ℕ → Type 0
IsAhead (view, to_view) = view ≤ to_view

views-enter_view : (s : State) → views (enter_view s) ≡ (s.to_view, s.to_view)
unfolding enter_view new_view
views-enter_view s = views-clear_mask _

-- `checkAndChangeView` moves the view to the wanted one, or leaves both as they are.
views-check_and_change_view :
    (s : State)
    → ((check_and_change_view s).to_view ≡ s.to_view)
      × (((check_and_change_view s).view ≡ s.view) ⊎ ((check_and_change_view s).view ≡ s.to_view))
unfolding check_and_change_view
views-check_and_change_view s = ground (
  arith,
  views-enter_view (record s { recv_view_change_req = touch [] s.to_view s.recv_view_change_req }),
)

accept_view_change-ahead :
    (m : PbftMsg) (s : State)
    → s.view ≤ s.to_view
    → s.to_view < invalid256
    → (accept_view_change m s).view ≤ (accept_view_change m s).to_view
unfolding accept_view_change
accept_view_change-ahead m s h small =
    let t = record s { recv_view_change_req = put_msg m.view m.idx m s.recv_view_change_req } in
    ground (arith, views-check_and_change_view t, fast_start_forward t small)

module _ (net : Net) (w : World) where
  check_timeout-ahead :
      (s : State)
      → s.view ≤ s.to_view
      → s.to_view < invalid256
      → (check_timeout net w s).view ≤ (check_timeout net w s).to_view
  unfolding check_timeout start_view_change
  check_timeout-ahead s h small =
      let t = (broadcast_view_change_req net w (start_view_change w s)).0 in
      ground (
        arith,
        views-broadcast_view_change_req net w (start_view_change w s),
        views-check_and_change_view t,
      )

  views-answer_lagging : (m : PbftMsg) (s : State) → views (answer_lagging net w m s) ≡ views s
  unfolding answer_lagging
  views-answer_lagging m s = ground (arith, views-broadcast_view_change_req net w s)

  handle_view_change_msg-ahead :
      (m : PbftMsg) (s : State)
      → s.view ≤ s.to_view
      → s.to_view < invalid256
      → (handle_view_change_msg net w m s).view ≤ (handle_view_change_msg net w m s).to_view
  unfolding handle_view_change_msg
  handle_view_change_msg-ahead m s h small =
      let t = answer_lagging net w m s in
      let e = views-answer_lagging m s in
      ground (arith, e, accept_view_change-ahead m t (ground (arith, e)) (ground (arith, e)))

  views-handle_future_block : (s : State) → views (handle_future_block net w s) ≡ views s
  unfolding handle_future_block
  views-handle_future_block s =
      let (from, req) = s.future_prepare_cache in
      ground (arith, views-handle_prepare_msg net w from req false s)

  views-generate_commit :
      (number hash : ℕ) (block : List ℕ) (view : ℕ) (s : State)
      → views (generate_commit net w number hash block view s).0 ≡ views s
  unfolding generate_commit add_prepare_req
  views-generate_commit number hash block view s =
      let req = own_prepare net w number view hash block s in
      let t = (broadcast_sign_req net w req (add_prepare_req req s)).0 in
      ground (
        arith,
        views-broadcast_sign_req net w req (add_prepare_req req s),
        views-check_and_commit net w t,
      )

  views-re_handle_prepare_req :
      (old : PrepareReq) (s : State) → views (re_handle_prepare_req net w old s) ≡ views s
  unfolding re_handle_prepare_req
  views-re_handle_prepare_req old s =
      views-handle_prepare_msg net w _ _ true _
      ∙ views-broadcast_msg net _ _ _ _ _
      ∙ views-clear_mask s

  views-should_seal : (s : State) → views (should_seal net w s).0 ≡ views s
  unfolding should_seal watch_leader lead
  views-should_seal s = ground (arith, views-re_handle_prepare_req s.committed_prepare_cache s)

  views-relay : (node : ℕ) (r : Request) (s : State) → views (relay net w node r s) ≡ views s
  unfolding relay
  views-relay node r s = ground (
    arith,
    views-broadcast_msg net (key_of r) (packet_id_of r) (body_of r)
        (relay_filter net w node (body_of r).msg) s,
  )

  -- A prepare, sign or commit request, whatever it holds, leaves the view and the wanted view as
  -- they are.
  pub views-dispatch :
      (from : ℕ) (r : Request) (s : State)
      → ((m : PbftMsg) → r ≢ view_change_req m)
      → views (dispatch net w from r s) ≡ views s
  unfolding dispatch
  views-dispatch from (prepare_req r) s h = views-handle_prepare_msg net w from r false s
  views-dispatch from (sign_req m) s h = views-handle_sign_msg net w m s
  views-dispatch from (commit_req m) s h = views-handle_commit_msg net w m s
  views-dispatch from (view_change_req m) s h = absurd (h m refl)

  views-report_block :
      (b : Header) (s : State)
      → (views (report_block net w b s) ≡ views s) ⊎ (views (report_block net w b s) ≡ (0, 0))
  unfolding report_block del_cache advance del_view_change next_height
  views-report_block b s = ground (arith, views-reset_config net (advance w b s))

  handle_msg-ahead :
      (from node : ℕ) (p : Packet) (s : State)
      → s.view ≤ s.to_view
      → s.to_view < invalid256
      → (handle_msg net w from node p s).view ≤ (handle_msg net w from node p s).to_view
  unfolding handle_msg dispatch
  handle_msg-ahead from node (decoded r) s h small =
      ground (arith, views-relay node r (dispatch net w from r s), dispatched r)
    where
      dispatched : (r : Request) → IsAhead (views (dispatch net w from r s))
      dispatched (view_change_req m) = handle_view_change_msg-ahead m s h small
      dispatched (prepare_req r) = ground (arith, views-handle_prepare_msg net w from r false s)
      dispatched (sign_req m) = ground (arith, views-handle_sign_msg net w m s)
      dispatched (commit_req m) = ground (arith, views-handle_commit_msg net w m s)
  handle_msg-ahead from node unknown_id s h small = h
  handle_msg-ahead from node undecodable s h small = h

-- Whatever call of the engine is made, if the wanted view was not behind the view before it and
-- below the largest number of 256 bits, then it is not behind the view after it.
pub Step-ahead :
    {net : Net} {s t : State}
    → Step net s t
    → s.view ≤ s.to_view
    → s.to_view < invalid256
    → t.view ≤ t.to_view
unfolding generate_seal start_generation collect_garbage change_view_for_empty_block_with_lock
    change_view_for_empty_block_without_lock
Step-ahead {net} (message w from node p s) h small = handle_msg-ahead net w from node p s h small
Step-ahead {net} (timer w s) h small = check_timeout-ahead net w s h small
Step-ahead {net} (future w s) h small = ground (arith, views-handle_future_block net w s)
Step-ahead {net} (garbage w s) h small = ground arith
Step-ahead {net} (seal w number hash block s) h small =
    ground (arith, views-broadcast_prepare_req net w number hash block s)
Step-ahead {net} (commit w number hash block view s) h small =
    ground (arith, views-generate_commit net w number hash block view s)
Step-ahead {net} (poll w s) h small = ground (arith, views-should_seal net w s)
Step-ahead {net} (report w b s) h small = ground (arith, views-report_block net w b s)
Step-ahead {net} (start w s) h small =
    ground (arith, views-reset_config net (record s { last_consensus_time = w.now }))
Step-ahead {net} (omit_empty flag s) h small = h
Step-ahead {net} (empty_block s) h small = h
Step-ahead {net} (empty_block_unlocked s) h small = h
