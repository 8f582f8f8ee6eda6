-- ===== src/Pbft/ViewChange.antt =====
-- View changes: `checkAndChangeView`, `checkTimeout`, `handleViewChangeMsg` and the changes for an
-- empty block, of libpbftseal/PBFT.cpp.
pub mod Counting
pub mod Entering
use utispace_chain.Prelude.{
  ℕ, ◌+◌, ◌-◌, ◌%◌, ◌^◌, List, [], ◌∷◌, Option, none, some, Bool, true, false, not, ◌&&◌, ◌||◌, ltb,
  leb, ◌==◌, if◌then◌else◌, length, keep, min, max,
}
use utispace_chain.Prelude.Map.{Map, at, touch, modify, find, insert, has}
use utispace_chain.Pbft.Msg.{PbftMsg, PrepareReq, add256, sub256, clear_prepare, invalid256}
use utispace_chain.Pbft.State.{Net, World, State, Event, view_changed, emit}
use utispace_chain.Pbft.Peers.{clear_mask}
use utispace_chain.Pbft.Caches.{Cache, is_exist_view_change, put_msg, is_current}
use utispace_chain.Pbft.Leader.{quorum}
use utispace_chain.Pbft.Sending.{check_sign, broadcast_view_change_req}

-- The loop that erases the requests for the view that is reached and those below it.
unfoldable pub above_view : ℕ → ℕ × Map PbftMsg → Bool
above_view v (k, inner) = ltb v k

-- What `checkAndChangeView` does when the requests are enough, but for the peers' masks.
unfoldable pub new_view : State → State
new_view s = record s {
  leader_failed = false;
  view = s.to_view;
  raw_prepare_cache = clear_prepare s.raw_prepare_cache;
  prepare_cache = clear_prepare s.prepare_cache;
  sign_cache = [];
  commit_cache = [];
  recv_view_change_req = keep (above_view s.to_view) s.recv_view_change_req;
}

unfoldable pub enter_view : State → State
enter_view s = clear_mask (new_view s)

-- `checkAndChangeView`
unfoldable pub check_and_change_view : State → State
check_and_change_view s =
    let s' : State = record s {
      recv_view_change_req = touch [] s.to_view s.recv_view_change_req;
    } in
    if leb (sub256 (quorum s) 1) (length (at [] s.to_view s.recv_view_change_req))
    then enter_view s'
    else s'

-- The two functions `changeViewForEmptyBlock…`.
unfoldable pub change_view_for_empty_block_without_lock : State → State
change_view_for_empty_block_without_lock s = record s {
  last_consensus_time = 0;
  last_sign_time = 0;
  change_cycle = 0;
  empty_block_flag = true;
}

unfoldable pub change_view_for_empty_block_with_lock : State → State
change_view_for_empty_block_with_lock s = record s {
  last_consensus_time = 0;
  last_sign_time = 0;
  change_cycle = 0;
  empty_block_flag = true;
  leader_failed = true;
}

abbrev pub max_change_cycle : ℕ
max_change_cycle = 20

module _ (w : World) where
  -- Whether the time since the last progress has reached the timeout of the present cycle.
  -- Unsigned subtraction wraps when the clock is behind.
  unfoldable pub timed_out : State → Bool
  timed_out s =
      leb (w.interval s.view_timeout s.change_cycle)
        ((w.now + 2 ^ 64 - max s.last_consensus_time s.last_sign_time) % 2 ^ 64)

  -- The state of a node that has given up on the present view.
  unfoldable pub start_view_change : State → State
  start_view_change s =
      let v = add256 s.to_view 1 in
      record s {
        leader_failed = true;
        to_view = v;
        change_cycle = min (s.change_cycle + 1) max_change_cycle;
        last_consensus_time = w.now;
        recv_view_change_req =
            modify v (keep (is_current s.highest_block)) (touch [] v s.recv_view_change_req);
      }

module _ (net : Net) (w : World) where
  -- `checkTimeout`. Without a host the broadcast fails, and the function returns at once.
  unfoldable pub check_timeout : State → State
  check_timeout s =
      if not (timed_out w s)
      then s
      else let (s', sent) = broadcast_view_change_req net w (start_view_change w s) in
        if sent then emit view_changed (check_and_change_view s') else s'

-- The variables of the loops in `handleViewChangeMsg`.
pub record Scan : Type 0 where
  pub idx_view_map : Map ℕ
  pub min_view : ℕ
  pub min_height : ℕ

abbrev pub scan_start : Scan
scan_start = record { idx_view_map = []; min_view = invalid256; min_height = invalid256 }

-- `!found || it->first > idx_view_map[it2->first]`
unfoldable pub is_newer : ℕ → ℕ → Map ℕ → Bool
is_newer v i m = elim (find i m) [ none ↦ true | some v' ↦ ltb v' v ]

-- The body of the inner loop, at the request `m` of node `i` for view `v`.
unfoldable pub scan_entry : ℕ → ℕ → ℕ × PbftMsg → Scan → Scan
scan_entry highest v (i, m) a =
    if leb highest m.height && is_newer v i a.idx_view_map
    then record {
      idx_view_map = insert i v a.idx_view_map;
      min_view = if ltb v a.min_view then v else a.min_view;
      min_height = if ltb m.height a.min_height then m.height else a.min_height;
    }
    else a

unfoldable pub scan_inner : ℕ → ℕ → Map PbftMsg → Scan → Scan
scan_inner highest v [] a = a
scan_inner highest v (e ∷ es) a = scan_inner highest v es (scan_entry highest v e a)

unfoldable pub scan : ℕ → ℕ → Cache → Scan → Scan
scan highest to_view [] a = a
scan highest to_view ((v, inner) ∷ c) a =
    scan highest to_view c (if ltb to_view v then scan_inner highest v inner a else a)

unfoldable pub scan_state : State → Scan
unfolding scan
scan_state s = scan s.highest_block.number s.to_view s.recv_view_change_req scan_start

-- `flag`: the lowest of the requests is about the block that this node has committed and not saved.
unfoldable pub is_saving : State → Scan → Bool
is_saving s a =
    (a.min_height == s.consensus_block_number) && (a.min_height == s.committed_prepare_cache.height)

-- The fast start of a view change, when more than `f` nodes are ahead.
unfoldable pub fast_start : State → State
fast_start s =
    let a = scan_state s in
    if ltb s.f (length a.idx_view_map) && not (is_saving s a)
    then record s { last_consensus_time = 0; last_sign_time = 0; to_view = sub256 a.min_view 1 }
    else s

-- The request is stored, and either completes the view change or may start one.
unfoldable pub accept_view_change : PbftMsg → State → State
accept_view_change req s =
    let s' : State = record s {
      recv_view_change_req = put_msg req.view req.idx req s.recv_view_change_req;
    } in
    if req.view == s.to_view then check_and_change_view s' else fast_start s'

module _ (net : Net) (w : World) where
  -- The guards of `handleViewChangeMsg` behind the answer to a node that lags behind.
  unfoldable pub is_acceptable : PbftMsg → State → Bool
  is_acceptable req s =
      if ltb req.height s.highest_block.number || leb req.view s.view
      then false
      else if (req.height == s.highest_block.number)
          && (not (req.block_hash == s.highest_block.hash) && not (w.has_block req.block_hash))
      then false
      else check_sign net req

  -- A node that lags behind is sent this node's own request, to move it on.
  unfoldable pub answer_lagging : PbftMsg → State → State
  answer_lagging req s =
      if ltb (add256 req.view 1) s.to_view then (broadcast_view_change_req net w s).0 else s

  -- `handleViewChangeMsg`
  unfoldable pub handle_view_change_msg : PbftMsg → State → State
  handle_view_change_msg req s =
      if is_exist_view_change req s
      then s
      else if req.idx == s.node_idx
      then s
      else let s' = answer_lagging req s in
        if is_acceptable req s' then accept_view_change req s' else s'
