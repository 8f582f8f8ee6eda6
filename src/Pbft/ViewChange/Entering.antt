-- ===== src/Pbft/ViewChange/Entering.antt =====
-- When a view ends: `checkAndChangeView` and `checkTimeout` of libpbftseal/PBFT.cpp.
use utispace_chain.Prelude.{
  ℕ, ◌+◌, ◌-◌, ◌≤◌, ◌<◌, ◌≡◌, ◌⊎◌, refl, ap, inl, inr, List, [], none, some, Option, Option-cases,
  Bool-cases, map, true, false, leb, length, keep, keep-All, All, All-map_imp, min, arith,
}
use utispace_chain.Prelude.Map.{Map, at, touch}
use utispace_chain.Pbft.Msg.{PbftMsg, PrepareReq, cleared, add256, sub256}
use utispace_chain.Pbft.State.{Net, World, State, Peer}
use utispace_chain.Pbft.Peers.{broadcast_msg, clear_known, clear_mask}
use utispace_chain.Pbft.Leader.{quorum}
use utispace_chain.Pbft.Leader.Quorum.{Configured, quorum_value}
use utispace_chain.Pbft.Sending.{broadcast_view_change_req, reset_empty_flag}
use utispace_chain.Pbft.ViewChange.{
  above_view, new_view, enter_view, check_and_change_view, max_change_cycle, timed_out,
  start_view_change, check_timeout,
}

-- The requests of other nodes for the wanted view.
abbrev pub asking : State → ℕ
asking s = length (at [] s.to_view s.recv_view_change_req)

-- What the engine forgets when it enters the view `v`, and what it keeps.
pub record Entered (v : ℕ) (p : PrepareReq) (t : State) : Type 0 where
  pub view : t.view ≡ v
  pub to_view : t.to_view ≡ v
  pub leads : t.leader_failed ≡ false
  pub raw : t.raw_prepare_cache.msg ≡ cleared
  pub prepared : t.prepare_cache.msg ≡ cleared
  pub committed : t.committed_prepare_cache ≡ p
  pub signs : t.sign_cache ≡ []
  pub commits : t.commit_cache ≡ []
  pub later : All (λ e. v < e.0) t.recv_view_change_req

later_views : (v : ℕ) (c : Map (Map PbftMsg)) → All (λ e. v < e.0) (keep (above_view v) c)
unfolding above_view
later_views v c = All-map_imp _ _ (λ e h. ground (arith, h)) c' (keep-All (above_view v) c)
  where
    c' : Map (Map PbftMsg)
    c' = keep (above_view v) c

new_view-Entered : (s : State) → Entered s.to_view s.committed_prepare_cache (new_view s)
unfolding new_view
new_view-Entered s = record {
  view = refl;
  to_view = refl;
  leads = refl;
  raw = refl;
  prepared = refl;
  committed = refl;
  signs = refl;
  commits = refl;
  later = later_views s.to_view s.recv_view_change_req;
}

-- `clearMask` changes the peers only.
only_host : (s : State) → (h : Option (List Peer)) × (clear_mask s ≡ record s { host = h })
unfolding clear_mask
only_host s = elim (Option-cases s.host) [
  | inl e ↦ (none, rw (e, clear_mask) (ap (λ (h : Option (List Peer)). record s { host = h }) e))
  | inr (peers, e) ↦ (some (map clear_known peers), rw (e, clear_mask) refl)
]

Entered-host :
    (v : ℕ) (p : PrepareReq) (t : State) (h : Option (List Peer))
    → Entered v p t
    → Entered v p (record t { host = h })
Entered-host v p t h e = record {
  view = e.view;
  to_view = e.to_view;
  leads = e.leads;
  raw = e.raw;
  prepared = e.prepared;
  committed = e.committed;
  signs = e.signs;
  commits = e.commits;
  later = e.later;
}

enter_view-Entered : (s : State) → Entered s.to_view s.committed_prepare_cache (enter_view s)
unfolding enter_view
enter_view-Entered s =
    let (h, e) = only_host (new_view s) in
    rw e (Entered-host _ _ (new_view s) h (new_view-Entered s))

-- What `m_recv_view_change_req[m_to_view]` leaves.
abbrev pub looked_up : State → State
looked_up s = record s { recv_view_change_req = touch [] s.to_view s.recv_view_change_req }

-- In a configured engine whose configuration is not marked as wrong, `checkAndChangeView` enters
-- the wanted view exactly if the requests of other nodes for it, with this node itself, reach the
-- quorum: then the leader counts as working, the prepared blocks and the sign and commit caches are
-- cleared, only requests for later views are left, and the committed block is kept. Otherwise
-- nothing changes but for the empty entry that looking up the requests creates.
pub check_and_change_view_cases :
    (s : State)
    → Configured s
    → s.cfg_err ≡ false
    → ((quorum s ≤ asking s + 1)
        × Entered s.to_view s.committed_prepare_cache (check_and_change_view s))
      ⊎ ((asking s + 1 < quorum s) × (check_and_change_view s ≡ looked_up s))
unfolding check_and_change_view
check_and_change_view_cases s c ok = elim (Bool-cases (leb (sub256 (quorum s) 1) (asking s))) [
  | inl e ↦ inl (
    ground (arith, e, q, c.faults, c.some_node, c.small),
    rw e (enter_view-Entered (looked_up s)),
  )
  | inr e ↦ inr (ground (arith, e, q, c.faults, c.some_node, c.small), rw e refl)
]
  where
    q : quorum s ≡ s.node_num - s.f
    q = quorum_value s c

-- The members that the timer works with.
abbrev pace : State → ℕ × ℕ × ℕ × ℕ × ℕ
pace s = (s.to_view, s.change_cycle, s.last_consensus_time, s.last_sign_time, s.view_timeout)

pace-clear_mask : (s : State) → pace (clear_mask s) ≡ pace s
unfolding clear_mask
pace-clear_mask s = ground arith

pace-check_and_change_view : (s : State) → pace (check_and_change_view s) ≡ pace s
unfolding check_and_change_view enter_view new_view
pace-check_and_change_view s = ground (arith, pace-clear_mask (new_view (looked_up s)))

module _ (net : Net) (w : World) where
  pace-broadcast_view_change_req : (s : State) → pace (broadcast_view_change_req net w s).0 ≡ pace s
  unfolding broadcast_view_change_req reset_empty_flag broadcast_msg
  pace-broadcast_view_change_req s = ground arith

  pace-check_timeout :
      (s : State)
      → timed_out w s ≡ true
      → pace (check_timeout net w s) ≡ pace (start_view_change w s)
  unfolding check_timeout
  pace-check_timeout s late =
      let t = (broadcast_view_change_req net w (start_view_change w s)).0 in
      ground (
        arith,
        late,
        pace-broadcast_view_change_req (start_view_change w s),
        pace-check_and_change_view t,
      )

  -- When the timer has run out, the last signature is not from the future and the timeout of the
  -- new cycle is positive, `checkTimeout` raises the wanted view by one, modulo 2^256, and the
  -- change cycle by one up to 20, whether or not the broadcast succeeds, and the timer is running
  -- again.
  pub check_timeout_escalates :
      (s : State)
      → timed_out w s ≡ true
      → s.last_sign_time ≤ w.now
      → 0 < w.interval s.view_timeout (min (s.change_cycle + 1) max_change_cycle)
      → ((check_timeout net w s).to_view ≡ add256 s.to_view 1)
        × ((check_timeout net w s).change_cycle ≡ min (s.change_cycle + 1) max_change_cycle)
        × (timed_out w (check_timeout net w s) ≡ false)
  unfolding start_view_change timed_out
  check_timeout_escalates s late past positive =
      let e = pace-check_timeout s late in
      (ground (arith, e), ground (arith, e), ground (arith, e, past, positive))
