-- ===== src/Pbft/Examples/Caches.antt =====
-- The caches, the peers and the early view change of libpbftseal/PBFT.cpp on single states.
use utispace_chain.Prelude.{◌*◌, ◌^◌, ℕ, ◌≤◌, ◌<◌, ◌≡◌, ◌≢◌, refl, [], ◌∷◌, All, length, arith}
use utispace_chain.Prelude.Map.{Map, find, insert}
use utispace_chain.QueueSet.{empty, size}
use utispace_chain.Pbft.Msg.{key_eq, sig_key, sign_req_packet}
use utispace_chain.Pbft.State.{State}
use utispace_chain.Pbft.Caches.{collect_garbage}
use utispace_chain.Pbft.Caches.Entries.{AllMsgs, NonEmpty}
use utispace_chain.Pbft.Caches.Garbage.{collect_garbage_clean}
use utispace_chain.Pbft.Peers.{broadcast_msg}
use utispace_chain.Pbft.Peers.Once.{IsBounded, sent_to, broadcast_once}
use utispace_chain.Pbft.Sending.{bare, sign_msg}
use utispace_chain.Pbft.ViewChange.{
  fast_start, scan_state, scan, scan_inner, scan_entry, is_newer, is_saving,
}
use utispace_chain.Pbft.ViewChange.Counting.{
  DistinctKeys, Eligible, fast_start_needs_more_than_faulty,
}
use utispace_chain.Pbft.Engine.{fresh_state}
use utispace_chain.Pbft.Examples.{four, world, genesis, ready}
use utispace_chain.Pbft.Examples.Branches.{m₁, m₂, complete}

-- Nodes 1 and 2 ask for views 5 and 6.
abbrev asked : State
asked = record ready {
  to_view = 0;
  recv_view_change_req = (5, (1, m₁) ∷ []) ∷ (6, (2, m₂) ∷ []) ∷ [];
}

abbrev IsVoter : ℕ → ℕ → Type 0
IsVoter i v = (i < 4) × (4 < v)

asked-Eligible : AllMsgs (Eligible IsVoter asked.highest_block.number 0) asked.recv_view_change_req
asked-Eligible =
    (((λ h e. (omega arith, omega arith)), tt), (((λ h e. (omega arith, omega arith)), tt), tt))

asked-moved : (fast_start asked).to_view ≢ 0
unfolding fast_start scan_state scan scan_inner scan_entry is_newer is_saving find insert
    fresh_state sign_msg
asked-moved = ground arith

fast_start_needs_more_than_faulty_example :
    (voters : Map ℕ) × DistinctKeys voters
    × (asked.f < length voters)
    × All (λ d. IsVoter d.0 d.1) voters
fast_start_needs_more_than_faulty_example =
    fast_start_needs_more_than_faulty IsVoter asked (omega arith) asked-Eligible asked-moved

abbrev stale : State
stale = record complete { highest_block = record genesis { number = 2 }; last_collect_time = 0 }

collect_garbage_clean_example :
    AllMsgs (λ k j m. 2 ≤ m.height) (collect_garbage world stale).sign_cache
    × AllMsgs (λ k j m. 2 ≤ m.height) (collect_garbage world stale).commit_cache
    × All NonEmpty (collect_garbage world stale).sign_cache
    × All NonEmpty (collect_garbage world stale).commit_cache
    × ((collect_garbage world stale).last_collect_time ≡ 100 * 10 ^ 9)
collect_garbage_clean_example = collect_garbage_clean world stale (ground arith) (omega arith)

empty-IsBounded : IsBounded empty
unfolding empty size
empty-IsBounded = record { well = record { same = refl; distinct = tt }; bound = omega arith }

abbrev once : State
once = (broadcast_msg four (sig_key 119) sign_req_packet (bare m₁) [] ready).0

broadcast_once_example :
    sent_to (broadcast_msg four (sig_key 119) sign_req_packet (bare m₁) (20 ∷ []) once).0
    ≡ sent_to once
broadcast_once_example =
    broadcast_once four (sig_key 119) sign_req_packet (bare m₁) (bare m₁) [] (20 ∷ []) ready
