-- ===== src/Pbft/Peers.antt =====
-- Broadcasting with the peers' known-message sets: `broadcastMsg`, `broadcastFilter`,
-- `broadcastMark` and `clearMask` of libpbftseal/PBFT.cpp.
pub mod Once
use utispace_chain.Prelude.{
  ℕ, List, [], ◌∷◌, ◌++◌, map, Option, none, some, Bool, true, false, not, ◌&&◌, ltb, ◌==◌,
  if◌then◌else◌, nat_eq,
}
use utispace_chain.Nodes.{get_account_type, account_type_miner}
use utispace_chain.QueueSet.{QueueSet, contains, exist, push, pop, size, clear}
use utispace_chain.Pbft.Msg.{
  Key, key_eq, PrepareReq, prepare_req_packet, sign_req_packet, view_change_req_packet,
  commit_req_packet,
}
use utispace_chain.Pbft.State.{Net, Peer, Wire, State}

abbrev pub known_limit : ℕ
known_limit = 1024

-- `broadcastFilter`
unfoldable pub broadcast_filter : Key → ℕ → Peer → Bool
broadcast_filter key id p =
    if id == prepare_req_packet
    then exist key p.known_prepare
    else if id == sign_req_packet
    then exist key p.known_sign
    else if id == view_change_req_packet
    then exist key p.known_view_change
    else if id == commit_req_packet
    then exist key p.known_commit
    else true

-- `if (known.size() > kKnown) known.pop(); known.push(_key);`
unfoldable pub mark_known : Key → QueueSet Key → QueueSet Key
mark_known key q = push key (if ltb known_limit (size q) then pop q else q)

-- `broadcastMark`
unfoldable pub broadcast_mark : Key → ℕ → Peer → Peer
broadcast_mark key id p =
    if id == prepare_req_packet
    then record p { known_prepare = mark_known key p.known_prepare }
    else if id == sign_req_packet
    then record p { known_sign = mark_known key p.known_sign }
    else if id == view_change_req_packet
    then record p { known_view_change = mark_known key p.known_view_change }
    else if id == commit_req_packet
    then record p { known_commit = mark_known key p.known_commit }
    else p

unfoldable pub send : ℕ → PrepareReq → Peer → Peer
send id req p = record p { sent = p.sent ++ (record { packet_id = id; req = req } ∷ []) }

module _ (net : Net) where
  -- Whether the peer's account type lets the message go to it at all.
  unfoldable pub is_addressed : ℕ → Peer → Bool
  is_addressed id p = elim (get_account_type net.registry p.id) [
    | none ↦ false
    | some t ↦ not (
        not (id == view_change_req_packet)
        && (not (t == account_type_miner) && not net.broadcast_to_normal_node))
  ]

  -- The body of the loop of `broadcastMsg`.
  unfoldable pub broadcast_to : Key → ℕ → PrepareReq → List ℕ → Peer → Peer
  broadcast_to key id req filter p =
      if not (is_addressed id p)
      then p
      else if contains p.id filter
      then broadcast_mark key id p
      else if broadcast_filter key id p
      then p
      else broadcast_mark key id (send id req p)

  -- `broadcastMsg`; the second component is its result.
  unfoldable pub broadcast_msg : Key → ℕ → PrepareReq → List ℕ → State → State × Bool
  broadcast_msg key id req filter s = elim s.host [
    | none ↦ (s, false)
    | some peers ↦ (record s { host = some (map (broadcast_to key id req filter) peers) }, true)
  ]

unfoldable pub clear_known : Peer → Peer
clear_known p = record p {
  known_prepare = clear p.known_prepare;
  known_sign = clear p.known_sign;
  known_commit = clear p.known_commit;
  known_view_change = clear p.known_view_change;
}

-- `clearMask`
unfoldable pub clear_mask : State → State
clear_mask s = elim s.host [
  | none ↦ s
  | some peers ↦ record s { host = some (map clear_known peers) }
]
