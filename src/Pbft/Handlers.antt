-- ===== src/Pbft/Handlers.antt =====
-- `handleSignMsg`, `handleCommitMsg` and the dispatch of `handleMsg`, libpbftseal/PBFT.cpp.
pub mod Counted
pub mod Signers
pub mod Rejected
use utispace_chain.Prelude.{
  ℕ, ◌-◌, List, [], ◌∷◌, none, some, Bool, false, not, ◌&&◌, ◌||◌, ltb, leb, ◌==◌, if◌then◌else◌,
}
use utispace_chain.Nodes.{get_public_key}
use utispace_chain.Pbft.Msg.{
  PbftMsg, PrepareReq, Key, hash_key, sig_key, sig_view_key, prepare_req_packet, sign_req_packet,
  commit_req_packet, view_change_req_packet,
}
use utispace_chain.Pbft.State.{Net, World, State}
use utispace_chain.Pbft.Peers.{broadcast_msg}
use utispace_chain.Pbft.Caches.{is_exist_sign, is_exist_commit, add_sign_req, add_commit_req}
use utispace_chain.Pbft.Sending.{check_sign, bare}
use utispace_chain.Pbft.Commit.{check_and_save, check_and_commit}
use utispace_chain.Pbft.ViewChange.{handle_view_change_msg}
use utispace_chain.Pbft.Prepare.{handle_prepare_msg}

-- A request for a block that is not prepared yet, and may become so.
unfoldable pub is_future_msg : PbftMsg → State → Bool
is_future_msg req s = leb s.consensus_block_number req.height || ltb s.view req.view

module _ (net : Net) (w : World) where
  -- `handleSignMsg`
  unfoldable pub handle_sign_msg : PbftMsg → State → State
  handle_sign_msg req s =
      if is_exist_sign req s
      then s
      else if req.idx == s.node_idx
      then s
      else if not (s.prepare_cache.block_hash == req.block_hash)
      then (if is_future_msg req s && check_sign net req then add_sign_req req s else s)
      else if not (s.prepare_cache.view == req.view)
      then s
      else if not (check_sign net req)
      then s
      else check_and_commit net w (add_sign_req req s)

  -- `handleCommitMsg`
  unfoldable pub handle_commit_msg : PbftMsg → State → State
  handle_commit_msg req s =
      if is_exist_commit req s
      then s
      else if req.idx == s.node_idx
      then s
      else if not (s.prepare_cache.block_hash == req.block_hash)
      then (if is_future_msg req s && check_sign net req then add_commit_req req s else s)
      else if not (s.prepare_cache.view == req.view)
      then s
      else if not (check_sign net req)
      then s
      else check_and_save (add_commit_req req s)

-- The data of a packet with a known id, as `populate` decodes it.
pub data Request : Type 0 where
  prepare_req : PrepareReq → Request
  sign_req : PbftMsg → Request
  commit_req : PbftMsg → Request
  view_change_req : PbftMsg → Request

-- A packet from the queue: one that decodes, one with an unknown id, and one on which `populate`
-- throws.
pub data Packet : Type 0 where
  decoded : Request → Packet
  unknown_id : Packet
  undecodable : Packet

abbrev pub packet_id_of : Request → ℕ
packet_id_of (prepare_req r) = prepare_req_packet
packet_id_of (sign_req m) = sign_req_packet
packet_id_of (commit_req m) = commit_req_packet
packet_id_of (view_change_req m) = view_change_req_packet

abbrev pub key_of : Request → Key
key_of (prepare_req r) = hash_key r.block_hash
key_of (sign_req m) = sig_key m.sig
key_of (commit_req m) = sig_key m.sig
key_of (view_change_req m) = sig_view_key m.sig m.view

abbrev pub body_of : Request → PrepareReq
body_of (prepare_req r) = r
body_of (sign_req m) = bare m
body_of (commit_req m) = bare m
body_of (view_change_req m) = bare m

module _ (net : Net) (w : World) where
  unfoldable pub dispatch : ℕ → Request → State → State
  dispatch from (prepare_req r) s = handle_prepare_msg net w from r false s
  dispatch from (sign_req m) s = handle_sign_msg net w m s
  dispatch from (commit_req m) s = handle_commit_msg net w m s
  dispatch from (view_change_req m) s = handle_view_change_msg net w m s

  -- `time_flag && height_flag`: the message is recent enough to be passed on.
  unfoldable pub is_fresh : PbftMsg → State → Bool
  is_fresh m s =
      (leb w.now m.timestamp || ltb (w.now - m.timestamp) s.view_timeout)
      && (ltb s.highest_block.number m.height || ltb (s.highest_block.number - m.height) 10)

  -- The nodes that a message is not passed on to: the one that sent it and the one that made it.
  unfoldable pub relay_filter : ℕ → PbftMsg → List ℕ
  relay_filter node m = elim (get_public_key net.registry m.idx) [
    | none ↦ node ∷ []
    | some id ↦ node ∷ id ∷ []
  ]

  unfoldable pub relay : ℕ → Request → State → State
  relay node r s =
      if is_fresh (body_of r).msg s
      then (broadcast_msg net (key_of r) (packet_id_of r) (body_of r)
          (relay_filter node (body_of r).msg) s).0
      else s

  -- `handleMsg`
  unfoldable pub handle_msg : ℕ → ℕ → Packet → State → State
  handle_msg from node (decoded r) s = relay node r (dispatch from r s)
  handle_msg from node unknown_id s = s
  handle_msg from node undecodable s = s
