-- ===== src/Pbft/Sending.antt =====
-- Signing, checking signatures, and the requests that the engine sends about itself: `signHash`,
-- `checkSign` and the `broadcast…Req` functions of libpbftseal/PBFT.cpp.
use utispace_chain.Prelude.{
  ℕ, List, [], none, some, Bool, true, false, not, ◌&&◌, ◌==◌, if◌then◌else◌,
}
use utispace_chain.Nodes.{get_public_key, account_type_miner}
use utispace_chain.Pbft.Msg.{
  PbftMsg, PrepareReq, fields_without_block, hash_key, sig_key, sig_view_key, prepare_req_packet,
  sign_req_packet, commit_req_packet, view_change_req_packet,
}
use utispace_chain.Pbft.State.{Net, World, State}
use utispace_chain.Pbft.Peers.{broadcast_msg}
use utispace_chain.Pbft.Caches.{add_sign_req, add_commit_req, add_raw_prepare}

-- A request without a block, on the wire.
abbrev pub bare : PbftMsg → PrepareReq
bare m = record { msg = m; block = [] }

-- `if (broadcastMsg(…)) { add…(req); return true; } return false;`
unfoldable pub if_sent : (State → State) → State × Bool → State × Bool
if_sent add (s, true) = (add s, true)
if_sent add (s, false) = (s, false)

-- `if (!m_empty_block_flag) { …; m_empty_block_flag = false; }`
unfoldable pub reset_empty_flag : State → State
reset_empty_flag s = if not s.empty_block_flag then record s { empty_block_flag = false } else s

module _ (net : Net) where
  -- `checkSign(_req)`
  unfoldable pub check_sign : PbftMsg → Bool
  check_sign req = elim (get_public_key net.registry req.idx) [
    | none ↦ false
    | some pub_id ↦
        net.verify pub_id req.sig req.block_hash
        && net.verify pub_id req.sig2 (fields_without_block net.sha3 req)
  ]

  -- A message of our own: the fields, then `sig`, then `sig2`.
  unfoldable pub sign_msg : ℕ → ℕ → ℕ → ℕ → ℕ → PbftMsg
  sign_msg height view idx timestamp block_hash =
      let m : PbftMsg = record {
        height = height;
        view = view;
        idx = idx;
        timestamp = timestamp;
        block_hash = block_hash;
        sig = net.sign block_hash;
        sig2 = 0;
      } in
      record m { sig2 = net.sign (fields_without_block net.sha3 m) }

  module _ (w : World) where
    -- The message that `broadcastSignReq` and `broadcastCommitReq` build from a prepare request.
    unfoldable pub own_msg : PrepareReq → State → PbftMsg
    own_msg req s = sign_msg req.height req.view s.node_idx w.now req.block_hash

    unfoldable pub broadcast_sign_req : PrepareReq → State → State × Bool
    broadcast_sign_req req s =
        let m = own_msg req s in
        if_sent (add_sign_req m) (broadcast_msg net (sig_key m.sig) sign_req_packet (bare m) [] s)

    unfoldable pub broadcast_commit_req : PrepareReq → State → State × Bool
    broadcast_commit_req req s =
        let m = own_msg req s in
        if_sent (add_commit_req m)
          (broadcast_msg net (sig_key m.sig) commit_req_packet (bare m) [] s)

    -- A prepare request of our own for a block, in the given view.
    unfoldable pub own_prepare : ℕ → ℕ → ℕ → List ℕ → State → PrepareReq
    own_prepare height view hash block s = record {
      msg = sign_msg height view s.node_idx w.now hash;
      block = block;
    }

    -- `broadcastPrepareReq(_bi, _block_data)`, over the header's number and hash.
    unfoldable pub broadcast_prepare_req : ℕ → ℕ → List ℕ → State → State × Bool
    broadcast_prepare_req number hash block s =
        let req = own_prepare number s.view hash block s in
        if_sent (add_raw_prepare req)
          (broadcast_msg net (hash_key hash) prepare_req_packet req [] s)

    -- The view change request that this node sends.
    unfoldable pub own_view_change : State → PbftMsg
    own_view_change s =
        sign_msg s.highest_block.number s.to_view s.node_idx w.now s.highest_block.hash

    unfoldable pub broadcast_view_change_req : State → State × Bool
    broadcast_view_change_req s =
        if not (s.account_type == account_type_miner)
        then (s, true)
        else let m = own_view_change s in
          broadcast_msg net (sig_view_key m.sig m.view) view_change_req_packet (bare m) []
            (reset_empty_flag s)
