-- ===== src/Pbft/Commit.antt =====
-- From signatures to a sealed block: `checkAndCommit`, `checkAndSave` and `backupMsg` of
-- libpbftseal/PBFT.cpp.
pub mod Sealing
use utispace_chain.Prelude.{
  ℕ, List, [], map, none, some, not, ◌&&◌, ltb, leb, ◌==◌, if◌then◌else◌, length,
}
use utispace_chain.Prelude.Map.{at, touch}
use utispace_chain.Nodes.{account_type_miner}
use utispace_chain.Pbft.Msg.{PbftMsg, PrepareReq}
use utispace_chain.Pbft.State.{Net, World, State, seal_generated, emit}
use utispace_chain.Pbft.Wire.{packet_of, stream_prepare_fields}
use utispace_chain.Pbft.Leader.{quorum}
use utispace_chain.Pbft.Sending.{broadcast_commit_req}

-- An entry of the commit cache as it goes into the block: the node's index and its signature,
-- which is read back from the key.
unfoldable pub signature_of : ℕ × PbftMsg → ℕ × ℕ
signature_of (sig, m) = (m.idx, sig)

-- `m_sign_cache[h]` and `m_commit_cache[h]` create an empty entry for a missing hash.
unfoldable pub touch_caches : State → State
touch_caches s = record s {
  sign_cache = touch [] s.prepare_cache.block_hash s.sign_cache;
  commit_cache = touch [] s.prepare_cache.block_hash s.commit_cache;
}

abbrev pub have_sign : State → ℕ
have_sign s = length (at [] s.prepare_cache.block_hash s.sign_cache)

abbrev pub have_commit : State → ℕ
have_commit s = length (at [] s.prepare_cache.block_hash s.commit_cache)

abbrev pub sig_list : State → List (ℕ × ℕ)
sig_list s = map signature_of (at [] s.prepare_cache.block_hash s.commit_cache)

-- `checkAndSave`. The sealed block is the prepared one with its signature list replaced.
unfoldable pub check_and_save : State → State
check_and_save s =
    let s' = touch_caches s in
    if not (leb (quorum s) (have_sign s) && (have_commit s == quorum s))
    then s'
    else if not (s.prepare_cache.view == s.view)
    then s'
    else if ltb s.highest_block.number s.prepare_cache.height
    then emit (seal_generated s.prepare_cache (sig_list s) (s.prepare_cache.idx == s.node_idx)) s'
    else s'

-- `backupMsg(backup_key_committed, _msg)`. A request that is too long for RLP, which has a block of
-- 2^62 bytes or more, makes the code throw; nothing is stored here.
unfoldable pub backup_msg : World → PrepareReq → State → State
backup_msg w req s = elim s.backup_db [
  | none ↦ s
  | some old ↦ elim (packet_of (stream_prepare_fields req)) [
    | none ↦ s
    | some rlp ↦ if w.put_ok then record s { backup_db = some rlp } else s
  ]
]

module _ (net : Net) (w : World) where
  -- `if (m_account_type == EN_ACCOUNT_TYPE_MINER && !broadcastCommitReq(m_prepare_cache)) …`
  unfoldable pub send_commit : State → State
  send_commit s =
      if s.account_type == account_type_miner
      then (broadcast_commit_req net w s.prepare_cache s).0
      else s

  -- What `checkAndCommit` does when the signatures are enough and the view is still the same.
  unfoldable pub commit_prepared : State → State
  commit_prepared s =
      let s' = send_commit (
        backup_msg w s.raw_prepare_cache
          (record s { committed_prepare_cache = s.raw_prepare_cache })) in
      check_and_save (record s' { last_sign_time = w.now })

  -- `checkAndCommit`
  unfoldable pub check_and_commit : State → State
  check_and_commit s =
      let s' : State = record s { sign_cache = touch [] s.prepare_cache.block_hash s.sign_cache } in
      if not (have_sign s == quorum s)
      then s'
      else if not (s.prepare_cache.view == s.view)
      then s'
      else commit_prepared s'
