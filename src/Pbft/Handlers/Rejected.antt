-- ===== src/Pbft/Handlers/Rejected.antt =====
-- What messages without a valid signature can do, libpbftseal/PBFT.cpp.
use utispace_chain.Prelude.{ℕ, [], ◌+◌, ◌≡◌, ◌≢◌, refl, sym, ap, ◌∙◌, false, length, arith}
use utispace_chain.Prelude.Map.{touch, length-insert}
use utispace_chain.Pbft.Msg.{PbftMsg, PrepareReq}
use utispace_chain.Pbft.State.{Net, World, State}
use utispace_chain.Pbft.Caches.{
  is_exist_prepare, is_exist_sign, add_raw_prepare, add_sign_req, add_commit_req,
}
use utispace_chain.Pbft.Leader.{quorum}
use utispace_chain.Pbft.Peers.{broadcast_msg}
use utispace_chain.Pbft.Sending.{check_sign, broadcast_commit_req, if_sent}
use utispace_chain.Pbft.Commit.{
  have_sign, check_and_save, touch_caches, send_commit, backup_msg, commit_prepared,
  check_and_commit,
}
use utispace_chain.Pbft.Prepare.{check_prepare, handle_prepare_msg}
use utispace_chain.Pbft.Handlers.{
  handle_sign_msg, handle_commit_msg, handle_msg, dispatch, relay, decoded, sign_req, commit_req,
}
use utispace_chain.Pbft.Handlers.Signers.{is_exist_sign-signs}
use utispace_chain.Pbft.Handlers.Counted.{Accepted, accept_sign, signs, signs-add_sign_req}

module _ (net : Net) (w : World) where
  -- The handler of a sign or commit request that fails `checkSign` changes nothing, and `handleMsg`
  -- does no more with the request than to pass it on while it is recent, as any other.
  pub unsigned_ignored :
      (m : PbftMsg) (from node : ℕ) (s : State)
      → check_sign net m ≡ false
      → (handle_sign_msg net w m s ≡ s)
        × (handle_commit_msg net w m s ≡ s)
        × (handle_msg net w from node (decoded (sign_req m)) s ≡ relay net w node (sign_req m) s)
        × (handle_msg net w from node (decoded (commit_req m)) s
            ≡ relay net w node (commit_req m) s)
  unfolding handle_sign_msg handle_commit_msg handle_msg dispatch
  unsigned_ignored m from node s bad =
      let sign : handle_sign_msg net w m s ≡ s = ground arith in
      let commit : handle_commit_msg net w m s ≡ s = ground arith in
      (
        sign,
        commit,
        ap (relay net w node (sign_req m)) sign,
        ap (relay net w node (commit_req m)) commit,
      )

  forged_prepare_cached :
      (from : ℕ) (forged : PrepareReq) (s : State)
      → check_sign net forged.msg ≡ false
      → is_exist_prepare forged s ≡ false
      → forged.idx ≢ s.node_idx
      → forged.height ≡ s.consensus_block_number
      → forged.view ≡ s.view
      → handle_prepare_msg net w from forged false s ≡ add_raw_prepare forged s
  unfolding handle_prepare_msg check_prepare
  forged_prepare_cached from forged s bad new i h v = ground arith

  duplicate_dropped :
      (from : ℕ) (req : PrepareReq) (s : State)
      → s.raw_prepare_cache.block_hash ≡ req.block_hash
      → handle_prepare_msg net w from req false s ≡ s
  unfolding handle_prepare_msg is_exist_prepare
  duplicate_dropped from req s e = ground arith

  have_sign-add_sign_req :
      (m : PbftMsg) (s : State)
      → s.prepare_cache.block_hash ≡ m.block_hash
      → is_exist_sign m s ≡ false
      → have_sign (add_sign_req m s) ≡ have_sign s + 1
  have_sign-add_sign_req m s h new =
      ap length (signs-add_sign_req net w m s h)
      ∙ ground (arith, length-insert m.sig m (signs s), is_exist_sign-signs m s h)

  -- A prepare request at the present height and view, of another node and for a new block hash,
  -- that fails `checkSign` is stored as the raw prepare request all the same, and every prepare
  -- request for the same block hash that comes next changes nothing.
  pub forged_prepare_blocks :
      (from : ℕ) (forged : PrepareReq) (s : State)
      → check_sign net forged.msg ≡ false
      → is_exist_prepare forged s ≡ false
      → forged.idx ≢ s.node_idx
      → forged.height ≡ s.consensus_block_number
      → forged.view ≡ s.view
      → let t = handle_prepare_msg net w from forged false s in
        (t.raw_prepare_cache ≡ forged)
        × ((from' : ℕ) (genuine : PrepareReq)
            → genuine.block_hash ≡ forged.block_hash
            → handle_prepare_msg net w from' genuine false t ≡ t)
  unfolding add_raw_prepare
  forged_prepare_blocks from forged s bad new i h v =
      rw (forged_prepare_cached from forged s bad new i h v) (
        refl,
        λ from' genuine e. duplicate_dropped from' genuine (add_raw_prepare forged s) (sym e),
      )

  committed-check_and_save :
      (s : State) → (check_and_save s).committed_prepare_cache ≡ s.committed_prepare_cache
  unfolding check_and_save touch_caches
  committed-check_and_save s = ground arith

  committed-send_commit :
      (s : State) → (send_commit net w s).committed_prepare_cache ≡ s.committed_prepare_cache
  unfolding send_commit broadcast_commit_req if_sent add_commit_req broadcast_msg
  committed-send_commit s = ground arith

  committed-backup_msg :
      (req : PrepareReq) (s : State)
      → (backup_msg w req s).committed_prepare_cache ≡ s.committed_prepare_cache
  unfolding backup_msg
  committed-backup_msg req s = ground arith

  committed-commit_prepared :
      (s : State) → (commit_prepared net w s).committed_prepare_cache ≡ s.raw_prepare_cache
  unfolding commit_prepared
  committed-commit_prepared s =
      committed-check_and_save _ ∙ committed-send_commit _ ∙ committed-backup_msg _ _

  -- With a quorum of signatures in the present view the raw prepare request is committed.
  pub committed-check_and_commit :
      (s : State)
      → have_sign s ≡ quorum s
      → s.prepare_cache.view ≡ s.view
      → (check_and_commit net w s).committed_prepare_cache ≡ s.raw_prepare_cache
  unfolding check_and_commit
  committed-check_and_commit s h v =
      let s' : State = record s { sign_cache = touch [] s.prepare_cache.block_hash s.sign_cache } in
      ground (arith, committed-commit_prepared s')

  -- If a prepare request that fails `checkSign`, at the present height and view, of another node
  -- and for a new block hash, arrives while the prepared block of the present view lacks one
  -- signature, then after the next new and accepted sign request it is the committed one.
  pub forged_prepare_committed :
      (from : ℕ) (forged : PrepareReq) (m : PbftMsg) (s : State)
      → check_sign net forged.msg ≡ false
      → is_exist_prepare forged s ≡ false
      → forged.idx ≢ s.node_idx
      → forged.height ≡ s.consensus_block_number
      → forged.view ≡ s.view
      → Accepted net m s
      → is_exist_sign m s ≡ false
      → have_sign s + 1 ≡ quorum s
      → s.prepare_cache.view ≡ s.view
      → (handle_sign_msg net w m
          (handle_prepare_msg net w from forged false s)).committed_prepare_cache
        ≡ forged
  unfolding add_raw_prepare is_exist_sign add_sign_req quorum
  forged_prepare_committed from forged m s bad new i h v a fresh count pv =
      let t = add_raw_prepare forged s in
      rw (forged_prepare_cached from forged s bad new i h v) (
        rw (accept_sign net w m t a fresh) (
          committed-check_and_commit (add_sign_req m t)
            (have_sign-add_sign_req m t a.1 fresh ∙ count) pv))
