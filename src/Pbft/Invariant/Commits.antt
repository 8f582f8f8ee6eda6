-- ===== src/Pbft/Invariant/Commits.antt =====
-- `checkAndSave` and `checkAndCommit` keep the invariant, libpbftseal/PBFT.cpp.
use utispace_chain.Prelude.{ℕ, ◌≡◌, refl, [], ◌∷◌, map, Bool, ◌==◌, All, arith}
use utispace_chain.Prelude.Map.{Map, touch}
use utispace_chain.Pbft.Msg.{PbftMsg, PrepareReq}
use utispace_chain.Pbft.State.{Net, World, State, seal_generated, emit}
use utispace_chain.Pbft.Caches.Entries.{AllMsgs-touch, AllMsgs-at}
use utispace_chain.Pbft.Commit.{
  signature_of, touch_caches, sig_list, check_and_save, backup_msg, send_commit, commit_prepared,
  check_and_commit,
}
use utispace_chain.Pbft.Invariant.{core, Inv, Signed, Filed}
use utispace_chain.Pbft.Invariant.Sends.{core-Inv, broadcast_commit_req-Inv}

module _ (net : Net) where
  -- The signatures that a commit cache entry hands to the block.
  pub Signed-map-signature_of :
      (h : ℕ) (m : Map PbftMsg)
      → All (λ d. Filed net h d.0 d.1) m
      → All (λ e. Signed net e.0 h e.1) (map signature_of m)
  unfolding signature_of
  Signed-map-signature_of h [] a = tt
  Signed-map-signature_of h ((sig, m) ∷ ms) a = (a.0.2, Signed-map-signature_of h ms a.1)

  pub sig_list-Signed :
      (s : State)
      → Inv net s
      → All (λ e. Signed net e.0 s.prepare_cache.block_hash e.1) (sig_list s)
  unfolding Inv
  sig_list-Signed s v =
      Signed-map-signature_of s.prepare_cache.block_hash _
        (AllMsgs-at (Filed net) s.prepare_cache.block_hash s.commit_cache v.commits)

  touch_caches-Inv : (s : State) → Inv net s → Inv net (touch_caches s)
  unfolding Inv touch_caches
  touch_caches-Inv s v = record {
    configured = v.configured;
    cycle = v.cycle;
    signs = AllMsgs-touch (Filed net) s.prepare_cache.block_hash s.sign_cache v.signs;
    commits = AllMsgs-touch (Filed net) s.prepare_cache.block_hash s.commit_cache v.commits;
    changes = v.changes;
    sealed = v.sealed;
  }

  emit_seal-Inv :
      (s : State) (ours : Bool)
      → Inv net s
      → Inv net (emit (seal_generated s.prepare_cache (sig_list s) ours) (touch_caches s))
  unfolding Inv
  emit_seal-Inv s ours v =
      let u : Inv net (touch_caches s) = touch_caches-Inv s v in
      record {
        configured = u.configured;
        cycle = u.cycle;
        signs = u.signs;
        commits = u.commits;
        changes = u.changes;
        sealed = (sig_list-Signed s v, u.sealed);
      }

  pub check_and_save-Inv : (s : State) → Inv net s → Inv net (check_and_save s)
  unfolding check_and_save
  check_and_save-Inv s v =
      ground (arith, touch_caches-Inv s v, emit_seal-Inv s (s.prepare_cache.idx == s.node_idx) v)

  core-backup_msg : (w : World) (req : PrepareReq) (s : State) → core (backup_msg w req s) ≡ core s
  unfolding backup_msg
  core-backup_msg w req s = ground arith

  module _ (w : World) where
    backed_up :
        (s : State)
        → Inv net s
        → Inv net (
            backup_msg w s.raw_prepare_cache
              (record s { committed_prepare_cache = s.raw_prepare_cache }))
    backed_up s v = core-Inv net _ s (core-backup_msg w s.raw_prepare_cache _) v

    send_commit-Inv : (s : State) → Inv net s → Inv net (send_commit net w s)
    unfolding send_commit
    send_commit-Inv s v = ground (arith, v, broadcast_commit_req-Inv net w s.prepare_cache s v)

    commit_prepared-Inv : (s : State) → Inv net s → Inv net (commit_prepared net w s)
    unfolding commit_prepared
    commit_prepared-Inv s v =
        check_and_save-Inv _
          (core-Inv net _ (send_commit net w _) refl (send_commit-Inv _ (backed_up s v)))

    touch_signs-Inv :
        (s : State)
        → Inv net s
        → Inv net (record s { sign_cache = touch [] s.prepare_cache.block_hash s.sign_cache })
    unfolding Inv
    touch_signs-Inv s v = record {
      configured = v.configured;
      cycle = v.cycle;
      signs = AllMsgs-touch (Filed net) s.prepare_cache.block_hash s.sign_cache v.signs;
      commits = v.commits;
      changes = v.changes;
      sealed = v.sealed;
    }

    pub check_and_commit-Inv : (s : State) → Inv net s → Inv net (check_and_commit net w s)
    unfolding check_and_commit
    check_and_commit-Inv s v =
        let u = touch_signs-Inv s v in ground (arith, u, commit_prepared-Inv _ u)
