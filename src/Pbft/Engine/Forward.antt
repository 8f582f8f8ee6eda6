-- ===== src/Pbft/Engine/Forward.antt =====
-- The view and the wanted view through the parts of the calls of libpbftseal/PBFT.cpp that are
-- not about view changes.
use utispace_chain.Prelude.{ℕ, ◌≡◌, inl, inr, refl, ◌∙◌, List, [], Bool, Option-cases, arith}
use utispace_chain.Prelude.Map.{touch}
use utispace_chain.Pbft.Msg.{PbftMsg, PrepareReq, Key}
use utispace_chain.Pbft.State.{Net, World, State, Executed, emit, block_cached}
use utispace_chain.Pbft.Peers.{broadcast_msg, clear_mask}
use utispace_chain.Pbft.Caches.{add_sign_req, add_commit_req, add_raw_prepare, add_prepare_req}
use utispace_chain.Pbft.Leader.{reset_config, reset_known, reload_config}
use utispace_chain.Pbft.Sending.{
  if_sent, broadcast_sign_req, broadcast_commit_req, broadcast_prepare_req,
  broadcast_view_change_req, reset_empty_flag,
}
use utispace_chain.Pbft.Commit.{
  touch_caches, check_and_save, backup_msg, send_commit, commit_prepared, check_and_commit,
}
use utispace_chain.Pbft.ViewChange.{change_view_for_empty_block_without_lock}
use utispace_chain.Pbft.Prepare.{
  recv_future_block, executed_prepare, send_sign, adopt_prepare, execute_block, execute_prepare,
  check_prepare, handle_prepare_msg,
}
use utispace_chain.Pbft.Handlers.{handle_sign_msg, handle_commit_msg}

-- The view and the wanted view.
abbrev pub views : State → ℕ × ℕ
views s = (s.view, s.to_view)

pub views-check_and_save : (s : State) → views (check_and_save s) ≡ views s
unfolding check_and_save touch_caches
views-check_and_save s = ground arith

pub views-clear_mask : (s : State) → views (clear_mask s) ≡ views s
unfolding clear_mask
views-clear_mask s = ground arith

pub views-recv_future_block :
    (from : ℕ) (req : PrepareReq) (s : State) → views (recv_future_block from req s) ≡ views s
unfolding recv_future_block
views-recv_future_block from req s = ground arith

module _ (net : Net) where
  pub views-broadcast_msg :
      (key : Key) (id : ℕ) (req : PrepareReq) (filter : List ℕ) (s : State)
      → views (broadcast_msg net key id req filter s).0 ≡ views s
  unfolding broadcast_msg
  views-broadcast_msg key id req filter s = ground arith

  pub views-reset_config : (s : State) → views (reset_config net s) ≡ views s
  unfolding reset_config reset_known reload_config
  views-reset_config s = ground arith

  module _ (w : World) where
    pub views-broadcast_sign_req :
        (req : PrepareReq) (s : State) → views (broadcast_sign_req net w req s).0 ≡ views s
    unfolding broadcast_sign_req if_sent add_sign_req broadcast_msg
    views-broadcast_sign_req req s = ground arith

    pub views-broadcast_prepare_req :
        (number hash : ℕ) (block : List ℕ) (s : State)
        → views (broadcast_prepare_req net w number hash block s).0 ≡ views s
    unfolding broadcast_prepare_req if_sent add_raw_prepare broadcast_msg
    views-broadcast_prepare_req number hash block s = ground arith

    pub views-broadcast_view_change_req :
        (s : State) → views (broadcast_view_change_req net w s).0 ≡ views s
    unfolding broadcast_view_change_req reset_empty_flag broadcast_msg
    views-broadcast_view_change_req s = ground arith

    pub views-send_commit : (s : State) → views (send_commit net w s) ≡ views s
    unfolding send_commit broadcast_commit_req if_sent add_commit_req broadcast_msg
    views-send_commit s = ground arith

    pub views-backup_msg : (req : PrepareReq) (s : State) → views (backup_msg w req s) ≡ views s
    unfolding backup_msg
    views-backup_msg req s = ground arith

    pub views-commit_prepared : (s : State) → views (commit_prepared net w s) ≡ views s
    unfolding commit_prepared
    views-commit_prepared s = views-check_and_save _ ∙ views-send_commit _ ∙ views-backup_msg _ _

    pub views-check_and_commit : (s : State) → views (check_and_commit net w s) ≡ views s
    unfolding check_and_commit
    views-check_and_commit s = ground (
      arith,
      views-commit_prepared
          (record s { sign_cache = touch [] s.prepare_cache.block_hash s.sign_cache }),
    )

    pub views-send_sign : (req : PrepareReq) (s : State) → views (send_sign net w req s) ≡ views s
    unfolding send_sign
    views-send_sign req s = ground (arith, views-broadcast_sign_req req s)

    pub views-adopt_prepare :
        (req : PrepareReq) (s : State) → views (adopt_prepare net w req s) ≡ views s
    unfolding adopt_prepare add_prepare_req
    views-adopt_prepare req s = views-check_and_commit _ ∙ views-send_sign req _

    pub views-execute_block :
        (req : PrepareReq) (b : Executed) (s : State)
        → views (execute_block net w req b s) ≡ views s
    unfolding execute_block change_view_for_empty_block_without_lock
    views-execute_block req b s = ground (
      arith,
      views-adopt_prepare (executed_prepare net w req b)
          (emit (block_cached b.real_hash) (record s { last_exec_finish_time = w.now })),
    )

    pub views-execute_prepare :
        (req : PrepareReq) (s : State) → views (execute_prepare net w req s) ≡ views s
    unfolding execute_prepare
    views-execute_prepare req s =
        elim (Option-cases (w.check_block_valid req.block_hash req.block)) [
          | inl e ↦ rw (e, execute_prepare) refl
          | inr (b, e) ↦ rw (e, execute_prepare) (views-execute_block req b s)
        ]

    -- The three handlers of a round of consensus.
    pub views-handle_prepare_msg :
        (from : ℕ) (req : PrepareReq) (self : Bool) (s : State)
        → views (handle_prepare_msg net w from req self s) ≡ views s
    unfolding handle_prepare_msg check_prepare add_raw_prepare
    views-handle_prepare_msg from req self s = ground (
      arith,
      views-recv_future_block from req s,
      views-execute_prepare req (add_raw_prepare req s),
    )

    pub views-handle_sign_msg :
        (m : PbftMsg) (s : State) → views (handle_sign_msg net w m s) ≡ views s
    unfolding handle_sign_msg add_sign_req
    views-handle_sign_msg m s = ground (arith, views-check_and_commit (add_sign_req m s))

    pub views-handle_commit_msg :
        (m : PbftMsg) (s : State) → views (handle_commit_msg net w m s) ≡ views s
    unfolding handle_commit_msg add_commit_req
    views-handle_commit_msg m s = ground (arith, views-check_and_save (add_commit_req m s))
