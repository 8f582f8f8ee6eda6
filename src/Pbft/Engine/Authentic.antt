-- ===== src/Pbft/Engine/Authentic.antt =====
-- What holds after any sequence of calls of the engine, libpbftseal/PBFT.cpp.
use utispace_chain.Prelude.{
  ℕ, ◌≤◌, ◌<◌, ◌≡◌, refl, List, some, true, All, inl, inr, Option-cases, arith,
}
use mathlib.Core.Path.{subst}
use utispace_chain.Nodes.{get_miner_num}
use utispace_chain.Pbft.Msg.{PrepareReq, u256_mod, no_prepare}
use utispace_chain.Pbft.State.{Net, World, State, Header}
use utispace_chain.Pbft.Caches.Entries.{AllMsgs}
use utispace_chain.Pbft.Leader.{reset_config, reset_known, reload_config, get_leader}
use utispace_chain.Pbft.Leader.Quorum.{Configured}
use utispace_chain.Pbft.Sending.{own_prepare}
use utispace_chain.Pbft.ViewChange.{max_change_cycle}
use utispace_chain.Pbft.Engine.{
  Setup, reload_msg, fresh_state, init_env, start_generation, set_omit_empty_block, start,
  omit_empty, generate_seal, generate_commit, watch_leader, lead, should_seal, next_height, advance,
  report_block, Step, message, timer, future, garbage, seal, commit, poll, report, empty_block,
  empty_block_unlocked, Reach, here, next,
}
use utispace_chain.Pbft.Invariant.{core, Inv, Filed, FiledView, SealedWell}
use utispace_chain.Pbft.Invariant.Sends.{
  core-Inv, add_prepare_req-Inv, broadcast_sign_req-Inv, broadcast_prepare_req-Inv,
}
use utispace_chain.Pbft.Invariant.Commits.{check_and_commit-Inv}
use utispace_chain.Pbft.Invariant.Tidying.{
  collect_garbage-Inv, del_cache-Inv, del_view_change-Inv, reset_config-Inv,
}
use utispace_chain.Pbft.Invariant.Views.{
  check_timeout-Inv, change_view_for_empty_block_with_lock-Inv,
  change_view_for_empty_block_without_lock-Inv,
}
use utispace_chain.Pbft.Invariant.Prepares.{
  handle_msg-Inv, handle_future_block-Inv, re_handle_prepare_req-Inv,
}

module _ (net : Net) (w : World) where
  generate_commit-Inv :
      (number hash : ℕ) (block : List ℕ) (view : ℕ) (s : State)
      → Inv net s
      → Inv net (generate_commit net w number hash block view s).0
  unfolding generate_commit
  generate_commit-Inv number hash block view s v =
      let req = own_prepare net w number view hash block s in
      let u = broadcast_sign_req-Inv net w req _ (add_prepare_req-Inv net req s v) in
      ground (arith, v, u, check_and_commit-Inv net w _ u)

  core-watch_leader : (i : ℕ) (s : State) → core (watch_leader net w i s) ≡ core s
  unfolding watch_leader
  core-watch_leader i s = ground arith

  lead-Inv : (s : State) → Inv net s → Inv net (lead net w s).0
  unfolding lead
  lead-Inv s v = ground (arith, v, re_handle_prepare_req-Inv net w s.committed_prepare_cache s v)

  should_seal-Inv : (s : State) → Inv net s → Inv net (should_seal net w s).0
  unfolding should_seal
  should_seal-Inv s v = elim (Option-cases (get_leader s)) [
    | inl e ↦ rw (e, should_seal) (ground (arith, v))
    | inr (i, e) ↦
        rw (e, should_seal)
          (ground (
            arith,
            v,
            core-Inv net (watch_leader net w i s) s (core-watch_leader i s) v,
            lead-Inv s v,
          ))
  ]

  advanced-Inv : (b : Header) (s : State) → Inv net s → Inv net (next_height w b s)
  unfolding Inv next_height
  advanced-Inv b s v = record {
    configured = v.configured;
    cycle = omega arith;
    signs = v.signs;
    commits = v.commits;
    changes = v.changes;
    sealed = v.sealed;
  }

  advance-Inv : (b : Header) (s : State) → Inv net s → Inv net (advance w b s)
  unfolding advance
  advance-Inv b s v = ground (
    arith,
    core-Inv net (record s { highest_block = b }) s refl v,
    del_view_change-Inv net _ (advanced-Inv b s v),
  )

  report_block-Inv :
      (b : Header) (s : State)
      → get_miner_num net.registry < u256_mod
      → Inv net s
      → Inv net (report_block net w b s)
  unfolding report_block
  report_block-Inv b s small v =
      del_cache-Inv net b.hash _ (reset_config-Inv net _ small (advance-Inv b s v))

module _ (net : Net) (small : get_miner_num net.registry < u256_mod) where
  pub Step-Inv : {s t : State} → Step net s t → Inv net s → Inv net t
  unfolding generate_seal start_generation
  Step-Inv (message w from node p s) v = handle_msg-Inv net w from node p s v
  Step-Inv (timer w s) v = check_timeout-Inv net w s v
  Step-Inv (future w s) v = handle_future_block-Inv net w s v
  Step-Inv (garbage w s) v = collect_garbage-Inv net w s v
  Step-Inv (seal w number hash block s) v = broadcast_prepare_req-Inv net w number hash block s v
  Step-Inv (commit w number hash block view s) v =
      generate_commit-Inv net w number hash block view s v
  Step-Inv (poll w s) v = should_seal-Inv net w s v
  Step-Inv (report w b s) v = report_block-Inv net w b s small v
  Step-Inv (start w s) v =
      reset_config-Inv net _ small
        (core-Inv net (record s { last_consensus_time = w.now }) s refl v)
  Step-Inv (omit_empty flag s) v = core-Inv net (set_omit_empty_block flag s) s refl v
  Step-Inv (empty_block s) v = change_view_for_empty_block_with_lock-Inv net s v
  Step-Inv (empty_block_unlocked s) v = change_view_for_empty_block_without_lock-Inv net s v

  Reach-Inv : {s t : State} → Inv net s → Reach net s t → Inv net t
  Reach-Inv v here = v
  Reach-Inv v (next r st) = Step-Inv st (Reach-Inv v r)

  -- Before `resetConfig` has run there are no nodes yet; it decides `m_cfg_err` in every case.
  unset : World → Setup → PrepareReq → State
  unset w c p = record (fresh_state w c p) { cfg_err = true }

  unset-Inv : (w : World) (c : Setup) (p : PrepareReq) → Inv net (unset w c p)
  unfolding Inv unset fresh_state
  unset-Inv w c p = record {
    configured = record { small = omega arith; faults = refl; some_node = inl refl };
    cycle = omega arith;
    signs = tt;
    commits = tt;
    changes = tt;
    sealed = tt;
  }

  reset_config-unset :
      (w : World) (c : Setup) (p : PrepareReq)
      → reset_config net (unset w c p) ≡ reset_config net (fresh_state w c p)
  unfolding unset reset_config reset_known reload_config
  reset_config-unset w c p = ground arith

  fresh-Inv :
      (w : World) (c : Setup) (p : PrepareReq) → Inv net (reset_config net (fresh_state w c p))
  fresh-Inv w c p =
      subst (Inv net) (reset_config-unset w c p) (reset_config-Inv net _ small (unset-Inv w c p))

  pub init_env-Inv : (w : World) (c : Setup) (s₀ : State) → init_env net w c ≡ some s₀ → Inv net s₀
  unfolding init_env
  init_env-Inv w c s₀ h = elim (Option-cases (reload_msg c.stored no_prepare)) [
    | inl e ↦ absurd (ground (arith, h, e))
    | inr (p, e) ↦
        let same : reset_config net (fresh_state w c p) ≡ s₀ = ground (arith, h, e) in
        subst (Inv net) same (fresh-Inv w c p)
  ]

  pub run-Inv :
      (w : World) (c : Setup) (s₀ s : State)
      → init_env net w c ≡ some s₀
      → Reach net s₀ s
      → Inv net s
  run-Inv w c s₀ s h r = Reach-Inv (init_env-Inv w c s₀ h) r

  -- With a node table of fewer than 2^256 miners, after any sequence of calls from an `initEnv` on that does not throw,
  -- each block that was handed on for sealing carries signatures of its own hash only: each is
  -- one that the node of its index made, by the node table, or this node's own.
  pub sealed_blocks_signed :
      (w : World) (c : Setup) (s₀ s : State)
      → init_env net w c ≡ some s₀
      → Reach net s₀ s
      → All (SealedWell net) s.events
  unfolding Inv
  sealed_blocks_signed w c s₀ s h r = (run-Inv w c s₀ s h r).sealed

  -- With a node table of fewer than 2^256 miners, after any sequence of calls from an `initEnv` on that does not throw,
  -- each message in the sign and the commit cache stands under its own block hash and signature and
  -- is signed by the node that it names or by this node, and each view change request stands under
  -- its own view and node and passes `checkSign`.
  pub caches_authentic :
      (w : World) (c : Setup) (s₀ s : State)
      → init_env net w c ≡ some s₀
      → Reach net s₀ s
      → AllMsgs (Filed net) s.sign_cache
        × AllMsgs (Filed net) s.commit_cache
        × AllMsgs (FiledView net) s.recv_view_change_req
  unfolding Inv
  caches_authentic w c s₀ s h r = let v = run-Inv w c s₀ s h r in (v.signs, v.commits, v.changes)

  -- With a node table of fewer than 2^256 miners, after any sequence of calls from an `initEnv` on that does not throw,
  -- the engine either has marked its configuration as wrong or knows at least one node, `m_f` is a
  -- third of the other nodes, rounded down, and `m_change_cycle` is at most 20.
  pub configuration_sound :
      (w : World) (c : Setup) (s₀ s : State)
      → init_env net w c ≡ some s₀
      → Reach net s₀ s
      → Configured s × (s.change_cycle ≤ max_change_cycle)
  unfolding Inv
  configuration_sound w c s₀ s h r = let v = run-Inv w c s₀ s h r in (v.configured, v.cycle)
