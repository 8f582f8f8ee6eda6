-- ===== src/Pbft/Invariant/Tidying.antt =====
-- Tidying the caches and reading the configuration keep the invariant, libpbftseal/PBFT.cpp.
use utispace_chain.Prelude.{ℕ, ◌<◌, refl, inl, inr, true, false, Option-cases, arith}
use utispace_chain.Nodes.{get_miner_num, get_account_type, get_idx}
use utispace_chain.Pbft.Msg.{u256_mod}
use utispace_chain.Pbft.State.{Net, World, State}
use utispace_chain.Pbft.Caches.{del_cache, del_view_change, collect_garbage, prune, not_below}
use utispace_chain.Pbft.Caches.Entries.{AllMsgs-erase, AllMsgs-prune}
use utispace_chain.Pbft.Leader.{reset_config, reset_known, reload_config}
use utispace_chain.Pbft.Invariant.{Inv, Filed, FiledView}
use utispace_chain.Pbft.Invariant.Sends.{core-Inv}

module _ (net : Net) where
  module _ (w : World) where
    pruned-Inv :
        (s : State)
        → Inv net s
        → Inv net (record s {
          sign_cache = prune (not_below s.highest_block.number) s.sign_cache;
          commit_cache = prune (not_below s.highest_block.number) s.commit_cache;
          last_collect_time = w.system_ticks;
        })
    unfolding Inv
    pruned-Inv s v = record {
      configured = v.configured;
      cycle = v.cycle;
      signs = AllMsgs-prune (Filed net) _ s.sign_cache v.signs;
      commits = AllMsgs-prune (Filed net) _ s.commit_cache v.commits;
      changes = v.changes;
      sealed = v.sealed;
    }

    pub collect_garbage-Inv : (s : State) → Inv net s → Inv net (collect_garbage w s)
    unfolding collect_garbage
    collect_garbage-Inv s v = ground (arith, v, pruned-Inv s v)

  pub del_cache-Inv : (h : ℕ) (s : State) → Inv net s → Inv net (del_cache h s)
  unfolding Inv del_cache
  del_cache-Inv h s v = record {
    configured = v.configured;
    cycle = v.cycle;
    signs = AllMsgs-erase (Filed net) h s.sign_cache v.signs;
    commits = AllMsgs-erase (Filed net) h s.commit_cache v.commits;
    changes = v.changes;
    sealed = v.sealed;
  }

  pub del_view_change-Inv : (s : State) → Inv net s → Inv net (del_view_change s)
  unfolding Inv del_view_change
  del_view_change-Inv s v = record {
    configured = v.configured;
    cycle = v.cycle;
    signs = v.signs;
    commits = v.commits;
    changes = AllMsgs-prune (FiledView net) _ s.recv_view_change_req v.changes;
    sealed = v.sealed;
  }

  -- `resetConfig` with a new number of nodes.
  reload_config-Inv :
      (n i : ℕ) (s : State) → 0 < n → n < u256_mod → Inv net s → Inv net (reload_config net n i s)
  unfolding Inv reload_config
  reload_config-Inv n i s pos small v = record {
    configured = record { small = small; faults = omega arith; some_node = inr pos };
    cycle = v.cycle;
    signs = tt;
    commits = v.commits;
    changes = tt;
    sealed = v.sealed;
  }

  fail-Inv :
      (s : State) (t : ℕ) → Inv net s → Inv net (record s { account_type = t; cfg_err = true })
  unfolding Inv
  fail-Inv s t v = record {
    configured = record {
      small = v.configured.small;
      faults = v.configured.faults;
      some_node = inl refl;
    };
    cycle = v.cycle;
    signs = v.signs;
    commits = v.commits;
    changes = v.changes;
    sealed = v.sealed;
  }

  config_ok-Inv :
      (s : State) (t : ℕ)
      → 0 < s.node_num
      → Inv net s
      → Inv net (record s { account_type = t; cfg_err = false })
  unfolding Inv
  config_ok-Inv s t pos v = record {
    configured = record {
      small = v.configured.small;
      faults = v.configured.faults;
      some_node = inr pos;
    };
    cycle = v.cycle;
    signs = v.signs;
    commits = v.commits;
    changes = v.changes;
    sealed = v.sealed;
  }

  -- `resetConfig` behind the account type.
  reset_known-Inv :
      (t : ℕ) (s : State)
      → get_miner_num net.registry < u256_mod
      → Inv net s
      → Inv net (reset_known net t s)
  unfolding reset_known
  reset_known-Inv t s small v =
      let n = get_miner_num net.registry in
      elim (Option-cases (get_idx net.registry net.public_key)) [
        | inl e ↦ rw e (ground (arith, fail-Inv s t v))
        | inr (i, e) ↦ rw e (
            ground (
              arith,
              fail-Inv s t v,
              config_ok-Inv s t,
              v,
              small,
              reload_config-Inv n i (record s { account_type = t }),
              core-Inv net (record s { account_type = t }) s refl v,
            ))
      ]

  -- `resetConfig` succeeds only for a positive number of nodes.
  pub reset_config-Inv :
      (s : State) → get_miner_num net.registry < u256_mod → Inv net s → Inv net (reset_config net s)
  unfolding reset_config
  reset_config-Inv s small v = elim (Option-cases (get_account_type net.registry net.public_key)) [
    | inl e ↦ rw (e, reset_config) (fail-Inv s s.account_type v)
    | inr (t, e) ↦ rw (e, reset_config) (reset_known-Inv t s small v)
  ]
