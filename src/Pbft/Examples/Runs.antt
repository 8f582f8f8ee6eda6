-- ===== src/Pbft/Examples/Runs.antt =====
-- A round of libpbftseal/PBFT.cpp on four nodes, from `initEnv` to the sealed block.
use utispace_chain.Prelude.{ℕ, ◌≤◌, ◌<◌, ◌≡◌, ◌≢◌, refl, some, List, [], ◌∷◌, All, length, arith}
use utispace_chain.Nodes.{get_miner_num, count_miners, get_god_miner}
use utispace_chain.Pbft.Leader.{reset_config}
use utispace_chain.Pbft.Msg.{PbftMsg, no_prepare, u256_mod, invalid256}
use utispace_chain.Pbft.State.{State, Event, seal_generated, view_changed, block_cached}
use utispace_chain.Pbft.Caches.Entries.{AllMsgs}
use utispace_chain.Pbft.Leader.Quorum.{Configured}
use utispace_chain.Pbft.ViewChange.{max_change_cycle, check_timeout}
use utispace_chain.Pbft.Handlers.{sign_req, commit_req, view_change_req, decoded, handle_msg}
use utispace_chain.Pbft.Engine.{
  fresh_state, init_env, reload_msg, generate_seal, generate_commit, report_block, Reach, here,
  next, message, timer, seal, commit, report,
}
use utispace_chain.Pbft.Invariant.{Filed, FiledView, SealedWell}
use utispace_chain.Pbft.Engine.Authentic.{
  sealed_blocks_signed, caches_authentic, configuration_sound,
}
use utispace_chain.Pbft.Engine.Progress.{Step-ahead}
use utispace_chain.Pbft.Examples.{four, world, setup, genesis, vote, ready}

abbrev s₀ : State
s₀ = reset_config four (fresh_state world setup no_prepare)

abbrev s₁ : State
s₁ = report_block four world genesis s₀

abbrev s₂ : State
s₂ = (generate_seal four world 1 99 (1 ∷ 2 ∷ []) s₁).0

abbrev s₃ : State
s₃ = (generate_commit four world 1 99 (1 ∷ 2 ∷ []) 0 s₂).0

abbrev s₄ : State
s₄ = handle_msg four world 0 20 (decoded (sign_req (vote 20 1))) s₃

abbrev s₅ : State
s₅ = handle_msg four world 0 30 (decoded (sign_req (vote 30 2))) s₄

abbrev s₆ : State
s₆ = handle_msg four world 0 20 (decoded (commit_req (vote 20 1))) s₅

abbrev s₇ : State
s₇ = handle_msg four world 0 30 (decoded (commit_req (vote 30 2))) s₆

round : Reach four s₀ s₇
round =
    next
      (next
        (next
          (next
            (next (next (next here (report world genesis s₀)) (seal world 1 99 (1 ∷ 2 ∷ []) s₁))
              (commit world 1 99 (1 ∷ 2 ∷ []) 0 s₂))
            (message world 0 20 (decoded (sign_req (vote 20 1))) s₃))
          (message world 0 30 (decoded (sign_req (vote 30 2))) s₄))
        (message world 0 20 (decoded (commit_req (vote 20 1))) s₅))
      (message world 0 30 (decoded (commit_req (vote 30 2))) s₆)

started : init_env four world setup ≡ some s₀
unfolding init_env reload_msg
started = refl

four_small : get_miner_num four.registry < u256_mod
unfolding get_miner_num count_miners get_god_miner
four_small = omega arith

sealed_blocks_signed_example : All (SealedWell four) s₇.events
sealed_blocks_signed_example = sealed_blocks_signed four four_small world setup s₀ s₇ started round

caches_authentic_example :
    AllMsgs (Filed four) s₇.sign_cache
    × AllMsgs (Filed four) s₇.commit_cache
    × AllMsgs (FiledView four) s₇.recv_view_change_req
caches_authentic_example = caches_authentic four four_small world setup s₀ s₇ started round

configuration_sound_example : Configured s₇ × (s₇.change_cycle ≤ max_change_cycle)
configuration_sound_example = configuration_sound four four_small world setup s₀ s₇ started round

-- The round ends with one block that is handed on, with three signatures.
abbrev sealed_with : List Event → List ℕ
sealed_with [] = []
sealed_with (seal_generated p l ours ∷ es) = length l ∷ sealed_with es
sealed_with (view_changed ∷ es) = sealed_with es
sealed_with (block_cached h ∷ es) = sealed_with es

abbrev outcome : List ℕ
outcome = sealed_with s₇.events

-- The engine gives up on the view, since the clock is past the timeout.
abbrev late : State
late = record ready { view = 0; to_view = 0; last_consensus_time = 0 }

late_view-le : late.view ≤ late.to_view
late_view-le = omega arith

late_view-lt : late.to_view < invalid256
late_view-lt = omega arith

Step-ahead_example : (check_timeout four world late).view ≤ (check_timeout four world late).to_view
Step-ahead_example = Step-ahead (timer world late) late_view-le late_view-lt

-- The wanted view after the timeout.
abbrev late_views : ℕ × ℕ
late_views = ((check_timeout four world late).view, (check_timeout four world late).to_view)

sign_req-ne : (m : PbftMsg) → sign_req (vote 20 1) ≢ view_change_req m
sign_req-ne m = ground arith
