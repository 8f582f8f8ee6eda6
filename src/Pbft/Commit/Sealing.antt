-- ===== src/Pbft/Commit/Sealing.antt =====
-- When `checkAndSave` hands a block on for sealing, libpbftseal/PBFT.cpp.
use utispace_chain.Prelude.{
  suc, ◌≤◌, ◌<◌, ◌≡◌, ◌≢◌, ◌↔◌, ◌⊎◌, inl, inr, refl, sym, ap, ◌∙◌, List, [], ◌∷◌, map, ◌==◌, length,
  arith,
}
use utispace_chain.Prelude.Map.{Map, at, at-touch}
use utispace_chain.Pbft.Msg.{PbftMsg}
use utispace_chain.Pbft.State.{State, seal_generated}
use utispace_chain.Pbft.Leader.{quorum}
use utispace_chain.Pbft.Commit.{
  signature_of, touch_caches, have_sign, have_commit, sig_list, check_and_save,
}

pub length-map-signature_of : (m : Map PbftMsg) → length (map signature_of m) ≡ length m
length-map-signature_of [] = refl
length-map-signature_of (x ∷ xs) = ap suc (length-map-signature_of xs)

-- What the prepared block needs to be handed on.
abbrev pub IsReady : State → Type 0
IsReady s =
    (quorum s ≤ have_sign s)
    × (have_commit s ≡ quorum s)
    × (s.prepare_cache.view ≡ s.view)
    × (s.highest_block.number < s.prepare_cache.height)

IsReady-cases : (s : State) → IsReady s ⊎ ¬ IsReady s
IsReady-cases s = ground arith

-- On a state that lacks the quorum of signatures, has not exactly a quorum of commits, has another
-- view than the prepared block's, or has a highest block at its height or above, `checkAndSave`
-- hands nothing on.
pub check_and_save_not_ready : (s : State) → ¬ IsReady s → (check_and_save s).events ≡ s.events
unfolding check_and_save touch_caches
check_and_save_not_ready s h = ground arith

longer : {A : Type 0} (a : A) (l : List A) → l ≢ a ∷ l
longer a l e = omega (arith, ap length e)

-- `checkAndSave` hands the prepared block on, with the signatures of the commit cache and the flag
-- that tells whether this node proposed it, exactly if there are a quorum of signatures, exactly
-- a quorum of commits, the present view and a height above the highest block's; the list has as
-- many signatures as there are commits.
pub check_and_save_iff :
    (s : State)
    → (((check_and_save s).events
          ≡ seal_generated s.prepare_cache (sig_list s) (s.prepare_cache.idx == s.node_idx)
            ∷ s.events)
        ↔ IsReady s)
      × (length (sig_list s) ≡ have_commit s)
unfolding check_and_save touch_caches
check_and_save_iff s = (
  (
    λ e. elim (IsReady-cases s) [
      | inl ready ↦ ready
      | inr not_ready ↦ absurd (longer _ s.events (sym (check_and_save_not_ready s not_ready) ∙ e))
    ],
    λ (h, c, v, n). ground arith,
  ),
  length-map-signature_of (at [] s.prepare_cache.block_hash s.commit_cache),
)

-- With more commits than the quorum `checkAndSave` hands nothing on.
pub check_and_save_overfull :
    (s : State) → quorum s < have_commit s → (check_and_save s).events ≡ s.events
check_and_save_overfull s h = check_and_save_not_ready s (λ r. omega (arith, r.1))

-- `checkAndSave` leaves the counts as they are.
pub have_commit-check_and_save : (s : State) → have_commit (check_and_save s) ≡ have_commit s
unfolding check_and_save touch_caches
have_commit-check_and_save s =
    ground (arith, at-touch [] s.prepare_cache.block_hash s.prepare_cache.block_hash s.commit_cache)

pub quorum-check_and_save : (s : State) → quorum (check_and_save s) ≡ quorum s
unfolding check_and_save touch_caches quorum
quorum-check_and_save s = ground arith
