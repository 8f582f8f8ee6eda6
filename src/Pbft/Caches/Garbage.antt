-- ===== src/Pbft/Caches/Garbage.antt =====
-- What the caches hold after they were tidied: `addPrepareReq`, `delViewChange` and
-- `collectGarbage` of libpbftseal/PBFT.cpp.
use utispace_chain.Prelude.{
  ℕ, ◌+◌, ◌≤◌, ◌<◌, ◌≡◌, ◌≢◌, ◌⊎◌, refl, [], ◌∷◌, true, keep, keep-All, All, All-map_imp, arith,
}
use utispace_chain.Prelude.Map.{Map, at, modify}
use utispace_chain.Pbft.Msg.{PbftMsg, PrepareReq, invalid256}
use utispace_chain.Pbft.State.{World, State, Header}
use utispace_chain.Pbft.Caches.{
  Cache, of_view, add_prepare_req, prune, is_current, del_view_change, not_below, collect_interval,
  collect_garbage,
}
use utispace_chain.Pbft.Caches.Entries.{AllMsgs, prune_passes, NonEmpty, prune-NonEmpty}

AllMsgs-imp :
    (P Q : ℕ → ℕ → PbftMsg → Type 0)
    → ((k j : ℕ) (m : PbftMsg) → P k j m → Q k j m)
    → (c : Cache) → AllMsgs P c
    → AllMsgs Q c
AllMsgs-imp P Q f = All-map_imp _ _ (λ e. All-map_imp _ _ (λ d. f e.0 d.0 d.1) e.1)

not_below-le : (n k j : ℕ) (m : PbftMsg) → not_below n (j, m) ≡ true → n ≤ m.height
unfolding not_below
not_below-le n k j m h = ground arith

current :
    (b : Header) (j : ℕ) (m : PbftMsg)
    → is_current b (j, m) ≡ true
    → (b.number < m.height) ⊎ ((m.height ≡ b.number) × (m.block_hash ≡ b.hash))
unfolding is_current
current b j m h = ground arith

at-modify :
    (f : Map PbftMsg → Map PbftMsg) (k : ℕ) (c : Cache)
    → f [] ≡ []
    → at [] k (modify k f c) ≡ f (at [] k c)
unfolding at modify
at-modify f k [] e = ground (arith, e)
at-modify f k ((i, m) ∷ c) e = ground (arith, at-modify f k c e)

of_view-eq : (v : ℕ) (d : ℕ × PbftMsg) → of_view v d ≡ true → d.1.view ≡ v
unfolding of_view
of_view-eq v (j, m) h = ground arith

kept_view :
    (v k : ℕ) (c : Cache) → All (λ d. d.1.view ≡ v) (at [] k (modify k (keep (of_view v)) c))
unfolding keep
kept_view v k c =
    rw (at-modify (keep (of_view v)) k c refl)
      (All-map_imp _ _ (of_view-eq v) _ (keep-All (of_view v) (at [] k c)))

-- The state in which the garbage is collected.
collected :
    (w : World) (s : State)
    → s.highest_block.timestamp ≢ invalid256
    → s.last_collect_time + collect_interval ≤ w.system_ticks
    → collect_garbage w s ≡ record s {
      sign_cache = prune (not_below s.highest_block.number) s.sign_cache;
      commit_cache = prune (not_below s.highest_block.number) s.commit_cache;
      last_collect_time = w.system_ticks;
    }
unfolding collect_garbage
collected w s h due = ground arith

-- Sixty seconds or more after the last collection, with a highest block that is set, the sign and the
-- commit cache hold no message below the highest block and no empty entry, and the time of the
-- collection is noted.
pub collect_garbage_clean :
    (w : World) (s : State)
    → s.highest_block.timestamp ≢ invalid256
    → s.last_collect_time + collect_interval ≤ w.system_ticks
    → let t = collect_garbage w s in
      AllMsgs (λ k j m. s.highest_block.number ≤ m.height) t.sign_cache
      × AllMsgs (λ k j m. s.highest_block.number ≤ m.height) t.commit_cache
      × All NonEmpty t.sign_cache
      × All NonEmpty t.commit_cache
      × (t.last_collect_time ≡ w.system_ticks)
collect_garbage_clean w s stamped due =
    let t = not_below s.highest_block.number in
    rw (collected w s stamped due) (
      AllMsgs-imp _ _ (not_below-le s.highest_block.number) _ (prune_passes t s.sign_cache),
      AllMsgs-imp _ _ (not_below-le s.highest_block.number) _ (prune_passes t s.commit_cache),
      prune-NonEmpty t s.sign_cache,
      prune-NonEmpty t s.commit_cache,
      refl,
    )

-- `delViewChange` keeps only requests for a higher block than the highest one, or for that block
-- itself, and no empty entry.
pub del_view_change_current :
    (s : State)
    → AllMsgs
        (λ k j m.
          (s.highest_block.number < m.height)
          ⊎ ((m.height ≡ s.highest_block.number) × (m.block_hash ≡ s.highest_block.hash)))
        (del_view_change s).recv_view_change_req
      × All NonEmpty (del_view_change s).recv_view_change_req
unfolding del_view_change
del_view_change_current s = (
  AllMsgs-imp _ _ (λ k j m h. current s.highest_block j m h) _
      (prune_passes (is_current s.highest_block) s.recv_view_change_req),
  prune-NonEmpty (is_current s.highest_block) s.recv_view_change_req,
)

-- After `addPrepareReq` the messages cached for the prepared block are all of its view.
pub add_prepare_req_view :
    (req : PrepareReq) (s : State)
    → let t = add_prepare_req req s in
      (t.prepare_cache ≡ req)
      × All (λ d. d.1.view ≡ req.view) (at [] req.block_hash t.sign_cache)
      × All (λ d. d.1.view ≡ req.view) (at [] req.block_hash t.commit_cache)
unfolding add_prepare_req
add_prepare_req_view req s = (
  refl,
  kept_view req.view req.block_hash s.sign_cache,
  kept_view req.view req.block_hash s.commit_cache,
)
