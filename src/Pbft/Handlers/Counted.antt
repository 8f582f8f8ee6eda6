-- ===== src/Pbft/Handlers/Counted.antt =====
-- How the sign and commit requests are counted, libpbftseal/PBFT.cpp.
use utispace_chain.Prelude.{
  ℕ, ◌≤◌, ◌<◌, ◌+◌, ◌≡◌, ◌≢◌, refl, ap, ◌∙◌, [], ◌∷◌, true, false, ◌==◌, length, arith,
}
use utispace_chain.Prelude.Map.{
  Map, at, has, find, insert, touch, at-touch, at-insert, length-insert,
}
use utispace_chain.Pbft.Msg.{PbftMsg, PrepareReq}
use utispace_chain.Pbft.State.{Net, World, State, seal_generated}
use utispace_chain.Pbft.Caches.{
  Cache, is_exist, is_exist_sign, is_exist_commit, put_msg, add_sign_req, add_commit_req,
}
use utispace_chain.Pbft.Leader.{quorum}
use utispace_chain.Pbft.Sending.{check_sign, broadcast_commit_req, if_sent}
use utispace_chain.Pbft.Peers.{broadcast_msg}
use utispace_chain.Pbft.Commit.{
  have_sign, have_commit, check_and_save, touch_caches, sig_list, send_commit, backup_msg,
  commit_prepared, check_and_commit,
}
use utispace_chain.Pbft.Commit.Sealing.{
  check_and_save_iff, check_and_save_overfull, have_commit-check_and_save, quorum-check_and_save,
}
use utispace_chain.Pbft.Handlers.{handle_sign_msg, handle_commit_msg}

pub has-at : (k j : ℕ) (c : Cache) → is_exist k j c ≡ has j (at [] k c)
unfolding is_exist find at has
has-at k j [] = refl
has-at k j ((i, m) ∷ c) = ground (arith, has-at k j c)

length-put_msg :
    (k j : ℕ) (m : PbftMsg) (c : Cache)
    → is_exist k j c ≡ false
    → length (at [] k (put_msg k j m c)) ≡ length (at [] k c) + 1
unfolding put_msg
length-put_msg k j m c new = ground (
  arith,
  has-at k j c,
  at-insert [] k k (insert j m (at [] k c)) c,
  length-insert j m (at [] k c),
)

-- A request that the handlers accept for the prepared block: new, of another node, of the prepared
-- view, and signed.
abbrev pub AcceptedFor : Net → PbftMsg → ℕ × PrepareReq → Type 0
AcceptedFor net m (node_idx, prepared) =
    (m.idx ≢ node_idx)
    × (prepared.block_hash ≡ m.block_hash)
    × (prepared.view ≡ m.view)
    × (check_sign net m ≡ true)

-- What `checkAndCommit` and `checkAndSave` leave alone.
abbrev pub proposal : State → ℕ × PrepareReq
proposal s = (s.node_idx, s.prepare_cache)

abbrev pub Accepted : Net → PbftMsg → State → Type 0
Accepted net m s = AcceptedFor net m (proposal s)

-- The members by which the signatures of the prepared block are counted.
abbrev pub Signing : Type 0
Signing = ℕ × PrepareReq × Cache

abbrev pub signing : State → Signing
signing s = (s.node_idx, s.prepare_cache, s.sign_cache)

abbrev pub signs_of : Signing → Map PbftMsg
signs_of (i, p, c) = at [] p.block_hash c

-- The signatures of the prepared block.
abbrev pub signs : State → Map PbftMsg
signs s = signs_of (signing s)

signs-check_and_save : (s : State) → signs (check_and_save s) ≡ signs s
unfolding check_and_save touch_caches
signs-check_and_save s =
    ground (arith, at-touch [] s.prepare_cache.block_hash s.prepare_cache.block_hash s.sign_cache)

proposal-check_and_save : (s : State) → proposal (check_and_save s) ≡ proposal s
unfolding check_and_save touch_caches
proposal-check_and_save s = ground arith

module _ (net : Net) (w : World) where
  pub accept_commit :
      (m : PbftMsg) (s : State)
      → Accepted net m s
      → is_exist_commit m s ≡ false
      → handle_commit_msg net w m s ≡ check_and_save (add_commit_req m s)
  unfolding handle_commit_msg
  accept_commit m s (i, h, v, ok) new = ground arith

  have_commit-add_commit_req :
      (m : PbftMsg) (s : State)
      → s.prepare_cache.block_hash ≡ m.block_hash
      → is_exist_commit m s ≡ false
      → have_commit (add_commit_req m s) ≡ have_commit s + 1
  unfolding add_commit_req is_exist_commit
  have_commit-add_commit_req m s h new =
      rw h (length-put_msg m.block_hash m.sig m s.commit_cache new)

  -- The commit request that completes the quorum makes the engine hand the block on: if there is
  -- a quorum of signatures, one commit is missing, the prepared view is the present one and the
  -- block is above the highest one, then a new and accepted request adds the block to the events,
  -- with its signatures and the flag that tells whether this node proposed it.
  pub last_commit_seals :
      (m : PbftMsg) (s : State)
      → Accepted net m s
      → is_exist_commit m s ≡ false
      → quorum s ≤ have_sign s
      → have_commit s + 1 ≡ quorum s
      → s.prepare_cache.view ≡ s.view
      → s.highest_block.number < s.prepare_cache.height
      → (handle_commit_msg net w m s).events
        ≡ seal_generated s.prepare_cache
            (sig_list (add_commit_req m s))
            (s.prepare_cache.idx == s.node_idx)
          ∷ s.events
  unfolding add_commit_req quorum
  last_commit_seals m s a new hs hc hv hn = rw (accept_commit m s a new) (
      (check_and_save_iff (add_commit_req m s)).0.1
        (hs, omega (arith, have_commit-add_commit_req m s a.1 new), hv, hn))

  have_commit-le-add_commit_req :
      (m : PbftMsg) (s : State) → have_commit s ≤ have_commit (add_commit_req m s)
  unfolding add_commit_req put_msg
  have_commit-le-add_commit_req m s =
      let h = s.prepare_cache.block_hash in
      let inner = at [] m.block_hash s.commit_cache in
      ground (
        arith,
        at-insert [] m.block_hash h (insert m.sig m inner) s.commit_cache,
        length-insert m.sig m inner,
      )

  quorum-add_commit_req : (m : PbftMsg) (s : State) → quorum (add_commit_req m s) ≡ quorum s
  unfolding add_commit_req quorum
  quorum-add_commit_req m s = refl

  events-add_commit_req : (m : PbftMsg) (s : State) → (add_commit_req m s).events ≡ s.events
  unfolding add_commit_req
  events-add_commit_req m s = refl

  -- When the prepared block has more commits than the quorum, a commit request does not make the
  -- engine hand it on, and the count stays above the quorum.
  pub overfull_never_sealed :
      (m : PbftMsg) (s : State)
      → quorum s < have_commit s
      → let t = handle_commit_msg net w m s in (t.events ≡ s.events) × (quorum t < have_commit t)
  unfolding handle_commit_msg
  overfull_never_sealed m s h =
      let u = add_commit_req m s in
      ground (
        arith,
        h,
        quorum-add_commit_req m s,
        events-add_commit_req m s,
        have_commit-le-add_commit_req m s,
        check_and_save_overfull u,
        have_commit-check_and_save u,
        quorum-check_and_save u,
      )

  signing-send_commit : (s : State) → signing (send_commit net w s) ≡ signing s
  unfolding send_commit broadcast_commit_req if_sent add_commit_req broadcast_msg
  signing-send_commit s = ground arith

  signing-backup_msg : (req : PrepareReq) (s : State) → signing (backup_msg w req s) ≡ signing s
  unfolding backup_msg
  signing-backup_msg req s = ground arith

  signs-commit_prepared : (s : State) → signs (commit_prepared net w s) ≡ signs s
  unfolding commit_prepared
  signs-commit_prepared s =
      signs-check_and_save _ ∙ ap signs_of (signing-send_commit _ ∙ signing-backup_msg _ _)

  proposal-commit_prepared : (s : State) → proposal (commit_prepared net w s) ≡ proposal s
  unfolding commit_prepared
  proposal-commit_prepared s =
      proposal-check_and_save _
      ∙ ap (λ (c : Signing). (c.0, c.1)) (signing-send_commit _ ∙ signing-backup_msg _ _)

  signs-check_and_commit : (s : State) → signs (check_and_commit net w s) ≡ signs s
  unfolding check_and_commit
  signs-check_and_commit s =
      let h = s.prepare_cache.block_hash in
      let s' : State = record s { sign_cache = touch [] h s.sign_cache } in
      ground (arith, at-touch [] h h s.sign_cache, signs-commit_prepared s')

  pub proposal-check_and_commit : (s : State) → proposal (check_and_commit net w s) ≡ proposal s
  unfolding check_and_commit
  proposal-check_and_commit s =
      let h = s.prepare_cache.block_hash in
      let s' : State = record s { sign_cache = touch [] h s.sign_cache } in
      ground (arith, proposal-commit_prepared s')

  pub accept_sign :
      (m : PbftMsg) (s : State)
      → Accepted net m s
      → is_exist_sign m s ≡ false
      → handle_sign_msg net w m s ≡ check_and_commit net w (add_sign_req m s)
  unfolding handle_sign_msg
  accept_sign m s (i, h, v, ok) new = ground arith

  pub signs-add_sign_req :
      (m : PbftMsg) (s : State)
      → s.prepare_cache.block_hash ≡ m.block_hash
      → signs (add_sign_req m s) ≡ insert m.sig m (signs s)
  unfolding add_sign_req put_msg
  signs-add_sign_req m s h =
      ground (arith, at-insert [] m.block_hash m.block_hash (insert m.sig m (signs s)) s.sign_cache)

  -- An accepted new sign request adds one entry, under its signature.
  pub signs-handle_sign_msg :
      (m : PbftMsg) (s : State)
      → Accepted net m s
      → is_exist_sign m s ≡ false
      → (signs (handle_sign_msg net w m s) ≡ insert m.sig m (signs s))
        × (proposal (handle_sign_msg net w m s) ≡ proposal s)
  signs-handle_sign_msg m s a new = rw (accept_sign m s a new) (
    signs-check_and_commit _ ∙ signs-add_sign_req m s a.1,
    proposal-check_and_commit _ ∙ unfold add_sign_req in refl,
  )
