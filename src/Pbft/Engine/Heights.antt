-- ===== src/Pbft/Engine/Heights.antt =====
-- From one block to the next, and over a restart: `reportBlock`, `initEnv` and the backup of
-- libpbftseal/PBFT.cpp.
use utispace_chain.Prelude.{
  ℕ, ◌≤◌, ◌<◌, ◌≡◌, ◌⊎◌, refl, sym, ◌∙◌, inl, inr, List, [], ◌∷◌, ◌≢◌, ◌^◌, length, Option-cases,
  none, some, Bool, true, false, leb, Bool-cases, arith,
}
use utispace_chain.Prelude.Map.{touch}
use utispace_chain.Pbft.Msg.{PrepareReq, no_prepare, add256}
use utispace_chain.Pbft.State.{Net, World, State, Header}
use utispace_chain.Rlp.Reader.{
  payload, payload_offset, length_size, byte_at, cropped, drop, take, to_int, item_length, is_int,
  require_good,
}
use utispace_chain.Rlp.Item.{rlp, actual_size, size_as_encoded}
use utispace_chain.Rlp.Index.{at, restart, steps, first_of}
use utispace_chain.Pbft.Wire.{
  populate, read, packet_of, stream_prepare_fields, reload, populate_prepare,
}
use utispace_chain.Pbft.Wire.Fields.{InRange}
use utispace_chain.Pbft.Wire.RoundTrip.{prepare-Arrives}
use utispace_chain.Pbft.Peers.{broadcast_msg}
use utispace_chain.Pbft.Caches.{del_cache, del_view_change, add_commit_req}
use utispace_chain.Pbft.Leader.{reset_config, reset_known, reload_config, quorum}
use utispace_chain.Pbft.Sending.{broadcast_commit_req, if_sent}
use utispace_chain.Pbft.Commit.{
  have_sign, check_and_save, touch_caches, send_commit, backup_msg, commit_prepared,
  check_and_commit,
}
use utispace_chain.Pbft.Handlers.Rejected.{committed-check_and_commit}
use utispace_chain.Pbft.Engine.{
  Setup, reload_msg, fresh_state, init_env, next_height, advance, report_block,
}

-- The members that say which block the engine works on, and how far it is.
abbrev pub Heights : Type 0
Heights = Header × ℕ × ℕ × ℕ × ℕ × Bool × ℕ

abbrev pub heights : State → Heights
heights s = (
  s.highest_block, s.consensus_block_number, s.view, s.to_view, s.change_cycle, s.leader_failed,
  s.last_consensus_time,
)

heights-reset_config : (net : Net) (s : State) → heights (reset_config net s) ≡ heights s
unfolding reset_config reset_known reload_config
heights-reset_config net s = ground arith

module _ (net : Net) (w : World) where
  -- `reportBlock` makes the block the highest one. If the engine was waiting for it or for an
  -- earlier one, then it begins to work on the block behind it, in view 0, with the clock and the
  -- change cycle reset and the leader counting as working; otherwise it goes on as before.
  pub report_block_cases :
      (b : Header) (s : State)
      → ((s.consensus_block_number ≤ b.number)
          × (heights (report_block net w b s) ≡ (b, add256 b.number 1, 0, 0, 0, false, w.now)))
        ⊎ ((b.number < s.consensus_block_number)
            × (heights (report_block net w b s) ≡ heights (record s { highest_block = b })))
  unfolding report_block advance next_height del_view_change del_cache
  report_block_cases b s =
      let e = heights-reset_config net (advance w b s) in
      elim (Bool-cases (leb s.consensus_block_number b.number)) [
        | inl h ↦ inl (ground (arith, h), ground (arith, h, e))
        | inr h ↦ inr (ground (arith, h), ground (arith, h, e))
      ]

  backup-check_and_save : (s : State) → (check_and_save s).backup_db ≡ s.backup_db
  unfolding check_and_save touch_caches
  backup-check_and_save s = ground arith

  backup-send_commit : (s : State) → (send_commit net w s).backup_db ≡ s.backup_db
  unfolding send_commit broadcast_commit_req if_sent add_commit_req broadcast_msg
  backup-send_commit s = ground arith

  backup-backup_msg :
      (req : PrepareReq) (s : State) (old rlp : List ℕ)
      → s.backup_db ≡ some old
      → packet_of (stream_prepare_fields req) ≡ some rlp
      → w.put_ok ≡ true
      → (backup_msg w req s).backup_db ≡ some rlp
  unfolding backup_msg
  backup-backup_msg req s old rlp h p ok = ground (arith, h, p, ok)

  backup-commit_prepared :
      (s : State) (old rlp : List ℕ)
      → s.backup_db ≡ some old
      → packet_of (stream_prepare_fields s.raw_prepare_cache) ≡ some rlp
      → w.put_ok ≡ true
      → (commit_prepared net w s).backup_db ≡ some rlp
  unfolding commit_prepared
  backup-commit_prepared s old rlp h p ok =
      backup-check_and_save _
      ∙ backup-send_commit _
      ∙ backup-backup_msg s.raw_prepare_cache
          (record s { committed_prepare_cache = s.raw_prepare_cache }) old rlp h p ok

  backup-check_and_commit :
      (s : State) (old rlp : List ℕ)
      → have_sign s ≡ quorum s
      → s.prepare_cache.view ≡ s.view
      → s.backup_db ≡ some old
      → packet_of (stream_prepare_fields s.raw_prepare_cache) ≡ some rlp
      → w.put_ok ≡ true
      → (check_and_commit net w s).backup_db ≡ some rlp
  unfolding check_and_commit
  backup-check_and_commit s old rlp n v h p ok =
      let s' : State = record s { sign_cache = touch [] s.prepare_cache.block_hash s.sign_cache } in
      ground (arith, n, v, backup-commit_prepared s' old rlp h p ok)

  committed-init_env :
      (c : Setup) (p : PrepareReq)
      → reload_msg c.stored no_prepare ≡ some p
      → (t : State) × (init_env net w c ≡ some t) × (t.committed_prepare_cache ≡ p)
  unfolding init_env
  committed-init_env c p h =
      let t = reset_config net (fresh_state w c p) in (t, ground (arith, h), kept)
    where
      kept : (reset_config net (fresh_state w c p)).committed_prepare_cache ≡ p
      kept = unfold reset_config reset_known reload_config fresh_state in ground arith

-- No bytes at all are no record.
unread : reload populate_prepare [] ≡ none
unfolding reload populate_prepare populate read rlp at restart steps first_of payload payload_offset
    length_size byte_at cropped drop take to_int actual_size size_as_encoded item_length is_int
    require_good
unread = refl

unreadable : (p : PrepareReq) → reload populate_prepare [] ≢ some p
unreadable p h = let e : none ≡ some p = sym unread ∙ h in absurd (cc)

-- What `backupMsg` makes of a request is what `reloadMsg` reads.
stored-read :
    (p : PrepareReq)
    → InRange p.msg
    → length p.block < 2 ^ 62
    → (rlp : List ℕ) × (packet_of (stream_prepare_fields p) ≡ some rlp)
      × (reload_msg rlp no_prepare ≡ some p)
unfolding reload_msg
stored-read p ok short = elim (Option-cases (packet_of (stream_prepare_fields p))) [
  | inl e ↦ absurd (ground (arith, e, (prepare-Arrives p ok short).1))
  | inr ([], e) ↦ absurd (unreadable p (ground (arith, e, (prepare-Arrives p ok short).1)))
  | inr (b ∷ bs, e) ↦ (b ∷ bs, e, ground (arith, e, (prepare-Arrives p ok short).1))
]

-- With a database that takes the write, and a raw prepare request whose fields have the widths of
-- their types and whose block is shorter than 2^62 bytes: when the signatures reach exactly the
-- quorum in the present view, `checkAndCommit` stores the bytes of the request, and `initEnv` over
-- these bytes, in any surroundings and with any other arguments, does not throw and has the same
-- request as the committed one.
pub commit_survives_restart :
    (net : Net) (w w' : World) (c : Setup) (s : State) (old : List ℕ)
    → have_sign s ≡ quorum s
    → s.prepare_cache.view ≡ s.view
    → s.backup_db ≡ some old
    → w.put_ok ≡ true
    → InRange s.raw_prepare_cache.msg
    → length s.raw_prepare_cache.block < 2 ^ 62
    → (rlp : List ℕ) × (t : State) × ((check_and_commit net w s).backup_db ≡ some rlp)
      × (init_env net w' (record c { stored = rlp }) ≡ some t)
      × (t.committed_prepare_cache ≡ s.raw_prepare_cache)
      × ((check_and_commit net w s).committed_prepare_cache ≡ s.raw_prepare_cache)
commit_survives_restart net w w' c s old n v h ok range short =
    let (rlp, p, q) = stored-read s.raw_prepare_cache range short in
    let (t, e, k) = committed-init_env net w' (record c { stored = rlp }) s.raw_prepare_cache q in
    (
      rlp,
      t,
      backup-check_and_commit net w s old rlp n v h p ok,
      e,
      k,
      committed-check_and_commit net w s n v,
    )
