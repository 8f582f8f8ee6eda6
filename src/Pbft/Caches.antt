-- ===== src/Pbft/Caches.antt =====
-- The caches of libpbftseal/PBFT.cpp: `isExist…`, `add…`, `delCache`, `delViewChange` and
-- `collectGarbage`.
pub mod Entries
pub mod Garbage
use utispace_chain.Prelude.{
  ◌*◌, ◌^◌, ℕ, ◌+◌, ◌-◌, List, [], ◌∷◌, Option, none, some, Bool, true, false, not, ◌&&◌, ltb, leb,
  ◌==◌, if◌then◌else◌, keep,
}
use utispace_chain.Prelude.Map.{Map, find, has, insert, erase, at, touch, modify}
use utispace_chain.Pbft.Msg.{PbftMsg, PrepareReq, clear_prepare, invalid256}
use utispace_chain.Pbft.State.{World, State, Header}

-- A map from hashes or views to the messages received for them.
abbrev pub Cache : Type 0
Cache = Map (Map PbftMsg)

unfoldable pub is_exist_prepare : PrepareReq → State → Bool
is_exist_prepare req s = s.raw_prepare_cache.block_hash == req.block_hash

unfoldable pub is_exist : ℕ → ℕ → Cache → Bool
is_exist k j c = elim (find k c) [ none ↦ false | some m ↦ has j m ]

unfoldable pub is_exist_sign : PbftMsg → State → Bool
unfolding is_exist
is_exist_sign req s = is_exist req.block_hash req.sig s.sign_cache

unfoldable pub is_exist_commit : PbftMsg → State → Bool
unfolding is_exist
is_exist_commit req s = is_exist req.block_hash req.sig s.commit_cache

unfoldable pub is_exist_view_change : PbftMsg → State → Bool
unfolding is_exist
is_exist_view_change req s = is_exist req.view req.idx s.recv_view_change_req

-- `cache[k][j] = v`
unfoldable pub put_msg : ℕ → ℕ → PbftMsg → Cache → Cache
put_msg k j v c = insert k (insert j v (at [] k c)) c

unfoldable pub add_raw_prepare : PrepareReq → State → State
add_raw_prepare req s = record s { raw_prepare_cache = req }

unfoldable pub add_sign_req : PbftMsg → State → State
add_sign_req req s = record s { sign_cache = put_msg req.block_hash req.sig req s.sign_cache }

unfoldable pub add_commit_req : PbftMsg → State → State
add_commit_req req s = record s { commit_cache = put_msg req.block_hash req.sig req s.commit_cache }

-- Whether an entry of an inner map is of the given view.
unfoldable pub of_view : ℕ → ℕ × PbftMsg → Bool
of_view v (j, m) = m.view == v

-- `addPrepareReq`; it always returns true.
unfoldable pub add_prepare_req : PrepareReq → State → State
add_prepare_req req s = record s {
  prepare_cache = req;
  sign_cache = modify req.block_hash (keep (of_view req.view)) s.sign_cache;
  commit_cache = modify req.block_hash (keep (of_view req.view)) s.commit_cache;
}

unfoldable pub del_cache : ℕ → State → State
del_cache h s = record s {
  sign_cache = erase h s.sign_cache;
  commit_cache = erase h s.commit_cache;
  prepare_cache =
      if h == s.prepare_cache.block_hash then clear_prepare s.prepare_cache else s.prepare_cache;
}

-- An inner map that is left empty is erased.
unfoldable pub cons_nonempty : ℕ → Map PbftMsg → Cache → Cache
cons_nonempty k [] c = c
cons_nonempty k (e ∷ es) c = (k, e ∷ es) ∷ c

-- Drops the entries that fail a test, then the inner maps that are left empty: the nested loops
-- of `delViewChange` and `collectGarbage`.
unfoldable pub prune : (ℕ × PbftMsg → Bool) → Cache → Cache
unfolding cons_nonempty
prune p [] = []
prune p ((k, inner) ∷ c) = cons_nonempty k (keep p inner) (prune p c)

-- A view change request that the highest block does not outdate: a higher block, or the same one.
unfoldable pub is_current : Header → ℕ × PbftMsg → Bool
is_current b (j, m) =
    if ltb m.height b.number
    then false
    else if (m.height == b.number) && not (m.block_hash == b.hash)
    then false
    else true

unfoldable pub del_view_change : State → State
del_view_change s = record s {
  recv_view_change_req = prune (is_current s.highest_block) s.recv_view_change_req;
}

unfoldable pub not_below : ℕ → ℕ × PbftMsg → Bool
not_below n (j, m) = not (ltb m.height n)

-- `seconds(kCollectInterval)` in the ticks of the system clock, which are nanoseconds.
abbrev pub collect_interval : ℕ
collect_interval = 60 * 10 ^ 9

-- `collectGarbage`. A header is unset while its timestamp is `Invalid256`.
unfoldable pub collect_garbage : World → State → State
collect_garbage w s =
    if s.highest_block.timestamp == invalid256
    then s
    else if leb collect_interval (w.system_ticks - s.last_collect_time)
    then record s {
      sign_cache = prune (not_below s.highest_block.number) s.sign_cache;
      commit_cache = prune (not_below s.highest_block.number) s.commit_cache;
      last_collect_time = w.system_ticks;
    }
    else s
