-- ===== src/NonceCheck.antt =====
-- The replay check of transactions: class `NonceCheck` of libcv/NonceCheck.h and NonceCheck.cpp.
pub mod Window
mod Examples
use utispace_chain.Prelude.{
  ℕ, zero, suc, ◌+◌, ◌-◌, ◌%◌, ◌^◌, List, [], ◌∷◌, Bool, true, false, ltb, if◌then◌else◌, max,
  nat_eq,
}
use utispace_chain.QueueSet.{contains, erase_member}

-- What the cache reads of a `BlockChain`: the number of the last block, and the keys of the
-- transactions of a block. A key is what `generateKey` makes of a transaction, as a number.
pub record Chain : Type 0 where
  pub number : ℕ
  pub keys_at : ℕ → List ℕ

-- `m_cache`, of which only the keys matter, `m_startblk` and `m_endblk`.
pub record NonceCheck : Type 0 where
  pub cache : List ℕ
  pub start_blk : ℕ
  pub end_blk : ℕ

abbrev pub unsigned_mod : ℕ
unsigned_mod = 2 ^ 32

unfoldable pub insert_key : ℕ → List ℕ → List ℕ
insert_key k cache = if contains k cache then cache else k ∷ cache

unfoldable pub insert_keys : List ℕ → List ℕ → List ℕ
insert_keys [] cache = cache
insert_keys (k ∷ ks) cache = insert_keys ks (insert_key k cache)

unfoldable pub erase_keys : List ℕ → List ℕ → List ℕ
erase_keys [] cache = cache
erase_keys (k ∷ ks) cache = erase_keys ks (erase_member k cache)

-- `ok(_transaction, _needinsert)`, over the transaction's key.
unfoldable pub ok : ℕ → Bool → NonceCheck → NonceCheck × Bool
ok key need_insert n =
    if contains key n.cache
    then (n, false)
    else ((if need_insert then record n { cache = key ∷ n.cache } else n), true)

-- `delCache(_transcations)`, over the transactions' keys.
unfoldable pub del_cache : List ℕ → NonceCheck → NonceCheck
del_cache keys n = record n { cache = erase_keys keys n.cache }

-- The first block of the window that ends with the given block. The first argument is
-- `NonceCheck::maxblocksize`, which `updateConfig` of libcv/Client.cpp sets, cast to `unsigned`.
unfoldable pub window_start : ℕ → ℕ → ℕ
window_start max_block_size last =
    let size = max_block_size % unsigned_mod in if ltb size last then last - size else 0

module _ (c : Chain) where
  -- The loops over `count` blocks from the block `i` on.
  unfoldable pub erase_blocks : ℕ → ℕ → List ℕ → List ℕ
  erase_blocks zero i cache = cache
  erase_blocks (suc count) i cache = erase_blocks count (i + 1) (erase_keys (c.keys_at i) cache)

  unfoldable pub insert_blocks : ℕ → ℕ → List ℕ → List ℕ
  insert_blocks zero i cache = cache
  insert_blocks (suc count) i cache = insert_blocks count (i + 1) (insert_keys (c.keys_at i) cache)

  -- `updateCache(_bc, _rebuild)` under the present `maxblocksize`. The numbers of blocks are `unsigned`. Were the last one 2^32 - 1,
  -- the second loop would not end; here it stops there.
  unfoldable pub update_cache : ℕ → Bool → NonceCheck → NonceCheck
  update_cache max_block_size rebuild n =
      let last = c.number % unsigned_mod in
      let start = window_start max_block_size last in
      let kept = if rebuild then [] else erase_blocks (start - n.start_blk) n.start_blk n.cache in
      let pre_end = if rebuild then 0 else n.end_blk in
      let first = max ((pre_end + 1) % unsigned_mod) start in
      record {
        cache = insert_blocks (last + 1 - first) first kept;
        start_blk = start;
        end_blk = last;
      }

  -- `init(_bc)`
  unfoldable pub init : ℕ → NonceCheck → NonceCheck
  init max_block_size n = update_cache max_block_size true (record n { start_blk = 0; end_blk = 0 })
