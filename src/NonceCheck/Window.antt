-- ===== src/NonceCheck/Window.antt =====
-- Which transactions `NonceCheck` of libcv/NonceCheck.cpp turns down.
use utispace_chain.Prelude.{ℕ, ◌+◌, ◌≤◌, ◌<◌, ◌≡◌, true, false, nat_eq}
use utispace_chain.QueueSet.{contains}
use utispace_chain.NonceCheck.{Chain, NonceCheck, unsigned_mod, ok, window_start}

-- The cache turns down every transaction of the blocks of its window, which is the last block and
-- the `maxblocksize` blocks before it. (The block 0 has no transactions.)
pub record IsWindow (size : ℕ) (c : Chain) (n : NonceCheck) : Type 0 where
  pub start : n.start_blk ≡ window_start size n.end_blk
  pub rejects :
      (b j : ℕ)
      → 0 < b
      → n.start_blk ≤ b
      → b ≤ n.end_blk
      → contains j (c.keys_at b) ≡ true
      → (ok j true n).1 ≡ false

-- No transaction stands in two blocks.
abbrev pub OnceEach : Chain → Type 0
OnceEach c =
    (a b j : ℕ) → a < b → contains j (c.keys_at b) ≡ true → contains j (c.keys_at a) ≡ false

module _ (old size : ℕ) (c : Chain) (n : NonceCheck) (once : OnceEach c)
    (small : c.number + 1 < unsigned_mod) where
  abbrev start' : ℕ
  start' = window_start size c.number
