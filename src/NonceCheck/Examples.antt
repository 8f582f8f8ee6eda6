-- ===== src/NonceCheck/Examples.antt =====
-- A chain with one transaction in each block, for libcv/NonceCheck.cpp.
use utispace_chain.Prelude.{ℕ, [], ◌∷◌, true, nat_eq}
use utispace_chain.NonceCheck.{Chain, NonceCheck, update_cache}

abbrev chain_to : ℕ → Chain
chain_to n = record { number = n; keys_at = λ b. b ∷ [] }

abbrev fresh : NonceCheck
fresh = record { cache = []; start_blk = 0; end_blk = 0 }

-- The cache at block 3, with a window of 1000 blocks.
abbrev at_three : NonceCheck
at_three = update_cache (chain_to 3) 1000 true fresh
