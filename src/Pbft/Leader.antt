-- ===== src/Pbft/Leader.antt =====
-- Who leads and how many must agree: `getLeader`, `isLeader`, `quorum` (libpbftseal/PBFT.h),
-- `getMinerList` and `resetConfig` (libpbftseal/PBFT.cpp).
pub mod Quorum
pub mod Config
use utispace_chain.Prelude.{
  ℕ, zero, suc, ◌+◌, ◌-◌, ◌/◌, ◌%◌, ◌^◌, List, [], ◌∷◌, Option, none, some, Bool, true, false, not,
  ◌&&◌, ◌||◌, ltb, leb, ◌==◌, if◌then◌else◌, length, set,
}
use utispace_chain.Nodes.{
  Node, account_type_miner, count_miners, get_all_nodes, get_idx, get_miner_num, get_account_type,
}
use utispace_chain.Pbft.Msg.{invalid256, add256, sub256, clear_prepare}
use utispace_chain.Pbft.State.{Net, State}

-- `m_node_num - m_f`
unfoldable pub quorum : State → ℕ
quorum s = sub256 s.node_num s.f

-- `getLeader()`, with `none` for `(false, Invalid256)`.
unfoldable pub get_leader : State → Option ℕ
get_leader s =
    if s.cfg_err || (s.leader_failed || (s.highest_block.number == invalid256))
    then none
    else some (add256 s.view s.highest_block.number % s.node_num)

-- `isLeader()`
unfoldable pub is_leader : State → Bool
is_leader s = elim (get_leader s) [ none ↦ false | some i ↦ i == s.node_idx ]

-- The second loop of `getMinerList`: a public key for each miner, at its index, which is cast to
-- `unsigned`. The loop stops at an index that is too large and leaves the list half filled.
unfoldable pub fill_miners : ℕ → List Node → List ℕ → List ℕ × Bool
fill_miners n [] l = (l, true)
fill_miners n (d ∷ ds) l =
    let is_miner = d.identity_type == account_type_miner in
    let idx = d.idx % 2 ^ 32 in
    let rest = fill_miners n ds (if is_miner then set l idx d.node_id else l) in
    if is_miner && leb n idx then (l, false) else rest

-- `_miner_list.resize(miner_num)`: what the list held stays.
unfoldable pub resize : ℕ → List ℕ → List ℕ
resize zero l = []
resize (suc n) [] = 0 ∷ resize n []
resize (suc n) (x ∷ xs) = x ∷ resize n xs

module _ (net : Net) where
  -- `getMinerList`, on the list that it is given: the new list and the result.
  unfoldable pub get_miner_list : Option ℕ → List ℕ → List ℕ × Bool
  get_miner_list blk old =
      let all = get_all_nodes net.registry blk in
      let n = count_miners all in fill_miners n all (resize n old)

  -- The part of `resetConfig` that runs when the number of nodes or the own index has changed.
  unfoldable pub reload_config : ℕ → ℕ → State → State
  reload_config node_num node_idx s =
      let s' : State = record s {
        node_num = node_num;
        node_idx = node_idx;
        f = sub256 node_num 1 / 3;
        prepare_cache = clear_prepare s.prepare_cache;
        sign_cache = [];
        recv_view_change_req = [];
      } in
      let (l, filled) = get_miner_list none s.miner_list in
      record s' { miner_list = l; cfg_err = not filled || not (length l == node_num) }

  -- `resetConfig` behind the account type `t`.
  unfoldable pub reset_known : ℕ → State → State
  reset_known t s =
      let s' : State = record s { account_type = t } in
      let n = get_miner_num net.registry in
      if n == 0 then record s' { cfg_err = true } else elim (get_idx net.registry net.public_key) [
        | none ↦ record s' { cfg_err = true }
        | some i ↦
            if not (n == s.node_num) || not (i == s.node_idx)
            then reload_config n i s'
            else record s' { cfg_err = false }
      ]

  -- `resetConfig`
  unfoldable pub reset_config : State → State
  reset_config s = elim (get_account_type net.registry net.public_key) [
    | none ↦ record s { cfg_err = true }
    | some t ↦ reset_known t s
  ]
