-- ===== src/Nodes.antt =====
-- The node table of libcv/NodeConnParamsManager.cpp, as the consensus reads it.
pub mod Queries
use utispace_chain.Prelude.{
  ℕ, suc, ◌+◌, ◌-◌, ◌%◌, ◌^◌, List, [], ◌∷◌, Option, none, some, ◌&&◌, ltb, leb, ◌==◌,
  if◌then◌else◌,
}

-- The fields of `NodeConnParams` that the consensus reads. `node_id` is the public key of 512 bits,
-- and `identity_type` is any number but 0 and 1 while it is unset.
pub record Node : Type 0 where
  pub node_id : ℕ
  pub idx : ℕ
  pub identity_type : ℕ

abbrev pub account_type_normal : ℕ
account_type_normal = 0

abbrev pub account_type_miner : ℕ
account_type_miner = 1

-- What `NodeConnParamsManager` keeps and reads: the god mode of the chain parameters,
-- `_mNodeConnParams`, `_vInitIdentityNodes`, the number of the last block, and the nodes that the
-- system contract has at a block.
pub record Registry : Type 0 where
  pub god_miner_start : ℕ
  pub god_miner_end : ℕ
  pub god_miner_list : List Node
  pub nodes : List Node
  pub init_nodes : List ℕ
  pub chain_number : ℕ
  pub contract_nodes : ℕ → List Node

-- `getGodMiner(blockNum)`, with `none` for -1: the nodes of the god mode, if it is on for the block.
unfoldable pub get_god_miner : Registry → Option ℕ → Option (List Node)
get_god_miner r blk =
    let last : ℕ = elim blk [ none ↦ r.chain_number | some b ↦ b ] in
    if ltb 0 r.god_miner_start && (leb (r.god_miner_start - 1) last && ltb last r.god_miner_end)
    then some r.god_miner_list
    else none

-- The table in which the queries look.
abbrev pub active : Registry → List Node
active r = elim (get_god_miner r none) [ none ↦ r.nodes | some l ↦ l ]

-- `mNodeConnParams[node._sNodeId] = node`. A `std::map` lists its nodes by their ids, of which the
-- strings, hexadecimal and of one length, have the order of the numbers.
unfoldable pub put_node : Node → List Node → List Node
put_node n [] = n ∷ []
put_node n (m ∷ ms) =
    let rest = put_node n ms in
    if ltb n.node_id m.node_id
    then n ∷ m ∷ ms
    else if m.node_id == n.node_id
    then n ∷ ms
    else m ∷ rest

unfoldable pub put_nodes : List Node → List Node → List Node
put_nodes [] table = table
put_nodes (n ∷ ns) table = put_nodes ns (put_node n table)

-- The nodes of the configuration, numbered from `i` on.
unfoldable pub init_table : ℕ → List ℕ → List Node → List Node
init_table i [] table = table
init_table i (id ∷ ids) table =
    init_table (suc i) ids
      (put_node (record { node_id = id; idx = i; identity_type = account_type_miner }) table)

-- `getAllNodeConnInfo(blockNum, …)` into an empty map.
unfoldable pub get_all_nodes : Registry → Option ℕ → List Node
get_all_nodes r blk = elim (get_god_miner r blk) [
  | some l ↦ l
  | none ↦ elim blk [
    | none ↦ r.nodes
    | some b ↦ elim (r.contract_nodes b) [
      | [] ↦ init_table 0 r.init_nodes []
      | n ∷ ns ↦ put_nodes (n ∷ ns) []
    ]
  ]
]

unfoldable pub find_idx : ℕ → List Node → Option ℕ
find_idx i [] = none
find_idx i (n ∷ ns) = if n.idx == i then some n.node_id else find_idx i ns

unfoldable pub find_node : ℕ → List Node → Option Node
find_node id [] = none
find_node id (n ∷ ns) = if n.node_id == id then some n else find_node id ns

-- The count is an `unsigned`.
unfoldable pub count_miners : List Node → ℕ
count_miners [] = 0
count_miners (n ∷ ns) =
    let rest = count_miners ns in
    if n.identity_type == account_type_miner then (rest + 1) % 2 ^ 32 else rest

-- `getPublicKey(_idx, _pub)`
unfoldable pub get_public_key : Registry → ℕ → Option ℕ
unfolding find_idx
get_public_key r i = find_idx i (active r)

-- `getIdx(_nodeId, _idx)`
unfoldable pub get_idx : Registry → ℕ → Option ℕ
unfolding find_node
get_idx r id = elim (find_node id (active r)) [ none ↦ none | some n ↦ some n.idx ]

-- `getMinerNum()`
unfoldable pub get_miner_num : Registry → ℕ
unfolding count_miners
get_miner_num r = count_miners (active r)

-- `getAccountType(_nodeId, _type)`
unfoldable pub get_account_type : Registry → ℕ → Option ℕ
unfolding find_node
get_account_type r id = elim (find_node id (active r)) [
  | none ↦ none
  | some n ↦ some n.identity_type
]
