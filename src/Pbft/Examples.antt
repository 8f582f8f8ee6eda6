-- ===== src/Pbft/Examples.antt =====
-- Concrete inputs for the engine of libpbftseal/PBFT.cpp: four nodes that run one round.
mod Runs
mod Branches
mod Caches
mod Signatures
mod Progress
mod Wire
use utispace_chain.Prelude.{
  ◌*◌, ◌^◌, ℕ, ◌+◌, List, [], ◌∷◌, none, some, Bool, true, false, ◌==◌, ◌||◌,
}
use utispace_chain.Nodes.{Node, Registry, account_type_miner}
use utispace_chain.QueueSet.{QueueSet, empty}
use utispace_chain.Pbft.Msg.{PbftMsg, PrepareReq, Key, key_eq, no_prepare}
use utispace_chain.Pbft.State.{Net, World, Executed, Peer, Header, State}
use utispace_chain.Pbft.Sending.{sign_msg}
use utispace_chain.Pbft.Engine.{Setup, fresh_state, no_header}

abbrev pub node : ℕ → ℕ → Node
node id i = record { node_id = id; idx = i; identity_type = account_type_miner }

-- A signature of a hash by the node with public key `id`; adding 1000 makes another one.
abbrev pub sig_of : ℕ → ℕ → ℕ
sig_of id hash = id + hash

abbrev pub net_of : ℕ → Net
net_of id = record {
  registry = record {
    god_miner_start = 0;
    god_miner_end = 0;
    god_miner_list = [];
    nodes = node 10 0 ∷ node 20 1 ∷ node 30 2 ∷ node 40 3 ∷ [];
    init_nodes = [];
    chain_number = 0;
    contract_nodes = λ b. node 10 0 ∷ node 20 1 ∷ node 30 2 ∷ node 40 3 ∷ [];
  };
  block_of = some;
  public_key = id;
  sign = sig_of id;
  verify = λ pub_id sig hash. (sig == sig_of pub_id hash) || (sig == sig_of pub_id hash + 1000);
  sha3 = λ l. 7;
  broadcast_to_normal_node = false;
}

-- The first of the nodes.
abbrev pub four : Net
four = net_of 10

abbrev pub world : World
world = record {
  now = 1000;
  system_ticks = 100 * 10 ^ 9;
  check_block_valid = λ hash block. some (record {
    checked_hash = hash;
    pending_size = 1;
    real_hash = hash;
    sealed = true;
    block_data = block;
  });
  has_block = λ h. true;
  is_connected = λ i. true;
  interval = λ t c. t;
  put_ok = true;
}

abbrev pub peer : ℕ → Peer
peer i = record {
  id = i;
  known_prepare = empty;
  known_sign = empty;
  known_commit = empty;
  known_view_change = empty;
  sent = [];
}

abbrev pub setup : Setup
setup = record {
  host = some (peer 20 ∷ peer 30 ∷ []);
  stored = [];
  view_timeout = 500;
  account_type = account_type_miner;
  empty_block_flag = false;
  omit_empty_block = false;
}

abbrev pub genesis : Header
genesis = record { number = 0; hash = 5; timestamp = 1 }

-- A message of the node with public key `id` and index `i`, for the block 99 of height 1.
abbrev pub vote : ℕ → ℕ → PbftMsg
vote id i = sign_msg (net_of id) 1 0 i 1000 99

abbrev pub prepared : PrepareReq
prepared = record { msg = vote 10 0; block = 1 ∷ 2 ∷ [] }

-- An engine of four nodes that has prepared the block 99.
abbrev pub ready : State
ready = record (fresh_state world setup no_prepare) {
  node_num = 4;
  f = 1;
  prepare_cache = prepared;
  raw_prepare_cache = prepared;
  highest_block = genesis;
  consensus_block_number = 1;
}
