-- ===== src/Pbft/State.antt =====
-- The members of class `PBFT` (libpbftseal/PBFT.h), what it takes from the rest of the node, and
-- what it hands to it.
use utispace_chain.Prelude.{ℕ, List, ◌∷◌, Option, Bool}
use utispace_chain.Prelude.Map.{Map}
use utispace_chain.Nodes.{Registry}
use utispace_chain.QueueSet.{QueueSet}
use utispace_chain.Pbft.Msg.{PbftMsg, PrepareReq, Key}

-- What stays fixed while the node table does: the table, the node's own key, the functions of
-- libdevcrypto, and the chain parameters. `block_of` is
-- the cast of a u256 to the `int` of a block number, with `none` for a negative one.
pub record Net : Type 0 where
  pub registry : Registry
  pub block_of : ℕ → Option ℕ
  pub public_key : ℕ
  pub sign : ℕ → ℕ
  pub verify : ℕ → ℕ → ℕ → Bool
  pub sha3 : List ℕ → ℕ
  pub broadcast_to_normal_node : Bool

-- What `handlePrepareMsg` sees of the `Block` that it executes: the hash without seal and the
-- number of transactions after `checkBlockValid`, then, after `commitToSeal`, the new hash,
-- whether `sealBlock` succeeded, and the block's bytes.
pub record Executed : Type 0 where
  pub checked_hash : ℕ
  pub pending_size : ℕ
  pub real_hash : ℕ
  pub sealed : Bool
  pub block_data : List ℕ

-- What an entry point reads of its surroundings: the clock, read once, `m_bc->checkBlockValid`
-- with `none` for an exception, whether the chain has a block, whether a node is connected, the
-- view timeout as a function of `m_view_timeout` and `m_change_cycle` (it is computed in floating
-- point), and whether a write to the backup database succeeds.
pub record World : Type 0 where
  pub now : ℕ
  pub system_ticks : ℕ
  pub check_block_valid : ℕ → List ℕ → Option Executed
  pub has_block : ℕ → Bool
  pub is_connected : ℕ → Bool
  pub interval : ℕ → ℕ → ℕ
  pub put_ok : Bool

-- A packet as it is put on the wire: its id and the request that it encodes.
pub record Wire : Type 0 where
  pub packet_id : ℕ
  pub req : PrepareReq

-- `PBFTPeer`, with the packets sent to it.
pub record Peer : Type 0 where
  pub id : ℕ
  pub known_prepare : QueueSet Key
  pub known_sign : QueueSet Key
  pub known_commit : QueueSet Key
  pub known_view_change : QueueSet Key
  pub sent : List Wire

-- What `PBFT` reads of a `BlockHeader`.
pub record Header : Type 0 where
  pub number : ℕ
  pub hash : ℕ
  pub timestamp : ℕ

-- The calls out of the engine: `m_onSealGenerated` with the block and its signatures, the cached
-- block of `m_bc->addBlockCache`, and `m_onViewChange`.
pub data Event : Type 0 where
  seal_generated : PrepareReq → List (ℕ × ℕ) → Bool → Event
  block_cached : ℕ → Event
  view_changed : Event

-- `host` is what `m_host.lock()` yields. `backup_db` is `none` for a null database, and otherwise
-- holds the bytes under the key "committed", none of them if the key is missing. `events` has the latest call first.
pub record State : Type 0 where
  pub account_type : ℕ
  pub host : Option (List Peer)
  pub node_idx : ℕ
  pub view : ℕ
  pub node_num : ℕ
  pub f : ℕ
  pub view_timeout : ℕ
  pub last_consensus_time : ℕ
  pub change_cycle : ℕ
  pub to_view : ℕ
  pub leader_failed : Bool
  pub last_sign_time : ℕ
  pub raw_prepare_cache : PrepareReq
  pub prepare_cache : PrepareReq
  pub future_prepare_cache : ℕ × PrepareReq
  pub sign_cache : Map (Map PbftMsg)
  pub commit_cache : Map (Map PbftMsg)
  pub recv_view_change_req : Map (Map PbftMsg)
  pub backup_db : Option (List ℕ)
  pub committed_prepare_cache : PrepareReq
  pub last_collect_time : ℕ
  pub highest_block : Header
  pub consensus_block_number : ℕ
  pub miner_list : List ℕ
  pub cfg_err : Bool
  pub last_exec_finish_time : ℕ
  pub empty_block_flag : Bool
  pub omit_empty_block : Bool
  pub events : List Event

abbrev pub emit : Event → State → State
emit e s = record s { events = e ∷ s.events }
