-- ===== src/Pbft/Engine.antt =====
-- The entry points of the engine and the runs that they make: `initEnv`, `generateSeal`,
-- `generateCommit`, `shouldSeal`, `reportBlock`, the calls of `workLoop` and those for an empty
-- block, libpbftseal/PBFT.cpp. Each takes the lock, so a run is a sequence of whole calls.
pub mod Authentic
pub mod Forward
pub mod Progress
pub mod Heights
use utispace_chain.Prelude.{
  ℕ, ◌+◌, List, [], ◌∷◌, none, some, Option, Bool, true, false, not, ◌&&◌, ◌||◌, leb, ◌==◌,
  if◌then◌else◌,
}
use utispace_chain.Nodes.{get_public_key, account_type_miner}
use utispace_chain.Pbft.Msg.{PrepareReq, invalid256, add256, no_prepare}
use utispace_chain.Pbft.State.{Net, World, State, Peer, Header}
use utispace_chain.Pbft.Wire.{reload, populate_prepare}
use utispace_chain.Pbft.Caches.{add_prepare_req, del_cache, del_view_change, collect_garbage}
use utispace_chain.Pbft.Leader.{get_leader, reset_config}
use utispace_chain.Pbft.Sending.{own_prepare, broadcast_prepare_req, broadcast_sign_req}
use utispace_chain.Pbft.Commit.{check_and_commit}
use utispace_chain.Pbft.ViewChange.{
  check_timeout, change_view_for_empty_block_without_lock, change_view_for_empty_block_with_lock,
}
use utispace_chain.Pbft.Prepare.{handle_future_block, re_handle_prepare_req}
use utispace_chain.Pbft.Handlers.{Packet, handle_msg}

-- The header of a declared `BlockHeader`.
abbrev pub no_header : Header
no_header = record { number = invalid256; hash = 0; timestamp = invalid256 }

-- What is passed to `initEnv`, what its backup database holds under "committed", and the members
-- that no code sets before they are first read.
pub record Setup : Type 0 where
  pub host : Option (List Peer)
  pub stored : List ℕ
  pub view_timeout : ℕ
  pub account_type : ℕ
  pub empty_block_flag : Bool
  pub omit_empty_block : Bool

-- `reloadMsg(backup_key_committed, _msg)` of the bytes under the key. A record that cannot be read
-- throws, which is `none`.
unfoldable pub reload_msg : List ℕ → PrepareReq → Option PrepareReq
reload_msg [] old = some old
reload_msg (b ∷ bs) old = reload populate_prepare (b ∷ bs)

-- The engine after its constructor and the assignments of `initEnv`, with the request that
-- `reloadMsg` made.
unfoldable pub fresh_state : World → Setup → PrepareReq → State
fresh_state w c committed = record {
  account_type = c.account_type;
  host = c.host;
  node_idx = 0;
  view = 0;
  node_num = 0;
  f = 0;
  view_timeout = c.view_timeout;
  last_consensus_time = w.now;
  change_cycle = 0;
  to_view = 0;
  leader_failed = false;
  last_sign_time = 0;
  raw_prepare_cache = no_prepare;
  prepare_cache = no_prepare;
  future_prepare_cache = (invalid256, no_prepare);
  sign_cache = [];
  commit_cache = [];
  recv_view_change_req = [];
  backup_db = some c.stored;
  committed_prepare_cache = committed;
  last_collect_time = w.system_ticks;
  highest_block = no_header;
  consensus_block_number = 0;
  miner_list = [];
  cfg_err = false;
  last_exec_finish_time = w.now;
  empty_block_flag = c.empty_block_flag;
  omit_empty_block = c.omit_empty_block;
  events = [];
}

module _ (w : World) where
  -- The state in which the consensus on the block behind `b` begins.
  unfoldable pub next_height : Header → State → State
  next_height b s = record s {
    highest_block = b;
    view = 0;
    to_view = 0;
    change_cycle = 0;
    leader_failed = false;
    last_consensus_time = w.now;
    consensus_block_number = add256 b.number 1;
  }

  -- The first half of `reportBlock`: a block that the consensus was waiting for, or a later one,
  -- starts the next height.
  unfoldable pub advance : Header → State → State
  advance b s =
      if leb s.consensus_block_number b.number
      then del_view_change (next_height b s)
      else record s { highest_block = b }

module _ (net : Net) (w : World) where
  -- `initEnv`, which throws if `reloadMsg` does. `resetConfig` touches none of the members that are
  -- assigned behind it.
  unfoldable pub init_env : Setup → Option State
  init_env c = elim (reload_msg c.stored no_prepare) [
    | none ↦ none
    | some committed ↦ some (reset_config net (fresh_state w c committed))
  ]

  -- `startGeneration`; the thread that it starts makes the calls of `workLoop`.
  unfoldable pub start_generation : State → State
  start_generation s = reset_config net (record s { last_consensus_time = w.now })

  -- `generateSeal`, over the header's number and hash: the new state and the result. It also
  -- hands back the view, which it does not change.
  unfoldable pub generate_seal : ℕ → ℕ → List ℕ → State → State × Bool
  generate_seal number hash block s = broadcast_prepare_req net w number hash block s

  -- `generateCommit`
  unfoldable pub generate_commit : ℕ → ℕ → List ℕ → ℕ → State → State × Bool
  generate_commit number hash block view s =
      if not (view == s.view)
      then (s, false)
      else let req = own_prepare net w number view hash block s in
        let (s', sent) = broadcast_sign_req net w req (add_prepare_req req s) in
        ((if sent then check_and_commit net w s' else s'), true)

  -- The branch of `shouldSeal` for a leader that is another node.
  unfoldable pub watch_leader : ℕ → State → State
  watch_leader i s = elim s.host [
    | none ↦ s
    | some peers ↦ elim (get_public_key net.registry i) [
      | none ↦ s
      | some id ↦
          if not (w.is_connected id)
          then record s { last_consensus_time = 0; last_sign_time = 0 }
          else s
    ]
  ]

  -- The branch of `shouldSeal` for the leader itself.
  unfoldable pub lead : State → State × Bool
  lead s =
      if s.consensus_block_number == s.committed_prepare_cache.height
      then (
        (if not (s.consensus_block_number == s.raw_prepare_cache.height)
            then re_handle_prepare_req net w s.committed_prepare_cache s
            else s),
        false,
      )
      else (s, true)

  -- `shouldSeal`
  unfoldable pub should_seal : State → State × Bool
  should_seal s =
      if s.cfg_err || not (s.account_type == account_type_miner)
      then (s, false)
      else elim (get_leader s) [
        | none ↦ (s, false)
        | some i ↦ if not (i == s.node_idx) then (watch_leader i s, false) else lead s
      ]

  -- `reportBlock`
  unfoldable pub report_block : Header → State → State
  report_block b s = del_cache b.hash (reset_config net (advance w b s))

-- `setOmitEmptyBlock`
abbrev pub set_omit_empty_block : Bool → State → State
set_omit_empty_block flag s = record s { omit_empty_block = flag }

-- One call of an entry point, in any surroundings.
pub data Step (net : Net) : State → State → Type 0 where
  message :
      (w : World) (from node : ℕ) (p : Packet) (s : State)
      → Step net s (handle_msg net w from node p s)
  timer : (w : World) (s : State) → Step net s (check_timeout net w s)
  future : (w : World) (s : State) → Step net s (handle_future_block net w s)
  garbage : (w : World) (s : State) → Step net s (collect_garbage w s)
  seal :
      (w : World) (number hash : ℕ) (block : List ℕ) (s : State)
      → Step net s (generate_seal net w number hash block s).0
  commit :
      (w : World) (number hash : ℕ) (block : List ℕ) (view : ℕ) (s : State)
      → Step net s (generate_commit net w number hash block view s).0
  poll : (w : World) (s : State) → Step net s (should_seal net w s).0
  report : (w : World) (b : Header) (s : State) → Step net s (report_block net w b s)
  start : (w : World) (s : State) → Step net s (start_generation net w s)
  omit_empty : (flag : Bool) (s : State) → Step net s (set_omit_empty_block flag s)
  empty_block : (s : State) → Step net s (change_view_for_empty_block_with_lock s)
  empty_block_unlocked : (s : State) → Step net s (change_view_for_empty_block_without_lock s)

pub data Reach (net : Net) (s : State) : State → Type 0 where
  here : Reach net s s
  next : {t u : State} → Reach net s t → Step net t u → Reach net s u
