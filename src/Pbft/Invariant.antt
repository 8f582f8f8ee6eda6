-- ===== src/Pbft/Invariant.antt =====
-- An invariant of the consensus engine of libpbftseal/PBFT.cpp, over the members that it speaks of.
pub mod Sends
pub mod Commits
pub mod Tidying
pub mod Views
pub mod Prepares
use utispace_chain.Prelude.{ℕ, ◌≤◌, ◌≡◌, ◌⊎◌, true, List, [], ◌∷◌, Option, some, Bool, All}
use utispace_chain.Nodes.{get_public_key}
use utispace_chain.Pbft.Msg.{PbftMsg}
use utispace_chain.Pbft.State.{Net, State, Event, seal_generated, block_cached, view_changed}
use utispace_chain.Pbft.Caches.{Cache}
use utispace_chain.Pbft.Caches.Entries.{AllMsgs}
use utispace_chain.Pbft.Leader.Quorum.{IsConfigured}
use utispace_chain.Pbft.Sending.{check_sign}
use utispace_chain.Pbft.ViewChange.{max_change_cycle}

-- The members that the invariant is about. An operation that changes other members only has the
-- same value of `core` by computation.
pub record Core : Type 0 where
  pub node_num : ℕ
  pub f : ℕ
  pub cfg_err : Bool
  pub change_cycle : ℕ
  pub sign_cache : Cache
  pub commit_cache : Cache
  pub recv_view_change_req : Cache
  pub events : List Event

abbrev pub core : State → Core
core s = record {
  node_num = s.node_num;
  f = s.f;
  cfg_err = s.cfg_err;
  change_cycle = s.change_cycle;
  sign_cache = s.sign_cache;
  commit_cache = s.commit_cache;
  recv_view_change_req = s.recv_view_change_req;
  events = s.events;
}

-- `sig` is a signature of the hash by the node with index `i`, as the node table has it, or the
-- own signature of this node.
abbrev pub Signed : Net → ℕ → ℕ → ℕ → Type 0
Signed net i hash sig =
    ((id : ℕ) × (get_public_key net.registry i ≡ some id) × (net.verify id sig hash ≡ true))
    ⊎ (sig ≡ net.sign hash)

-- A message of the sign or the commit cache stands under its hash and its signature.
abbrev pub Filed : Net → ℕ → ℕ → PbftMsg → Type 0
Filed net hash sig m = (m.block_hash ≡ hash) × (m.sig ≡ sig) × Signed net m.idx hash sig

-- A view change request stands under its view and its node, and its signatures were checked.
abbrev pub FiledView : Net → ℕ → ℕ → PbftMsg → Type 0
FiledView net v i m = (m.view ≡ v) × (m.idx ≡ i) × (check_sign net m ≡ true)

-- A block that was handed on for sealing carries signatures of its own hash only.
abbrev pub SealedWell : Net → Event → Type 0
SealedWell net (seal_generated p l ours) = All (λ e. Signed net e.0 p.block_hash e.1) l
SealedWell net (block_cached h) = Unit {0}
SealedWell net view_changed = Unit {0}

pub record CoreInv (net : Net) (c : Core) : Type 0 where
  pub configured : IsConfigured c.node_num c.f c.cfg_err
  pub cycle : c.change_cycle ≤ max_change_cycle
  pub signs : AllMsgs (Filed net) c.sign_cache
  pub commits : AllMsgs (Filed net) c.commit_cache
  pub changes : AllMsgs (FiledView net) c.recv_view_change_req
  pub sealed : All (SealedWell net) c.events

unfoldable pub Inv : Net → State → Type 0
Inv net s = CoreInv net (core s)
