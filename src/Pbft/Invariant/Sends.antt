-- ===== src/Pbft/Invariant/Sends.antt =====
-- Sending keeps the invariant: the broadcasts, the signature checks and the two caches of
-- signatures, libpbftseal/PBFT.cpp.
use mathlib.Core.Path.{subst}
use utispace_chain.Prelude.{
  ℕ, ◌≡◌, refl, sym, inl, inr, List, Bool, true, false, Option-cases, arith,
}
use utispace_chain.Nodes.{get_public_key}
use utispace_chain.Pbft.Msg.{PbftMsg, PrepareReq, Key}
use utispace_chain.Pbft.State.{Net, World, State}
use utispace_chain.Pbft.Peers.{broadcast_msg, clear_mask}
use utispace_chain.Pbft.Caches.{add_sign_req, add_commit_req, add_prepare_req, add_raw_prepare}
use utispace_chain.Pbft.Caches.Entries.{AllMsgs-put_msg, AllMsgs-modify_keep}
use utispace_chain.Pbft.Sending.{
  check_sign, sign_msg, own_msg, broadcast_sign_req, broadcast_commit_req, broadcast_prepare_req,
  broadcast_view_change_req, reset_empty_flag, if_sent,
}
use utispace_chain.Pbft.Invariant.{core, CoreInv, Inv, Signed, Filed}

module _ (net : Net) where
  pub core-broadcast_msg :
      (key : Key) (id : ℕ) (req : PrepareReq) (filter : List ℕ) (s : State)
      → core (broadcast_msg net key id req filter s).0 ≡ core s
  unfolding broadcast_msg
  core-broadcast_msg key id req filter s = ground arith

  pub core-clear_mask : (s : State) → core (clear_mask s) ≡ core s
  unfolding clear_mask
  core-clear_mask s = ground arith

  -- An operation that leaves the members of `core` alone keeps the invariant.
  pub core-Inv : (s t : State) → core s ≡ core t → Inv net t → Inv net s
  unfolding Inv
  core-Inv s t e v = subst (CoreInv net) (sym e) v

  pub broadcast_msg-Inv :
      (key : Key) (id : ℕ) (req : PrepareReq) (filter : List ℕ) (s : State)
      → Inv net s
      → Inv net (broadcast_msg net key id req filter s).0
  broadcast_msg-Inv key id req filter s v = core-Inv _ s (core-broadcast_msg key id req filter s) v

  pub clear_mask-Inv : (s : State) → Inv net s → Inv net (clear_mask s)
  clear_mask-Inv s v = core-Inv _ s (core-clear_mask s) v

  reset_empty_flag-Inv : (s : State) → Inv net s → Inv net (reset_empty_flag s)
  unfolding reset_empty_flag
  reset_empty_flag-Inv s v = core-Inv _ s (ground arith) v

  if_sent-Inv :
      (add : State → State) (r : State × Bool)
      → ((s : State) → Inv net s → Inv net (add s))
      → Inv net r.0
      → Inv net (if_sent add r).0
  unfolding if_sent
  if_sent-Inv add (s, true) h v = h s v
  if_sent-Inv add (s, false) h v = v

  -- A message that passes `checkSign` carries a signature of its block hash.
  pub check_sign-Signed :
      (m : PbftMsg) → check_sign net m ≡ true → Signed net m.idx m.block_hash m.sig
  unfolding check_sign
  check_sign-Signed m e = elim (Option-cases (get_public_key net.registry m.idx)) [
    | inl missing ↦ absurd (ground arith)
    | inr (id, found) ↦ inl (id, found, ground arith)
  ]

  pub add_sign_req-Inv :
      (m : PbftMsg) (s : State)
      → Signed net m.idx m.block_hash m.sig
      → Inv net s
      → Inv net (add_sign_req m s)
  unfolding Inv add_sign_req
  add_sign_req-Inv m s g v = record {
    configured = v.configured;
    cycle = v.cycle;
    signs = AllMsgs-put_msg (Filed net) m.block_hash m.sig m s.sign_cache (refl, refl, g) v.signs;
    commits = v.commits;
    changes = v.changes;
    sealed = v.sealed;
  }

  pub add_commit_req-Inv :
      (m : PbftMsg) (s : State)
      → Signed net m.idx m.block_hash m.sig
      → Inv net s
      → Inv net (add_commit_req m s)
  unfolding Inv add_commit_req
  add_commit_req-Inv m s g v = record {
    configured = v.configured;
    cycle = v.cycle;
    signs = v.signs;
    commits =
        AllMsgs-put_msg (Filed net) m.block_hash m.sig m s.commit_cache (refl, refl, g) v.commits;
    changes = v.changes;
    sealed = v.sealed;
  }

  pub add_prepare_req-Inv :
      (req : PrepareReq) (s : State) → Inv net s → Inv net (add_prepare_req req s)
  unfolding Inv add_prepare_req
  add_prepare_req-Inv req s v = record {
    configured = v.configured;
    cycle = v.cycle;
    signs = AllMsgs-modify_keep (Filed net) req.block_hash _ s.sign_cache v.signs;
    commits = AllMsgs-modify_keep (Filed net) req.block_hash _ s.commit_cache v.commits;
    changes = v.changes;
    sealed = v.sealed;
  }

  module _ (w : World) where
    own_msg-Signed :
        (req : PrepareReq) (s : State)
        → let m = own_msg net w req s in Signed net m.idx m.block_hash m.sig
    unfolding own_msg sign_msg
    own_msg-Signed req s = inr refl

    pub broadcast_sign_req-Inv :
        (req : PrepareReq) (s : State) → Inv net s → Inv net (broadcast_sign_req net w req s).0
    unfolding broadcast_sign_req
    broadcast_sign_req-Inv req s v =
        if_sent-Inv (add_sign_req (own_msg net w req s)) _
          (λ t. add_sign_req-Inv (own_msg net w req s) t (own_msg-Signed req s))
          (broadcast_msg-Inv _ _ _ _ s v)

    pub broadcast_commit_req-Inv :
        (req : PrepareReq) (s : State) → Inv net s → Inv net (broadcast_commit_req net w req s).0
    unfolding broadcast_commit_req
    broadcast_commit_req-Inv req s v =
        if_sent-Inv (add_commit_req (own_msg net w req s)) _
          (λ t. add_commit_req-Inv (own_msg net w req s) t (own_msg-Signed req s))
          (broadcast_msg-Inv _ _ _ _ s v)

    pub broadcast_prepare_req-Inv :
        (number hash : ℕ) (block : List ℕ) (s : State)
        → Inv net s
        → Inv net (broadcast_prepare_req net w number hash block s).0
    unfolding broadcast_prepare_req add_raw_prepare
    broadcast_prepare_req-Inv number hash block s v =
        if_sent-Inv (add_raw_prepare _) _ (λ t u. core-Inv _ t refl u)
          (broadcast_msg-Inv _ _ _ _ s v)

    core-broadcast_view_change_req :
        (s : State) → core (broadcast_view_change_req net w s).0 ≡ core s
    unfolding broadcast_view_change_req reset_empty_flag broadcast_msg
    core-broadcast_view_change_req s = ground arith

    pub broadcast_view_change_req-Inv :
        (s : State) → Inv net s → Inv net (broadcast_view_change_req net w s).0
    broadcast_view_change_req-Inv s v = core-Inv _ s (core-broadcast_view_change_req s) v
