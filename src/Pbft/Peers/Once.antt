-- ===== src/Pbft/Peers/Once.antt =====
-- What `broadcastMsg` of libpbftseal/PBFT.cpp remembers of each peer, in a `QueueSet` of
-- libdevcore/Common.h.
use utispace_chain.Prelude.{
  ℕ, ◌+◌, ◌≤◌, ◌≡◌, refl, sym, ap, ◌∙◌, List, [], ◌∷◌, map, Option, none, some, true, ltb,
  Bool-cases, inl, inr, arith, nat_eq,
}
use utispace_chain.QueueSet.{QueueSet, exist, pop, size}
use utispace_chain.QueueSet.Laws.{
  IsWell, push-IsWell, pop-IsWell, exist-push, size-push-le, size-pop,
}
use utispace_chain.Pbft.Msg.{Key, key_eq, key_beq_iff, PrepareReq}
use utispace_chain.Pbft.State.{Net, Peer, Wire, State}
use utispace_chain.Pbft.Peers.{
  known_limit, broadcast_filter, mark_known, broadcast_mark, send, is_addressed, broadcast_to,
  broadcast_msg,
}

exist-mark_known : (key : Key) (q : QueueSet Key) → exist key (mark_known key q) ≡ true
unfolding mark_known
exist-mark_known key q =
    ground (arith, exist-push key key (pop q), exist-push key key q, (key_beq_iff key key).1 refl)

-- A peer that was marked is filtered out.
broadcast_filter-broadcast_mark :
    (key : Key) (id : ℕ) (p : Peer) → broadcast_filter key id (broadcast_mark key id p) ≡ true
unfolding broadcast_filter broadcast_mark
broadcast_filter-broadcast_mark key id p = ground (
  arith,
  exist-mark_known key p.known_prepare,
  exist-mark_known key p.known_sign,
  exist-mark_known key p.known_view_change,
  exist-mark_known key p.known_commit,
)

sent-broadcast_mark : (key : Key) (id : ℕ) (p : Peer) → (broadcast_mark key id p).sent ≡ p.sent
unfolding broadcast_mark
sent-broadcast_mark key id p = ground arith

id-broadcast_mark : (key : Key) (id : ℕ) (p : Peer) → (broadcast_mark key id p).id ≡ p.id
unfolding broadcast_mark
id-broadcast_mark key id p = ground arith

-- A bound on what a peer is remembered to know: one more than `kKnown…`, since the size is tested
-- before the new key is pushed.
pub record IsBounded (q : QueueSet Key) : Type 0 where
  pub well : IsWell q
  pub bound : size q ≤ known_limit + 1

-- Marking a key keeps a well-formed set of at most 1025 known keys well formed and within that
-- bound, and the key is known then.
pub mark_known-IsBounded :
    (key : Key) (q : QueueSet Key)
    → IsBounded q
    → IsBounded (mark_known key q) × (exist key (mark_known key q) ≡ true)
unfolding mark_known
mark_known-IsBounded key q b = (bounded, exist-mark_known key q)
  where
    bounded : IsBounded (mark_known key q)
    bounded = elim (Bool-cases (ltb known_limit (size q))) [
      | inl full ↦ rw full (record {
        well = push-IsWell key (pop q) (pop-IsWell q b.well);
        bound = ground (arith, size-push-le key (pop q), size-pop q b.well);
      })
      | inr free ↦
          rw free
            (record { well = push-IsWell key q b.well; bound = ground (arith, size-push-le key q) })
    ]

abbrev pub sent_of : Peer → List Wire
sent_of p = p.sent

abbrev pub sent_in : Option (List Peer) → List (List Wire)
sent_in none = []
sent_in (some peers) = map sent_of peers

-- The packets sent to each peer of the host.
abbrev pub sent_to : State → List (List Wire)
sent_to s = sent_in s.host

abbrev each : (Peer → Peer) → Option (List Peer) → Option (List Peer)
each f none = none
each f (some peers) = some (map f peers)

module _ (net : Net) where
  -- Two broadcasts of one message: the second one sends nothing to a peer, whatever the filters.
  sent-broadcast_to :
      (key : Key) (id : ℕ) (req req' : PrepareReq) (filter filter' : List ℕ) (p : Peer)
      → let p' = broadcast_to net key id req filter p in
        (broadcast_to net key id req' filter' p').sent ≡ p'.sent
  unfolding broadcast_to send is_addressed
  sent-broadcast_to key id req req' filter filter' p = ground (
    arith,
    broadcast_filter-broadcast_mark key id p,
    broadcast_filter-broadcast_mark key id (send id req p),
    sent-broadcast_mark key id p,
    sent-broadcast_mark key id (send id req p),
    sent-broadcast_mark key id (broadcast_mark key id p),
    sent-broadcast_mark key id (broadcast_mark key id (send id req p)),
    id-broadcast_mark key id p,
    id-broadcast_mark key id (send id req p),
  )

  sent-map-broadcast_to :
      (key : Key) (id : ℕ) (req req' : PrepareReq) (filter filter' : List ℕ) (ps : List Peer)
      → let ps' = map (broadcast_to net key id req filter) ps in
        map sent_of (map (broadcast_to net key id req' filter') ps') ≡ map sent_of ps'
  sent-map-broadcast_to key id req req' filter filter' [] = refl
  sent-map-broadcast_to key id req req' filter filter' (p ∷ ps) = cc (
    sent-broadcast_to key id req req' filter filter' p,
    sent-map-broadcast_to key id req req' filter filter' ps,
  )

  host-broadcast_msg :
      (key : Key) (id : ℕ) (req : PrepareReq) (filter : List ℕ) (s : State)
      → (broadcast_msg net key id req filter s).0.host
        ≡ each (broadcast_to net key id req filter) s.host
  unfolding broadcast_msg
  host-broadcast_msg key id req filter s = ground arith

  sent_in_twice :
      (key : Key) (id : ℕ) (req req' : PrepareReq) (filter filter' : List ℕ)
      (h : Option (List Peer))
      → let h' = each (broadcast_to net key id req filter) h in
        sent_in (each (broadcast_to net key id req' filter') h') ≡ sent_in h'
  sent_in_twice key id req req' filter filter' none = refl
  sent_in_twice key id req req' filter filter' (some ps) =
      sent-map-broadcast_to key id req req' filter filter' ps

  -- A message that is broadcast a second time at once, by its key and packet id, is sent to no peer
  -- again, also with another body or another filter.
  pub broadcast_once :
      (key : Key) (id : ℕ) (req req' : PrepareReq) (filter filter' : List ℕ) (s : State)
      → let s' = (broadcast_msg net key id req filter s).0 in
        sent_to (broadcast_msg net key id req' filter' s').0 ≡ sent_to s'
  broadcast_once key id req req' filter filter' s =
      let h = host-broadcast_msg key id req filter s in
      ap sent_in (
        host-broadcast_msg key id req' filter' _
        ∙ ap (each (broadcast_to net key id req' filter')) h)
      ∙ sent_in_twice key id req req' filter filter' s.host
      ∙ ap sent_in (sym h)
