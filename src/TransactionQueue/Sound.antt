-- ===== src/TransactionQueue/Sound.antt =====
-- The queue with its invariant takes a transaction in, libcv/TransactionQueue.cpp.
use utispace_chain.Prelude.{
  ℕ, ◌-◌, ◌≤◌, ◌≡◌, refl, ◌∙◌, inl, inr, List, [], ◌∷◌, none, some, true, false, if◌then◌else◌,
  length, Option-cases, arith,
}
use utispace_chain.Prelude.Map.{Map, find, has, has-find}
use utispace_chain.TransactionQueue.{
  Transaction, TransactionQueue, place, place_node, success, count, Signal, on_ready,
}
use utispace_chain.TransactionQueue.Indexed.{Indexed}
use utispace_chain.TransactionQueue.Placed.{Fresh, place_node-Indexed}
use utispace_chain.TransactionQueue.Bounded.{Shrunk, shrink-Shrunk}
use utispace_chain.TransactionQueue.Future.{make_current, follow, has_follower, drop_futures}
use utispace_chain.TransactionQueue.Import.{insert_current, queue_current}

-- No transaction waits for its turn.
abbrev pub NoneWaiting : TransactionQueue → Type 0
NoneWaiting s = (s.future ≡ []) × (s.future_size ≡ 0)

none_follow :
    (t : Transaction) (s : TransactionQueue)
    → s.future ≡ []
    → (follow t s ≡ s) × (has_follower t s ≡ false)
unfolding follow has_follower find
none_follow t s f = (ground (arith, f), ground (arith, f))

none_dropped :
    (n limit : ℕ) (m : Map (Map Transaction))
    → m ≡ []
    → n ≡ 0
    → drop_futures (n - limit) m ≡ some []
unfolding drop_futures
none_dropped n limit m e z =
    let none_over : n - limit ≡ 0 = omega (arith, z) in rw (e, none_over) refl

pub make_current-NoneWaiting :
    (t : Transaction) (s : TransactionQueue) → NoneWaiting s → make_current t s ≡ some s
unfolding make_current
make_current-NoneWaiting t s (f, z) =
    let (same, no_one) = none_follow t s f in
    let d = none_dropped s.future_size s.future_limit s.future f z in
    rw (same, no_one, d) (ground (arith, f, z))

-- The sets of hashes and the signals do not matter.
abbrev pub aside : List ℕ → List ℕ → List Signal → TransactionQueue → TransactionQueue
aside known dropped signals s = record s { known = known; dropped = dropped; signals = signals }

aside-Indexed :
    (known dropped : List ℕ) (signals : List Signal) (s : TransactionQueue)
    → Indexed s
    → Indexed (aside known dropped signals s)
aside-Indexed known dropped signals s ok = record {
  distinct = ok.distinct;
  sorted = ok.sorted;
  indexed = ok.indexed;
  hashes = ok.hashes;
  places = ok.places;
  older = ok.older;
}

insert_current_lem :
    (t : Transaction) (s : TransactionQueue)
    → NoneWaiting s
    → find t.sha3 s.current_by_hash ≡ none
    → (known : List ℕ) × (insert_current t s
        ≡ some (aside known s.dropped s.signals (place_node t.from t s)))
unfolding insert_current place_node
insert_current_lem t s w f =
    let p = place_node t.from t s in
    (
      if count t.sha3 p.known then p.known else t.sha3 ∷ p.known,
      rw (make_current-NoneWaiting t p w) (ground (arith, has-find t.sha3 s.current_by_hash, f)),
    )

module _ (limit : ℕ) where
  -- The indices lead to the nodes, the queue keeps to its limit, which is not 0, and none waits.
  pub record Sound (s : TransactionQueue) : Type 0 where
    pub is_indexed : Indexed s
    pub none_waiting : NoneWaiting s
    pub same_limit : s.limit ≡ limit
    pub some_room : 1 ≤ s.limit
    pub bounded : length s.current ≤ s.limit

  pub aside-Sound :
      (known dropped : List ℕ) (signals : List Signal) (s : TransactionQueue)
      → Sound s
      → Sound (aside known dropped signals s)
  aside-Sound known dropped signals s ok = record {
    is_indexed = aside-Indexed known dropped signals s ok.is_indexed;
    none_waiting = ok.none_waiting;
    same_limit = ok.same_limit;
    some_room = ok.some_room;
    bounded = ok.bounded;
  }

  -- What taking a place in the queue leaves.
  placed-Sound :
      (t : Transaction) (s : TransactionQueue)
      → Sound s
      → Fresh t s
      → (s' : TransactionQueue) × (queue_current t s ≡ some (success, s')) × (Sound s')
  unfolding queue_current place_node
  placed-Sound t s ok fresh =
      let (known, e) = insert_current_lem t s ok.none_waiting fresh.0 in
      let p = aside known s.dropped s.signals (place_node t.from t s) in
      let ip =
        aside-Indexed known s.dropped s.signals (place_node t.from t s)
          (place_node-Indexed t s ok.is_indexed fresh) in
      let (q, r, (iq, small, lim, fut, size)) =
        shrink-Shrunk (length p.current) p ip ok.some_room (omega arith) in
      (
        record q { signals = on_ready ∷ q.signals },
        rw (e, r) refl,
        aside-Sound q.known q.dropped (on_ready ∷ q.signals) q record {
          is_indexed = iq;
          none_waiting = (fut ∙ ok.none_waiting.0, size ∙ ok.none_waiting.1);
          same_limit = lim ∙ ok.same_limit;
          some_room = omega (arith, lim, ok.some_room);
          bounded = omega (arith, lim, small);
        },
      )

  Shrunk-Sound : (s q : TransactionQueue) → Sound s → Shrunk s q → Sound q
  Shrunk-Sound s q ok (i, small, lim, fut, size) = record {
    is_indexed = i;
    none_waiting = (fut ∙ ok.none_waiting.0, size ∙ ok.none_waiting.1);
    same_limit = lim ∙ ok.same_limit;
    some_room = omega (arith, lim, ok.some_room);
    bounded = omega (arith, lim, small);
  }

  -- A transaction whose hash is pending changes nothing but the signals.
  pending-Sound :
      (t : Transaction) (k : ℕ) (s : TransactionQueue)
      → Sound s
      → find t.sha3 s.current_by_hash ≡ some k
      → (s' : TransactionQueue) × (queue_current t s ≡ some (success, s')) × (Sound s')
  unfolding queue_current insert_current
  pending-Sound t k s ok f =
      let there : has t.sha3 s.current_by_hash ≡ true =
        ground (arith, has-find t.sha3 s.current_by_hash, f) in
      let (q, r, more) =
        shrink-Shrunk (length s.current) s ok.is_indexed ok.some_room (omega arith) in
      (
        record q { signals = on_ready ∷ q.signals },
        rw (there, r) refl,
        aside-Sound q.known q.dropped (on_ready ∷ q.signals) q (Shrunk-Sound s q ok more),
      )

  pub queue_current-Sound :
      (t : Transaction) (s : TransactionQueue)
      → Sound s
      → place t.from t.randomid s.current_by_address_and_nonce ≡ none
      → (s' : TransactionQueue) × (queue_current t s ≡ some (success, s')) × (Sound s')
  queue_current-Sound t s ok p = elim (Option-cases (find t.sha3 s.current_by_hash)) [
    | inl n ↦ placed-Sound t s ok (n, p)
    | inr (k, f) ↦ pending-Sound t k s ok f
  ]
