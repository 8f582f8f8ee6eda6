-- ===== src/TransactionQueue/Calls.antt =====
-- Every call keeps the queue sound, and none follows a dangling iterator,
-- libcv/TransactionQueue.cpp, in a queue where no transaction waits for its turn.
use utispace_chain.Prelude.{
  ℕ, ◌≤◌, ◌≡◌, refl, sym, ap, ◌∙◌, inl, inr, List, [], ◌∷◌, Option, none, some, Bool, true, false,
  ltb, if◌then◌else◌, Bool-cases, Option-cases, arith,
}
use utispace_chain.Prelude.Map.{find, at}
use utispace_chain.TransactionQueue.{
  Transaction, TransactionQueue, deref, remove, place, new_queue, ImportResult, success,
  already_in_chain, already_known, malformed, overbid_gas_price, nonce_check_fail,
  block_limit_check_fail, IfDropped, count, on_replaced,
}
use utispace_chain.TransactionQueue.Indexed.{Leads, Indexed, Removes, remove-Indexed, remove-Leads}
use utispace_chain.TransactionQueue.Import.{
  check, replace_current, replaced, replace_future, Interface, manage_import, import, drop,
  drop_good, clear, Operation, importing, dropping, dropping_good, clearing, perform, perform_all,
}
use utispace_chain.TransactionQueue.Sound.{
  NoneWaiting, Sound, aside, aside-Sound, make_current-NoneWaiting, queue_current-Sound,
}

none_replaced :
    (t : Transaction) (s : TransactionQueue) → NoneWaiting s → replace_future t s ≡ (false, s)
unfolding replace_future find
none_replaced t s (f, z) = ground (arith, f)

module _ (limit : ℕ) where
  removed-Sound :
      (h : ℕ) (b : Bool) (s s' : TransactionQueue)
      → Sound limit s
      → Indexed s'
      → Removes h s b s'
      → Sound limit s'
  removed-Sound h b s s' ok i (_, _, size, lim, fut, waiting) = record {
    is_indexed = i;
    none_waiting = (fut ∙ ok.none_waiting.0, waiting ∙ ok.none_waiting.1);
    same_limit = lim ∙ ok.same_limit;
    some_room = omega (arith, lim, ok.some_room);
    bounded = omega (arith, lim, size, ok.bounded);
  }

  -- Removing keeps the queue sound.
  remove-Sound :
      (h : ℕ) (s : TransactionQueue)
      → Sound limit s
      → (b : Bool) × (s' : TransactionQueue) × (remove h s ≡ some (b, s')) × (Sound limit s')
  remove-Sound h s ok =
      let (b, s', e, i, r) = remove-Indexed h s ok.is_indexed in
      (b, s', e, removed-Sound h b s s' ok i r)

  -- What the comparison with a pending transaction of the same sender and nonce leaves.
  abbrev Replaces : Transaction → Bool → TransactionQueue → Type 0
  Replaces t true s = Sound limit s
  Replaces t false s =
      (Sound limit s) × (place t.from t.randomid s.current_by_address_and_nonce ≡ none)

  replaced-Sound :
      (t u : Transaction) (k : ℕ) (s : TransactionQueue)
      → Sound limit s
      → Leads s k u
      → u.from ≡ t.from
      → u.randomid ≡ t.randomid
      → (s' : TransactionQueue) × (replaced u.sha3 (remove u.sha3 s) ≡ some (false, s'))
        × (Replaces t false s')
  replaced-Sound t u k s ok l a n =
      let (s1, e, i, r, gone) = remove-Leads u.sha3 k u s ok.is_indexed l.1 l refl in
      let s2 = record s1 { signals = on_replaced u.sha3 ∷ s1.signals } in
      (
        s2,
        ap (replaced u.sha3) e,
        (
          aside-Sound limit s1.known s1.dropped (on_replaced u.sha3 ∷ s1.signals) s1
              (removed-Sound u.sha3 true s s1 ok i r),
          ap (λ x. place x t.randomid s1.current_by_address_and_nonce) (sym a)
              ∙ ap (λ x. place u.from x s1.current_by_address_and_nonce) (sym n)
              ∙ gone,
        ),
      )

  replace_current-Sound :
      (t : Transaction) (s : TransactionQueue)
      → Sound limit s
      → (b : Bool) × (s' : TransactionQueue) × (replace_current t s ≡ some (b, s'))
        × (Replaces t b s')
  unfolding replace_current
  replace_current-Sound t s ok =
      elim (Option-cases (place t.from t.randomid s.current_by_address_and_nonce)) [
        | inl n ↦ (false, s, ground (arith, n), (ok, n))
        | inr (k, p) ↦
            let (u, l, a, n) = ok.is_indexed.places t.from t.randomid k p in
            elim (Bool-cases (ltb t.gas_price u.gas_price)) [
              | inl over ↦ (true, s, ground (arith, p, l.0, over), ok)
              | inr under ↦
                  let (s', e, r) = replaced-Sound t u k s ok l a n in
                  (false, s', ground (arith, p, l.0, under, e), r)
            ]
      ]

  -- The import of a transaction that the client accepts.
  accepted :
      (client : Interface) (t : Transaction) (s s1 : TransactionQueue) (b : Bool)
      → client.is_nonce_ok t ≡ true
      → client.is_block_limit_ok t ≡ true
      → replace_current t s ≡ some (b, s1)
      → Replaces t b s1
      → (r : ImportResult) × (s' : TransactionQueue) × (manage_import client t s ≡ some (r, s'))
        × (Sound limit s')
  unfolding manage_import
  accepted client t s s1 true good fits e r =
      (overbid_gas_price, s1, ground (arith, good, fits, e), r)
  accepted client t s s1 false good fits e (ok, p) =
      let (s2, q, ok2) = queue_current-Sound limit t s1 ok p in
      (success, s2, ground (arith, good, fits, e, none_replaced t s1 ok.none_waiting, q), ok2)

  manage_import-Sound :
      (client : Interface) (t : Transaction) (s : TransactionQueue)
      → Sound limit s
      → (r : ImportResult) × (s' : TransactionQueue) × (manage_import client t s ≡ some (r, s'))
        × (Sound limit s')
  unfolding manage_import
  manage_import-Sound client t s ok = elim (Bool-cases (client.is_nonce_ok t)) [
    | inr bad ↦ (nonce_check_fail, s, ground (arith, bad), ok)
    | inl good ↦ elim (Bool-cases (client.is_block_limit_ok t)) [
      | inr bad ↦ (block_limit_check_fail, s, ground (arith, good, bad), ok)
      | inl fits ↦
          let (b, s1, e, r) = replace_current-Sound t s ok in accepted client t s s1 b good fits e r
    ]
  ]

  import-Sound :
      (client : Interface) (t : Transaction) (ik : IfDropped) (s : TransactionQueue)
      → Sound limit s
      → (r : ImportResult) × (s' : TransactionQueue) × (import client t ik s ≡ some (r, s'))
        × (Sound limit s')
  unfolding import
  import-Sound client t ik s ok = checked client t s ok (check t.sha3 ik s)
    where
      checked :
          (client : Interface) (t : Transaction) (s : TransactionQueue)
          → Sound limit s
          → (c : ImportResult)
          → (r : ImportResult) × (s' : TransactionQueue) × (elim c
                as (λ _. Option (ImportResult × TransactionQueue)) [
                  | success ↦ manage_import client t s
                  | other ↦ some (other, s)
                ]
              ≡ some (r, s'))
            × (Sound limit s')
      checked client t s ok success = manage_import-Sound client t s ok
      checked client t s ok already_in_chain = (already_in_chain, s, refl, ok)
      checked client t s ok already_known = (already_known, s, refl, ok)
      checked client t s ok malformed = (malformed, s, refl, ok)
      checked client t s ok overbid_gas_price = (overbid_gas_price, s, refl, ok)
      checked client t s ok nonce_check_fail = (nonce_check_fail, s, refl, ok)
      checked client t s ok block_limit_check_fail = (block_limit_check_fail, s, refl, ok)

  drop-Sound :
      (h : ℕ) (s : TransactionQueue)
      → Sound limit s
      → (s' : TransactionQueue) × (drop h s ≡ some s') × (Sound limit s')
  unfolding drop
  drop-Sound h s ok = elim (Bool-cases (count h s.known)) [
    | inr n ↦ (s, ground (arith, n), ok)
    | inl y ↦
        let dropped = if count h s.dropped then s.dropped else h ∷ s.dropped in
        let (b, s', e, ok') =
          remove-Sound h (aside s.known dropped s.signals s)
            (aside-Sound limit s.known dropped s.signals s ok) in
        (s', rw (y, e) refl, ok')
  ]

  drop_good-Sound :
      (t : Transaction) (s : TransactionQueue)
      → Sound limit s
      → (s' : TransactionQueue) × (drop_good t s ≡ some s') × (Sound limit s')
  unfolding drop_good
  drop_good-Sound t s ok = elim (Bool-cases (count t.sha3 s.known)) [
    | inr n ↦ (s, rw (make_current-NoneWaiting t s ok.none_waiting, n) refl, ok)
    | inl y ↦
        let (b, s', e, ok') = remove-Sound t.sha3 s ok in
        (s', rw (make_current-NoneWaiting t s ok.none_waiting, y, e) refl, ok')
  ]

  clear-Sound : (s : TransactionQueue) → s.limit ≡ limit → 1 ≤ s.limit → Sound limit (clear s)
  unfolding deref find place at
  clear-Sound s same room = record {
    is_indexed = record {
      distinct = tt;
      sorted = tt;
      indexed = λ k t d. absurd (ground (arith, d));
      hashes = λ h k f. absurd (ground (arith, f));
      places = λ a n k p. absurd (ground (arith, p));
      older = λ k t d. absurd (ground (arith, d));
    };
    none_waiting = (refl, refl);
    same_limit = same;
    some_room = room;
    bounded = omega arith;
  }

  new-Sound : (future_limit : ℕ) → 1 ≤ limit → Sound limit (new_queue limit future_limit)
  new-Sound future_limit room = clear-Sound (new_queue limit future_limit) refl room

  perform-Sound :
      (client : Interface) (o : Operation) (s : TransactionQueue)
      → Sound limit s
      → (s' : TransactionQueue) × (perform client o s ≡ some s') × (Sound limit s')
  unfolding perform
  perform-Sound client (importing t ik) s ok =
      let (r, s', e, ok') = import-Sound client t ik s ok in (s', rw e refl, ok')
  perform-Sound client (dropping h) s ok = drop-Sound h s ok
  perform-Sound client (dropping_good t) s ok = drop_good-Sound t s ok
  perform-Sound client clearing s ok = (clear s, refl, clear-Sound s ok.same_limit ok.some_room)

  performed :
      (client : Interface) (os : List Operation) (s : TransactionQueue)
      → Sound limit s
      → (s' : TransactionQueue) × (perform_all client os s ≡ some s') × (Sound limit s')
  unfolding perform_all
  performed client [] s ok = (s, refl, ok)
  performed client (o ∷ os) s ok =
      let (s1, e, ok1) = perform-Sound client o s ok in
      let (s2, f, ok2) = performed client os s1 ok1 in (s2, rw e f, ok2)

  -- From a new queue with a limit that is not 0, every sequence of imports, drops, good drops and
  -- clearings runs to its end with no dangling iterator followed and no loop left running, as long as
  -- no transaction is marked as a future one. At its end the queue holds no more transactions than
  -- its limit, in the order of their import times, and each is found by its number, by its hash, and by its sender and nonce, and the
  -- indices lead to nothing else.
  pub perform_all-Sound :
      (client : Interface) (future_limit : ℕ) (os : List Operation)
      → 1 ≤ limit
      → (s : TransactionQueue) × (perform_all client os (new_queue limit future_limit) ≡ some s)
        × (Sound limit s)
  perform_all-Sound client future_limit os room =
      performed client os (new_queue limit future_limit) (new-Sound future_limit room)
