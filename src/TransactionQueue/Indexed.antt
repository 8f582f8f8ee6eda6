-- ===== src/TransactionQueue/Indexed.antt =====
-- The indices of the queue denote its nodes, whatever is removed, libcv/TransactionQueue.cpp.
use utispace_chain.Prelude.{
  ℕ, ◌+◌, ◌<◌, ◌≡◌, ◌≢◌, refl, sym, ap, ◌∙◌, inl, inr, [], none, some, Bool, true, false, ◌&&◌,
  ◌==◌, if◌then◌else◌, length, Bool-cases, Option-cases, arith,
}
use utispace_chain.Prelude.Map.{Map, find, has, has-find, at, remove_key, find-remove_key}
use utispace_chain.TransactionQueue.{
  Transaction, TransactionQueue, deref, erase_node, put_inner, place, remove, erase,
}
use utispace_chain.TransactionQueue.Lookups.{
  deref-erase_node, place-put_inner, find-at, length-erase_node, Unique, erase_node-Unique,
}
use utispace_chain.TransactionQueue.Ordered.{Sorted, erase_node-Sorted}

-- What an iterator leads to, and what leads to it.
abbrev pub Leads : TransactionQueue → ℕ → Transaction → Type 0
Leads s k t =
    (deref k s.current ≡ some t)
    × (find t.sha3 s.current_by_hash ≡ some k)
    × (place t.from t.randomid s.current_by_address_and_nonce ≡ some k)

-- The nodes stand in the order of their import times, every one has its number for itself and is found by its hash and by its sender and nonce, and
-- the indices lead to nothing else.
pub record Indexed (s : TransactionQueue) : Type 0 where
  pub distinct : Unique s.current
  pub sorted : Sorted s.current
  pub indexed : (k : ℕ) (t : Transaction) → deref k s.current ≡ some t → Leads s k t
  pub hashes :
      (h k : ℕ)
      → find h s.current_by_hash ≡ some k
      → (t : Transaction) × (Leads s k t) × (t.sha3 ≡ h)
  pub places :
      (a n k : ℕ)
      → place a n s.current_by_address_and_nonce ≡ some k
      → (t : Transaction) × (Leads s k t) × (t.from ≡ a) × (t.randomid ≡ n)
  pub older : (k : ℕ) (t : Transaction) → deref k s.current ≡ some t → k < s.next_handle

-- What `remove_WITH_LOCK` leaves of a queue, once its node is found.
abbrev pub removed : ℕ → ℕ → Transaction → Map ℕ → TransactionQueue → TransactionQueue
removed h k t inner s = record s {
  current = erase_node k s.current;
  current_by_hash = remove_key h s.current_by_hash;
  current_by_address_and_nonce =
      put_inner t.from (remove_key t.randomid inner) s.current_by_address_and_nonce;
  known = erase h s.known;
}

module _ (s : TransactionQueue) (ok : Indexed s) (h k : ℕ) (t : Transaction) (inner : Map ℕ)
    (l : Leads s k t) (same : t.sha3 ≡ h)
    (inside : at [] t.from s.current_by_address_and_nonce ≡ inner) where
  abbrev after : TransactionQueue
  after = removed h k t inner s

  place-own : (a n : ℕ) → t.from ≡ a → place a n s.current_by_address_and_nonce ≡ find n inner
  unfolding place
  place-own a n own =
      ap (find n) (ap (λ (b : ℕ). at [] b s.current_by_address_and_nonce) (sym own) ∙ inside)

  place-after :
      (a n : ℕ)
      → place a n after.current_by_address_and_nonce ≡ (
          if (t.from == a) && (t.randomid == n)
          then none
          else place a n s.current_by_address_and_nonce)
  place-after a n =
      place-put_inner t.from a n (remove_key t.randomid inner) s.current_by_address_and_nonce
      ∙ elim (Bool-cases (t.from == a)) [
        | inl e ↦
            let own : t.from ≡ a = ground (arith, e) in
            let there : place a n s.current_by_address_and_nonce ≡ find n inner =
              place-own a n own in
            rw (e, find-remove_key t.randomid n inner, there) (ground arith)
        | inr e ↦ rw e refl
      ]

  -- Another node keeps what leads to it.
  Leads-after : (j : ℕ) (u : Transaction) → k ≢ j → Leads s j u → Leads after j u
  Leads-after j u other (d, f, p) = (
    deref-erase_node k j s.current ∙ ground (arith, other, d),
    find-remove_key h u.sha3 s.current_by_hash ∙ other_hash,
    place-after u.from u.randomid ∙ other_place,
  )
    where
      other_hash : (if h == u.sha3 then none else find u.sha3 s.current_by_hash) ≡ some j
      other_hash = elim (Bool-cases (h == u.sha3)) [
        | inl e ↦
            let one : find u.sha3 s.current_by_hash ≡ some k =
              ap (λ x. find x s.current_by_hash) (ground (arith, e, same)) ∙ l.1 in
            absurd (other (ground (arith, one, f)))
        | inr e ↦ rw e f
      ]

      other_place :
          (if (t.from == u.from) && (t.randomid == u.randomid)
            then none
            else place u.from u.randomid s.current_by_address_and_nonce)
          ≡ some j
      other_place = elim (Bool-cases ((t.from == u.from) && (t.randomid == u.randomid))) [
        | inl e ↦
            let a : u.from ≡ t.from = ground (arith, e) in
            let n : u.randomid ≡ t.randomid = ground (arith, e) in
            let one : place u.from u.randomid s.current_by_address_and_nonce ≡ some k =
              ap (λ x. place x u.randomid s.current_by_address_and_nonce) a
              ∙ ap (λ x. place t.from x s.current_by_address_and_nonce) n
              ∙ l.2 in
            absurd (other (ground (arith, one, p)))
        | inr e ↦ rw e p
      ]

  deref-other :
      (j : ℕ) (u : Transaction)
      → deref j after.current ≡ some u
      → (k ≢ j) × (deref j s.current ≡ some u)
  deref-other j u d =
      let e = sym (deref-erase_node k j s.current) ∙ d in
      elim (Bool-cases (k == j)) [
        | inl own ↦ absurd (ground (arith, own, e))
        | inr other ↦ (ground (arith, other), ground (arith, other, e))
      ]

  same_node : (j : ℕ) (u : Transaction) → k ≡ j → Leads s j u → t ≡ u
  same_node j u q v =
      let d : deref k s.current ≡ some u = ap (λ i. deref i s.current) q ∙ v.0 in
      ground (arith, d, l.0)

  hashes-after :
      (i j : ℕ)
      → find i after.current_by_hash ≡ some j
      → (u : Transaction) × (Leads after j u) × (u.sha3 ≡ i)
  hashes-after i j f =
      let e = sym (find-remove_key h i s.current_by_hash) ∙ f in
      elim (Bool-cases (h == i)) [
        | inl own ↦ absurd (ground (arith, own, e))
        | inr other ↦
            let (u, v, w) = ok.hashes i j (ground (arith, other, e)) in
            let differ : k ≢ j = λ q.
              let one = same_node j u q v in
              ground (arith, other, same, w, ap (λ (x : Transaction). x.sha3) one) in
            (u, Leads-after j u differ v, w)
      ]

  places-after :
      (a n j : ℕ)
      → place a n after.current_by_address_and_nonce ≡ some j
      → (u : Transaction) × (Leads after j u) × (u.from ≡ a) × (u.randomid ≡ n)
  places-after a n j f =
      let e = sym (place-after a n) ∙ f in
      elim (Bool-cases ((t.from == a) && (t.randomid == n))) [
        | inl own ↦ absurd (ground (arith, own, e))
        | inr other ↦
            let (u, v, w, x) = ok.places a n j (ground (arith, other, e)) in
            let differ : k ≢ j = λ q.
              let one = same_node j u q v in
              ground (
                arith,
                other,
                w,
                x,
                ap (λ (y : Transaction). y.from) one,
                ap (λ (y : Transaction). y.randomid) one,
              ) in
            (u, Leads-after j u differ v, w, x)
      ]

  Indexed-after : Indexed after
  Indexed-after = record {
    distinct = erase_node-Unique k s.current ok.distinct;
    sorted = erase_node-Sorted k s.current ok.sorted;
    indexed =
        λ j u d. let (other, e) = deref-other j u d in Leads-after j u other (ok.indexed j u e);
    hashes = hashes-after;
    places = places-after;
    older = λ j u d. ok.older j u (deref-other j u d).1;
  }

-- What `remove_WITH_LOCK` does: nothing if the hash is not pending, and otherwise exactly one node
-- goes.
abbrev pub Removes : ℕ → TransactionQueue → Bool → TransactionQueue → Type 0
Removes h s b s' =
    (b ≡ has h s.current_by_hash)
    × (find h s'.current_by_hash ≡ none)
    × (length s'.current + (if b then 1 else 0) ≡ length s.current)
    × (s'.limit ≡ s.limit)
    × (s'.future ≡ s.future)
    × (s'.future_size ≡ s.future_size)

-- Removing a pending transaction.
pub remove-Leads :
    (h k : ℕ) (t : Transaction) (s : TransactionQueue)
    → Indexed s
    → find h s.current_by_hash ≡ some k
    → Leads s k t
    → t.sha3 ≡ h
    → (s' : TransactionQueue) × (remove h s ≡ some (true, s'))
      × (Indexed s')
      × (Removes h s true s')
      × (place t.from t.randomid s'.current_by_address_and_nonce ≡ none)
unfolding remove
remove-Leads h k t s ok f l w =
    let (inner, q, at_inner) = find-at t.from t.randomid k s.current_by_address_and_nonce l.2 in
    let gone : find h (remove_key h s.current_by_hash) ≡ none =
      find-remove_key h h s.current_by_hash ∙ ground arith in
    let one = length-erase_node k s.current t ok.distinct l.0 in
    (
      removed h k t inner s,
      ground (arith, f, l.0, q),
      Indexed-after s ok h k t inner l w at_inner,
      (ground (arith, has-find h s.current_by_hash, f), gone, omega (arith, one), refl, refl, refl),
      place-after s ok h k t inner l w at_inner t.from t.randomid ∙ ground arith,
    )

-- In a queue whose indices lead to its nodes, removing a hash follows no dangling iterator; it takes
-- exactly one node away if the hash is pending and none otherwise; the hash is not pending
-- afterwards, and the indices lead to the nodes again.
pub remove-Indexed :
    (h : ℕ) (s : TransactionQueue)
    → Indexed s
    → (b : Bool) × (s' : TransactionQueue) × (remove h s ≡ some (b, s'))
      × (Indexed s')
      × (Removes h s b s')
unfolding remove
remove-Indexed h s ok = elim (Option-cases (find h s.current_by_hash)) [
  | inl n ↦ (
    false,
    s,
    ground (arith, n),
    ok,
    (ground (arith, has-find h s.current_by_hash, n), n, omega arith, refl, refl, refl),
  )
  | inr (k, f) ↦
      let (t, l, w) = ok.hashes h k f in
      let (s', e, i, r, _) = remove-Leads h k t s ok f l w in (true, s', e, i, r)
]
