-- ===== src/TransactionQueue/Placed.antt =====
-- A new transaction takes its place in the queue and its indices, libcv/TransactionQueue.cpp.
use utispace_chain.Prelude.{
  ℕ, suc, ◌<◌, ◌≡◌, refl, sym, ap, ◌∙◌, inl, inr, none, some, ◌&&◌, ◌==◌, if◌then◌else◌, length,
  Bool-cases, Option-cases, arith,
}
use mathlib.Core.Path.{subst}
use utispace_chain.Prelude.Map.{find, find-insert}
use utispace_chain.TransactionQueue.{Transaction, TransactionQueue, deref, place, place_node}
use utispace_chain.TransactionQueue.Lookups.{
  deref-emplace, place-insert, Unique, emplace-Unique, length-emplace,
}
use utispace_chain.TransactionQueue.Ordered.{Sorted, emplace-Sorted}
use utispace_chain.TransactionQueue.Indexed.{Leads, Indexed}

-- No pending transaction has the hash, nor the sender with the nonce.
abbrev pub Fresh : Transaction → TransactionQueue → Type 0
Fresh t s =
    (find t.sha3 s.current_by_hash ≡ none)
    × (place t.from t.randomid s.current_by_address_and_nonce ≡ none)

module _ (t : Transaction) (s : TransactionQueue) (ok : Indexed s) (fresh : Fresh t s) where
  abbrev after : TransactionQueue
  after = place_node t.from t s

  unnumbered : deref s.next_handle s.current ≡ none
  unnumbered = elim (Option-cases (deref s.next_handle s.current)) [
    | inl n ↦ n
    | inr (u, d) ↦ absurd (omega (arith, ok.older s.next_handle u d))
  ]

  deref-after :
      (k : ℕ) → deref k after.current ≡ (if s.next_handle == k then some t else deref k s.current)
  unfolding place_node
  deref-after k =
      deref-emplace record { handle = s.next_handle; transaction = t } k s.current unnumbered

  find-after :
      (h : ℕ)
      → find h after.current_by_hash
        ≡ (if t.sha3 == h then some s.next_handle else find h s.current_by_hash)
  unfolding place_node
  find-after h = find-insert t.sha3 h s.next_handle s.current_by_hash

  place-after :
      (a n : ℕ)
      → place a n after.current_by_address_and_nonce ≡ (
          if (t.from == a) && (t.randomid == n)
          then some s.next_handle
          else place a n s.current_by_address_and_nonce)
  unfolding place_node
  place-after a n = place-insert t.from a n s.next_handle t.randomid s.current_by_address_and_nonce

  Leads-new : Leads after s.next_handle t
  Leads-new = (
    deref-after s.next_handle ∙ ground arith,
    find-after t.sha3 ∙ ground arith,
    place-after t.from t.randomid ∙ ground arith,
  )

  Leads-old : (k : ℕ) (u : Transaction) → Leads s k u → Leads after k u
  Leads-old k u (d, f, p) =
      let older = ok.older k u d in
      (
        deref-after k ∙ ground (arith, older, d),
        find-after u.sha3 ∙ old_hash,
        place-after u.from u.randomid ∙ old_place,
      )
    where
      old_hash :
          (if t.sha3 == u.sha3 then some s.next_handle else find u.sha3 s.current_by_hash) ≡ some k
      old_hash = elim (Bool-cases (t.sha3 == u.sha3)) [
        | inl e ↦
            let gone : find u.sha3 s.current_by_hash ≡ none =
              ap (λ x. find x s.current_by_hash) (ground (arith, e)) ∙ fresh.0 in
            absurd (ground (arith, gone, f))
        | inr e ↦ rw e f
      ]

      old_place :
          (if (t.from == u.from) && (t.randomid == u.randomid)
            then some s.next_handle
            else place u.from u.randomid s.current_by_address_and_nonce)
          ≡ some k
      old_place = elim (Bool-cases ((t.from == u.from) && (t.randomid == u.randomid))) [
        | inl e ↦
            let a : u.from ≡ t.from = ground (arith, e) in
            let n : u.randomid ≡ t.randomid = ground (arith, e) in
            let gone : place u.from u.randomid s.current_by_address_and_nonce ≡ none =
              ap (λ x. place x u.randomid s.current_by_address_and_nonce) a
              ∙ ap (λ x. place t.from x s.current_by_address_and_nonce) n
              ∙ fresh.1 in
            absurd (ground (arith, gone, p))
        | inr e ↦ rw e p
      ]

  Leads-own : (k : ℕ) (u : Transaction) → s.next_handle ≡ k → t ≡ u → Leads after k u
  Leads-own k u same_handle same =
      subst (λ j. Leads after j u) same_handle (subst (Leads after s.next_handle) same Leads-new)

  indexed-after : (k : ℕ) (u : Transaction) → deref k after.current ≡ some u → Leads after k u
  indexed-after k u d =
      let e = sym (deref-after k) ∙ d in
      elim (Bool-cases (s.next_handle == k)) [
        | inl own ↦ Leads-own k u (ground (arith, own)) (ground (arith, own, e))
        | inr old ↦ Leads-old k u (ok.indexed k u (ground (arith, old, e)))
      ]

  hashes-after :
      (i j : ℕ)
      → find i after.current_by_hash ≡ some j
      → (u : Transaction) × (Leads after j u) × (u.sha3 ≡ i)
  hashes-after i j f =
      let e = sym (find-after i) ∙ f in
      elim (Bool-cases (t.sha3 == i)) [
        | inl own ↦ (t, Leads-own j t (ground (arith, own, e)) refl, ground (arith, own))
        | inr old ↦
            let (u, l, w) = ok.hashes i j (ground (arith, old, e)) in (u, Leads-old j u l, w)
      ]

  places-after :
      (a n j : ℕ)
      → place a n after.current_by_address_and_nonce ≡ some j
      → (u : Transaction) × (Leads after j u) × (u.from ≡ a) × (u.randomid ≡ n)
  places-after a n j f =
      let e = sym (place-after a n) ∙ f in
      elim (Bool-cases ((t.from == a) && (t.randomid == n))) [
        | inl own ↦ (
          t,
          Leads-own j t (ground (arith, own, e)) refl,
          ground (arith, own),
          ground (arith, own),
        )
        | inr old ↦
            let (u, l, w, x) = ok.places a n j (ground (arith, old, e)) in
            (u, Leads-old j u l, w, x)
      ]

  older-after : (k : ℕ) (u : Transaction) → deref k after.current ≡ some u → k < after.next_handle
  unfolding place_node
  older-after k u d =
      let e = sym (deref-after k) ∙ d in
      elim (Bool-cases (s.next_handle == k)) [
        | inl own ↦ ground (arith, own)
        | inr old ↦ let less = ok.older k u (ground (arith, old, e)) in omega (arith, less)
      ]

  distinct-after : Unique after.current
  unfolding place_node
  distinct-after =
      emplace-Unique record { handle = s.next_handle; transaction = t } s.current unnumbered
        ok.distinct

  Sorted-after : Sorted after.current
  unfolding place_node
  Sorted-after =
      emplace-Sorted record { handle = s.next_handle; transaction = t } s.current ok.sorted

  -- A transaction that no pending one collides with takes its place, and the indices lead to the
  -- nodes again, the new one included.
  pub place_node-Indexed : Indexed after
  place_node-Indexed = record {
    distinct = distinct-after;
    sorted = Sorted-after;
    indexed = indexed-after;
    hashes = hashes-after;
    places = places-after;
    older = older-after;
  }

  pub length-place_node : length after.current ≡ suc (length s.current)
  unfolding place_node
  length-place_node = length-emplace record { handle = s.next_handle; transaction = t } s.current
