-- ===== src/TransactionQueue/Verifier/Enqueued.antt =====
-- What `enqueue` takes of a packet, and what the verifier makes of it, libcv/TransactionQueue.cpp.
use utispace_chain.Prelude.{
  ℕ, zero, suc, ◌+◌, ◌-◌, ◌%◌, ◌^◌, ◌<◌, ◌≡◌, refl, sym, ap, ◌∙◌, inl, inr, List, [], ◌∷◌, ◌++◌,
  some, true, false, leb, length, length-append, All, Bool-cases, arith,
}
use mathlib.Core.List.{append_assoc, append-nil}
use utispace_chain.Rlp.Reader.{payload}
use utispace_chain.Rlp.Stream.{list_bytes}
use utispace_chain.Rlp.Item.{items, counted}
use utispace_chain.Rlp.Item.Sized.{max_payload}
use utispace_chain.Rlp.Item.Written.{IsItem, written-IsListOf}
use utispace_chain.Rlp.Index.{ListCache, new_cache, no_index, at}
use utispace_chain.Rlp.Index.Cached.{IsCache, at-cached, at-IsCache}
use utispace_chain.Rlp.Index.Nth.{joined, nth, at-nth}
use utispace_chain.Rlp.Index.Count.{list-read}
use utispace_chain.TransactionQueue.Verifier.{
  max_verification_queue_size, UnverifiedTransaction, enqueue_from, enqueue,
}

-- The first items, as they are queued.
abbrev pub taken : ℕ → ℕ → List (List ℕ) → List UnverifiedTransaction
taken room node [] = []
taken zero node (e ∷ es) = []
taken (suc room) node (e ∷ es) = record { transaction = e; node_id = node } ∷ taken room node es

stops :
    (n i : ℕ) (d : List ℕ) (c : ListCache) (node : ℕ) (q : List UnverifiedTransaction)
    → leb max_verification_queue_size (length q) ≡ true
    → enqueue_from (suc n) i d c node q ≡ some q
unfolding enqueue_from
stops n i d c node q h = ground (arith, h)

goes_on :
    (n i : ℕ) (d : List ℕ) (c : ListCache) (node : ℕ) (q : List UnverifiedTransaction) (m : List ℕ)
    (next : ListCache)
    → leb max_verification_queue_size (length q) ≡ false
    → at d i c ≡ some (m, next)
    → enqueue_from (suc n) i d c node q
      ≡ enqueue_from n (suc i) d next node (q ++ (record { transaction = m; node_id = node } ∷ []))
unfolding enqueue_from
goes_on n i d c node q m next h a = ground (arith, h, a)

enqueue_from-taken :
    (d : List ℕ) (es : List (List ℕ)) (n i : ℕ) (c : ListCache) (node : ℕ)
    (q : List UnverifiedTransaction) (left : List (List ℕ))
    → payload d ≡ some (joined es)
    → All IsItem es
    → i + n < no_index
    → IsCache d c
    → length left ≡ n
    → ((j : ℕ) → nth es (i + j) ≡ nth left j)
    → enqueue_from n i d c node q
      ≡ some (q ++ taken (max_verification_queue_size - length q) node left)
unfolding enqueue_from
enqueue_from-taken d es zero i c node q [] p v h k s f = ap some (sym (append-nil q))
enqueue_from-taken d es zero i c node q (e ∷ left) p v h k s f = absurd (omega (arith, s))
enqueue_from-taken d es (suc n) i c node q [] p v h k s f = absurd (omega (arith, s))
enqueue_from-taken d es (suc n) i c node q (e ∷ left) p v h k s f =
    elim (Bool-cases (leb max_verification_queue_size (length q))) [
      | inl full ↦
          let none_left : max_verification_queue_size - length q ≡ 0 = ground (arith, full) in
          stops n i d c node q full
          ∙ ap some (sym (append-nil q))
          ∙ ap (λ r. some (q ++ taken r node (e ∷ left))) (sym none_left)
      | inr room ↦
          let (next, a) = at-nth d es i p v (omega (arith, h)) in
          let cached = at-cached d i c (omega (arith, h)) k ∙ a in
          let found : nth es i ≡ e = ap (nth es) (omega arith) ∙ f 0 in
          let w : UnverifiedTransaction = record { transaction = e; node_id = node } in
          let q' = q ++ (w ∷ []) in
          let one : length q' ≡ suc (length q) = length-append q (w ∷ []) ∙ omega arith in
          let slot : max_verification_queue_size - length q
              ≡ suc (max_verification_queue_size - length q') =
            ground (arith, one, room) in
          let kept = at-IsCache d i c next (nth es i) (omega (arith, h)) k cached in
          let ih =
            enqueue_from-taken d es n (suc i) next node q' left p v (omega (arith, h)) kept
              (omega (arith, s)) (λ j. ap (nth es) (omega arith) ∙ f (suc j)) in
          let same : record { transaction = nth es i; node_id = node } ≡ w =
            ap (λ (b : List ℕ). record { transaction = b; node_id = node }) found in
          goes_on n i d c node q (nth es i) next room cached
          ∙ ap (λ x. enqueue_from n (suc i) d next node (q ++ (x ∷ []))) same
          ∙ (ih
              ∙ ap some (
                  append_assoc q (w ∷ [])
                    (taken (max_verification_queue_size - length q') node left))
              ∙ ap (λ r. some (q ++ taken r node (e ∷ left))) (sym slot))
    ]

counts :
    (n : ℕ) (e : List ℕ) (node : ℕ) (q : List UnverifiedTransaction)
    → n < 2 ^ 32
    → items e ≡ counted (some n)
    → enqueue e node q ≡ enqueue_from n 0 e new_cache node q
unfolding enqueue
counts n e node q small h =
    let whole : n % 2 ^ 32 ≡ n = omega (arith, small) in
    ground (arith, h, ap (λ k. enqueue_from k 0 e new_cache node q) whole)

-- From a list of fewer than 2^32 items that fit, as many as there is room for in 8192 are queued behind what is
-- there, in their order, each as the bytes of its item, and the rest is let go.
pub enqueue-taken :
    (es : List (List ℕ)) (e : List ℕ) (node : ℕ) (q : List UnverifiedTransaction)
    → All IsItem es
    → length (joined es) < max_payload
    → length es < 2 ^ 32
    → list_bytes (joined es) ≡ some e
    → enqueue e node q ≡ some (q ++ taken (max_verification_queue_size - length q) node es)
unfolding enqueue
enqueue-taken es e node q v small few b =
    let (_, p, l) = written-IsListOf (joined es) e [] small b in
    let pl : payload e ≡ some (joined es) = ap payload (sym (append-nil e)) ∙ p in
    let (count, _) = list-read es e [] v small b tt in
    counts (length es) e node q few count
    ∙ (enqueue_from-taken e es (length es) 0 new_cache node q es pl v (omega (arith, few))
        (inl refl) refl (λ j. ap (nth es) (omega arith)))
