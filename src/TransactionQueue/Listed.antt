-- ===== src/TransactionQueue/Listed.antt =====
-- What the queue lists, and what it does not take again, libcv/TransactionQueue.cpp.
use utispace_chain.Prelude.{
  ℕ, zero, suc, ◌≡◌, refl, sym, ap, ◌∙◌, inl, inr, List, [], ◌∷◌, map, some, Bool, true, not,
  if◌then◌else◌, keep, Bool-cases, Option-cases, ==_self, arith,
}
use utispace_chain.Prelude.Map.{find}
use utispace_chain.TransactionQueue.{
  Transaction, VerifiedTransaction, TransactionQueue, already_known, already_in_chain, ignore,
  count, deref, remove,
}
use utispace_chain.TransactionQueue.Import.{check, drop, import, Interface, top_transactions}

-- The first elements of a list.
abbrev pub first : ℕ → List Transaction → List Transaction
first zero ts = []
first (suc n) [] = []
first (suc n) (t ∷ ts) = t ∷ first n ts

-- The pending transactions that are not to be avoided, in the order of the queue.
abbrev pub wanted : List ℕ → List VerifiedTransaction → List Transaction
wanted avoid ns =
    keep (λ (t : Transaction). not (count t.sha3 avoid))
      (map (λ (n : VerifiedTransaction). n.transaction) ns)

-- `topTransactions` lists the first transactions, up to the limit, of those that are not to be
-- avoided, in the order of the queue.
pub top_transactions-first :
    (limit : ℕ) (avoid : List ℕ) (ns : List VerifiedTransaction)
    → top_transactions limit avoid ns ≡ first limit (wanted avoid ns)
unfolding top_transactions keep
top_transactions-first zero avoid [] = refl
top_transactions-first (suc limit) avoid [] = refl
top_transactions-first zero avoid (n ∷ ns) = refl
top_transactions-first (suc limit) avoid (n ∷ ns) =
    elim (Bool-cases (count n.transaction.sha3 avoid)) [
      | inl y ↦ ground (arith, y, top_transactions-first (suc limit) avoid ns)
      | inr n' ↦ ground (arith, n', top_transactions-first limit avoid ns)
    ]

remove-dropped :
    (h : ℕ) (b : Bool) (s s' : TransactionQueue)
    → remove h s ≡ some (b, s')
    → s'.dropped ≡ s.dropped
unfolding remove
remove-dropped h b s s' e = elim (Option-cases (find h s.current_by_hash)) [
  | inl n ↦ ground (arith, n, e)
  | inr (k, f) ↦ elim (Option-cases (deref k s.current)) [
    | inl n ↦ absurd (ground (arith, f, n, e))
    | inr (t, d) ↦ elim (Option-cases (find t.from s.current_by_address_and_nonce)) [
      | inl n ↦ absurd (ground (arith, f, d, n, e))
      | inr (inner, i) ↦ ground (arith, f, d, i, e)
    ]
  ]
]

marked : (h : ℕ) (d : List ℕ) → count h (if count h d then d else h ∷ d) ≡ true
unfolding count
marked h d = elim (Bool-cases (count h d)) [
  | inl y ↦ rw (y, y) refl
  | inr n ↦ rw n (ground (arith, ==_self h))
]

-- Dropping marks the hash.
drop-marks :
    (h : ℕ) (s s' : TransactionQueue)
    → count h s.known ≡ true
    → drop h s ≡ some s'
    → count h s'.dropped ≡ true
unfolding drop
drop-marks h s s' k e =
    let with_mark : TransactionQueue = record s {
      dropped = if count h s.dropped then s.dropped else h ∷ s.dropped;
    } in
    elim (Option-cases (remove h with_mark)) [
      | inl n ↦ absurd (ground (arith, k, n, e))
      | inr ((b, s1), r) ↦
          let same : s1 ≡ s' = ground (arith, k, r, e) in
          ap (λ (q : TransactionQueue). count h q.dropped) (sym same)
          ∙ ap (count h) (remove-dropped h b with_mark s1 r)
          ∙ marked h s.dropped
    ]

-- A transaction that was known when it was dropped is refused if it is imported again with the
-- default flag, as known or as in the chain already, and the queue stays as it is.
pub drop-import :
    (client : Interface) (t : Transaction) (s s' : TransactionQueue)
    → count t.sha3 s.known ≡ true
    → drop t.sha3 s ≡ some s'
    → import client t ignore s'
      ≡ some ((if count t.sha3 s'.known then already_known else already_in_chain), s')
unfolding import check
drop-import client t s s' k e = ground (arith, drop-marks t.sha3 s s' k e)
