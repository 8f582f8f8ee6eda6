-- ===== src/TransactionQueue/Ordered.antt =====
-- The nodes of the current transactions in the order of their import times, PriorityCompare of
-- libcv/TransactionQueue.h.
use utispace_chain.Prelude.{
  ℕ, ◌≤◌, List, [], ◌∷◌, not, leb, ◌==◌, keep, All, All-map_imp, All-keep, if-intro, leb→le, arith,
}
use utispace_chain.TransactionQueue.{VerifiedTransaction, erase_node, emplace}

-- The nodes stand in the order of their import times.
abbrev pub NotEarlier : ℕ → VerifiedTransaction → Type 0
NotEarlier time m = time ≤ m.transaction.import_time

abbrev pub Sorted : List VerifiedTransaction → Type 0
Sorted [] = Unit
Sorted (n ∷ ns) = (All (NotEarlier n.transaction.import_time) ns) × Sorted ns

emplace-All :
    (P : VerifiedTransaction → Type 0) (n : VerifiedTransaction) (ns : List VerifiedTransaction)
    → P n
    → All P ns
    → All P (emplace n ns)
unfolding emplace
emplace-All P n [] p h = (p, tt)
emplace-All P n (m ∷ ms) p h =
    if-intro (All P) (leb n.transaction.import_time m.transaction.import_time) (λ _. (p, h))
      (λ _. (h.0, emplace-All P n ms p h.1))

pub emplace-Sorted :
    (n : VerifiedTransaction) (ns : List VerifiedTransaction) → Sorted ns → Sorted (emplace n ns)
unfolding emplace
emplace-Sorted n [] h = (tt, tt)
emplace-Sorted n (m ∷ ms) h =
    if-intro Sorted (leb n.transaction.import_time m.transaction.import_time)
      (λ b. (
        (
          leb→le n.transaction.import_time m.transaction.import_time b,
          All-map_imp (NotEarlier m.transaction.import_time) (NotEarlier n.transaction.import_time)
              (λ o le.
                omega (arith, le, leb→le n.transaction.import_time m.transaction.import_time b))
              ms h.0,
        ),
        h,
      ))
      (λ b. (
        emplace-All (NotEarlier m.transaction.import_time) n ms (ground (arith, b)) h.0,
        emplace-Sorted n ms h.1,
      ))

pub erase_node-Sorted :
    (k : ℕ) (ns : List VerifiedTransaction) → Sorted ns → Sorted (erase_node k ns)
unfolding erase_node keep
erase_node-Sorted k [] h = tt
erase_node-Sorted k (n ∷ ns) h =
    if-intro Sorted (not (n.handle == k))
      (λ _. (
        All-keep (NotEarlier n.transaction.import_time)
            (λ (m : VerifiedTransaction). not (m.handle == k)) ns h.0,
        erase_node-Sorted k ns h.1,
      ))
      (λ _. erase_node-Sorted k ns h.1)
