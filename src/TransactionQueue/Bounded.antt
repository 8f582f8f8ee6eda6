-- ===== src/TransactionQueue/Bounded.antt =====
-- The queue keeps to its limit, libcv/TransactionQueue.cpp.
use utispace_chain.Prelude.{
  ℕ, zero, suc, ◌+◌, ◌≤◌, ◌<◌, ◌≡◌, refl, ◌∙◌, inl, inr, some, Bool, true, ltb, length, Bool-cases,
  ltb→lt, arith,
}
use utispace_chain.Prelude.Map.{find, has-find}
use utispace_chain.TransactionQueue.{
  VerifiedTransaction, TransactionQueue, deref, last_node, remove,
}
use utispace_chain.TransactionQueue.Lookups.{last_node-All, last_node-some, Unique-found}
use utispace_chain.TransactionQueue.Indexed.{Indexed, remove-Indexed}
use utispace_chain.TransactionQueue.Import.{shrink}

-- What the loop leaves.
abbrev pub Shrunk : TransactionQueue → TransactionQueue → Type 0
Shrunk s s' =
    (Indexed s')
    × (length s'.current ≤ s.limit)
    × (s'.limit ≡ s.limit)
    × (s'.future ≡ s.future)
    × (s'.future_size ≡ s.future_size)

one_more :
    (fuel : ℕ) (s s' : TransactionQueue) (n m : VerifiedTransaction) (b : Bool)
    → ltb s.limit (length s.current) ≡ true
    → last_node s.current ≡ some n
    → remove n.transaction.sha3 s ≡ some (b, s')
    → last_node s'.current ≡ some m
    → shrink (suc fuel) s ≡ shrink fuel s'
unfolding shrink
one_more fuel s s' n m b h l r k = ground (arith, h, l, r, k)

-- The last node is pending.
last_pending :
    (s : TransactionQueue) (n : VerifiedTransaction)
    → Indexed s
    → last_node s.current ≡ some n
    → find n.transaction.sha3 s.current_by_hash ≡ some n.handle
last_pending s n ok l =
    let d =
      last_node-All (λ m. deref m.handle s.current ≡ some m.transaction) s.current n
        (Unique-found s.current ok.distinct) l in
    (ok.indexed n.handle n.transaction d).1

Shrunk-later :
    (s s1 s2 : TransactionQueue)
    → s1.limit ≡ s.limit
    → s1.future ≡ s.future
    → s1.future_size ≡ s.future_size
    → Shrunk s1 s2
    → Shrunk s s2
Shrunk-later s s1 s2 lim fut waiting (ok, small, l, f, w) =
    (ok, omega (arith, small, lim), l ∙ lim, f ∙ fut, w ∙ waiting)

pub shrink-Shrunk :
    (fuel : ℕ) (s : TransactionQueue)
    → Indexed s
    → 1 ≤ s.limit
    → length s.current ≤ fuel + s.limit
    → (s' : TransactionQueue) × (shrink fuel s ≡ some s') × (Shrunk s s')
unfolding shrink
shrink-Shrunk zero s ok room h = (s, ground (arith, h), (ok, omega (arith, h), refl, refl, refl))
shrink-Shrunk (suc fuel) s ok room h = elim (Bool-cases (ltb s.limit (length s.current))) [
  | inr fits ↦ (s, ground (arith, fits), (ok, ground (arith, fits), refl, refl, refl))
  | inl over ↦
      let some_node : 0 < length s.current = ground (arith, over) in
      let (n, l) = last_node-some s.current some_node in
      let (b, s1, r, ok1, (yes_or_no, _, size, lim, fut, waiting)) =
        remove-Indexed n.transaction.sha3 s ok in
      let one : b ≡ true =
        yes_or_no
        ∙ has-find n.transaction.sha3 s.current_by_hash
        ∙ ground (arith, last_pending s n ok l) in
      let left : suc (length s1.current) ≡ length s.current = ground (arith, one, size) in
      let (m, k) =
        last_node-some s1.current
          (omega (arith, left, room, ltb→lt s.limit (length s.current) over)) in
      let (s2, e, more) =
        shrink-Shrunk fuel s1 ok1 (omega (arith, room, lim)) (omega (arith, left, lim, h)) in
      (s2, one_more fuel s s1 n m b over l r k ∙ e, Shrunk-later s s1 s2 lim fut waiting more)
]
