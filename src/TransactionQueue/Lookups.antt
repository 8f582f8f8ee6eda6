-- ===== src/TransactionQueue/Lookups.antt =====
-- What iterators and indices denote after nodes come and go, libcv/TransactionQueue.cpp.
use utispace_chain.Prelude.{
  ℕ, suc, ◌<◌, ◌≡◌, refl, sym, ap, ◌∙◌, inl, inr, List, [], ◌∷◌, none, some, ◌&&◌, leb, ◌==◌,
  if◌then◌else◌, length, keep, All, All-map_imp, Bool-cases, arith,
}
use mathlib.Core.Path.{subst}
use utispace_chain.Prelude.Map.{
  Map, find, insert, at, remove_key, insert_ordered, find-insert_ordered, at-insert,
}
use utispace_chain.TransactionQueue.{
  Transaction, VerifiedTransaction, deref, erase_node, emplace, last_node, put_inner, place,
}

pub deref-erase_node :
    (k j : ℕ) (ns : List VerifiedTransaction)
    → deref j (erase_node k ns) ≡ (if k == j then none else deref j ns)
unfolding deref erase_node keep
deref-erase_node k j [] = ground arith
deref-erase_node k j (n ∷ ns) = ground (arith, deref-erase_node k j ns)

-- A node whose number no other node has.
pub deref-emplace :
    (n : VerifiedTransaction) (j : ℕ) (ns : List VerifiedTransaction)
    → deref n.handle ns ≡ none
    → deref j (emplace n ns) ≡ (if n.handle == j then some n.transaction else deref j ns)
unfolding deref emplace
deref-emplace n j [] h = refl
deref-emplace n j (m ∷ ms) h = elim (Bool-cases (m.handle == n.handle)) [
  | inl e ↦ absurd (ground (arith, e, h))
  | inr e ↦ ground (arith, e, deref-emplace n j ms (ground (arith, e, h)))
]

at-remove_key :
    (V : Type 0) (d : V) (k j : ℕ) (m : Map V)
    → at d j (remove_key k m) ≡ (if k == j then d else at d j m)
unfolding at remove_key
at-remove_key V d k j [] = ground arith
at-remove_key V d k j ((i, w) ∷ m) = ground (arith, at-remove_key V d k j m)

at-put_inner :
    (a b : ℕ) (inner : Map ℕ) (m : Map (Map ℕ))
    → at [] b (put_inner a inner m) ≡ (if a == b then inner else at [] b m)
unfolding put_inner
at-put_inner a b [] m = at-remove_key (Map ℕ) [] a b m
at-put_inner a b (e ∷ es) m = at-insert [] a b (e ∷ es) m

pub place-put_inner :
    (a b n : ℕ) (inner : Map ℕ) (m : Map (Map ℕ))
    → place b n (put_inner a inner m) ≡ (if a == b then find n inner else place b n m)
unfolding place
place-put_inner a b n inner m = rw (at-put_inner a b inner m) (ground arith)

pub find-at :
    (a n k : ℕ) (m : Map (Map ℕ))
    → place a n m ≡ some k
    → (inner : Map ℕ) × (find a m ≡ some inner) × (at [] a m ≡ inner)
unfolding place find at
find-at a n k [] h = absurd (ground (arith, h))
find-at a n k ((b, i) ∷ m) h = elim (Bool-cases (b == a)) [
  | inl e ↦ (i, ground (arith, e), ground (arith, e))
  | inr e ↦
      let (inner, p, q) = find-at a n k m (ground (arith, e, h)) in
      (inner, ground (arith, e, p), ground (arith, e, q))
]

pub place-insert :
    (a b n k t : ℕ) (m : Map (Map ℕ))
    → place b n (insert a (insert_ordered t k (at [] a m)) m)
      ≡ (if (a == b) && (t == n) then some k else place b n m)
unfolding place
place-insert a b n k t m =
    rw (at-insert [] a b (insert_ordered t k (at [] a m)) m) (elim (Bool-cases (a == b)) [
      | inl e ↦
          let same : a ≡ b = ground (arith, e) in
          rw (e, same) (ground (arith, find-insert_ordered t n k (at [] b m)))
      | inr e ↦ rw e refl
    ])

-- The last node is one of the nodes.
pub last_node-All {κ} :
    (P : VerifiedTransaction → Type κ) (ns : List VerifiedTransaction) (n : VerifiedTransaction)
    → All P ns
    → last_node ns ≡ some n
    → P n
unfolding last_node
last_node-All P [] n h e = absurd (cc)
last_node-All P (m ∷ []) n h e = let same : m ≡ n = ground (arith, e) in subst P same h.0
last_node-All P (m ∷ o ∷ ms) n h e = last_node-All P (o ∷ ms) n h.1 e

pub last_node-some :
    (ns : List VerifiedTransaction)
    → 0 < length ns
    → (n : VerifiedTransaction) × (last_node ns ≡ some n)
unfolding last_node
last_node-some [] h = absurd (omega (arith, h))
last_node-some (n ∷ []) h = (n, refl)
last_node-some (n ∷ m ∷ ms) h = last_node-some (m ∷ ms) (omega arith)

pub length-emplace :
    (n : VerifiedTransaction) (ns : List VerifiedTransaction)
    → length (emplace n ns) ≡ suc (length ns)
unfolding emplace
length-emplace n [] = refl
length-emplace n (m ∷ ms) = ground (arith, length-emplace n ms)

-- No two nodes have one number.
abbrev pub Unique : List VerifiedTransaction → Type 0
Unique [] = Unit
Unique (n ∷ ns) = (deref n.handle ns ≡ none) × Unique ns

unnumbered :
    (k : ℕ) (ns : List VerifiedTransaction)
    → deref k ns ≡ none
    → length (erase_node k ns) ≡ length ns
unfolding deref erase_node keep
unnumbered k [] h = refl
unnumbered k (n ∷ ns) h = elim (Bool-cases (n.handle == k)) [
  | inl e ↦ absurd (ground (arith, e, h))
  | inr e ↦ ground (arith, e, unnumbered k ns (ground (arith, e, h)))
]

-- The node that goes is one.
pub length-erase_node :
    (k : ℕ) (ns : List VerifiedTransaction) (t : Transaction)
    → Unique ns
    → deref k ns ≡ some t
    → suc (length (erase_node k ns)) ≡ length ns
unfolding deref erase_node keep
length-erase_node k [] t u h = absurd (cc)
length-erase_node k (n ∷ ns) t u h = elim (Bool-cases (n.handle == k)) [
  | inl e ↦
      let same : n.handle ≡ k = ground (arith, e) in
      ground (arith, e, unnumbered k ns (ap (λ j. deref j ns) (sym same) ∙ u.0))
  | inr e ↦ ground (arith, e, length-erase_node k ns t u.1 (ground (arith, e, h)))
]

pub erase_node-Unique :
    (k : ℕ) (ns : List VerifiedTransaction) → Unique ns → Unique (erase_node k ns)
unfolding erase_node keep
erase_node-Unique k [] u = tt
erase_node-Unique k (n ∷ ns) u = elim (Bool-cases (n.handle == k)) [
  | inl e ↦ rw e (erase_node-Unique k ns u.1)
  | inr e ↦ rw e (deref-erase_node k n.handle ns ∙ ground (arith, u.0), erase_node-Unique k ns u.1)
]

pub emplace-Unique :
    (n : VerifiedTransaction) (ns : List VerifiedTransaction)
    → deref n.handle ns ≡ none
    → Unique ns
    → Unique (emplace n ns)
unfolding emplace deref
emplace-Unique n [] h u = (refl, tt)
emplace-Unique n (m ∷ ms) h u = elim (Bool-cases (m.handle == n.handle)) [
  | inl e ↦ absurd (ground (arith, e, h))
  | inr e ↦
      let rest : deref n.handle ms ≡ none = ground (arith, e, h) in
      elim (Bool-cases (leb n.transaction.import_time m.transaction.import_time)) [
        | inl b ↦ rw b (h, u)
        | inr b ↦ rw b (
          deref-emplace n m.handle ms rest ∙ ground (arith, e, u.0),
          emplace-Unique n ms rest u.1,
        )
      ]
]

-- Every node is found by its number.
pub Unique-found :
    (ns : List VerifiedTransaction)
    → Unique ns
    → All (λ n. deref n.handle ns ≡ some n.transaction) ns
unfolding deref
Unique-found [] u = tt
Unique-found (n ∷ ns) u = (
  ground arith,
  All-map_imp (λ m. deref m.handle ns ≡ some m.transaction)
      (λ m. deref m.handle (n ∷ ns) ≡ some m.transaction) (λ m d. behind n ns m u.0 d) ns
      (Unique-found ns u.1),
)
  where
    behind :
        (n : VerifiedTransaction) (ns : List VerifiedTransaction) (m : VerifiedTransaction)
        → deref n.handle ns ≡ none
        → deref m.handle ns ≡ some m.transaction
        → deref m.handle (n ∷ ns) ≡ some m.transaction
    behind n ns m h d = elim (Bool-cases (n.handle == m.handle)) [
      | inl e ↦
          let same : n.handle ≡ m.handle = ground (arith, e) in
          let gone : deref m.handle ns ≡ none = ap (λ j. deref j ns) (sym same) ∙ h in
          absurd (ground (arith, gone, d))
      | inr e ↦ ground (arith, e, d)
    ]
