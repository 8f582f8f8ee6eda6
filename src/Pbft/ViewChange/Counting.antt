-- ===== src/Pbft/ViewChange/Counting.antt =====
-- How `handleViewChangeMsg` of libpbftseal/PBFT.cpp counts the nodes that are ahead.
use utispace_chain.Prelude.{
  ℕ, ◌≤◌, ◌<◌, ◌≡◌, ◌≢◌, inl, inr, refl, ◌∙◌, [], ◌∷◌, false, ◌&&◌, ltb, leb, ◌==◌, if◌then◌else◌,
  length, All, Bool-cases, arith,
}
use utispace_chain.Prelude.Map.{Map, has, insert, All-insert}
use utispace_chain.Pbft.Msg.{PbftMsg, invalid256}
use utispace_chain.Pbft.State.{State}
use utispace_chain.Pbft.Caches.{Cache}
use utispace_chain.Pbft.Caches.Entries.{AllMsgs}
use utispace_chain.Pbft.ViewChange.{
  Scan, scan_start, is_newer, scan_entry, scan_inner, scan, scan_state, fast_start,
}

-- No key stands twice in the map: each node is counted once.
abbrev pub DistinctKeys : Map ℕ → Type 0
DistinctKeys [] = Unit {0}
DistinctKeys ((k, v) ∷ m) = (has k m ≡ false) × DistinctKeys m

has-insert : (k j v : ℕ) (m : Map ℕ) → k ≢ j → has j (insert k v m) ≡ has j m
unfolding has insert
has-insert k j v [] h = ground arith
has-insert k j v ((i, w) ∷ m) h = ground (arith, has-insert k j v m h)

insert-DistinctKeys : (k v : ℕ) (m : Map ℕ) → DistinctKeys m → DistinctKeys (insert k v m)
unfolding insert has
insert-DistinctKeys k v [] d = (refl, tt)
insert-DistinctKeys k v ((i, w) ∷ m) d = elim (Bool-cases (i == k)) [
  | inl e ↦ rw e d
  | inr e ↦ rw e (has-insert k i v m (ground arith) ∙ d.0, insert-DistinctKeys k v m d.1)
]

-- What holds of the variables of the loops at each point.
pub record IsScanned (to_view : ℕ) (a : Scan) : Type 0 where
  pub distinct : DistinctKeys a.idx_view_map
  pub above : to_view < a.min_view
  pub valid : a.min_view ≤ invalid256

scan_entry-IsScanned :
    (highest to_view v : ℕ) (e : ℕ × PbftMsg) (a : Scan)
    → to_view < v
    → IsScanned to_view a
    → IsScanned to_view (scan_entry highest v e a)
unfolding scan_entry
scan_entry-IsScanned highest to_view v (i, m) a h s =
    ground (arith, insert-DistinctKeys i v a.idx_view_map s.distinct)

scan_inner-IsScanned :
    (highest to_view v : ℕ) (m : Map PbftMsg) (a : Scan)
    → to_view < v
    → IsScanned to_view a
    → IsScanned to_view (scan_inner highest v m a)
unfolding scan_inner
scan_inner-IsScanned highest to_view v [] a h s = s
scan_inner-IsScanned highest to_view v (e ∷ es) a h s =
    scan_inner-IsScanned highest to_view v es _ h (scan_entry-IsScanned highest to_view v e a h s)

scan-IsScanned :
    (highest to_view : ℕ) (c : Cache) (a : Scan)
    → IsScanned to_view a
    → IsScanned to_view (scan highest to_view c a)
unfolding scan
scan-IsScanned highest to_view [] a s = s
scan-IsScanned highest to_view ((v, inner) ∷ c) a s = elim (Bool-cases (ltb to_view v)) [
  | inl h ↦ rw h (
      scan-IsScanned highest to_view c _
        (scan_inner-IsScanned highest to_view v inner a (ground arith) s))
  | inr h ↦ rw h (scan-IsScanned highest to_view c a s)
]

pub scan_state-IsScanned : (s : State) → s.to_view < invalid256 → IsScanned s.to_view (scan_state s)
unfolding scan_state
scan_state-IsScanned s h =
    scan-IsScanned s.highest_block.number s.to_view s.recv_view_change_req scan_start
      (record { distinct = tt; above = h; valid = omega arith })

-- From a wanted view below the largest number of 256 bits, the fast start moves the wanted view
-- forward or leaves it, keeps it below that number, and leaves the view as it is.
pub fast_start_forward :
    (s : State)
    → s.to_view < invalid256
    → (s.to_view ≤ (fast_start s).to_view)
      × ((fast_start s).to_view < invalid256)
      × ((fast_start s).view ≡ s.view)
unfolding fast_start
fast_start_forward s h = let v = scan_state-IsScanned s h in ground (arith, v)

-- A request that the loops count: for a view beyond `to_view`, at `highest` or above.
abbrev pub Eligible : (ℕ → ℕ → Type 0) → ℕ → ℕ → ℕ → ℕ → PbftMsg → Type 0
Eligible Q highest to_view v i m = to_view < v → highest ≤ m.height → Q i v

module _ (Q : ℕ → ℕ → Type 0) (highest to_view : ℕ) where
  scan_entry-All :
      (v i : ℕ) (m : PbftMsg) (a : Scan)
      → to_view < v
      → Eligible Q highest to_view v i m
      → All (λ d. Q d.0 d.1) a.idx_view_map
      → All (λ d. Q d.0 d.1) (scan_entry highest v (i, m) a).idx_view_map
  unfolding scan_entry
  scan_entry-All v i m a h q s =
      elim (Bool-cases (leb highest m.height && is_newer v i a.idx_view_map)) [
        | inl e ↦ rw e (All-insert (λ d. Q d.0 d.1) i v a.idx_view_map (q h (ground arith)) s)
        | inr e ↦ rw e s
      ]

  scan_inner-All :
      (v : ℕ) (m : Map PbftMsg) (a : Scan)
      → to_view < v
      → All (λ d. Eligible Q highest to_view v d.0 d.1) m
      → All (λ d. Q d.0 d.1) a.idx_view_map
      → All (λ d. Q d.0 d.1) (scan_inner highest v m a).idx_view_map
  unfolding scan_inner
  scan_inner-All v [] a h q s = s
  scan_inner-All v ((i, m) ∷ es) a h q s =
      scan_inner-All v es _ h q.1 (scan_entry-All v i m a h q.0 s)

  scan_view-All :
      (v : ℕ) (inner : Map PbftMsg) (a : Scan)
      → All (λ d. Eligible Q highest to_view v d.0 d.1) inner
      → All (λ d. Q d.0 d.1) a.idx_view_map
      → All
          (λ d. Q d.0 d.1)
          (if ltb to_view v then scan_inner highest v inner a else a).idx_view_map
  scan_view-All v inner a q s = elim (Bool-cases (ltb to_view v)) [
    | inl h ↦ rw h (scan_inner-All v inner a (ground arith) q s)
    | inr h ↦ rw h s
  ]

  scan-All :
      (c : Cache) (a : Scan)
      → AllMsgs (Eligible Q highest to_view) c
      → All (λ d. Q d.0 d.1) a.idx_view_map
      → All (λ d. Q d.0 d.1) (scan highest to_view c a).idx_view_map
  unfolding scan
  scan-All [] a q s = s
  scan-All ((v, inner) ∷ c) a q s = scan-All c _ q.1 (scan_view-All v inner a q.0 s)

-- If, from a wanted view below the largest number of 256 bits, `handleViewChangeMsg` moves the
-- wanted view early, then there are more than `m_f` different nodes, each counted once with a view,
-- such that whatever holds of the node and the view of every stored request for a later view than
-- the wanted one, at the highest block or above, holds of each of them.
pub fast_start_needs_more_than_faulty :
    (Q : ℕ → ℕ → Type 0) (s : State)
    → s.to_view < invalid256
    → AllMsgs (Eligible Q s.highest_block.number s.to_view) s.recv_view_change_req
    → (fast_start s).to_view ≢ s.to_view
    → (voters : Map ℕ) × DistinctKeys voters × (s.f < length voters) × All (λ d. Q d.0 d.1) voters
unfolding fast_start
fast_start_needs_more_than_faulty Q s h q moved =
    let v = scan_state-IsScanned s h in
    (
      (scan_state s).idx_view_map,
      v.distinct,
      ground arith,
      unfold scan_state in
          scan-All Q s.highest_block.number s.to_view s.recv_view_change_req scan_start q tt,
    )
