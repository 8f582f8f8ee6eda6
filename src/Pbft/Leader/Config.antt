-- ===== src/Pbft/Leader/Config.antt =====
-- Where `getMinerList` of libpbftseal/PBFT.cpp puts the miners' keys.
use utispace_chain.Prelude.{
  ℕ, zero, suc, ◌%◌, ◌^◌, ◌<◌, ◌≡◌, ◌≢◌, refl, sym, ap, ◌∙◌, inl, inr, List, [], ◌∷◌, Option, some,
  Bool, true, ◌==◌, length, get_elem?, set, length-set, All, Bool-cases, arith,
}
use mathlib.Core.Path.{subst}
use utispace_chain.Nodes.{Node, account_type_miner, count_miners, get_all_nodes}
use utispace_chain.Pbft.State.{Net}
use utispace_chain.Pbft.Leader.{fill_miners, resize, get_miner_list}

get_elem?-set : (l : List ℕ) (i v : ℕ) → i < length l → get_elem? (set l i v) i ≡ some v
get_elem?-set [] i v h = absurd (omega (arith, h))
get_elem?-set (x ∷ xs) zero v h = refl
get_elem?-set (x ∷ xs) (suc i) v h = get_elem?-set xs i v (omega (arith, h))

get_elem?-set_ne : (l : List ℕ) (i j v : ℕ) → i ≢ j → get_elem? (set l i v) j ≡ get_elem? l j
get_elem?-set_ne [] i j v h = refl
get_elem?-set_ne (x ∷ xs) zero zero v h = absurd (h refl)
get_elem?-set_ne (x ∷ xs) zero (suc j) v h = refl
get_elem?-set_ne (x ∷ xs) (suc i) zero v h = refl
get_elem?-set_ne (x ∷ xs) (suc i) (suc j) v h = get_elem?-set_ne xs i j v (ground (arith, h))

length-resize : (n : ℕ) (l : List ℕ) → length (resize n l) ≡ n
unfolding resize
length-resize zero l = refl
length-resize (suc n) [] = ap suc (length-resize n [])
length-resize (suc n) (x ∷ xs) = ap suc (length-resize n xs)

-- The index of a node as `getMinerList` reads it.
abbrev pub slot : Node → ℕ
slot d = d.idx % 2 ^ 32

abbrev pub IsMiner : Node → Type 0
IsMiner d = d.identity_type ≡ account_type_miner

-- No other miner later in the table has the node's index.
abbrev IsAlone : Node → List Node → Type 0
IsAlone d ds = All (λ e. IsMiner e → slot e ≢ slot d) ds

-- The miners of the table have different indices.
abbrev pub DistinctSlots : List Node → Type 0
DistinctSlots [] = Unit {0}
DistinctSlots (d ∷ ds) = IsAlone d ds × DistinctSlots ds

-- The node's key stands at its index, which is in range.
abbrev pub Placed : ℕ → List ℕ → Node → Type 0
Placed n l d = IsMiner d → (slot d < n) × (get_elem? l (slot d) ≡ some d.node_id)

length-fill_miners :
    (n : ℕ) (ds : List Node) (l : List ℕ) → length (fill_miners n ds l).0 ≡ length l
unfolding fill_miners
length-fill_miners n [] l = refl
length-fill_miners n (d ∷ ds) l = ground (
  arith,
  length-fill_miners n ds l,
  length-fill_miners n ds (set l (slot d) d.node_id),
  length-set l (slot d) d.node_id,
)

get_elem?-fill_miners :
    (n : ℕ) (ds : List Node) (l : List ℕ) (j : ℕ)
    → All (λ e. IsMiner e → slot e ≢ j) ds
    → get_elem? (fill_miners n ds l).0 j ≡ get_elem? l j
unfolding fill_miners
get_elem?-fill_miners n [] l j h = refl
get_elem?-fill_miners n (d ∷ ds) l j h = ground (
  arith,
  h.0,
  get_elem?-fill_miners n ds l j h.1,
  get_elem?-fill_miners n ds (set l (slot d) d.node_id) j h.1,
  get_elem?-set_ne l (slot d) j d.node_id,
)

-- What the loop does at a miner, and at any other node.
fill_miner :
    (n : ℕ) (d : Node) (ds : List Node) (l : List ℕ)
    → IsMiner d
    → (fill_miners n (d ∷ ds) l).1 ≡ true
    → (slot d < n) × (fill_miners n (d ∷ ds) l ≡ fill_miners n ds (set l (slot d) d.node_id))
unfolding fill_miners
fill_miner n d ds l m ok = (ground arith, ground arith)

skip_node :
    (n : ℕ) (d : Node) (ds : List Node) (l : List ℕ)
    → ¬ IsMiner d
    → fill_miners n (d ∷ ds) l ≡ fill_miners n ds l
unfolding fill_miners
skip_node n d ds l m = ground arith

fill_miners-Placed :
    (n : ℕ) (ds : List Node) (l : List ℕ)
    → length l ≡ n
    → DistinctSlots ds
    → (fill_miners n ds l).1 ≡ true
    → All (Placed n (fill_miners n ds l).0) ds
fill_miners-Placed n [] l e u ok = tt
fill_miners-Placed n (d ∷ ds) l e u ok = elim (Bool-cases (d.identity_type == account_type_miner)) [
  | inl m ↦
      let is_miner : IsMiner d = ground (arith, m) in
      let (low, step) = fill_miner n d ds l is_miner ok in
      let l' = set l (slot d) d.node_id in
      subst (λ r. All (Placed n r.0) (d ∷ ds)) (sym step)
        (
          (λ _. (
            low,
            get_elem?-fill_miners n ds l' (slot d) u.0
                ∙ get_elem?-set l (slot d) d.node_id (omega (arith, low, e)),
          )),
          fill_miners-Placed n ds l' (length-set l (slot d) d.node_id ∙ e) u.1
              (sym (ap (λ (r : List ℕ × Bool). r.1) step) ∙ ok),
        )
  | inr o ↦
      let no_miner : ¬ IsMiner d = ground (arith, o) in
      let step = skip_node n d ds l no_miner in
      subst (λ r. All (Placed n r.0) (d ∷ ds)) (sym step)
        (
          (λ m. absurd (no_miner m)),
          fill_miners-Placed n ds l e u.1 (sym (ap (λ (r : List ℕ × Bool). r.1) step) ∙ ok),
        )
]

-- If the miners of the table have different indices (as `unsigned`) and `getMinerList` succeeds,
-- then the list has one entry for each miner, each miner's index is below their number, and its
-- public key stands at its index, whatever the list held before.
pub get_miner_list_places :
    (net : Net) (blk : Option ℕ) (old : List ℕ)
    → DistinctSlots (get_all_nodes net.registry blk)
    → (get_miner_list net blk old).1 ≡ true
    → let n = count_miners (get_all_nodes net.registry blk) in
      (length (get_miner_list net blk old).0 ≡ n)
      × All (Placed n (get_miner_list net blk old).0) (get_all_nodes net.registry blk)
unfolding get_miner_list
get_miner_list_places net blk old u ok =
    let all = get_all_nodes net.registry blk in
    let n = count_miners all in
    (
      length-fill_miners n all (resize n old) ∙ length-resize n old,
      fill_miners-Placed n all (resize n old) (length-resize n old) u ok,
    )
