-- ===== src/Nodes/Queries.antt =====
-- `getIdx` and `getPublicKey` of libcv/NodeConnParamsManager.cpp on one table.
use utispace_chain.Prelude.{ℕ, ◌≡◌, ◌≢◌, inl, inr, List, [], ◌∷◌, some, All, Option-cases, arith}
use utispace_chain.Nodes.{Node, Registry, active, find_idx, find_node, get_public_key, get_idx}

-- No two nodes of the table have the same index.
abbrev pub DistinctIdx : List Node → Type 0
DistinctIdx [] = Unit {0}
DistinctIdx (d ∷ ds) = All (λ e. e.idx ≢ d.idx) ds × DistinctIdx ds

-- The node that is found is in the table.
found_holds :
    (P : Node → Type 0) (id : ℕ) (n : Node) (l : List Node)
    → All P l
    → find_node id l ≡ some n
    → P n
unfolding find_node
found_holds P id n [] h e = absurd (cc)
found_holds P id n (d ∷ ds) h e = ground (arith, h.0, e, found_holds P id n ds h.1)

find_idx-find_node :
    (id : ℕ) (n : Node) (l : List Node)
    → DistinctIdx l
    → find_node id l ≡ some n
    → find_idx n.idx l ≡ some id
unfolding find_idx find_node
find_idx-find_node id n [] u e = absurd (cc)
find_idx-find_node id n (d ∷ ds) u e =
    ground (arith, e, find_idx-find_node id n ds u.1, found_holds (λ x. x.idx ≢ d.idx) id n ds u.0)

-- If no two nodes of the table in force have the same index, then the public key that
-- `getPublicKey` finds for the index of a node, as `getIdx` has it, is that node's.
pub get_public_key-get_idx :
    (r : Registry) (id i : ℕ)
    → DistinctIdx (active r)
    → get_idx r id ≡ some i
    → get_public_key r i ≡ some id
unfolding get_idx get_public_key
get_public_key-get_idx r id i u e = elim (Option-cases (find_node id (active r))) [
  | inl f ↦ absurd (ground (arith, e, f))
  | inr (n, f) ↦ ground (arith, e, f, find_idx-find_node id n (active r) u f)
]
