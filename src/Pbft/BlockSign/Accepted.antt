-- ===== src/Pbft/BlockSign/Accepted.antt =====
-- Which signature lists `checkBlockSign` of libpbftseal/PBFT.cpp accepts.
use utispace_chain.Prelude.{
  ℕ, zero, suc, ◌-◌, ◌/◌, ◌^◌, ◌≤◌, ◌<◌, ◌≡◌, ◌↔◌, refl, inl, inr, List, [], ◌∷◌, none, some, Bool,
  true, false, not, if◌then◌else◌, ltb, length, get_elem?, replicate, length-replicate, All,
  Option-cases, arith,
}
use utispace_chain.Pbft.Msg.{sub256}
use utispace_chain.Pbft.State.{Net}
use utispace_chain.Pbft.Leader.{get_miner_list}
use utispace_chain.Pbft.BlockSign.{
  size_mod, same_keys, required_signs, int_index, check_signs, check_block_sign,
}

same_keys_iff : (xs ys : List ℕ) → (same_keys xs ys ≡ true) ↔ (xs ≡ ys)
unfolding same_keys
same_keys_iff [] [] = ground arith
same_keys_iff [] (y ∷ ys) = ground arith
same_keys_iff (x ∷ xs) [] = ground arith
same_keys_iff (x ∷ xs) (y ∷ ys) = ground (arith, same_keys_iff xs ys)

int_index-small : (i : ℕ) → i < 2 ^ 31 → int_index i ≡ i
unfolding int_index
int_index-small i h = ground (arith, h)

get_elem?-lt : (l : List ℕ) (i v : ℕ) → get_elem? l i ≡ some v → i < length l
get_elem?-lt [] i v h = absurd (cc)
get_elem?-lt (x ∷ xs) zero v h = omega arith
get_elem?-lt (x ∷ xs) (suc i) v h = omega (arith, get_elem?-lt xs i v h)

-- With fewer than 2^64 nodes no node needs more signatures than any list has, and otherwise a
-- third of the others may be missing.
required_signs_value : (n : ℕ) → 0 < n → n < size_mod → required_signs n ≡ n - (n - 1) / 3
unfolding required_signs
required_signs_value n h small = omega arith

required_signs_none : (l : ℕ) → l < 2 ^ 63 → ltb l (required_signs 0) ≡ true
unfolding required_signs
required_signs_none l h = ground arith

module _ (net : Net) (hash : ℕ) (miners : List ℕ) where
  -- A signature of the hash by the node that the list has at the index.
  abbrev pub SignedIn : ℕ × ℕ → Type 0
  SignedIn e = (id : ℕ) × (get_elem? miners e.0 ≡ some id) × (net.verify id e.1 hash ≡ true)

  -- With fewer than 2^31 nodes the cast of an index that is in range changes nothing.
  one_sign :
      (i sig : ℕ) (l : List (ℕ × ℕ))
      → length miners < 2 ^ 31
      → i < length miners
      → check_signs net hash miners ((i, sig) ∷ l) ≡ elim (get_elem? miners i) as (λ _. Bool) [
        | none ↦ false
        | some id ↦ if not (net.verify id sig hash) then false else check_signs net hash miners l
      ]
  unfolding check_signs
  one_sign i sig l small low =
      rw (int_index-small i (omega (arith, small, low))) (ground (arith, low))

  in_range :
      (i sig : ℕ) (l : List (ℕ × ℕ))
      → check_signs net hash miners ((i, sig) ∷ l) ≡ true
      → i < length miners
  unfolding check_signs
  in_range i sig l h = ground (arith, h)

  check_signs_sound :
      (l : List (ℕ × ℕ))
      → length miners < 2 ^ 31
      → check_signs net hash miners l ≡ true
      → All SignedIn l
  check_signs_sound [] small h = tt
  check_signs_sound ((i, sig) ∷ l) small h =
      let step = one_sign i sig l small (in_range i sig l h) in
      elim (Option-cases (get_elem? miners i)) [
        | inl e ↦ absurd (ground (arith, e, h, step))
        | inr (id, e) ↦ (
          (id, e, ground (arith, e, h, step)),
          check_signs_sound l small (ground (arith, e, h, step)),
        )
      ]

  check_signs_complete :
      (l : List (ℕ × ℕ))
      → length miners < 2 ^ 31
      → All SignedIn l
      → check_signs net hash miners l ≡ true
  unfolding check_signs
  check_signs_complete [] small h = refl
  check_signs_complete ((i, sig) ∷ l) small ((id, e, v), rest) =
      let step = one_sign i sig l small (get_elem?-lt miners i id e) in
      ground (arith, step, e, v, check_signs_complete l small rest)

-- `getMinerList` for the block before the given one.
abbrev pub miners_before : Net → ℕ → List ℕ × Bool
miners_before net number = get_miner_list net (net.block_of (sub256 number 1)) []

-- What the signature list of a block has to have, when the chain has these miners.
abbrev pub Acceptable : Net → ℕ → List ℕ → List ℕ → List (ℕ × ℕ) → Type 0
Acceptable net hash node_list miners sign_list =
    (node_list ≡ miners)
    × (0 < length miners)
    × (length miners - (length miners - 1) / 3 ≤ length sign_list)
    × All (SignedIn net hash miners) sign_list

module _ (net : Net) (number : ℕ) (node_list : List ℕ) (hash : ℕ) (sign_list : List (ℕ × ℕ)) where
  -- For fewer than 2^31 nodes and fewer than 2^63 signatures, which is any list that fits into
  -- memory, `checkBlockSign` accepts a block exactly if the miners of the block before it are
  -- found, they are the header's list of nodes, there is at least one, the list has all but a
  -- third of the other nodes' number of entries, and each entry is a valid signature of the
  -- block's hash by the node at its index.
  pub check_block_sign_iff :
      length (miners_before net number).0 < 2 ^ 31
      → length sign_list < 2 ^ 63
      → (check_block_sign net number node_list hash sign_list ≡ true) ↔ (
          ((miners_before net number).1 ≡ true)
          × Acceptable net hash node_list (miners_before net number).0 sign_list)
  unfolding check_block_sign
  check_block_sign_iff small fits =
      let (miners, found) = miners_before net number in
      let u =
        λ (h : 0 < length miners). required_signs_value (length miners) h (omega (arith, small)) in
      let v = same_keys_iff node_list miners in
      (
        (λ h.
            let t = check_signs_sound net hash miners sign_list in
            (
              ground (arith, h),
              (
                ground (arith, h, v),
                ground (arith, h, required_signs_none (length sign_list) fits),
                ground (arith, h, u),
                t small (ground (arith, h)),
              ),
            )),
        (λ (ok, (same, one, enough, valid)). ground (
          arith,
          ok,
          v,
          same,
          one,
          enough,
          u,
          check_signs_complete net hash miners sign_list small valid,
        )),
      )

All-replicate {κ} : {A : Type 0} (P : A → Type κ) (k : ℕ) (a : A) → P a → All P (replicate k a)
All-replicate P zero a h = tt
All-replicate P (suc k) a h = (h, All-replicate P k a h)

-- One signature of one node, listed as often as there must be signatures, is accepted: for fewer
-- than 2^31 nodes and fewer than 2^63 entries, if the miners of the block before it are found,
-- they are the header's list of nodes and there is at least one, then `k` copies of a valid
-- signature pass `checkBlockSign` as soon as `k` is all but a third of the other nodes' number.
pub repeated_signer_accepted :
    (net : Net) (number : ℕ) (node_list : List ℕ) (hash : ℕ) (k : ℕ) (e : ℕ × ℕ)
    → length (miners_before net number).0 < 2 ^ 31
    → k < 2 ^ 63
    → (miners_before net number).1 ≡ true
    → node_list ≡ (miners_before net number).0
    → 0 < length (miners_before net number).0
    → SignedIn net hash (miners_before net number).0 e
    → length (miners_before net number).0 - (length (miners_before net number).0 - 1) / 3 ≤ k
    → check_block_sign net number node_list hash (replicate k e) ≡ true
repeated_signer_accepted net number node_list hash k e small fits found same one valid enough =
    let l = replicate k e in
    let n = length-replicate k e in
    (check_block_sign_iff net number node_list hash l small (omega (arith, n, fits))).1
      (found, (same, one, omega (arith, n, enough), All-replicate _ k e valid))
