-- ===== src/Pbft/Leader/Quorum.antt =====
-- The arithmetic of `quorum` and `getLeader`, libpbftseal/PBFT.h and PBFT.cpp.
use utispace_chain.Prelude.{
  ℕ, zero, suc, ◌+◌, ◌-◌, ◌/◌, ◌≤◌, ◌<◌, ◌≡◌, ◌⊎◌, some, Bool, true, false, not, ◌&&◌,
  if◌then◌else◌, arith,
}
use utispace_chain.Pbft.Msg.{u256_mod}
use utispace_chain.Pbft.State.{State}
use utispace_chain.Pbft.Leader.{quorum, get_leader}

-- What `resetConfig` keeps of the numbers: `m_f` is the largest tolerated number of faults for
-- `m_node_num` nodes, and there is a node unless the configuration is marked as wrong.
pub record IsConfigured (node_num f : ℕ) (cfg_err : Bool) : Type 0 where
  pub small : node_num < u256_mod
  pub faults : f ≡ (node_num - 1) / 3
  pub some_node : (cfg_err ≡ true) ⊎ (0 < node_num)

abbrev pub Configured : State → Type 0
Configured s = IsConfigured s.node_num s.f s.cfg_err

-- How many of the nodes with an index below `n` are in a set.
unfoldable pub count_below : ℕ → (ℕ → Bool) → ℕ
count_below zero p = 0
count_below (suc n) p = (if p n then 1 else 0) + count_below n p

count_both :
    (n : ℕ) (p q : ℕ → Bool)
    → count_below n p + count_below n q ≤ count_below n (λ i. p i && q i) + n
unfolding count_below
count_both zero p q = omega arith
count_both (suc n) p q = ground (arith, count_both n p q)

pub quorum_value : (s : State) → Configured s → quorum s ≡ s.node_num - s.f
unfolding quorum
quorum_value s c = omega (arith, c.small, c.faults)

-- In a configured engine whose configuration is not marked as wrong, two sets of nodes that both
-- reach the quorum have more than `m_f` nodes in common.
pub quorum_overlap :
    (s : State) (p q : ℕ → Bool)
    → Configured s
    → s.cfg_err ≡ false
    → quorum s ≤ count_below s.node_num p
    → quorum s ≤ count_below s.node_num q
    → s.f < count_below s.node_num (λ i. p i && q i)
quorum_overlap s p q c ok hp hq =
    ground (arith, quorum_value s c, count_both s.node_num p q, c.faults, c.some_node, c.small)

count_others : (n : ℕ) (p : ℕ → Bool) → count_below n p + count_below n (λ i. not (p i)) ≡ n
unfolding count_below
count_others zero p = omega arith
count_others (suc n) p = ground (arith, count_others n p)

-- In a configured engine, if at most `m_f` nodes are faulty, then the others reach the quorum by
-- themselves.
pub quorum_reachable :
    (s : State) (faulty : ℕ → Bool)
    → Configured s
    → count_below s.node_num faulty ≤ s.f
    → quorum s ≤ count_below s.node_num (λ i. not (faulty i))
quorum_reachable s faulty c h = omega (arith, quorum_value s c, count_others s.node_num faulty)

-- If a configured engine has a leader, then the leader's index is below the number of nodes.
pub get_leader-lt : (s : State) (i : ℕ) → Configured s → get_leader s ≡ some i → i < s.node_num
unfolding get_leader
get_leader-lt s i c h = ground (arith, c.some_node)
