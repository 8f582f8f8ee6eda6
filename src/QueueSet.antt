-- ===== src/QueueSet.antt =====
-- `QueueSet` of libdevcore/Common.h: a queue of distinct elements with a set for the look-up.
use utispace_chain.Prelude.{
  ℕ, ◌+◌, List, [], ◌∷◌, ◌++◌, Bool, true, false, length, ◌||◌, if◌then◌else◌, Eq,
}
pub mod Laws
mod Examples

pub record QueueSet {ℓ} (A : Type ℓ) : Type ℓ where
  pub members : List A
  pub queue : List A

module _ {ℓ} {A : Type ℓ} where
  unfoldable pub empty : QueueSet A
  empty = record { members = []; queue = [] }

  -- `clear()`
  unfoldable pub clear : QueueSet A → QueueSet A
  clear q = record { members = []; queue = [] }

  -- `size()`
  unfoldable pub size : QueueSet A → ℕ
  size q = length q.members

module _ {ℓ} {A : Type ℓ} ⦃e : Eq A⦄ where
  -- `m_set.count(_t) > 0`
  unfoldable pub contains : A → List A → Bool
  contains a [] = false
  contains a (x ∷ xs) = e.beq x a || contains a xs

  -- `m_set.erase(t)`
  unfoldable pub erase_member : A → List A → List A
  erase_member a [] = []
  erase_member a (x ∷ xs) = if e.beq x a then xs else x ∷ erase_member a xs

  -- `exist(_t)`
  unfoldable pub exist : A → QueueSet A → Bool
  unfolding contains
  exist a q = contains a q.members

  -- `push(_t)`, without the flag that no caller reads.
  unfoldable pub push : A → QueueSet A → QueueSet A
  unfolding contains
  push a q =
      if contains a q.members
      then q
      else record { members = q.members ++ (a ∷ []); queue = q.queue ++ (a ∷ []) }

  unfoldable pub pop_front : List A → List A → QueueSet A
  unfolding erase_member
  pop_front members [] = record { members = members; queue = [] }
  pop_front members (t ∷ rest) = record { members = erase_member t members; queue = rest }

  -- `pop()`, without the flag that no caller reads.
  unfoldable pub pop : QueueSet A → QueueSet A
  unfolding pop_front
  pop q = pop_front q.members q.queue
