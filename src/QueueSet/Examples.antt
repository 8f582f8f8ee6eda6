-- ===== src/QueueSet/Examples.antt =====
-- A queue set of two numbers, for libdevcore/Common.h.
use utispace_chain.Prelude.{ℕ, ◌≡◌, refl, [], ◌∷◌, length, nat_eq}
use utispace_chain.QueueSet.{QueueSet, size, contains, exist, push, pop}
use utispace_chain.QueueSet.Laws.{IsWell, list_push, list_pop, refines_list}

abbrev two : QueueSet ℕ
two = record { members = 3 ∷ 5 ∷ []; queue = 3 ∷ 5 ∷ [] }

two-IsWell : IsWell two
unfolding contains
two-IsWell = record { same = refl; distinct = (refl, (refl, tt)) }

refines_list_example :
    (IsWell (push 5 two) × ((push 5 two).queue ≡ list_push 5 two.queue))
    × (IsWell (pop two) × ((pop two).queue ≡ list_pop two.queue))
    × (exist 5 two ≡ contains 5 two.queue)
    × (size two ≡ length two.queue)
refines_list_example = refines_list 5 two two-IsWell
