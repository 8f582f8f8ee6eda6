-- ===== src/QueueSet/Laws.antt =====
-- `QueueSet` of libdevcore/Common.h against a list without repetitions.
use utispace_chain.Prelude.{
  if◌then◌else◌, ◌+◌, ◌-◌, ◌≤◌, ◌≡◌, refl, ap, ◌∙◌, inl, inr, List, [], ◌∷◌, ◌++◌, true, false,
  ◌||◌, length, length-append, Bool-cases, Eq, arith,
}
use utispace_chain.QueueSet.{QueueSet, size, contains, erase_member, exist, push, pop_front, pop}

module _ {ℓ} {A : Type ℓ} ⦃e : Eq A⦄ where
  -- No element stands twice in the list.
  abbrev pub Distinct : List A → Type 0
  Distinct [] = Unit {0}
  Distinct (x ∷ xs) = (contains x xs ≡ false) × Distinct xs

  -- The set and the queue hold the same elements, each once. (The set is listed in the order of
  -- insertion.)
  pub record IsWell (q : QueueSet A) : Type ℓ where
    pub same : q.members ≡ q.queue
    pub distinct : Distinct q.queue

  beq_self : (a : A) → e.beq a a ≡ true
  beq_self a = (e.beq_iff a a).1 refl

  contains-append :
      (a b : A) (xs : List A) → contains a (xs ++ (b ∷ [])) ≡ (contains a xs || e.beq b a)
  unfolding contains
  contains-append a b [] = ground arith
  contains-append a b (x ∷ xs) = ground (arith, contains-append a b xs)

  Distinct-append :
      (b : A) (xs : List A) → contains b xs ≡ false → Distinct xs → Distinct (xs ++ (b ∷ []))
  unfolding contains
  Distinct-append b [] h d = (refl, tt)
  Distinct-append b (x ∷ xs) h d = (head, Distinct-append b xs (ground arith) d.1)
    where
      head : contains x (xs ++ (b ∷ [])) ≡ false
      head = ground (arith, contains-append x b xs, d.0, h, e.beq_iff b x, beq_self b)

  -- `push` and `pop` keep the queue and the set together.
  pub push-IsWell : (a : A) (q : QueueSet A) → IsWell q → IsWell (push a q)
  unfolding push
  push-IsWell a q v = elim (Bool-cases (contains a q.members)) [
    | inl there ↦ rw there v
    | inr new ↦ rw new (record {
      same = ap (λ l. l ++ (a ∷ [])) v.same;
      distinct = Distinct-append a q.queue (rw v.same at new) v.distinct;
    })
  ]

  erase_member_head : (t : A) (rest : List A) → erase_member t (t ∷ rest) ≡ rest
  unfolding erase_member
  erase_member_head t rest = rw (beq_self t)

  pop_front-IsWell : (m l : List A) → m ≡ l → Distinct l → IsWell (pop_front m l)
  unfolding pop_front
  pop_front-IsWell m [] h d = record { same = h; distinct = tt }
  pop_front-IsWell m (t ∷ rest) h d = record {
    same = ap (erase_member t) h ∙ erase_member_head t rest;
    distinct = d.1;
  }

  size-pop_front : (m l : List A) → m ≡ l → size (pop_front m l) ≡ length m - 1
  unfolding pop_front size
  size-pop_front m [] h = omega (arith, ap length h)
  size-pop_front m (t ∷ rest) h =
      omega (arith, ap length h, ap length (ap (erase_member t) h ∙ erase_member_head t rest))

  pub pop-IsWell : (q : QueueSet A) → IsWell q → IsWell (pop q)
  unfolding pop
  pop-IsWell q v = pop_front-IsWell q.members q.queue v.same v.distinct

  -- After `push` exactly the pushed element and those that were there before are there.
  pub exist-push : (a b : A) (q : QueueSet A) → exist b (push a q) ≡ (exist b q || e.beq a b)
  unfolding exist push
  exist-push a b q = ground (arith, contains-append b a q.members, e.beq_iff a b)

  pub size-push-le : (a : A) (q : QueueSet A) → size (push a q) ≤ size q + 1
  unfolding size push
  size-push-le a q = ground (arith, length-append q.members (a ∷ []))

  pub size-pop : (q : QueueSet A) → IsWell q → size (pop q) ≡ size q - 1
  unfolding size pop
  size-pop q v = size-pop_front q.members q.queue v.same

  -- A list without repetitions, to which elements are added at one end and taken at the other.
  abbrev pub list_push : A → List A → List A
  list_push a l = if contains a l then l else l ++ (a ∷ [])

  abbrev pub list_pop : List A → List A
  list_pop [] = []
  list_pop (x ∷ xs) = xs

  queue-push : (a : A) (q : QueueSet A) → IsWell q → (push a q).queue ≡ list_push a q.queue
  unfolding push
  queue-push a q v = ground (arith, ap (contains a) v.same)

  queue-pop_front : (m l : List A) → (pop_front m l).queue ≡ list_pop l
  unfolding pop_front
  queue-pop_front m [] = refl
  queue-pop_front m (t ∷ rest) = refl

  queue-pop : (q : QueueSet A) → (pop q).queue ≡ list_pop q.queue
  unfolding pop
  queue-pop q = queue-pop_front q.members q.queue

  -- A well-formed queue set does what a list without repetitions does: `push` appends an element
  -- that is not there, `pop` takes the oldest one, `exist` and `size` speak of the list, and both
  -- `push` and `pop` keep it well formed.
  pub refines_list :
      (a : A) (q : QueueSet A)
      → IsWell q
      → (IsWell (push a q) × ((push a q).queue ≡ list_push a q.queue))
        × (IsWell (pop q) × ((pop q).queue ≡ list_pop q.queue))
        × (exist a q ≡ contains a q.queue)
        × (size q ≡ length q.queue)
  unfolding exist size
  refines_list a q v = (
    (push-IsWell a q v, queue-push a q v),
    (pop-IsWell q v, queue-pop q),
    ap (contains a) v.same,
    ap length v.same,
  )
