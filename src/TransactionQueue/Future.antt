-- ===== src/TransactionQueue/Future.antt =====
-- Transactions whose turn has not come: `makeCurrent_WITH_LOCK` and `setFuture` of
-- libcv/TransactionQueue.cpp.
use utispace_chain.Prelude.{
  ℕ, zero, suc, ◌+◌, ◌-◌, ◌%◌, ◌^◌, List, [], ◌∷◌, ◌++◌, Option, none, some, Bool, true, false, not,
  ltb, leb, ◌==◌, if◌then◌else◌, keep, ◌>>=◌,
}
use utispace_chain.Prelude.Map.{Map, find, has, insert, at, remove_key, insert_ordered}
use utispace_chain.TransactionQueue.{
  Transaction, on_ready, TransactionQueue, deref, erase_node, put_inner, place_node, increment,
  decrement,
}

-- `fs->second.find(_n)` as a position: the entries before it, and those from it on.
unfoldable pub before : ℕ → Map Transaction → Map Transaction
before n [] = []
before n ((j, t) ∷ m) = let rest = before n m in if j == n then [] else (j, t) ∷ rest

unfoldable pub from_key : ℕ → Map Transaction → Map Transaction
from_key n [] = []
from_key n ((j, t) ∷ m) = let rest = from_key n m in if j == n then (j, t) ∷ m else rest

-- The loop `while (ft != end && ft->second.transaction.randomid() == nonce)`: the entries that it
-- moves, and those where it stops. The nonce is a u256.
unfoldable pub run : ℕ → Map Transaction → List Transaction
run n [] = []
run n ((j, t) ∷ m) =
    let rest = run ((n + 1) % 2 ^ 256) m in if t.randomid == n then t ∷ rest else []

unfoldable pub after_run : ℕ → Map Transaction → Map Transaction
after_run n [] = []
after_run n ((j, t) ∷ m) =
    let rest = after_run ((n + 1) % 2 ^ 256) m in if t.randomid == n then rest else (j, t) ∷ m

unfoldable pub move_all : ℕ → List Transaction → TransactionQueue → TransactionQueue
move_all a [] s = s
move_all a (t ∷ ts) s =
    let moved = place_node a t s in
    move_all a ts record moved { future_size = decrement s.future_size }

-- The first half of `makeCurrent_WITH_LOCK`: the transactions that follow `t` become current.
unfoldable pub follow : Transaction → TransactionQueue → TransactionQueue
follow t s =
    let n = (t.randomid + 1) % 2 ^ 256 in
    elim (find t.from s.future) [
      | none ↦ s
      | some fs ↦
          if not (has n fs)
          then s
          else (let s' = move_all t.from (run n (from_key n fs)) s in
              record s' {
                future = put_inner t.from (before n fs ++ after_run n (from_key n fs)) s.future;
              })
    ]

-- Whether any did.
unfoldable pub has_follower : Transaction → TransactionQueue → Bool
has_follower t s = elim (find t.from s.future) [
  | none ↦ false
  | some fs ↦ elim (run ((t.randomid + 1) % 2 ^ 256) (from_key ((t.randomid + 1) % 2 ^ 256) fs)) [
    | [] ↦ false
    | _ ∷ _ ↦ true
  ]
]

-- `m.erase(--m.end())`
unfoldable pub drop_last : Map Transaction → Map Transaction
drop_last [] = []
drop_last (e ∷ []) = []
drop_last (e ∷ f ∷ m) = e ∷ drop_last (f ∷ m)

-- The loop over `m_futureSize > m_futureLimit`, which runs as often as the number is too large:
-- the last transaction of the first address goes.
unfoldable pub drop_futures : ℕ → Map (Map Transaction) → Option (Map (Map Transaction))
drop_futures zero m = some m
drop_futures (suc n) [] = none
drop_futures (suc n) ((a, []) ∷ m) = none
drop_futures (suc n) ((a, e ∷ []) ∷ m) = drop_futures n m
drop_futures (suc n) ((a, e ∷ f ∷ es) ∷ m) = drop_futures n ((a, drop_last (e ∷ f ∷ es)) ∷ m)

-- `makeCurrent_WITH_LOCK`
unfoldable pub make_current : Transaction → TransactionQueue → Option TransactionQueue
make_current t s = do
  let s' = follow t s
  f ← drop_futures (s'.future_size - s.future_limit) s'.future
  let size = if ltb s.future_limit s'.future_size then s.future_limit else s'.future_size
  let signals = if has_follower t s then on_ready ∷ s'.signals else s'.signals
  some record s' { future = f; future_size = size; signals = signals }

-- The loop of `setFuture` over the nonces from that of the transaction on: what an iterator
-- denotes leaves the current set. `emplace` leaves a nonce that is there as it is.
unfoldable pub to_future : ℕ → Map ℕ → TransactionQueue → Option TransactionQueue
to_future from [] s = some s
to_future from ((n, k) ∷ m) s = elim (deref k s.current) [
  | none ↦ none
  | some t ↦
      let target = at [] from s.future in
      to_future from m record s {
        current_by_hash = remove_key t.sha3 s.current_by_hash;
        future =
            insert from
              (if has t.randomid target then target else insert_ordered t.randomid t target)
              s.future;
        current = erase_node k s.current;
        future_size = increment s.future_size;
      }
]

-- `setFuture`
unfoldable pub set_future : ℕ → TransactionQueue → Option TransactionQueue
set_future h s = elim (find h s.current_by_hash) [
  | none ↦ some s
  | some k ↦ do
    t ← deref k s.current
    let queue = at [] t.from s.current_by_address_and_nonce
    s' ← to_future t.from (keep (λ e. leb t.randomid (e.0)) queue) s
    let left = keep (λ e. ltb (e.0) t.randomid) queue
    some record s' {
      current_by_address_and_nonce = put_inner t.from left s'.current_by_address_and_nonce;
    }
]
