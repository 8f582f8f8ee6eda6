-- ===== src/TransactionQueue.antt =====
-- The queue of transactions, libcv/TransactionQueue.h and TransactionQueue.cpp. Its two indices hold
-- iterators into the ordered set of pending transactions; an iterator is the number of a node, and
-- a step that would follow a dangling or an end iterator is `none`.
pub mod Future
pub mod Import
pub mod Lookups
pub mod Ordered
pub mod Indexed
pub mod Placed
pub mod Bounded
pub mod Sound
pub mod Calls
pub mod Verifier
pub mod Listed
mod Examples
use utispace_chain.Prelude.{
  ℕ, zero, suc, ◌+◌, ◌-◌, ◌%◌, ◌^◌, List, [], ◌∷◌, ◌++◌, map, Option, none, some, Bool, true, false,
  not, ◌&&◌, ◌||◌, ltb, leb, ◌==◌, max, if◌then◌else◌, length, keep, ◌>>=◌,
}
use utispace_chain.Prelude.Map.{Map, find, has, insert, at, remove_key, insert_ordered}

-- What the queue reads of a transaction: `sha3()`, `from()`, `randomid()`, `gasPrice()`,
-- `importTime()`. Two transactions with one hash may be unequal here.
pub record Transaction : Type 0 where
  pub sha3 : ℕ
  pub from : ℕ
  pub randomid : ℕ
  pub gas_price : ℕ
  pub import_time : ℕ

-- A node of `m_current`, which an iterator denotes.
pub record VerifiedTransaction : Type 0 where
  pub handle : ℕ
  pub transaction : Transaction

-- `ImportResult`, as far as the queue returns it.
pub data ImportResult : Type 0 where
  success already_in_chain already_known malformed overbid_gas_price nonce_check_fail
        block_limit_check_fail :
      ImportResult

pub data IfDropped : Type 0 where
  ignore retry : IfDropped

-- The signals that the queue sends.
pub data Signal : Type 0 where
  on_ready : Signal
  on_replaced : ℕ → Signal

pub record TransactionQueue : Type 0 where
  pub known : List ℕ
  pub dropped : List ℕ
  pub current : List VerifiedTransaction
  pub current_by_hash : Map ℕ
  pub current_by_address_and_nonce : Map (Map ℕ)
  pub future : Map (Map Transaction)
  pub limit : ℕ
  pub future_limit : ℕ
  pub future_size : ℕ
  -- A number that no node has had.
  pub next_handle : ℕ
  pub signals : List Signal

-- `++` and `--` of an `unsigned`.
abbrev pub increment : ℕ → ℕ
increment n = (n + 1) % 2 ^ 32

abbrev pub decrement : ℕ → ℕ
decrement n = (n + 2 ^ 32 - 1) % 2 ^ 32

-- `TransactionQueue(_interface, _limit, _futureLimit)`
abbrev pub new_queue : ℕ → ℕ → TransactionQueue
new_queue limit future_limit = record {
  known = [];
  dropped = [];
  current = [];
  current_by_hash = [];
  current_by_address_and_nonce = [];
  future = [];
  limit = limit;
  future_limit = future_limit;
  future_size = 0;
  next_handle = 0;
  signals = [];
}

-- `s.count(_h)` and `s.erase(_h)` of a set of hashes.
unfoldable pub count : ℕ → List ℕ → Bool
count h [] = false
count h (x ∷ xs) = if x == h then true else count h xs

abbrev pub erase : ℕ → List ℕ → List ℕ
erase h xs = keep (λ x. not (x == h)) xs

-- `*it`
unfoldable pub deref : ℕ → List VerifiedTransaction → Option Transaction
deref k [] = none
deref k (n ∷ ns) = if n.handle == k then some n.transaction else deref k ns

-- `m_current.erase(it)`
unfoldable pub erase_node : ℕ → List VerifiedTransaction → List VerifiedTransaction
erase_node k ns = keep (λ n. not (n.handle == k)) ns

-- `m_current.emplace(t)`: the comparison is `importTime() <= importTime()`, so a node goes before
-- the first that is not earlier.
unfoldable pub emplace : VerifiedTransaction → List VerifiedTransaction → List VerifiedTransaction
emplace n [] = n ∷ []
emplace n (m ∷ ms) =
    let rest = emplace n ms in
    if leb n.transaction.import_time m.transaction.import_time then n ∷ m ∷ ms else m ∷ rest

-- `m_current.rbegin()`
unfoldable pub last_node : List VerifiedTransaction → Option VerifiedTransaction
last_node [] = none
last_node (n ∷ []) = some n
last_node (n ∷ m ∷ ms) = last_node (m ∷ ms)

-- `m_currentByAddressAndNonce[_a].find(_n)`, where a missing address has no nonce.
unfoldable pub place : ℕ → ℕ → Map (Map ℕ) → Option ℕ
place a n m = find n (at [] a m)

-- An inner map that is empty goes.
unfoldable pub put_inner {ℓ} : {V : Type ℓ} → ℕ → Map V → Map (Map V) → Map (Map V)
put_inner a [] m = remove_key a m
put_inner a (e ∷ es) m = insert a (e ∷ es) m

-- `remove_WITH_LOCK`
unfoldable pub remove : ℕ → TransactionQueue → Option (Bool × TransactionQueue)
remove h s = elim (find h s.current_by_hash) [
  | none ↦ some (false, s)
  | some k ↦ do
    t ← deref k s.current
    inner ← find t.from s.current_by_address_and_nonce
    some (
      true,
      record s {
        current = erase_node k s.current;
        current_by_hash = remove_key h s.current_by_hash;
        current_by_address_and_nonce =
            put_inner t.from (remove_key t.randomid inner) s.current_by_address_and_nonce;
        known = erase h s.known;
      },
    )
]

-- A new node, with its entries in both indices, the second under the address `a`. The entry of an
-- address and a nonce that is there already is pointed to the new node.
unfoldable pub place_node : ℕ → Transaction → TransactionQueue → TransactionQueue
place_node a t s =
    let k = s.next_handle in
    let m = s.current_by_address_and_nonce in
    record s {
      current = emplace record { handle = k; transaction = t } s.current;
      current_by_hash = insert t.sha3 k s.current_by_hash;
      current_by_address_and_nonce = insert a (insert_ordered t.randomid k (at [] a m)) m;
      next_handle = suc k;
    }
