-- ===== src/TransactionQueue/Import.antt =====
-- Importing, dropping and listing transactions, libcv/TransactionQueue.cpp.
use utispace_chain.Prelude.{
  ◌==◌, ℕ, zero, suc, ◌+◌, ◌%◌, ◌^◌, List, [], ◌∷◌, Option, none, some, Bool, true, false, not, max,
  ltb, if◌then◌else◌, length, ◌>>=◌,
}
use utispace_chain.Prelude.Map.{Map, find, has, at, remove_key}
use utispace_chain.TransactionQueue.{
  Transaction, VerifiedTransaction, ImportResult, success, already_in_chain, already_known,
  malformed, overbid_gas_price, nonce_check_fail, block_limit_check_fail, IfDropped, ignore, retry,
  on_ready, on_replaced, TransactionQueue, count, deref, last_node, put_inner, remove, place,
  place_node, decrement,
}
use utispace_chain.TransactionQueue.Future.{make_current}

-- `check_WITH_LOCK`
unfoldable pub check : ℕ → IfDropped → TransactionQueue → ImportResult
check h ik s = if count h s.known then already_known else elim ik [
  | ignore ↦ if count h s.dropped then already_in_chain else success
  | retry ↦ success
]

-- `insertCurrent_WITH_LOCK`
unfoldable pub insert_current : Transaction → TransactionQueue → Option TransactionQueue
insert_current t s = if has t.sha3 s.current_by_hash then some s else do
  s' ← make_current t (place_node t.from t s)
  some record s' { known = if count t.sha3 s'.known then s'.known else t.sha3 ∷ s'.known }

-- The loop over `m_current.size() > m_limit`, with fuel. The log line after each removal reads the
-- node that is then the last one.
unfoldable pub shrink : ℕ → TransactionQueue → Option TransactionQueue
shrink zero s = if ltb s.limit (length s.current) then none else some s
shrink (suc fuel) s = elim (ltb s.limit (length s.current)) [
  | false ↦ some s
  | true ↦ elim (last_node s.current) [
    | none ↦ none
    | some n ↦ elim (remove n.transaction.sha3 s) [
      | none ↦ none
      | some r ↦ elim (last_node r.1.current) [ none ↦ none | some _ ↦ shrink fuel (r.1) ]
    ]
  ]
]

abbrev pub replaced : ℕ → Option (Bool × TransactionQueue) → Option (Bool × TransactionQueue)
replaced h r = elim r [
  | none ↦ none
  | some p ↦ some (false, record p.1 { signals = on_replaced h ∷ p.1.signals })
]

-- A pending transaction of the same sender and nonce stays if it offers a higher gas price, which
-- is `true`, and is removed otherwise.
unfoldable pub replace_current : Transaction → TransactionQueue → Option (Bool × TransactionQueue)
replace_current t s = elim (place t.from t.randomid s.current_by_address_and_nonce) [
  | none ↦ some (false, s)
  | some k ↦ do
    u ← deref k s.current
    if ltb t.gas_price u.gas_price then some (true, s) else replaced u.sha3 (remove u.sha3 s)
]

-- The same for one that waits for its turn.
unfoldable pub replace_future : Transaction → TransactionQueue → Bool × TransactionQueue
replace_future t s = elim (find t.from s.future) [
  | none ↦ (false, s)
  | some fs ↦ elim (find t.randomid fs) [
    | none ↦ (false, s)
    | some u ↦ if ltb t.gas_price u.gas_price then (true, s) else (
      false,
      record s {
        future = put_inner t.from (remove_key t.randomid fs) s.future;
        future_size = decrement s.future_size;
      },
    )
  ]
]

-- The client, as the queue sees it.
pub record Interface : Type 0 where
  pub is_nonce_ok : Transaction → Bool
  pub is_block_limit_ok : Transaction → Bool

-- The rest of `manageImport_WITH_LOCK`, once the transaction takes its place.
unfoldable pub queue_current :
    Transaction → TransactionQueue → Option (ImportResult × TransactionQueue)
queue_current t s = do
  s1 ← insert_current t s
  s2 ← shrink (length s1.current) s1
  some (success, record s2 { signals = on_ready ∷ s2.signals })

-- `manageImport_WITH_LOCK`
unfoldable pub manage_import :
    Interface → Transaction → TransactionQueue → Option (ImportResult × TransactionQueue)
manage_import client t s =
    if not (client.is_nonce_ok t)
    then some (nonce_check_fail, s)
    else if not (client.is_block_limit_ok t)
    then some (block_limit_check_fail, s)
    else elim (replace_current t s) [
      | none ↦ none
      | some r ↦
          if r.0
          then some (overbid_gas_price, r.1)
          else if (replace_future t (r.1)).0
          then some (overbid_gas_price, (replace_future t (r.1)).1)
          else queue_current t ((replace_future t (r.1)).1)
    ]

-- `import(Transaction const&, _ik)`
unfoldable pub import :
    Interface
    → Transaction
    → IfDropped
    → TransactionQueue
    → Option (ImportResult × TransactionQueue)
import client t ik s = elim (check t.sha3 ik s) [
  | success ↦ manage_import client t s
  | other ↦ some (other, s)
]

-- `import(bytesConstRef, _ik)` at a time, over the hash of bytes and over what the bytes are read
-- as, if they are a transaction with a good signature. The assertion that both have one hash, which
-- stands in `manageImport`, is `none` when it fails.
unfoldable pub import_bytes :
    (List ℕ → ℕ)
    → (List ℕ → Option Transaction)
    → Interface
    → ℕ
    → List ℕ
    → IfDropped
    → TransactionQueue
    → Option (ImportResult × TransactionQueue)
import_bytes hash decode client now l ik s = elim (check (hash l) ik s) [
  | success ↦ elim (decode l) [
    | none ↦ some (malformed, s)
    | some t ↦
        if hash l == t.sha3 then manage_import client record t { import_time = now } s else none
  ]
  | other ↦ some (other, s)
]

-- `drop`
unfoldable pub drop : ℕ → TransactionQueue → Option TransactionQueue
drop h s = if not (count h s.known) then some s else do
  r ← remove h record s { dropped = if count h s.dropped then s.dropped else h ∷ s.dropped }
  some (r.1)

-- `dropGood`
unfoldable pub drop_good : Transaction → TransactionQueue → Option TransactionQueue
drop_good t s = do
  s' ← make_current t s
  if not (count t.sha3 s'.known) then some s' else (remove t.sha3 s' >>= λ r. some (r.1))

-- `clear`
abbrev pub clear : TransactionQueue → TransactionQueue
clear s = record s {
  known = [];
  current = [];
  current_by_address_and_nonce = [];
  current_by_hash = [];
  future = [];
  future_size = 0;
}

-- `topTransactions(_limit, _avoid)`
unfoldable pub top_transactions : ℕ → List ℕ → List VerifiedTransaction → List Transaction
top_transactions limit avoid [] = []
top_transactions zero avoid (n ∷ ns) = []
top_transactions (suc limit) avoid (n ∷ ns) = elim (count n.transaction.sha3 avoid) [
  | true ↦ top_transactions (suc limit) avoid ns
  | false ↦ n.transaction ∷ top_transactions limit avoid ns
]

-- `waiting(_a)`
unfoldable pub waiting : ℕ → TransactionQueue → ℕ
waiting a s = length (at [] a s.current_by_address_and_nonce) + length (at [] a s.future)

-- `rbegin()->first + 1` of an ordered map, or 0.
unfoldable pub next_nonce {ℓ} : {V : Type ℓ} → Map V → ℕ
next_nonce [] = 0
next_nonce ((n, v) ∷ []) = (n + 1) % 2 ^ 256
next_nonce ((n, v) ∷ e ∷ m) = next_nonce (e ∷ m)

-- `maxNonce(_a)`
unfoldable pub max_nonce : ℕ → TransactionQueue → ℕ
max_nonce a s =
    max (next_nonce (at [] a s.current_by_address_and_nonce)) (next_nonce (at [] a s.future))

-- The calls that change the queue.
pub data Operation : Type 0 where
  importing : Transaction → IfDropped → Operation
  dropping : ℕ → Operation
  dropping_good : Transaction → Operation
  clearing : Operation

unfoldable pub perform : Interface → Operation → TransactionQueue → Option TransactionQueue
perform client (importing t ik) s = import client t ik s >>= λ r. some (r.1)
perform client (dropping h) s = drop h s
perform client (dropping_good t) s = drop_good t s
perform client clearing s = some (clear s)

unfoldable pub perform_all : Interface → List Operation → TransactionQueue → Option TransactionQueue
perform_all client [] s = some s
perform_all client (o ∷ os) s = perform client o s >>= λ s'. perform_all client os s'
