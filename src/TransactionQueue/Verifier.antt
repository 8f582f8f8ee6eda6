-- ===== src/TransactionQueue/Verifier.antt =====
-- The queue of transactions that a peer has sent, before they are verified: `enqueue` and
-- `verifierBody` of libcv/TransactionQueue.cpp. An exception is `none`.
pub mod Enqueued
use utispace_chain.Prelude.{
  ℕ, zero, suc, ◌%◌, ◌^◌, List, [], ◌∷◌, ◌++◌, Option, none, some, Bool, true, false, leb,
  if◌then◌else◌, length, ◌>>=◌,
}
use utispace_chain.Rlp.Item.{items, counted, out_of_fuel}
use utispace_chain.Rlp.Index.{ListCache, new_cache, at}
use utispace_chain.TransactionQueue.{Transaction, TransactionQueue, ImportResult, ignore}
use utispace_chain.TransactionQueue.Import.{Interface, import}

abbrev pub max_verification_queue_size : ℕ
max_verification_queue_size = 8192

pub record UnverifiedTransaction : Type 0 where
  pub transaction : List ℕ
  pub node_id : ℕ

-- The loop of `enqueue` from an index on, with the number of items left.
unfoldable pub enqueue_from :
    ℕ
    → ℕ
    → List ℕ
    → ListCache
    → ℕ
    → List UnverifiedTransaction
    → Option (List UnverifiedTransaction)
enqueue_from zero i d c node q = some q
enqueue_from (suc n) i d c node q = elim (leb max_verification_queue_size (length q)) [
  | true ↦ some q
  | false ↦ elim (at d i c) [
    | none ↦ none
    | some r ↦
        enqueue_from n (suc i) d (r.1) node
          (q ++ (record { transaction = r.0; node_id = node } ∷ []))
  ]
]

-- `enqueue(_data, _nodeId)`, which keeps the number of items as an `unsigned`.
unfoldable pub enqueue :
    List ℕ → ℕ → List UnverifiedTransaction → Option (List UnverifiedTransaction)
enqueue d node q = elim (items d) [
  | out_of_fuel ↦ none
  | counted none ↦ none
  | counted (some n) ↦ enqueue_from (n % 2 ^ 32) 0 d new_cache node q
]

-- `m_onImport(ir, t.sha3(), work.nodeId)`
pub record ImportSignal : Type 0 where
  pub result : ImportResult
  pub hash : ℕ
  pub node_id : ℕ

-- One round of `verifierBody` at a time, when it finds a transaction: bytes that are none are let
-- go, and the result of the import is told.
unfoldable pub verify_next :
    (List ℕ → Option Transaction)
    → Interface
    → ℕ
    → UnverifiedTransaction
    → TransactionQueue
    → Option (List ImportSignal × TransactionQueue)
verify_next decode client now work s = elim (decode work.transaction) [
  | none ↦ some ([], s)
  | some t ↦ elim (import client record t { import_time = now } ignore s) [
    | none ↦ none
    | some r ↦ some (record { result = r.0; hash = t.sha3; node_id = work.node_id } ∷ [], r.1)
  ]
]

-- The rounds of one verifier until its queue is empty.
unfoldable pub verify_all :
    (List ℕ → Option Transaction)
    → Interface
    → ℕ
    → List UnverifiedTransaction
    → TransactionQueue
    → Option (List ImportSignal × TransactionQueue)
verify_all decode client now [] s = some ([], s)
verify_all decode client now (w ∷ ws) s = do
  r ← verify_next decode client now w s
  more ← verify_all decode client now ws (r.1)
  some (r.0 ++ more.0, more.1)
