-- ===== src/TransactionQueue/Examples.antt =====
-- Concrete runs of the queue of libcv/TransactionQueue.cpp.
use utispace_chain.Prelude.{
  ℕ, ◌≡◌, refl, ◌<◌, List, [], ◌∷◌, some, true, if◌then◌else◌, length, keep, arith,
}
use utispace_chain.Prelude.Map.{find, remove_key}
use utispace_chain.Rlp.Integer.{int_bytes, bytes_required, bytes_required_loop, push_int, lt_wf}
use utispace_chain.Rlp.Stream.{list_bytes, list_header}
use utispace_chain.Rlp.Item.Sized.{max_payload}
use utispace_chain.Rlp.Item.Typed.{int_bytes-IsItem}
use utispace_chain.Rlp.Index.Nth.{joined}
use utispace_chain.TransactionQueue.{
  Transaction, TransactionQueue, new_queue, ignore, count, deref, erase_node, put_inner, remove,
  already_known, already_in_chain,
}
use utispace_chain.TransactionQueue.Import.{
  Interface, Operation, importing, dropping, dropping_good, perform_all, drop, import,
  top_transactions,
}
use utispace_chain.TransactionQueue.Calls.{perform_all-Sound}
use utispace_chain.TransactionQueue.Sound.{Sound}
use utispace_chain.TransactionQueue.Listed.{top_transactions-first, first, wanted, drop-import}
use utispace_chain.TransactionQueue.Verifier.{enqueue}
use utispace_chain.TransactionQueue.Verifier.Enqueued.{enqueue-taken}

abbrev accepting : Interface
accepting = record { is_nonce_ok = λ _. true; is_block_limit_ok = λ _. true }

abbrev tx : ℕ → ℕ → ℕ → ℕ → Transaction
tx h a n time = record { sha3 = h; from = a; randomid = n; gas_price = 10; import_time = time }

-- Three transactions into a queue for two, one of them dropped, and one that replaces another.
abbrev calls : List Operation
calls =
    importing (tx 100 1 7 50) ignore
    ∷ importing (tx 101 2 7 51) ignore
    ∷ importing (tx 102 1 8 52) ignore
    ∷ dropping 100
    ∷ importing (tx 103 2 7 53) ignore
    ∷ dropping_good (tx 103 2 7 53)
    ∷ []

perform_all-Sound_example :
    (s : TransactionQueue) × (perform_all accepting calls (new_queue 2 4) ≡ some s) × (Sound 2 s)
perform_all-Sound_example = perform_all-Sound 2 accepting 4 calls (omega arith)

abbrev one_pending : TransactionQueue
one_pending = record (new_queue 2 4) {
  known = 100 ∷ [];
  current = record { handle = 0; transaction = tx 100 1 7 50 } ∷ [];
  current_by_hash = (100, 0) ∷ [];
  current_by_address_and_nonce = (1, (7, 0) ∷ []) ∷ [];
  next_handle = 1;
}

abbrev none_pending : TransactionQueue
none_pending = record (new_queue 2 4) { dropped = 100 ∷ []; next_handle = 1 }

one_known : count 100 one_pending.known ≡ true
unfolding count
one_known = refl

one_dropped : drop 100 one_pending ≡ some none_pending
unfolding drop count remove find deref erase_node put_inner remove_key keep
one_dropped = refl

drop-import_example :
    import accepting (tx 100 1 7 50) ignore none_pending
    ≡ some
        ((if count 100 none_pending.known then already_known else already_in_chain), none_pending)
drop-import_example =
    drop-import accepting (tx 100 1 7 50) one_pending none_pending one_known one_dropped

top_transactions-first_example :
    top_transactions 1 (101 ∷ []) one_pending.current
    ≡ first 1 (wanted (101 ∷ []) one_pending.current)
top_transactions-first_example = top_transactions-first 1 (101 ∷ []) one_pending.current

abbrev sent : List (List ℕ)
sent = int_bytes 5 ∷ int_bytes 1000 ∷ []

abbrev packet : List ℕ
packet = 196 ∷ 5 ∷ 130 ∷ 3 ∷ 232 ∷ []

packet_bytes : list_bytes (joined sent) ≡ some packet
unfolding list_bytes list_header int_bytes bytes_required bytes_required_loop push_int lt_wf
packet_bytes = refl

sent_size : length (joined sent) < max_payload
unfolding int_bytes bytes_required bytes_required_loop push_int lt_wf
sent_size = omega arith

enqueue-taken_example :
    enqueue packet 9 []
    ≡ some (
        record { transaction = int_bytes 5; node_id = 9 }
        ∷ record { transaction = int_bytes 1000; node_id = 9 }
        ∷ [])
enqueue-taken_example =
    enqueue-taken sent packet 9 []
      (int_bytes-IsItem 5 (omega arith), (int_bytes-IsItem 1000 (omega arith), tt)) sent_size
      (omega arith) packet_bytes
