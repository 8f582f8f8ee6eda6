-- ===== src/Rlp/Integer.antt =====
-- Integers in RLP: `bytesRequired` (libdevcore/CommonData.h), `RLPStream::pushInt` and
-- `RLPStream::append(bigint)` (libdevcore/RLP.h, RLP.cpp). A byte string is a list of numbers.
use mathlib.Core.WellFounded.{Acc, WellFounded}
use mathlib.Core.Logic.{dite}
use native.Mathlib.Decide.{dec_lt}
use utispace_chain.Prelude.{
  ℕ, zero, suc, ◌+◌, ◌-◌, ◌/◌, ◌%◌, ◌<◌, List, [], ◌∷◌, ◌++◌, ltb, ◌==◌, if◌then◌else◌, arith,
}

Acc-below : (k n : ℕ) → n < k → Acc ◌<◌ n
Acc-below zero n h = elim h [ ]
Acc-below (suc k) n h = Acc.intro n (λ m hm. Acc-below k m (omega arith))

unfoldable pub lt_wf : WellFounded ◌<◌
unfolding Acc-below
lt_wf = record { apply = λ n. Acc-below (suc n) n (omega arith) }

-- `for (; _i != 0; ++i, _i >>= 8) {}`
unfoldable pub bytes_required_loop : (n : ℕ) → Acc ◌<◌ n → ℕ
unfolding dec_lt
bytes_required_loop n (Acc.intro _ smaller) =
    dite (dec_lt 0 n) (λ h. suc (bytes_required_loop (n / 256) (smaller _ (omega arith)))) (λ _. 0)

unfoldable pub bytes_required : ℕ → ℕ
unfolding bytes_required_loop lt_wf
bytes_required n = bytes_required_loop n (lt_wf.apply n)

-- `pushInt(_i, _br)`: the lowest `_br` bytes, the highest of them first.
unfoldable pub push_int : ℕ → ℕ → List ℕ
push_int zero n = []
push_int (suc br) n = push_int br (n / 256) ++ ((n % 256) ∷ [])

abbrev pub data_imm_len_start : ℕ
data_imm_len_start = 0x80

abbrev pub data_imm_len_count : ℕ
data_imm_len_count = 0xc0 - 0x80 - 8

abbrev pub data_ind_len_zero : ℕ
data_ind_len_zero = 0x80 + data_imm_len_count - 1

-- The bytes that `append(bigint)` writes. The exception for a number of 2 ^ 64 bytes or more is
-- left out: every caller passes a fixed-width integer.
unfoldable pub int_bytes : ℕ → List ℕ
int_bytes n =
    if n == 0
    then data_imm_len_start ∷ []
    else if ltb n data_imm_len_start
    then n ∷ []
    else if ltb (bytes_required n) data_imm_len_count
    then (bytes_required n + data_imm_len_start) ∷ push_int (bytes_required n) n
    else (data_ind_len_zero + bytes_required (bytes_required n))
        ∷ push_int (bytes_required (bytes_required n)) (bytes_required n)
      ++ push_int (bytes_required n) n
