-- ===== src/Rlp/Item/Typed.antt =====
-- Numbers and hashes as items, libdevcore/RLP.h, RLP.cpp and FixedHash.h.
use utispace_chain.Prelude.{
  ℕ, zero, suc, ◌+◌, ◌*◌, ◌^◌, ◌≤◌, ◌<◌, ◌≡◌, refl, sym, ap, ◌∙◌, inl, inr, List, [], ◌∷◌, some,
  true, ltb, ◌==◌, if◌then◌else◌, length, Bool-cases, arith,
}
use mathlib.Core.List.{append-nil}
use utispace_chain.Rlp.Integer.{
  bytes_required, push_int, int_bytes, data_imm_len_start, data_imm_len_count,
}
use utispace_chain.Rlp.Reader.{byte_at, take, from_big_endian, require_good, item_length, payload}
use utispace_chain.Rlp.Reader.Bytes.{
  span, span_32, Bounded, length-push_int, from_big_endian-push_int, take-all,
  bytes_required-covers, bytes_required-needed,
}
use utispace_chain.Rlp.Stream.{data_header, data_bytes}
use utispace_chain.Rlp.Item.{is_data, very_strict, to_bytes, to_hash}
use utispace_chain.Rlp.Item.Sized.{max_payload}
use utispace_chain.Rlp.Item.Written.{IsItem, written-IsText, data_bytes-IsItem, length-data_bytes}

-- `FixedHash<n>(bytesConstRef)`, as a number: bytes of another size make the zero hash.
unfoldable pub fixed_hash : ℕ → List ℕ → ℕ
fixed_hash n p = if length p == n then from_big_endian (8 * n) 0 p else 0

short_data_bytes :
    (r : ℕ) (p : List ℕ)
    → length p ≡ r
    → r < data_imm_len_count
    → (r ≡ 1 → data_imm_len_start ≤ byte_at p 0)
    → data_bytes p ≡ some ((r + data_imm_len_start) ∷ p)
unfolding data_bytes data_header
short_data_bytes r p size short canonical = ground (arith, size, short, canonical)

byte_data : (n : ℕ) → n < data_imm_len_start → data_bytes (n ∷ []) ≡ some (n ∷ [])
unfolding data_bytes byte_at
byte_data n low = ground (arith, low)

one_byte : (n r : ℕ) → n < 256 → r ≡ 1 → push_int r n ≡ n ∷ []
unfolding push_int
one_byte n r small e = rw e (ap (λ b. b ∷ []) (omega (arith, small)))

no_byte : (n r : ℕ) → r ≡ 0 → push_int r n ≡ []
unfolding push_int
no_byte n r e = rw e refl

-- A number that needs a prefix if it is alone in its byte.
large_byte :
    (n r : ℕ)
    → data_imm_len_start ≤ n
    → n < span r
    → r ≡ 1
    → data_imm_len_start ≤ byte_at (push_int r n) 0
unfolding span byte_at
large_byte n r big covers e =
    let low : n < 256 = omega (arith, covers, ap span e) in rw (one_byte n r low e) big

one_required : (n r : ℕ) → 0 < n → n < 256 → n < span r → Bounded n r → r ≡ 1
unfolding span
one_required n zero some_bit small covers b = absurd (omega (arith, some_bit, covers))
one_required n (suc k) some_bit small covers b = omega (arith, b 1 (omega (arith, small)))

-- What `append` writes for a number is what it writes for the number's bytes.
pub int_bytes-data :
    (n : ℕ) → n < 2 ^ 256 → data_bytes (push_int (bytes_required n) n) ≡ some (int_bytes n)
unfolding int_bytes span
int_bytes-data n small =
    let r = bytes_required n in
    let needed = bytes_required-needed n in
    let covers = bytes_required-covers n in
    let few : r ≤ 32 = needed 32 (omega (arith, span_32, small)) in
    elim (Bool-cases (n == 0)) [
      | inl z ↦
          let r_zero : r ≡ 0 = omega (arith, needed 0 (ground (arith, z))) in
          rw (no_byte n r r_zero) (
            short_data_bytes 0 [] refl (omega arith) (λ e. absurd (omega (arith, e)))
            ∙ ground (arith, z))
      | inr nz ↦ elim (Bool-cases (ltb n data_imm_len_start)) [
        | inl low ↦
            let r_one : r ≡ 1 =
              one_required n r (ground (arith, nz)) (ground (arith, low)) covers needed in
            rw (one_byte n r (ground (arith, low)) r_one)
              (byte_data n (ground (arith, low)) ∙ ground (arith, nz, low))
        | inr big ↦
            short_data_bytes r (push_int r n) (length-push_int r n) (omega (arith, few))
              (large_byte n r (ground (arith, big)) covers)
            ∙ ground (arith, nz, big, few)
      ]
    ]

pub int_bytes-IsItem : (n : ℕ) → n < 2 ^ 256 → IsItem (int_bytes n)
int_bytes-IsItem n small =
    let size : length (push_int (bytes_required n) n) < max_payload = omega (
      arith,
      length-push_int (bytes_required n) n,
      bytes_required-needed n 32 (omega (arith, span_32, small)),
    ) in
    data_bytes-IsItem (push_int (bytes_required n) n) (int_bytes n) size (int_bytes-data n small)

pub length-int_bytes : (n : ℕ) → n < 2 ^ 256 → length (int_bytes n) ≤ 41
length-int_bytes n small =
    let few : bytes_required n ≤ 32 = bytes_required-needed n 32 (omega (arith, span_32, small)) in
    let size = length-push_int (bytes_required n) n in
    omega (
      arith,
      few,
      size,
      (length-data_bytes (push_int (bytes_required n) n) (int_bytes n) (omega (arith, size, few))
          (int_bytes-data n small)).1,
    )

-- A payload is read only behind a good prefix.
good-payload : (d p : List ℕ) → is_data d ≡ true → payload d ≡ some p → require_good d ≡ true
unfolding payload item_length
good-payload d p nonempty h = elim (Bool-cases (require_good d)) [
  | inl g ↦ g
  | inr b ↦ absurd (ground (arith, b, h, nonempty))
]

pub text-payload :
    (d p : List ℕ) → to_bytes very_strict d ≡ some p → (is_data d ≡ true) × (payload d ≡ some p)
unfolding to_bytes
text-payload d p h = elim (Bool-cases (is_data d)) [
  | inl t ↦ (t, ground (arith, t, h))
  | inr f ↦ absurd (ground (arith, f, h))
]

-- A hash is written in all its bytes, and read back.
pub to_hash-item :
    (n : ℕ) (e : List ℕ)
    → n < 2 ^ 256
    → data_bytes (push_int 32 n) ≡ some e
    → to_hash 32 very_strict e ≡ some n
unfolding to_hash
to_hash-item n e small d =
    let p = push_int 32 n in
    let size = length-push_int 32 n in
    let h = written-IsText p e [] (omega (arith, size)) d in
    let (t, l) =
      text-payload e p (ap (to_bytes very_strict) (sym (append-nil e)) ∙ h.1 very_strict) in
    let whole : take 32 p ≡ p = ap (λ k. take k p) (sym size) ∙ take-all p in
    let value : from_big_endian 256 0 (take 32 p) ≡ n =
      ap (from_big_endian 256 0) whole
      ∙ from_big_endian-push_int 256 32 n (omega (arith, small, span_32)) small in
    ground (arith, t, l, good-payload e p t l, size, value)

span_65 : span 65 ≡ 2 ^ 520
unfolding span
span_65 = refl

-- A signature is a byte string of 65 bytes.
pub fixed_hash-push_int : (n : ℕ) → n < 2 ^ 520 → fixed_hash 65 (push_int 65 n) ≡ n
unfolding fixed_hash
fixed_hash-push_int n small =
    let value : from_big_endian 520 0 (push_int 65 n) ≡ n =
      from_big_endian-push_int 520 65 n (omega (arith, small, span_65)) small in
    ground (arith, length-push_int 65 n, value)
