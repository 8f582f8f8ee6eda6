-- ===== src/Rlp/Reader/RoundTrip.antt =====
-- Writing an integer and reading it back, libdevcore/RLP.h and RLP.cpp.
use utispace_chain.Prelude.{
  ℕ, zero, suc, ◌+◌, ◌^◌, ◌≤◌, ◌<◌, ◌≡◌, ◌≢◌, refl, sym, ap, ◌∙◌, inl, inr, List, [], ◌∷◌, some,
  true, ltb, ◌==◌, length, Bool-cases, arith,
}
use utispace_chain.Rlp.Integer.{
  bytes_required, push_int, int_bytes, data_imm_len_start, data_imm_len_count,
}
use utispace_chain.Rlp.Reader.{
  byte_at, take, drop, cropped, from_big_endian, require_good, is_int, item_length, length_size,
  payload_offset, payload, to_int,
}
use utispace_chain.Rlp.Reader.Bytes.{
  span, Bounded, length-push_int, from_big_endian-push_int, push_int-leads, push_int-only, take-all,
  span_32, bytes_required-covers, bytes_required-needed,
}

-- An item of 1 to 55 bytes that may be read: not a byte that should stand for itself.
module _ (r : ℕ) (p : List ℕ) (size : length p ≡ r) (some_byte : 0 < r) (short : r < 56)
    (canonical : r ≡ 1 → data_imm_len_start ≤ byte_at p 0) where
  abbrev item : List ℕ
  item = (r + data_imm_len_start) ∷ p

  good : require_good item ≡ true
  unfolding require_good byte_at
  good = ground (arith, canonical, size)

  length-item : item_length item ≡ some r
  unfolding item_length byte_at
  length-item = ground (arith, good, short, some_byte)

  offset-item : payload_offset item ≡ 1
  unfolding payload_offset length_size byte_at
  offset-item = ground (arith, short)

  payload-item : payload item ≡ some p
  unfolding payload cropped drop
  payload-item =
      ground (arith, length-item, offset-item, size, ap (λ n. take n p) (sym size) ∙ take-all p)

  is_int-item : byte_at p 0 ≢ 0 → is_int item ≡ some true
  unfolding is_int byte_at
  is_int-item lead = ground (arith, good, short, some_byte, size, lead)

  to_int-item : r ≤ 32 → byte_at p 0 ≢ 0 → to_int item ≡ some (from_big_endian 256 0 p)
  unfolding to_int byte_at
  to_int-item fits lead =
      rw (good, is_int-item lead, payload-item) (ground (arith, size, fits, short))

read_zero : to_int (data_imm_len_start ∷ []) ≡ some 0
unfolding to_int require_good is_int item_length payload payload_offset length_size cropped take
    drop byte_at from_big_endian
read_zero = refl

read_byte : (n : ℕ) → 0 < n → n < data_imm_len_start → to_int (n ∷ []) ≡ some n
unfolding to_int require_good is_int item_length payload payload_offset cropped take drop byte_at
    from_big_endian
read_byte n h low = ground (arith, h, low)

-- A number in one byte that is written behind a prefix is too large to stand for itself.
byte_alone :
    (n k : ℕ)
    → data_imm_len_start ≤ n
    → n < span (suc k)
    → suc k ≡ 1
    → data_imm_len_start ≤ byte_at (push_int (suc k) n) 0
unfolding span
byte_alone n zero big covers e = omega (arith, push_int-only n (omega (arith, covers)), big)
byte_alone n (suc k) big covers e = absurd (omega (arith, e))

-- Reading a number of `suc k` bytes, none of which is left out.
read_bytes :
    (n k : ℕ)
    → data_imm_len_start ≤ n
    → n < 2 ^ 256
    → k < 32
    → span k ≤ n
    → n < span (suc k)
    → to_int ((suc k + data_imm_len_start) ∷ push_int (suc k) n) ≡ some n
read_bytes n k big small few needed covers =
    let p = push_int (suc k) n in
    to_int-item (suc k) p (length-push_int (suc k) n) (omega arith) (omega (arith, few))
      (byte_alone n k big covers) (omega (arith, few)) (push_int-leads k n needed covers)
    ∙ ap some (from_big_endian-push_int 256 (suc k) n covers small)

read_required :
    (n r : ℕ)
    → data_imm_len_start ≤ n
    → n < 2 ^ 256
    → Bounded n r
    → n < span r
    → to_int ((r + data_imm_len_start) ∷ push_int r n) ≡ some n
unfolding span
read_required n zero big small b covers = absurd (omega (arith, big, covers))
read_required n (suc k) big small b covers =
    read_bytes n k big small (omega (arith, b 32 (omega (arith, span_32, small))))
      (ground (arith, b k)) covers

short_length : (n : ℕ) → n < 2 ^ 256 → ltb (bytes_required n) data_imm_len_count ≡ true
short_length n small =
    let few : bytes_required n ≤ 32 = bytes_required-needed n 32 (omega (arith, span_32, small)) in
    ground (arith, few)

-- For every number of 256 bits, the bytes that `append` writes are read back by `toInt<u256>` with
-- the strict flags as that number.
pub to_int-int_bytes : (n : ℕ) → n < 2 ^ 256 → to_int (int_bytes n) ≡ some n
unfolding int_bytes
to_int-int_bytes n small = elim (Bool-cases (n == 0)) [
  | inl z ↦ rw z (read_zero ∙ ap some (ground (arith, z)))
  | inr nz ↦ elim (Bool-cases (ltb n data_imm_len_start)) [
    | inl low ↦ rw (nz, low) (read_byte n (ground (arith, nz)) (ground (arith, low)))
    | inr big ↦
        rw (nz, big, short_length n small)
          (read_required n (bytes_required n) (ground (arith, big)) small (bytes_required-needed n)
            (bytes_required-covers n))
  ]
]
