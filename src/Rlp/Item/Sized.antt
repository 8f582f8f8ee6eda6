-- ===== src/Rlp/Item/Sized.antt =====
-- The size of an item that stands before others, libdevcore/RLP.cpp.
use utispace_chain.Prelude.{
  ℕ, zero, suc, ◌+◌, ◌-◌, ◌^◌, ◌≤◌, ◌<◌, ◌≡◌, ◌≢◌, ◌⊎◌, refl, sym, ap, ◌∙◌, inl, inr, List, [], ◌∷◌,
  ◌++◌, some, ltb, ◌==◌, length, length-append, Bool-cases, arith,
}
use utispace_chain.Rlp.Integer.{
  bytes_required, push_int, data_imm_len_start, data_imm_len_count, data_ind_len_zero,
}
use utispace_chain.Rlp.Reader.{
  byte_at, take, drop, require_good, long_length, item_length, length_size, payload_offset,
  list_start, list_ind_len_zero,
}
use utispace_chain.Rlp.Reader.Bytes.{
  span, Bounded, length-push_int, from_big_endian-push_int, push_int-leads, take-append,
  first-append, bytes_required-covers, bytes_required-needed,
}
use utispace_chain.Rlp.Stream.{list_header, data_header, count_bytes}

-- A size that leaves room for an offset.
abbrev pub max_payload : ℕ
max_payload = 2 ^ 64 - 1 - 0x100

span_8 : span 8 ≡ 2 ^ 64
unfolding span
span_8 = refl

pub few_bytes : (n : ℕ) → n < max_payload → bytes_required n ≤ 8
few_bytes n h = bytes_required-needed n 8 (omega (arith, span_8, h))

-- The size that stands in the prefix is read back.
length-long :
    (n r : ℕ) (first : ℕ) (tl : List ℕ)
    → 56 ≤ n
    → n < max_payload
    → Bounded n r
    → n < span r
    → long_length r 56 (first ∷ (push_int r n ++ tl)) ≡ some n
unfolding long_length drop byte_at span
length-long n zero first tl long h b c = absurd (omega (arith, long, c))
length-long n (suc k) first tl long h b c =
    let l = push_int (suc k) n in
    let size = length-push_int (suc k) n in
    let few : suc k ≤ 8 = b 8 (omega (arith, span_8, h)) in
    let low : span k ≤ n = ground (arith, b k) in
    let lead : byte_at (l ++ tl) 0 ≢ 0 =
      λ e. push_int-leads k n low c (sym (first-append l tl (omega (arith, size))) ∙ e) in
    let same : take (suc k) (l ++ tl) ≡ l =
      ap (λ m. take m (l ++ tl)) (sym size) ∙ take-append l tl in
    rw (same, from_big_endian-push_int 64 (suc k) n c (omega (arith, h)))
      (ground (arith, lead, few, h, long, length-append l tl, size))

-- What is read of the first byte and the length bytes.
abbrev pub Framed : ℕ → List ℕ → List ℕ → Type 0
Framed n h tl = (item_length (h ++ tl) ≡ some n) × (payload_offset (h ++ tl) ≡ length h)

-- A byte that stands behind a prefix could not stand for itself.
abbrev pub Canonical : ℕ → List ℕ → Type 0
Canonical n tl = n ≡ 1 → (data_imm_len_start ≤ byte_at tl 0) × (1 ≤ length tl)

short_data :
    (n : ℕ) (tl : List ℕ) → n < 56 → Canonical n tl → Framed n ((n + data_imm_len_start) ∷ []) tl
unfolding item_length payload_offset length_size require_good byte_at
short_data n tl h c = (ground (arith, h, c), ground (arith, h))

short_list : (n : ℕ) (tl : List ℕ) → n < 56 → Framed n ((n + list_start) ∷ []) tl
unfolding item_length payload_offset length_size require_good byte_at
short_list n tl h = (ground (arith, h), ground (arith, h))

-- How many bytes a long size takes.
long_bytes : (n : ℕ) → 56 ≤ n → n < max_payload → (1 ≤ bytes_required n) × (bytes_required n ≤ 8)
unfolding span
long_bytes n long h = (
  elim (Bool-cases (bytes_required n == 0)) [
    | inl z ↦
        let none_left : bytes_required n ≡ 0 = ground (arith, z) in
        absurd (omega (arith, long, ap span (none_left), bytes_required-covers n))
    | inr nz ↦ ground (arith, nz)
  ],
  few_bytes n h,
)

long_data :
    (n : ℕ) (tl : List ℕ)
    → 56 ≤ n
    → n < max_payload
    → Framed n ((bytes_required n + data_ind_len_zero) ∷ push_int (bytes_required n) n) tl
unfolding item_length payload_offset length_size require_good byte_at
long_data n tl long h =
    let (one, eight) = long_bytes n long h in
    let l =
      length-long n (bytes_required n) (bytes_required n + data_ind_len_zero) tl long h
        (bytes_required-needed n) (bytes_required-covers n) in
    (
      ground (arith, one, eight, l),
      ground (arith, one, eight, length-push_int (bytes_required n) n),
    )

long_list :
    (n : ℕ) (tl : List ℕ)
    → 56 ≤ n
    → n < max_payload
    → Framed n ((bytes_required n + list_ind_len_zero) ∷ push_int (bytes_required n) n) tl
unfolding item_length payload_offset length_size require_good byte_at
long_list n tl long h =
    let (one, eight) = long_bytes n long h in
    let l =
      length-long n (bytes_required n) (bytes_required n + list_ind_len_zero) tl long h
        (bytes_required-needed n) (bytes_required-covers n) in
    (
      ground (arith, one, eight, l),
      ground (arith, one, eight, length-push_int (bytes_required n) n),
    )

-- The two forms of a prefix.
abbrev pub Forms : ℕ → ℕ → ℕ → List ℕ → Type 0
Forms start base n h =
    ((n < 56) × (h ≡ (n + start) ∷ []))
    ⊎ ((56 ≤ n) × (h ≡ (bytes_required n + base) ∷ push_int (bytes_required n) n))

pub data-Forms :
    (n : ℕ) (h : List ℕ)
    → n < max_payload
    → data_header n ≡ some h
    → Forms data_imm_len_start data_ind_len_zero n h
unfolding data_header count_bytes
data-Forms n h small e = elim (Bool-cases (ltb n data_imm_len_count)) [
  | inl short ↦ inl (ground (arith, short), ground (arith, e, short))
  | inr long ↦ inr (ground (arith, long), ground (arith, e, long, few_bytes n small))
]

pub list-Forms :
    (n : ℕ) (h : List ℕ)
    → n < max_payload
    → list_header n ≡ some h
    → Forms list_start list_ind_len_zero n h
unfolding list_header count_bytes
list-Forms n h small e = elim (Bool-cases (ltb n data_imm_len_count)) [
  | inl short ↦ inl (ground (arith, short), ground (arith, e, short))
  | inr long ↦ inr (ground (arith, long), ground (arith, e, long, few_bytes n small))
]

-- The prefixes of the writer are read, whatever follows.
pub data-Framed :
    (n : ℕ) (h tl : List ℕ)
    → n < max_payload
    → Canonical n tl
    → data_header n ≡ some h
    → Framed n h tl
data-Framed n h tl small c e = elim (data-Forms n h small e) [
  | inl (short, q) ↦ rw q (short_data n tl short c)
  | inr (long, q) ↦ rw q (long_data n tl long small)
]

pub list-Framed : (n : ℕ) (h tl : List ℕ) → n < max_payload → list_header n ≡ some h → Framed n h tl
list-Framed n h tl small e = elim (list-Forms n h small e) [
  | inl (short, q) ↦ rw q (short_list n tl short)
  | inr (long, q) ↦ rw q (long_list n tl long small)
]

-- The first byte of a prefix tells a byte string from a list.
abbrev pub LeadsBetween : ℕ → ℕ → List ℕ → Type 0
LeadsBetween lo hi h = (b : ℕ) × (bs : List ℕ) × (h ≡ b ∷ bs) × (lo ≤ b) × (b < hi)

pub data-leads :
    (n : ℕ) (h : List ℕ)
    → n < max_payload
    → data_header n ≡ some h
    → LeadsBetween data_imm_len_start list_start h
data-leads n h small e = elim (data-Forms n h small e) [
  | inl (short, q) ↦ (_, _, q, omega arith, omega (arith, short))
  | inr (long, q) ↦
      let (one, eight) = long_bytes n long small in
      (_, _, q, omega (arith, one), omega (arith, eight))
]

pub list-leads :
    (n : ℕ) (h : List ℕ) → n < max_payload → list_header n ≡ some h → LeadsBetween list_start 256 h
list-leads n h small e = elim (list-Forms n h small e) [
  | inl (short, q) ↦ (_, _, q, omega arith, omega (arith, short))
  | inr (long, q) ↦
      let (one, eight) = long_bytes n long small in
      (_, _, q, omega (arith, one), omega (arith, eight))
]

pub data_header-some : (n : ℕ) → n < max_payload → (h : List ℕ) × (data_header n ≡ some h)
unfolding data_header count_bytes
data_header-some n small = elim (Bool-cases (ltb n data_imm_len_count)) [
  | inl short ↦ ((n + data_imm_len_start) ∷ [], ground (arith, short))
  | inr long ↦ (
    (bytes_required n + data_ind_len_zero) ∷ push_int (bytes_required n) n,
    ground (arith, long, few_bytes n small),
  )
]

pub list_header-some : (n : ℕ) → n < max_payload → (h : List ℕ) × (list_header n ≡ some h)
unfolding list_header count_bytes
list_header-some n small = elim (Bool-cases (ltb n data_imm_len_count)) [
  | inl short ↦ ((n + list_start) ∷ [], ground (arith, short))
  | inr long ↦ (
    (bytes_required n + list_ind_len_zero) ∷ push_int (bytes_required n) n,
    ground (arith, long, few_bytes n small),
  )
]
