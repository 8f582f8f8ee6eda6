-- ===== src/Rlp/Item/Written.antt =====
-- What the writer writes is an item whose size and payload the reader finds, libdevcore/RLP.h and
-- RLP.cpp.
use utispace_chain.Prelude.{
  ℕ, ◌+◌, ◌≤◌, ◌<◌, ◌≡◌, ◌⊎◌, ◌&&◌, refl, sym, ap, ◌∙◌, inl, inr, List, [], ◌∷◌, ◌++◌, some, true,
  false, ltb, ◌==◌, length, length-append, Bool-cases, Option-cases, arith,
}
use mathlib.Core.List.{append_assoc}
use mathlib.Core.Path.{subst}
use utispace_chain.Rlp.Integer.{bytes_required, data_imm_len_start, data_ind_len_zero}
use utispace_chain.Rlp.Reader.{
  byte_at, take, drop, cropped, require_good, item_length, payload_offset, payload, list_start,
}
use utispace_chain.Rlp.Reader.Bytes.{length-push_int, take-append, drop-append}
use utispace_chain.Rlp.Stream.{list_header, data_header, data_bytes, list_bytes}
use utispace_chain.Rlp.Item.{actual_size, rlp, size_as_encoded, is_list, Strictness, to_bytes}
use utispace_chain.Rlp.Item.Sized.{
  max_payload, Framed, Canonical, data-Framed, list-Framed, LeadsBetween, data-leads, list-leads,
  Forms, data-Forms, few_bytes, data_header-some, list_header-some,
}

-- An item's size is what its first bytes say, and what follows is not looked at.
abbrev pub IsItem : List ℕ → Type 0
IsItem e = (1 ≤ length e) × ((rest : List ℕ) → size_as_encoded (e ++ rest) ≡ some (length e))

size_as_encoded-actual :
    (d : List ℕ) (s : ℕ) → actual_size d ≡ some s → s ≤ length d → size_as_encoded d ≡ some s
unfolding size_as_encoded rlp
size_as_encoded-actual d s a le = ground (arith, a, le)

-- A prefix that is not a byte by itself, and the payload behind it.
Framed-size :
    (b : ℕ) (bs p rest : List ℕ)
    → data_imm_len_start ≤ b
    → Framed (length p) (b ∷ bs) (p ++ rest)
    → size_as_encoded (((b ∷ bs) ++ p) ++ rest) ≡ some (length ((b ∷ bs) ++ p))
unfolding actual_size byte_at
Framed-size b bs p rest big (l, o) =
    let h : List ℕ = b ∷ bs in
    let d = h ++ (p ++ rest) in
    let a : actual_size d ≡ some (length h + length p) = ground (arith, l, o, big) in
    let total : length (h ++ p) ≡ length h + length p = length-append h p in
    rw (append_assoc h p rest, total)
      (size_as_encoded-actual d (length h + length p) a
        (omega (arith, length-append h (p ++ rest), length-append p rest)))

-- The two ways to write a byte string.
abbrev AsByte : List ℕ → List ℕ → Type 0
AsByte p e = (b : ℕ) × (p ≡ b ∷ []) × (e ≡ b ∷ []) × (b < data_imm_len_start)

abbrev WithHeader : List ℕ → List ℕ → Type 0
WithHeader p e =
    (h : List ℕ) × (data_header (length p) ≡ some h)
    × (e ≡ h ++ p)
    × ((rest : List ℕ) → Canonical (length p) (p ++ rest))

with_header :
    (p e : List ℕ)
    → ((rest : List ℕ) → Canonical (length p) (p ++ rest))
    → ((length p == 1) && ltb (byte_at p 0) data_imm_len_start) ≡ false
    → data_bytes p ≡ some e
    → WithHeader p e
unfolding data_bytes
with_header p e c big d = elim (Option-cases (data_header (length p))) [
  | inl n ↦ absurd (ground (arith, n, d, big))
  | inr (h, q) ↦ (h, q, ground (arith, q, d, big), c)
]

two-forms : (p e : List ℕ) → data_bytes p ≡ some e → AsByte p e ⊎ WithHeader p e
unfolding byte_at
two-forms [] e d = inr (with_header [] e (λ rest one. absurd (omega (arith, one))) (ground arith) d)
two-forms (b ∷ []) e d = elim (Bool-cases (ltb b data_imm_len_start)) [
  | inl low ↦ inl (b, refl, unfold data_bytes in ground (arith, low, d), ground (arith, low))
  | inr high ↦ inr (
      with_header (b ∷ []) e (λ rest one. (ground (arith, high), omega arith))
        (ground (arith, high)) d)
]
two-forms (b ∷ c ∷ bs) e d =
    inr (with_header (b ∷ c ∷ bs) e (λ rest one. absurd (omega (arith, one))) (ground arith) d)

-- The payload behind a prefix.
cropped-framed : (h p rest : List ℕ) → cropped (length h) (length p) (h ++ (p ++ rest)) ≡ p
unfolding cropped
cropped-framed h p rest =
    rw (drop-append h (p ++ rest), take-append p rest)
      (ground (arith, length-append h (p ++ rest), length-append p rest))

Framed-payload :
    (h p rest : List ℕ) → Framed (length p) h (p ++ rest) → payload (h ++ (p ++ rest)) ≡ some p
unfolding payload
Framed-payload h p rest (l, o) =
    rw (payload, l, o, cropped-framed h p rest)
      (ground (arith, length-append h (p ++ rest), length-append p rest))

-- An item that is a byte by itself.
alone :
    (b : ℕ) (rest : List ℕ)
    → b < data_imm_len_start
    → (size_as_encoded (b ∷ rest) ≡ some 1) × (payload (b ∷ rest) ≡ some (b ∷ []))
unfolding size_as_encoded rlp actual_size payload item_length require_good cropped take drop
    payload_offset byte_at
alone b rest h = (ground (arith, h), ground (arith, h))

-- An item behind a prefix: its size, and its payload.
abbrev Found : List ℕ → List ℕ → List ℕ → Type 0
Found h p rest =
    (size_as_encoded ((h ++ p) ++ rest) ≡ some (length (h ++ p)))
    × (payload ((h ++ p) ++ rest) ≡ some p)

framed :
    (lo hi : ℕ) (h p rest : List ℕ)
    → data_imm_len_start ≤ lo
    → LeadsBetween lo hi h
    → Framed (length p) h (p ++ rest)
    → Found h p rest
framed lo hi h p rest big (b, bs, w, l, u) f =
    let g : Framed (length p) (b ∷ bs) (p ++ rest) =
      subst (λ t. Framed (length p) t (p ++ rest)) w f in
    let found : Found (b ∷ bs) p rest = (
      Framed-size b bs p rest (omega (arith, big, l)) g,
      ap payload (append_assoc (b ∷ bs) p rest) ∙ Framed-payload (b ∷ bs) p rest g,
    ) in
    subst (λ t. Found t p rest) (sym w) found

leading :
    (lo hi : ℕ) (h l : List ℕ)
    → LeadsBetween lo hi h
    → (lo ≤ byte_at (h ++ l) 0) × (byte_at (h ++ l) 0 < hi) × (1 ≤ length (h ++ l))
unfolding byte_at
leading lo hi h l (b, bs, w, lower, upper) = rw w (lower, upper, omega arith)

-- What is written for a byte string, before anything else.
abbrev pub IsText : List ℕ → List ℕ → List ℕ → Type 0
IsText p e rest =
    (size_as_encoded (e ++ rest) ≡ some (length e))
    × ((s : Strictness) → to_bytes s (e ++ rest) ≡ some p)

pub written-IsText :
    (p e rest : List ℕ) → length p < max_payload → data_bytes p ≡ some e → IsText p e rest
unfolding to_bytes byte_at
written-IsText p e rest small d = elim (two-forms p e d) [
  | inl (b, q, r, low) ↦ let (s, l) = alone b rest low in rw (q, r) (s, λ _. ground (arith, l, low))
  | inr (h, q, r, c) ↦
      let leads = data-leads (length p) h small q in
      let (s, l) =
        framed data_imm_len_start list_start h p rest (omega arith) leads
          (data-Framed (length p) h (p ++ rest) small (c rest) q) in
      let (lower, upper, some_byte) = leading data_imm_len_start list_start h (p ++ rest) leads in
      rw r (s, λ _. ground (arith, l, upper, some_byte, append_assoc h p rest))
]

-- What is written for a list whose items are written already.
abbrev pub IsListOf : List ℕ → List ℕ → List ℕ → Type 0
IsListOf p e rest =
    (size_as_encoded (e ++ rest) ≡ some (length e))
    × (payload (e ++ rest) ≡ some p)
    × (is_list (e ++ rest) ≡ true)

pub written-IsListOf :
    (p e rest : List ℕ) → length p < max_payload → list_bytes p ≡ some e → IsListOf p e rest
unfolding list_bytes
written-IsListOf p e rest small d = elim (Option-cases (list_header (length p))) [
  | inl n ↦ absurd (ground (arith, n, d))
  | inr (h, q) ↦
      let r : e ≡ h ++ p = ground (arith, d, q) in
      let leads = list-leads (length p) h small q in
      let (s, l) =
        framed list_start 256 h p rest (omega arith) leads
          (list-Framed (length p) h (p ++ rest) small q) in
      let (lower, upper, some_byte) = leading list_start 256 h (p ++ rest) leads in
      rw r (s, l, ground (arith, lower, some_byte, append_assoc h p rest))
]

-- A prefix has nine bytes at most.
length-header :
    (start base n : ℕ) (h : List ℕ) → n < max_payload → Forms start base n h → length h ≤ 9
length-header start base n h small (inl (short, q)) = rw q (omega arith)
length-header start base n h small (inr (long, q)) =
    rw q (omega (arith, length-push_int (bytes_required n) n, few_bytes n small))

pub length-data_bytes :
    (p e : List ℕ)
    → length p < max_payload
    → data_bytes p ≡ some e
    → (1 ≤ length e) × (length e ≤ length p + 9)
length-data_bytes p e small d = elim (two-forms p e d) [
  | inl (b, q, r, low) ↦ rw (q, r) (omega arith, omega arith)
  | inr (h, q, r, c) ↦
      let few =
        length-header data_imm_len_start data_ind_len_zero (length p) h small
          (data-Forms (length p) h small q) in
      let (lower, upper, some_byte) =
        leading data_imm_len_start list_start h p (data-leads (length p) h small q) in
      rw r (omega (arith, some_byte), omega (arith, length-append h p, few))
]

-- Every byte string that fits has an encoding.
pub data_bytes-some : (p : List ℕ) → length p < max_payload → (e : List ℕ) × (data_bytes p ≡ some e)
unfolding data_bytes
data_bytes-some p small =
    elim (Bool-cases ((length p == 1) && ltb (byte_at p 0) data_imm_len_start)) [
      | inl low ↦ (p, ground (arith, low))
      | inr large ↦
          let (h, q) = data_header-some (length p) small in (h ++ p, ground (arith, large, q))
    ]

pub data_bytes-IsItem : (p e : List ℕ) → length p < max_payload → data_bytes p ≡ some e → IsItem e
data_bytes-IsItem p e small d =
    ((length-data_bytes p e small d).0, λ rest. (written-IsText p e rest small d).0)

pub list_bytes-some : (p : List ℕ) → length p < max_payload → (e : List ℕ) × (list_bytes p ≡ some e)
unfolding list_bytes
list_bytes-some p small =
    let (h, q) = list_header-some (length p) small in (h ++ p, ground (arith, q))

-- Bytes that are one whole item pass every check of the constructor.
pub rlp-sized :
    (s : Strictness) (e : List ℕ) → size_as_encoded e ≡ some (length e) → rlp s e ≡ some e
unfolding size_as_encoded rlp
rlp-sized s e h = elim (Option-cases (actual_size e)) [
  | inl n ↦ absurd (ground (arith, n, h))
  | inr (k, a) ↦ elim (Bool-cases (ltb (length e) k)) [
    | inl few ↦ absurd (ground (arith, a, few, h))
    | inr enough ↦ ground (arith, a, enough, h)
  ]
]
