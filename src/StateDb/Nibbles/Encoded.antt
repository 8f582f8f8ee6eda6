-- ===== src/StateDb/Nibbles/Encoded.antt =====
-- The three `hexPrefixEncode` and what `keyOf` and `isLeaf` read of their results.
use utispace_chain.Prelude.{
  if◌then◌else◌, ℕ, zero, suc, ◌+◌, ◌-◌, ◌*◌, ◌/◌, ◌%◌, ◌^◌, ◌≤◌, ◌<◌, ◌≡◌, refl, sym, ap, ◌∙◌, inl,
  inr, List, [], ◌∷◌, ◌++◌, length-append, none, Bool, true, false, ◌==◌, length, All, All-append,
  Bool-cases, arith,
}
use utispace_chain.Rlp.Reader.{byte_at, take, drop}
use utispace_chain.StateDb.Nibbles.{
  word_mod, slice_size, nibble, range, pack, flags, is_odd, packed, hex_prefix_encode,
  hex_prefix_encode_two, pairs, hex_prefix_encode_vector, NibbleSlice, slice_nibbles,
}
use utispace_chain.StateDb.Nibbles.Prefix.{
  length-range, IsNibble, ReadsAs, pack-pairs, packed-ReadsAs,
}

abbrev pub IsByte : ℕ → Type 0
IsByte b = b < 256

-- A view of fewer than 2^31 bytes that starts inside them.
abbrev pub IsInside : NibbleSlice → Type 0
IsInside s = All IsByte s.bytes × (s.offset ≤ length s.bytes * 2) × (length s.bytes * 2 < word_mod)

size_inside : (s : NibbleSlice) → IsInside s → slice_size s ≡ length s.bytes * 2 - s.offset
size_inside s h = omega (arith, h.1, h.2)

byte_at-IsByte : (d : List ℕ) (i : ℕ) → All IsByte d → IsByte (byte_at d i)
unfolding byte_at
byte_at-IsByte [] i v = omega arith
byte_at-IsByte (b ∷ d) zero v = v.0
byte_at-IsByte (b ∷ d) (suc i) v = byte_at-IsByte d i v.1

nibble-IsNibble : (d : List ℕ) (i : ℕ) → All IsByte d → IsNibble (nibble d i)
unfolding nibble
nibble-IsNibble d i v =
    let small : byte_at d (i / 2) < 256 = byte_at-IsByte d (i / 2) v in ground (arith, small)

range-IsNibble : (d : List ℕ) (i n : ℕ) → All IsByte d → All IsNibble (range d i n)
unfolding range
range-IsNibble d i zero v = tt
range-IsNibble d i (suc n) v = (nibble-IsNibble d i v, range-IsNibble d (suc i) n v)

take-length : (l : List ℕ) → take (length l) l ≡ l
unfolding take
take-length [] = refl
take-length (x ∷ l) = ap (λ k. x ∷ k) (take-length l)

-- Fewer than 2^32 nibbles one by one, and two at a time.
by_pairs :
    (leaf : Bool) (ns : List ℕ)
    → length ns < word_mod
    → hex_prefix_encode_vector ns leaf ≡ packed (is_odd (length ns)) leaf ns
unfolding hex_prefix_encode_vector pack byte_at drop pairs
by_pairs leaf ns few =
    let count : length ns % word_mod ≡ length ns = omega (arith, few) in
    rw (count, take-length ns) (all_read ns)
  where
    all_read :
        (ns : List ℕ)
        → (if is_odd (length ns)
            then (flags leaf (is_odd (length ns)) + byte_at ns 0) ∷ pairs (drop 1 ns)
            else flags leaf (is_odd (length ns)) ∷ pairs ns)
          ≡ packed (is_odd (length ns)) leaf ns
    all_read [] = refl
    all_read (n ∷ ns) = elim (Bool-cases (is_odd (suc (length ns)))) [
      | inl odd ↦
          let rest : length ns % 2 ≡ 0 = ground (arith, odd) in
          rw odd (sym (pack-pairs (flags leaf true + n) ns rest))
      | inr even ↦
          let all_even : length (n ∷ ns) % 2 ≡ 0 = ground (arith, even) in
          rw even (sym (pack-pairs (flags leaf false) (n ∷ ns) all_even))
    ]

same_parity : (a b : ℕ) → b ≤ a → is_odd (a + b) ≡ is_odd (a - b)
same_parity a b h = let same : (a + b) % 2 ≡ (a - b) % 2 = omega (arith, h) in ap (λ x. x == 1) same

few_nibbles :
    (s : NibbleSlice) → IsInside s → length (slice_nibbles s) ≡ length s.bytes * 2 - s.offset
few_nibbles s inside = length-range s.bytes s.offset (slice_size s) ∙ size_inside s inside

module _ (leaf : Bool) (s : NibbleSlice) (inside : IsInside s) where
  one :
      hex_prefix_encode s.bytes leaf 0 none s.offset
      ≡ packed (is_odd (length (slice_nibbles s))) leaf (slice_nibbles s)
  unfolding hex_prefix_encode
  one =
      let size = length s.bytes * 2 in
      let begin : (0 + s.offset) % word_mod ≡ s.offset = omega (arith, inside.1, inside.2) in
      let end : size % word_mod ≡ size = omega (arith, inside.2) in
      rw (begin, end, few_nibbles s inside, size_inside s inside)
        (ap (λ b. packed b leaf (range s.bytes s.offset (size - s.offset)))
          (same_parity size s.offset inside.1))

both_nibbles :
    (s t : NibbleSlice)
    → IsInside s
    → IsInside t
    → length (slice_nibbles s ++ slice_nibbles t)
      ≡ (length s.bytes * 2 - s.offset) + (length t.bytes * 2 - t.offset)
both_nibbles s t first second =
    let each = length-append (slice_nibbles s) (slice_nibbles t) in
    omega (arith, each, few_nibbles s first, few_nibbles t second)

module _ (leaf : Bool) (s t : NibbleSlice) (first : IsInside s) (second : IsInside t) where
  two :
      hex_prefix_encode_two s.bytes s.offset t.bytes t.offset leaf
      ≡ packed
          (is_odd (length (slice_nibbles s ++ slice_nibbles t)))
          leaf
          (slice_nibbles s ++ slice_nibbles t)
  unfolding hex_prefix_encode_two
  two =
      let a = length s.bytes * 2 in
      let b = length t.bytes * 2 in
      let end1 : a % word_mod ≡ a = omega (arith, first.2) in
      let end2 : b % word_mod ≡ b = omega (arith, second.2) in
      let same : (a + s.offset + b + t.offset) % 2 ≡ ((a - s.offset) + (b - t.offset)) % 2 =
        omega (arith, first.1, second.1) in
      rw (end1, end2, both_nibbles s t first second, size_inside s first, size_inside t second)
        (ap
          (λ x.
            packed (x == 1) leaf
              (range s.bytes s.offset (a - s.offset) ++ range t.bytes t.offset (b - t.offset)))
          same)

-- For two views that start inside their bytes, of fewer than 2^31 bytes together: one view encoded
-- by the nibble loop, two views encoded one behind the other, and a vector of nibbles encoded two
-- at a time are all read back by `keyOf` and `isLeaf` as the nibbles and the leaf flag that went
-- in, and the loop over one view gives the bytes that the loop over its vector gives.
pub hex_prefix_encode-ReadsAs :
    (leaf : Bool) (s t : NibbleSlice)
    → IsInside s
    → IsInside t
    → length s.bytes + length t.bytes < 2 ^ 31
    → ReadsAs leaf (slice_nibbles s) (hex_prefix_encode s.bytes leaf 0 none s.offset)
      × ReadsAs leaf
          (slice_nibbles s ++ slice_nibbles t)
          (hex_prefix_encode_two s.bytes s.offset t.bytes t.offset leaf)
      × (hex_prefix_encode_vector (slice_nibbles s) leaf
          ≡ hex_prefix_encode s.bytes leaf 0 none s.offset)
hex_prefix_encode-ReadsAs leaf s t first second total =
    let ns = slice_nibbles s in
    let ms = slice_nibbles t in
    let small : All IsNibble ns = range-IsNibble s.bytes s.offset (slice_size s) first.0 in
    let more : All IsNibble ms = range-IsNibble t.bytes t.offset (slice_size t) second.0 in
    let few : length ns < word_mod = omega (arith, few_nibbles s first, first.2) in
    let few_both : length (ns ++ ms) < word_mod =
      omega (arith, both_nibbles s t first second, total) in
    (
      rw (one leaf s first) (packed-ReadsAs leaf ns few small),
      rw (two leaf s t first second)
          (packed-ReadsAs leaf (ns ++ ms) few_both (All-append IsNibble ns ms small more)),
      by_pairs leaf ns few ∙ sym (one leaf s first),
    )
