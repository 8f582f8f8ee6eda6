-- ===== src/StateDb/Nibbles/Prefix.antt =====
-- A key that is encoded with its prefix is read again, libdevcore/TrieCommon.h and TrieCommon.cpp.
use utispace_chain.Prelude.{
  ℕ, zero, suc, ◌+◌, ◌*◌, ◌/◌, ◌%◌, ◌<◌, ◌≡◌, refl, ap, ◌∙◌, inl, inr, List, [], ◌∷◌, Bool, true,
  false, if◌then◌else◌, length, All, Bool-cases, arith,
}
use utispace_chain.Rlp.Reader.{byte_at}
use utispace_chain.StateDb.Nibbles.{
  word_mod, slice_size, nibble, range, pack, flags, is_odd, packed, pairs, slice_nibbles,
  key_of_hpe, is_leaf,
}

-- The two halves of every byte.
abbrev pub halves : List ℕ → List ℕ
halves [] = []
halves (b ∷ bs) = b / 16 ∷ b % 16 ∷ halves bs

abbrev pub IsNibble : ℕ → Type 0
IsNibble n = n < 16

pub length-range : (d : List ℕ) (i n : ℕ) → length (range d i n) ≡ n
unfolding range
length-range d i zero = refl
length-range d i (suc n) = ap suc (length-range d (suc i) n)

nibble-later : (b : ℕ) (bs : List ℕ) (i : ℕ) → nibble (b ∷ bs) (suc (suc i)) ≡ nibble bs i
unfolding nibble byte_at
nibble-later b bs i =
    let half : suc (suc i) / 2 ≡ suc (i / 2) = omega arith in
    let side : suc (suc i) % 2 ≡ i % 2 = omega arith in rw (half, side) refl

range-later : (b : ℕ) (bs : List ℕ) (i n : ℕ) → range (b ∷ bs) (suc (suc i)) n ≡ range bs i n
unfolding range
range-later b bs i zero = refl
range-later b bs i (suc n) = rw (nibble-later b bs i, range-later b bs (suc i) n) refl

range-two :
    (b : ℕ) (bs : List ℕ) (n : ℕ) → range (b ∷ bs) 0 (suc (suc n)) ≡ b / 16 ∷ b % 16 ∷ range bs 0 n
unfolding range nibble byte_at
range-two b bs n = ap (λ l. b / 16 ∷ b % 16 ∷ l) (range-later b bs 0 n)

range-all : (d : List ℕ) → range d 0 (length d * 2) ≡ halves d
range-all [] = unfold range in refl
range-all (b ∷ bs) =
    let size : length (b ∷ bs) * 2 ≡ suc (suc (length bs * 2)) = omega arith in
    ap (range (b ∷ bs) 0) size
    ∙ range-two b bs (length bs * 2)
    ∙ ap (λ l. b / 16 ∷ b % 16 ∷ l) (range-all bs)

range-one : (b : ℕ) (bs : List ℕ) (n : ℕ) → range (b ∷ bs) 1 (suc n) ≡ b % 16 ∷ range bs 0 n
unfolding range nibble byte_at
range-one b bs n = ap (λ l. b % 16 ∷ l) (range-later b bs 0 n)

-- What a slice behind the flags reads.
after_flag :
    (b : ℕ) (bs : List ℕ)
    → suc (length bs * 2) < word_mod
    → slice_nibbles record { bytes = b ∷ bs; offset = 1 } ≡ b % 16 ∷ halves bs
after_flag b bs h =
    let size : slice_size record { bytes = b ∷ bs; offset = 1 } ≡ suc (length bs * 2) =
      omega (arith, h) in
    ap (range (b ∷ bs) 1) size
    ∙ range-one b bs (length bs * 2)
    ∙ ap (λ l. b % 16 ∷ l) (range-all bs)

after_byte :
    (b : ℕ) (bs : List ℕ)
    → length bs * 2 < word_mod
    → slice_nibbles record { bytes = b ∷ bs; offset = 2 } ≡ halves bs
after_byte b bs h =
    let size : slice_size record { bytes = b ∷ bs; offset = 2 } ≡ length bs * 2 =
      omega (arith, h) in
    ap (range (b ∷ bs) 2) size ∙ range-later b bs 0 (length bs * 2) ∙ range-all bs

length-pairs : (ns : List ℕ) → length ns % 2 ≡ 0 → length (pairs ns) * 2 ≡ length ns
unfolding pairs
length-pairs [] h = refl
length-pairs (n ∷ []) h = absurd (omega (arith, h))
length-pairs (n ∷ m ∷ ns) h = let ih = length-pairs ns (omega (arith, h)) in omega (arith, ih)

-- The bytes behind the first one, two nibbles each.
pub pack-pairs : (last : ℕ) (ns : List ℕ) → length ns % 2 ≡ 0 → pack false last ns ≡ last ∷ pairs ns
unfolding pack pairs
pack-pairs last [] h = refl
pack-pairs last (n ∷ []) h = absurd (omega (arith, h))
pack-pairs last (n ∷ m ∷ ns) h = ap (λ l. last ∷ l) (pack-pairs (n * 16 + m) ns (omega (arith, h)))

halves-pairs : (ns : List ℕ) → length ns % 2 ≡ 0 → All IsNibble ns → halves (pairs ns) ≡ ns
unfolding pairs
halves-pairs [] h v = refl
halves-pairs (n ∷ []) h v = absurd (omega (arith, h))
halves-pairs (n ∷ m ∷ ns) h v =
    let high : (n * 16 + m) / 16 ≡ n = omega (arith, v.1.0) in
    let low : (n * 16 + m) % 16 ≡ m = omega (arith, v.1.0) in
    rw (high, low) (ap (λ l. n ∷ m ∷ l) (halves-pairs ns (omega (arith, h)) v.1.1))

-- What is read of an encoding.
abbrev pub ReadsAs : Bool → List ℕ → List ℕ → Type 0
ReadsAs leaf ns e = (slice_nibbles (key_of_hpe e) ≡ ns) × (is_leaf e ≡ leaf)

even_key :
    (b : ℕ) (bs : List ℕ)
    → b / 16 % 2 ≡ 0
    → key_of_hpe (b ∷ bs) ≡ record { bytes = b ∷ bs; offset = 2 }
unfolding key_of_hpe byte_at
even_key b bs h = ground (arith, h)

odd_key :
    (b : ℕ) (bs : List ℕ)
    → b / 16 % 2 ≡ 1
    → key_of_hpe (b ∷ bs) ≡ record { bytes = b ∷ bs; offset = 1 }
unfolding key_of_hpe byte_at
odd_key b bs h = ground (arith, h)

leaf_bit :
    (b : ℕ) (bs : List ℕ) (leaf : Bool)
    → b / 32 % 2 ≡ (if leaf then 1 else 0)
    → is_leaf (b ∷ bs) ≡ leaf
unfolding is_leaf byte_at
leaf_bit b bs true h = ground (arith, h)
leaf_bit b bs false h = ground (arith, h)

even-ReadsAs :
    (leaf : Bool) (ns : List ℕ)
    → length ns < word_mod
    → length ns % 2 ≡ 0
    → All IsNibble ns
    → ReadsAs leaf ns (flags leaf false ∷ pairs ns)
even-ReadsAs leaf ns few h v = (
  ap slice_nibbles (even_key (flags leaf false) (pairs ns) (even_flag leaf))
      ∙ after_byte (flags leaf false) (pairs ns) (omega (arith, few, length-pairs ns h))
      ∙ halves-pairs ns h v,
  leaf_bit (flags leaf false) (pairs ns) leaf (flag leaf),
)
  where
    even_flag : (leaf : Bool) → flags leaf false / 16 % 2 ≡ 0
    even_flag true = omega arith
    even_flag false = omega arith

    flag : (leaf : Bool) → flags leaf false / 32 % 2 ≡ (if leaf then 1 else 0)
    flag true = omega arith
    flag false = omega arith

odd-ReadsAs :
    (leaf : Bool) (n : ℕ) (ns : List ℕ)
    → suc (length ns) < word_mod
    → length ns % 2 ≡ 0
    → IsNibble n
    → All IsNibble ns
    → ReadsAs leaf (n ∷ ns) ((flags leaf true + n) ∷ pairs ns)
odd-ReadsAs leaf n ns few h small v =
    let b = flags leaf true + n in
    (
      ap slice_nibbles (odd_key b (pairs ns) (odd_flag leaf n small))
          ∙ after_flag b (pairs ns) (omega (arith, few, length-pairs ns h))
          ∙ rw (low_half leaf n small) (ap (λ l. n ∷ l) (halves-pairs ns h v)),
      leaf_bit b (pairs ns) leaf (flag leaf n small),
    )
  where
    odd_flag : (leaf : Bool) (n : ℕ) → IsNibble n → (flags leaf true + n) / 16 % 2 ≡ 1
    odd_flag true n h = omega (arith, h)
    odd_flag false n h = omega (arith, h)

    low_half : (leaf : Bool) (n : ℕ) → IsNibble n → (flags leaf true + n) % 16 ≡ n
    low_half true n h = omega (arith, h)
    low_half false n h = omega (arith, h)

    flag :
        (leaf : Bool) (n : ℕ)
        → IsNibble n
        → (flags leaf true + n) / 32 % 2 ≡ (if leaf then 1 else 0)
    flag true n h = omega (arith, h)
    flag false n h = omega (arith, h)

-- Fewer than 2^32 nibbles, packed behind the flags.
pub packed-ReadsAs :
    (leaf : Bool) (ns : List ℕ)
    → length ns < word_mod
    → All IsNibble ns
    → ReadsAs leaf ns (packed (is_odd (length ns)) leaf ns)
unfolding pack pairs
packed-ReadsAs leaf [] few v = even-ReadsAs leaf [] (omega arith) refl tt
packed-ReadsAs leaf (n ∷ ns) few v = elim (Bool-cases (is_odd (suc (length ns)))) [
  | inl odd ↦
      let rest : length ns % 2 ≡ 0 = ground (arith, odd) in
      rw (odd, pack-pairs (flags leaf true + n) ns rest)
        (odd-ReadsAs leaf n ns (omega (arith, few)) rest v.0 v.1)
  | inr even ↦
      let all_even : length (n ∷ ns) % 2 ≡ 0 = ground (arith, even) in
      rw (even, pack-pairs (flags leaf false) (n ∷ ns) all_even)
        (even-ReadsAs leaf (n ∷ ns) few all_even v)
]
