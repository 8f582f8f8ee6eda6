-- ===== src/Rlp/Reader/Bytes.antt =====
-- The bytes of an integer: `bytesRequired` and `fromBigEndian` of libdevcore/CommonData.h, and
-- `pushInt` of libdevcore/RLP.h.
use mathlib.Core.WellFounded.{Acc}
use mathlib.Core.Logic.{dite}
use native.Mathlib.Decide.{dec_lt}
use native.Mathlib.Nat.{mod-eq_of_lt}
use utispace_chain.Prelude.{
  ℕ, zero, suc, ◌+◌, ◌*◌, ◌/◌, ◌%◌, ◌^◌, ◌≤◌, ◌<◌, ◌≡◌, ◌≢◌, refl, sym, ap, ◌∙◌, List, [], ◌∷◌,
  ◌++◌, length, length-append, arith,
}
use utispace_chain.Rlp.Integer.{lt_wf, bytes_required_loop, bytes_required, push_int}
use utispace_chain.Rlp.Reader.{byte_at, take, drop, from_big_endian}

-- The number of values of `k` bytes.
unfoldable pub span : ℕ → ℕ
span zero = 1
span (suc k) = span k * 256

dite-intro {κ} :
    {A C : Type 0} (P : C → Type κ) (d : Dec A) (f : A → C) (g : ¬ A → C)
    → ((a : A) → P (f a))
    → ((na : ¬ A) → P (g na))
    → P (dite d f g)
dite-intro P (yes a) f g hf hg = hf a
dite-intro P (no na) f g hf hg = hg na

loop_covers : (n : ℕ) (a : Acc ◌<◌ n) → n < span (bytes_required_loop n a)
unfolding bytes_required_loop span
loop_covers n (Acc.intro _ smaller) =
    dite-intro (λ r. n < span r) (dec_lt 0 n) _ _
      (λ h. omega (arith, loop_covers (n / 256) (smaller _ (omega arith)))) (λ h. omega (arith, h))

-- No more bytes are used than the number needs.
abbrev pub Bounded : ℕ → ℕ → Type 0
Bounded n r = (k : ℕ) → n < span k → r ≤ k

one_more : (n r : ℕ) → 0 < n → Bounded (n / 256) r → Bounded n (suc r)
unfolding span
one_more n r p b zero h = absurd (omega (arith, p, h))
one_more n r p b (suc k) h = omega (arith, b k (omega (arith, h)))

loop_needed : (n : ℕ) (a : Acc ◌<◌ n) → Bounded n (bytes_required_loop n a)
unfolding bytes_required_loop
loop_needed n (Acc.intro _ smaller) =
    dite-intro (Bounded n) (dec_lt 0 n) _ _
      (λ h. one_more n _ h (loop_needed (n / 256) (smaller _ (omega arith))))
      (λ h k low. omega arith)

pub length-push_int : (k n : ℕ) → length (push_int k n) ≡ k
unfolding push_int
length-push_int zero n = refl
length-push_int (suc k) n =
    omega
      (arith, length-append (push_int k (n / 256)) ((n % 256) ∷ []), length-push_int k (n / 256))

from_big_endian-append :
    (w r b : ℕ) (l : List ℕ)
    → from_big_endian w r (l ++ (b ∷ [])) ≡ (from_big_endian w r l * 256 + b) % 2 ^ w
unfolding from_big_endian
from_big_endian-append w r b [] = refl
from_big_endian-append w r b (x ∷ xs) = from_big_endian-append w ((r * 256 + x) % 2 ^ w) b xs

-- The bytes of a number that fits are read as the number, in an integer of `w` bits.
pub from_big_endian-push_int :
    (w k n : ℕ) → n < span k → n < 2 ^ w → from_big_endian w 0 (push_int k n) ≡ n
unfolding push_int span from_big_endian
from_big_endian-push_int w zero n h small = omega (arith, h)
from_big_endian-push_int w (suc k) n h small =
    let e = from_big_endian-append w 0 (n % 256) (push_int k (n / 256)) in
    let i = from_big_endian-push_int w k (n / 256) (omega (arith, h)) (omega (arith, small)) in
    let whole : n / 256 * 256 + n % 256 ≡ n = omega arith in rw (e, i, whole) (mod-eq_of_lt small)

byte_at-append : (b : ℕ) (xs ys : List ℕ) → byte_at ((b ∷ xs) ++ ys) 0 ≡ b
unfolding byte_at
byte_at-append b xs ys = refl

pub first-append : (xs ys : List ℕ) → 0 < length xs → byte_at (xs ++ ys) 0 ≡ byte_at xs 0
unfolding byte_at
first-append [] ys h = absurd (omega (arith, h))
first-append (x ∷ xs) ys h = refl

-- The first byte that is written is not zero, and it is the number itself if it is the only one.
pub push_int-leads : (k n : ℕ) → span k ≤ n → n < span (suc k) → byte_at (push_int (suc k) n) 0 ≢ 0
unfolding push_int byte_at span
push_int-leads zero n h low e = omega (arith, e, h, low)
push_int-leads (suc k) n h low e =
    let l = push_int (suc k) (n / 256) in
    push_int-leads k (n / 256) (omega (arith, h)) (omega (arith, low))
      (sym (first-append l ((n % 256) ∷ []) (omega (arith, length-push_int (suc k) (n / 256)))) ∙ e)

pub push_int-only : (n : ℕ) → n < 256 → byte_at (push_int 1 n) 0 ≡ n
unfolding push_int byte_at
push_int-only n h = omega (arith, h)

pub take-all : (l : List ℕ) → take (length l) l ≡ l
unfolding take
take-all [] = refl
take-all (x ∷ xs) = ap (λ t. x ∷ t) (take-all xs)

pub take-append : (o a : List ℕ) → take (length o) (o ++ a) ≡ o
unfolding take
take-append [] a = refl
take-append (x ∷ o) a = ap (λ l. x ∷ l) (take-append o a)

pub drop-append : (o a : List ℕ) → drop (length o) (o ++ a) ≡ a
unfolding drop
drop-append [] a = refl
drop-append (x ∷ o) a = drop-append o a

pub span_32 : span 32 ≡ 2 ^ 256
unfolding span
span_32 = refl

pub bytes_required-covers : (n : ℕ) → n < span (bytes_required n)
unfolding bytes_required
bytes_required-covers n = loop_covers n (lt_wf.apply n)

pub bytes_required-needed : (n : ℕ) → Bounded n (bytes_required n)
unfolding bytes_required
bytes_required-needed n = loop_needed n (lt_wf.apply n)
