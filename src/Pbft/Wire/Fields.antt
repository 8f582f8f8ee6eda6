-- ===== src/Pbft/Wire/Fields.antt =====
-- A message that is written, sent or stored, and read again, libpbftseal/Common.h and PBFT.cpp.
use utispace_chain.Prelude.{
  ℕ, ◌+◌, ◌^◌, ◌≤◌, ◌<◌, ◌≡◌, refl, sym, ap, ◌∙◌, inl, List, [], ◌∷◌, ◌++◌, Option, some, false,
  length, length-append, All, arith,
}
use mathlib.Core.List.{append_assoc, append-nil}
use utispace_chain.Rlp.Integer.{push_int, int_bytes}
use utispace_chain.Rlp.Reader.{to_int, payload}
use utispace_chain.Rlp.Reader.RoundTrip.{to_int-int_bytes}
use utispace_chain.Rlp.Reader.Bytes.{length-push_int}
use utispace_chain.Rlp.Stream.{new_stream, note_appended, append_int, append_bytes, data_bytes}
use utispace_chain.Rlp.Item.{very_strict, to_bytes, to_hash}
use utispace_chain.Rlp.Item.Sized.{max_payload}
use utispace_chain.Rlp.Item.Written.{
  IsItem, written-IsText, data_bytes-IsItem, length-data_bytes, data_bytes-some,
}
use utispace_chain.Rlp.Item.Typed.{
  int_bytes-IsItem, length-int_bytes, to_hash-item, fixed_hash-push_int,
}
use utispace_chain.Rlp.Index.{ListCache, new_cache, no_index, at}
use utispace_chain.Rlp.Index.Cached.{IsCache, at-cached, at-IsCache}
use utispace_chain.Rlp.Index.Nth.{joined, nth, at-nth}
use utispace_chain.Pbft.Msg.{PbftMsg}
use utispace_chain.Pbft.Wire.{stream_rlp_fields, laissez_faire, read, to_signature, populate}

-- The fields have the widths of their types.
pub record InRange (m : PbftMsg) : Type 0 where
  pub height_range : m.height < 2 ^ 256
  pub view_range : m.view < 2 ^ 256
  pub idx_range : m.idx < 2 ^ 256
  pub timestamp_range : m.timestamp < 2 ^ 256
  pub hash_range : m.block_hash < 2 ^ 256
  pub sig_range : m.sig < 2 ^ 520
  pub sig2_range : m.sig2 < 2 ^ 520

-- An encoding of a byte string that fits.
pub record TextOf (p : List ℕ) : Type 0 where
  pub text : List ℕ
  pub small : length p < max_payload
  pub is_text : data_bytes p ≡ some text

pub text_of : (p : List ℕ) → length p < max_payload → TextOf p
text_of p h = let (e, d) = data_bytes-some p h in record { text = e; small = h; is_text = d }

pub append_text :
    (p : List ℕ) (t : TextOf p) (o : List ℕ)
    → append_bytes false p record { out = o; list_stack = [] }
      ≡ some record { out = o ++ t.text; list_stack = [] }
unfolding append_bytes note_appended
append_text p t o = ground (arith, t.is_text)

pub text-size : (p : List ℕ) (t : TextOf p) → length t.text ≤ length p + 9
text-size p t = (length-data_bytes p t.text t.small t.is_text).1

append_number :
    (n : ℕ) (o : List ℕ)
    → append_int n record { out = o; list_stack = [] }
      ≡ some record { out = o ++ int_bytes n; list_stack = [] }
unfolding append_int note_appended
append_number n o = refl

module _ (m : PbftMsg) (ok : InRange m) where
  pub hash_text : TextOf (push_int 32 m.block_hash)
  hash_text = text_of (push_int 32 m.block_hash) (omega (arith, length-push_int 32 m.block_hash))

  pub sig_text : TextOf (push_int 65 m.sig)
  sig_text = text_of (push_int 65 m.sig) (omega (arith, length-push_int 65 m.sig))

  pub sig2_text : TextOf (push_int 65 m.sig2)
  sig2_text = text_of (push_int 65 m.sig2) (omega (arith, length-push_int 65 m.sig2))

  abbrev pub field_items : List (List ℕ) → List (List ℕ)
  field_items more =
      int_bytes m.height
      ∷ int_bytes m.view
      ∷ int_bytes m.idx
      ∷ int_bytes m.timestamp
      ∷ hash_text.text
      ∷ sig_text.text
      ∷ sig2_text.text
      ∷ more

  abbrev pub all_fields : List ℕ
  all_fields =
      (((((int_bytes m.height ++ int_bytes m.view) ++ int_bytes m.idx) ++ int_bytes m.timestamp)
          ++ hash_text.text)
        ++ sig_text.text)
      ++ sig2_text.text

  pub written : stream_rlp_fields m new_stream ≡ some record { out = all_fields; list_stack = [] }
  unfolding stream_rlp_fields append_int note_appended
  written =
      rw
        (
          stream_rlp_fields,
          append_text (push_int 32 m.block_hash) hash_text,
          append_text (push_int 65 m.sig) sig_text,
          append_text (push_int 65 m.sig2) sig2_text,
        )
        refl

  pub regrouped : (more : List (List ℕ)) → all_fields ++ joined more ≡ joined (field_items more)
  regrouped more = simp append_assoc refl

  pub total : length all_fields ≤ 400
  total =
      let s6 =
        length-append
          (((((int_bytes m.height ++ int_bytes m.view) ++ int_bytes m.idx) ++ int_bytes m.timestamp)
              ++ hash_text.text)
            ++ sig_text.text)
          sig2_text.text in
      let s5 =
        length-append
          ((((int_bytes m.height ++ int_bytes m.view) ++ int_bytes m.idx) ++ int_bytes m.timestamp)
            ++ hash_text.text)
          sig_text.text in
      let s4 =
        length-append
          (((int_bytes m.height ++ int_bytes m.view) ++ int_bytes m.idx) ++ int_bytes m.timestamp)
          hash_text.text in
      let s3 =
        length-append ((int_bytes m.height ++ int_bytes m.view) ++ int_bytes m.idx)
          (int_bytes m.timestamp) in
      let s2 = length-append (int_bytes m.height ++ int_bytes m.view) (int_bytes m.idx) in
      let s1 = length-append (int_bytes m.height) (int_bytes m.view) in
      omega (
        arith,
        s1,
        s2,
        s3,
        s4,
        s5,
        s6,
        length-int_bytes m.height ok.height_range,
        length-int_bytes m.view ok.view_range,
        length-int_bytes m.idx ok.idx_range,
        length-int_bytes m.timestamp ok.timestamp_range,
        text-size (push_int 32 m.block_hash) hash_text,
        text-size (push_int 65 m.sig) sig_text,
        text-size (push_int 65 m.sig2) sig2_text,
        length-push_int 32 m.block_hash,
        length-push_int 65 m.sig,
        length-push_int 65 m.sig2,
      )

-- One field is read, and the cache stays one that `operator[]` has left.
pub read-item {ℓ} :
    {A : Type ℓ} (convert : List ℕ → Option A) (d : List ℕ) (es : List (List ℕ)) (i : ℕ)
    (c : ListCache) (v : A)
    → payload d ≡ some (joined es)
    → All IsItem es
    → i < no_index
    → IsCache d c
    → convert (nth es i) ≡ some v
    → (next : ListCache) × (read convert d i c ≡ some (v, next)) × IsCache d next
unfolding read
read-item convert d es i c v h is g k e =
    let (next, f) = at-nth d es i h is g in
    let cached : at d i c ≡ some (nth es i, next) = at-cached d i c g k ∙ f in
    (next, rw (cached, e) refl, at-IsCache d i c next (nth es i) g k cached)

-- A byte string is read whole, whatever the flags.
pub text-bytes : (p : List ℕ) (t : TextOf p) → to_bytes laissez_faire t.text ≡ some p
text-bytes p t =
    ap (to_bytes laissez_faire) (sym (append-nil t.text))
    ∙ (written-IsText p t.text [] t.small t.is_text).1 laissez_faire

signature : (n : ℕ) (t : TextOf (push_int 65 n)) → n < 2 ^ 520 → to_signature t.text ≡ some n
unfolding to_signature
signature n t h = rw (text-bytes (push_int 65 n) t) (ap some (fixed_hash-push_int n h))

pub text-IsItem : (p : List ℕ) (t : TextOf p) → IsItem t.text
text-IsItem p t = data_bytes-IsItem p t.text t.small t.is_text

module _ (m : PbftMsg) (ok : InRange m) where
  pub field_items-All :
      (more : List (List ℕ)) → All IsItem more → All IsItem (field_items m ok more)
  field_items-All more h =
      let hash = text-IsItem (push_int 32 m.block_hash) (hash_text m ok) in
      let sig = text-IsItem (push_int 65 m.sig) (sig_text m ok) in
      let sig2 = text-IsItem (push_int 65 m.sig2) (sig2_text m ok) in
      let number = int_bytes-IsItem in
      (
        number m.height ok.height_range,
        (
          number m.view ok.view_range,
          (
            number m.idx ok.idx_range,
            (number m.timestamp ok.timestamp_range, (hash, (sig, (sig2, h)))),
          ),
        ),
      )

  pub populated :
      (d : List ℕ) (more : List (List ℕ))
      → All IsItem more
      → payload d ≡ some (joined (field_items m ok more))
      → (c : ListCache) × (populate d new_cache ≡ some (m, c)) × IsCache d c
  unfolding populate
  populated d more h p =
      let es = field_items m ok more in
      let is = field_items-All more h in
      let (c0, e0, k0) =
        read-item to_int d es 0 new_cache m.height p is (omega arith) (inl refl)
          (to_int-int_bytes m.height ok.height_range) in
      let (c1, e1, k1) =
        read-item to_int d es 1 c0 m.view p is (omega arith) k0
          (to_int-int_bytes m.view ok.view_range) in
      let (c2, e2, k2) =
        read-item to_int d es 2 c1 m.idx p is (omega arith) k1
          (to_int-int_bytes m.idx ok.idx_range) in
      let (c3, e3, k3) =
        read-item to_int d es 3 c2 m.timestamp p is (omega arith) k2
          (to_int-int_bytes m.timestamp ok.timestamp_range) in
      let (c4, e4, k4) =
        read-item (to_hash 32 very_strict) d es 4 c3 m.block_hash p is (omega arith) k3 (
          to_hash-item m.block_hash (hash_text m ok).text ok.hash_range (hash_text m ok).is_text) in
      let (c5, e5, k5) =
        read-item to_signature d es 5 c4 m.sig p is (omega arith) k4
          (signature m.sig (sig_text m ok) ok.sig_range) in
      let (c6, e6, k6) =
        read-item to_signature d es 6 c5 m.sig2 p is (omega arith) k5
          (signature m.sig2 (sig2_text m ok) ok.sig2_range) in
      (c6, rw (populate, e0, e1, e2, e3, e4, e5, e6) refl, k6)
