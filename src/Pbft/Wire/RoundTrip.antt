-- ===== src/Pbft/Wire/RoundTrip.antt =====
-- A message that is sent or stored, and read again, libpbftseal/Common.h and PBFT.cpp.
use utispace_chain.Prelude.{
  ℕ, ◌^◌, ◌<◌, ◌≡◌, refl, sym, ap, ◌∙◌, inl, inr, List, [], ◌∷◌, ◌++◌, Option, some, length,
  length-append, All, ◌>>=◌, Option-cases, arith,
}
use mathlib.Core.List.{append-nil}
use utispace_chain.Rlp.Reader.{payload, take, drop}
use utispace_chain.Rlp.Stream.{
  RlpStream, new_stream, note_appended, append_bytes, append_list, stream_out, data_bytes,
  list_bytes, list_header,
}
use utispace_chain.Rlp.Item.{very_strict, to_bytes, size_as_encoded}
use utispace_chain.Rlp.Item.Written.{
  IsItem, written-IsText, written-IsListOf, list_bytes-some, rlp-sized,
}
use utispace_chain.Rlp.Item.Typed.{text-payload}
use utispace_chain.Rlp.Index.{ListCache, new_cache, at}
use utispace_chain.Rlp.Index.Nth.{joined, at-nth}
use utispace_chain.Pbft.Msg.{PbftMsg, PrepareReq}
use utispace_chain.Pbft.Wire.{
  stream_rlp_fields, stream_prepare_fields, laissez_faire, populate, populate_prepare, one_item,
  packet_of, receive, reload,
}
use utispace_chain.Pbft.Wire.Fields.{
  InRange, TextOf, text_of, text-size, text-bytes, text-IsItem, append_text, read-item, field_items,
  all_fields, written, regrouped, total, field_items-All, populated,
}

-- The list with one item.
one_item-list :
    (l e r : List ℕ) → data_bytes l ≡ some e → list_bytes e ≡ some r → one_item l ≡ some r
unfolding one_item append_list append_bytes note_appended list_bytes take drop stream_out
one_item-list l e r d b = elim (Option-cases (list_header (length e))) [
  | inl n ↦ absurd (ground (arith, n, b))
  | inr (h, q) ↦ ground (arith, d, b, q)
]

-- What was wrapped in a list, once it is unwrapped.
abbrev Wrapped : List ℕ → Type 0
Wrapped l =
    (r : List ℕ) × (e : List ℕ) × (c : ListCache) × (one_item l ≡ some r)
    × (size_as_encoded r ≡ some (length r))
    × (at r 0 new_cache ≡ some (e, c))
    × (size_as_encoded e ≡ some (length e))
    × (payload e ≡ some l)

wrapped : (l : List ℕ) → length l < 2 ^ 63 → Wrapped l
wrapped l small =
    let t = text_of l (omega (arith, small)) in
    let (r, b) = list_bytes-some t.text (omega (arith, small, text-size l t)) in
    let (s, p, _) = written-IsListOf t.text r [] (omega (arith, small, text-size l t)) b in
    let (u, v) = written-IsText l t.text [] t.small t.is_text in
    let whole = append-nil t.text in
    let alone : payload r ≡ some (joined (t.text ∷ [])) =
      ap payload (sym (append-nil r)) ∙ p ∙ ap some (sym whole) in
    let (c, f) = at-nth r (t.text ∷ []) 0 alone (text-IsItem l t, tt) (omega arith) in
    let (_, q) = text-payload t.text l (ap (to_bytes very_strict) (sym whole) ∙ v very_strict) in
    (
      r,
      t.text,
      c,
      one_item-list l t.text r t.is_text b,
      ap size_as_encoded (sym (append-nil r)) ∙ s,
      f,
      ap size_as_encoded (sym whole) ∙ u,
      q,
    )

-- What is written, sent and read, given how it is written and read.
module _ {A : Type 0} (write : RlpStream → Option RlpStream)
    (read_all : List ℕ → ListCache → Option (A × ListCache)) (l : List ℕ) (a : A)
    (out : write new_stream ≡ some record { out = l; list_stack = [] }) (small : length l < 2 ^ 63)
    (reads : (d : List ℕ)
      → payload d ≡ some l
      → (c : ListCache) × (read_all d new_cache ≡ some (a, c))) where
  sent :
      (r : List ℕ) × (packet_of write ≡ some r)
      × (receive read_all r ≡ some a)
      × (reload read_all r ≡ some a)
  unfolding stream_out receive reload
  sent =
      let (r, e, c, o, whole, item, exact, p) = wrapped l small in
      let (c1, f) = reads e p in
      (
        r,
        rw (out, ◌>>=◌) o,
        rw (receive, item, rlp-sized very_strict e exact, f) refl,
        rw (reload, rlp-sized very_strict r whole, item, f) refl,
      )

module _ (p : PrepareReq) (ok : InRange p.msg) (t : TextOf p.block) where
  prepare-written :
      stream_prepare_fields p new_stream
      ≡ some record { out = all_fields p.msg ok ++ t.text; list_stack = [] }
  unfolding stream_prepare_fields
  prepare-written = rw (written p.msg ok) (append_text p.block t (all_fields p.msg ok))

  prepare-populated :
      (d : List ℕ)
      → payload d ≡ some (joined (field_items p.msg ok (t.text ∷ [])))
      → (c : ListCache) × (populate_prepare d new_cache ≡ some (p, c))
  unfolding populate_prepare
  prepare-populated d h =
      let more : All IsItem (t.text ∷ []) = (text-IsItem p.block t, tt) in
      let (c, e, k) = populated p.msg ok d (t.text ∷ []) more h in
      let (next, f, _) =
        read-item (to_bytes laissez_faire) d (field_items p.msg ok (t.text ∷ [])) 7 c p.block h
          (field_items-All p.msg ok (t.text ∷ []) more) (omega arith) k (text-bytes p.block t) in
      (next, rw (e, f) refl)

-- What the two ends make of a message.
abbrev pub Arrives {ℓ} :
    {A : Type ℓ}
    → (RlpStream → Option RlpStream)
    → (List ℕ → ListCache → Option (A × ListCache))
    → A
    → Type ℓ
Arrives write read_all a =
    ((packet_of write >>= receive read_all) ≡ some a)
    × ((packet_of write >>= reload read_all) ≡ some a)

sent-Arrives :
    {A : Type 0} (write : RlpStream → Option RlpStream)
    (read_all : List ℕ → ListCache → Option (A × ListCache)) (a : A)
    → (r : List ℕ) × (packet_of write ≡ some r)
      × (receive read_all r ≡ some a)
      × (reload read_all r ≡ some a)
    → Arrives write read_all a
sent-Arrives write read_all a (r, s, g, h) =
    (ap (λ o. o >>= receive read_all) s ∙ g, ap (λ o. o >>= reload read_all) s ∙ h)

-- A message whose fields have the widths of their types, streamed and sent, or streamed and stored,
-- is read by the receiver, and by the reload, as the same message.
pub message-Arrives : (m : PbftMsg) → InRange m → Arrives (stream_rlp_fields m) populate m
message-Arrives m ok =
    let l = all_fields m ok in
    let same : l ≡ joined (field_items m ok []) = sym (append-nil l) ∙ regrouped m ok [] in
    sent-Arrives (stream_rlp_fields m) populate m (
      sent (stream_rlp_fields m) populate l m (written m ok) (omega (arith, total m ok))
        (λ d p. let (c, e, _) = populated m ok d [] tt (p ∙ ap some same) in (c, e)))

-- A prepare request whose fields have the widths of their types and whose block is shorter than
-- 2 ^ 62 bytes, streamed and sent, or streamed and stored, is read by the receiver, and by the
-- reload, as the same request.
pub prepare-Arrives :
    (p : PrepareReq)
    → InRange p.msg
    → length p.block < 2 ^ 62
    → Arrives (stream_prepare_fields p) populate_prepare p
prepare-Arrives p ok short =
    let m = p.msg in
    let t = text_of p.block (omega (arith, short)) in
    let l = all_fields m ok ++ t.text in
    let same : l ≡ joined (field_items m ok (t.text ∷ [])) =
      ap (λ k. all_fields m ok ++ k) (sym (append-nil t.text)) ∙ regrouped m ok (t.text ∷ []) in
    sent-Arrives (stream_prepare_fields p) populate_prepare p (
      sent (stream_prepare_fields p) populate_prepare l p (prepare-written p ok t)
        (omega
          (arith, total m ok, short, text-size p.block t, length-append (all_fields m ok) t.text))
        (λ d q. prepare-populated p ok t d (q ∙ ap some same)))
