-- ===== src/Pbft/Wire.antt =====
-- The bytes of messages: `streamRLPFields` and `populate` of libpbftseal/Common.h, what
-- `broadcastMsg` and `onPBFTMsg` wrap around them, and `backupMsg` and `reloadMsg` of
-- libpbftseal/PBFT.cpp. An exception is `none`.
pub mod Fields
pub mod RoundTrip
use utispace_chain.Prelude.{ℕ, ◌*◌, List, [], Option, none, some, Bool, true, false, ◌>>=◌}
use utispace_chain.Rlp.Integer.{push_int}
use utispace_chain.Rlp.Reader.{to_int}
use utispace_chain.Rlp.Stream.{
  RlpStream, new_stream, append_int, append_bytes, append_list, stream_out,
}
use utispace_chain.Rlp.Item.{Strictness, very_strict, rlp, to_bytes, to_hash}
use utispace_chain.Rlp.Item.Typed.{fixed_hash}
use utispace_chain.Rlp.Index.{ListCache, new_cache, at}
use utispace_chain.Pbft.Msg.{PbftMsg, PrepareReq}

-- `PBFTMsg::streamRLPFields`: a hash and a signature go as all their bytes.
unfoldable pub stream_rlp_fields : PbftMsg → RlpStream → Option RlpStream
stream_rlp_fields m s = do
  s1 ← append_int m.height s
  s2 ← append_int m.view s1
  s3 ← append_int m.idx s2
  s4 ← append_int m.timestamp s3
  s5 ← append_bytes false (push_int 32 m.block_hash) s4
  s6 ← append_bytes false (push_int 65 m.sig) s5
  append_bytes false (push_int 65 m.sig2) s6

-- `PrepareReq::streamRLPFields`
unfoldable pub stream_prepare_fields : PrepareReq → RlpStream → Option RlpStream
stream_prepare_fields p s = do t ← stream_rlp_fields p.msg s; append_bytes false p.block t

-- The flags of a conversion that names none.
abbrev pub laissez_faire : Strictness
laissez_faire = record {
  allow_non_canon = true;
  throw_on_fail = false;
  fail_if_too_big = false;
  fail_if_too_small = false;
}

-- A conversion of `_rlp[_i]`, and the cache of `_rlp` afterwards.
unfoldable pub read {ℓ} :
    {A : Type ℓ} → (List ℕ → Option A) → List ℕ → ℕ → ListCache → Option (A × ListCache)
read convert d i c = do r ← at d i c; v ← convert (r.0); some (v, r.1)

-- `Signature(_rlp[_i].toBytesConstRef())`
unfoldable pub to_signature : List ℕ → Option ℕ
to_signature d = do p ← to_bytes laissez_faire d; some (fixed_hash 65 p)

-- `PBFTMsg::populate`. Its handler of an exception reads the field again for the error's text; it ends
-- with an exception, that one or a new one.
unfoldable pub populate : List ℕ → ListCache → Option (PbftMsg × ListCache)
populate d c = do
  height ← read to_int d 0 c
  view ← read to_int d 1 (height.1)
  idx ← read to_int d 2 (view.1)
  timestamp ← read to_int d 3 (idx.1)
  block_hash ← read (to_hash 32 very_strict) d 4 (timestamp.1)
  sig ← read to_signature d 5 (block_hash.1)
  sig2 ← read to_signature d 6 (sig.1)
  some (
    record {
      height = height.0;
      view = view.0;
      idx = idx.0;
      timestamp = timestamp.0;
      block_hash = block_hash.0;
      sig = sig.0;
      sig2 = sig2.0;
    },
    sig2.1,
  )

-- `PrepareReq::populate`
unfoldable pub populate_prepare : List ℕ → ListCache → Option (PrepareReq × ListCache)
populate_prepare d c = do
  m ← populate d c
  block ← read (to_bytes laissez_faire) d 7 (m.1)
  some (record { msg = m.0; block = block.0 }, block.1)

-- `ts.out()` of a stream that has the fields.
abbrev pub fields : (RlpStream → Option RlpStream) → Option (List ℕ)
fields write = do s ← write new_stream; stream_out s

-- The fields as the one item of a list: a packet of `broadcastMsg`, and the record of `backupMsg`.
unfoldable pub one_item : List ℕ → Option (List ℕ)
one_item l = do s ← append_list 1 new_stream; t ← append_bytes false l s; stream_out t

-- `streamRLPFields` into `ts`, and `ts.out()` as the one item of the list that is sent or stored.
abbrev pub packet_of : (RlpStream → Option RlpStream) → Option (List ℕ)
packet_of write = do l ← fields write; one_item l

-- `_r[0].data()` of `onPBFTMsg`, then `RLP(ret.second.data)` of `workLoop`, whose checks are strict,
-- from which `handleMsg` reads the message.
unfoldable pub receive {ℓ} :
    {A : Type ℓ} → (List ℕ → ListCache → Option (A × ListCache)) → List ℕ → Option A
receive populate r = do
  item ← at r 0 new_cache
  d ← rlp very_strict (item.0)
  m ← populate d new_cache
  some (m.0)

-- What `reloadMsg` reads from a record that is not empty.
unfoldable pub reload {ℓ} :
    {A : Type ℓ} → (List ℕ → ListCache → Option (A × ListCache)) → List ℕ → Option A
reload populate bytes = do
  r ← rlp very_strict bytes
  item ← at r 0 new_cache
  m ← populate (item.0) new_cache
  some (m.0)
