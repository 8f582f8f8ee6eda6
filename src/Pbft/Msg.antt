-- ===== src/Pbft/Msg.antt =====
-- The messages of libpbftseal/Common.h. A u256, a hash and a signature are numbers, and a byte
-- string is a list of numbers.
use utispace_chain.Prelude.{
  ℕ, ◌+◌, ◌-◌, ◌%◌, ◌^◌, ◌++◌, ◌≡◌, List, [], Bool, true, false, ◌==◌, ◌&&◌, Eq, ◌↔◌, arith,
}
use utispace_chain.Rlp.Integer.{int_bytes}

abbrev pub u256_mod : ℕ
u256_mod = 2 ^ 256

-- `Invalid256 = ~(u256)0` of libdevcore/Common.cpp.
abbrev pub invalid256 : ℕ
invalid256 = u256_mod - 1

-- u256 arithmetic wraps.
abbrev pub add256 : ℕ → ℕ → ℕ
add256 a b = (a + b) % u256_mod

abbrev pub sub256 : ℕ → ℕ → ℕ
sub256 a b = (a + u256_mod - b) % u256_mod

abbrev pub prepare_req_packet : ℕ
prepare_req_packet = 0x00

abbrev pub sign_req_packet : ℕ
sign_req_packet = 0x01

abbrev pub commit_req_packet : ℕ
commit_req_packet = 0x02

abbrev pub view_change_req_packet : ℕ
view_change_req_packet = 0x03

-- `PBFTMsg`; also `SignReq`, `CommitReq` and `ViewChangeReq`, which add nothing to it.
pub record PbftMsg : Type 0 where
  pub height : ℕ
  pub view : ℕ
  pub idx : ℕ
  pub timestamp : ℕ
  pub block_hash : ℕ
  pub sig : ℕ
  pub sig2 : ℕ

-- `PBFTMsg::clear`, and the value of a message that is only declared.
abbrev pub cleared : PbftMsg
cleared = record {
  height = invalid256;
  view = invalid256;
  idx = invalid256;
  timestamp = invalid256;
  block_hash = 0;
  sig = 0;
  sig2 = 0;
}

pub record PrepareReq : Type 0 where
  pub msg : PbftMsg
  pub open msg use *
  pub block : List ℕ

-- A prepare request that is only declared.
abbrev pub no_prepare : PrepareReq
no_prepare = record { msg = cleared; block = [] }

-- `clear()` of a prepare request is that of the base class: it leaves the block.
abbrev pub clear_prepare : PrepareReq → PrepareReq
clear_prepare p = record p { msg = cleared }

-- `fieldsWithoutBlock()`, over the hash function.
unfoldable pub fields_without_block : (List ℕ → ℕ) → PbftMsg → ℕ
fields_without_block sha3 m =
    sha3 (int_bytes m.height ++ (int_bytes m.view ++ (int_bytes m.idx ++ int_bytes m.timestamp)))

-- The keys by which peers are known to have a message: `block_hash.hex()`, `sig.hex()`, and
-- `sig.hex() + toJS(view)`, which are texts of different lengths.
pub data Key : Type 0 where
  hash_key : ℕ → Key
  sig_key : ℕ → Key
  sig_view_key : ℕ → ℕ → Key

abbrev pub key_beq : Key → Key → Bool
key_beq (hash_key a) (hash_key b) = a == b
key_beq (hash_key a) (sig_key b) = false
key_beq (hash_key a) (sig_view_key b c) = false
key_beq (sig_key a) (hash_key b) = false
key_beq (sig_key a) (sig_key b) = a == b
key_beq (sig_key a) (sig_view_key b c) = false
key_beq (sig_view_key a d) (hash_key b) = false
key_beq (sig_view_key a d) (sig_key b) = false
key_beq (sig_view_key a d) (sig_view_key b c) = (a == b) && (d == c)

pub key_beq_iff : (a b : Key) → (key_beq a b ≡ true) ↔ (a ≡ b)
key_beq_iff (hash_key a) (hash_key b) = ground arith
key_beq_iff (hash_key a) (sig_key b) = ground arith
key_beq_iff (hash_key a) (sig_view_key b c) = ground arith
key_beq_iff (sig_key a) (hash_key b) = ground arith
key_beq_iff (sig_key a) (sig_key b) = ground arith
key_beq_iff (sig_key a) (sig_view_key b c) = ground arith
key_beq_iff (sig_view_key a d) (hash_key b) = ground arith
key_beq_iff (sig_view_key a d) (sig_key b) = ground arith
key_beq_iff (sig_view_key a d) (sig_view_key b c) = ground arith

instance abbrev pub key_eq : Eq Key
key_eq = record { beq = key_beq; beq_iff = key_beq_iff }
