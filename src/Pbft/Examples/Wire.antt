-- ===== src/Pbft/Examples/Wire.antt =====
-- A message and a prepare request on their way, libpbftseal/Common.h and PBFT.cpp.
use utispace_chain.Prelude.{◌^◌, [], ◌∷◌, arith}
use utispace_chain.Pbft.Msg.{PbftMsg, PrepareReq, invalid256}
use utispace_chain.Pbft.Wire.{stream_prepare_fields, populate_prepare}
use utispace_chain.Pbft.Wire.Fields.{InRange}
use utispace_chain.Pbft.Wire.RoundTrip.{Arrives, prepare-Arrives}

abbrev vote : PbftMsg
vote = record {
  height = 1000;
  view = 0;
  idx = 3;
  timestamp = invalid256;
  block_hash = 2 ^ 255;
  sig = 7;
  sig2 = 2 ^ 519;
}

vote-InRange : InRange vote
vote-InRange = record {
  height_range = omega arith;
  view_range = omega arith;
  idx_range = omega arith;
  timestamp_range = omega arith;
  hash_range = omega arith;
  sig_range = omega arith;
  sig2_range = omega arith;
}

abbrev proposal : PrepareReq
proposal = record { msg = vote; block = 0 ∷ 200 ∷ 7 ∷ [] }

prepare-Arrives_example : Arrives (stream_prepare_fields proposal) populate_prepare proposal
prepare-Arrives_example = prepare-Arrives proposal vote-InRange (omega arith)
