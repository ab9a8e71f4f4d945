-- ===== src/Decoder/Tests.antt =====
-- The theorem about src/VideoDecoders/H264VideoDecoder.cpp at a parameter set and a fragmented IDR.
use janus_ftl_plugin.Prelude.{◌≡◌, List, [], ◌∷◌, arith}
use janus_ftl_plugin.Decoder.{append_payloads}
use janus_ftl_plugin.Decoder.Fragments.{
  Nal, single, fragmented, all_payloads, byte_stream, append_payloads-payloads,
}

abbrev nals : List Nal
nals = single 103 66 (1 ∷ []) ∷ fragmented 101 (1 ∷ 2 ∷ []) ((3 ∷ []) ∷ []) (4 ∷ []) ∷ []

append_payloads-payloads_example : append_payloads (all_payloads nals) ≡ byte_stream nals
append_payloads-payloads_example = append_payloads-payloads nals (omega arith, (omega arith, tt))
