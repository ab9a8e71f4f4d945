-- ===== src/Decoder.antt =====
-- `readFramePtr` of src/VideoDecoders/H264VideoDecoder.cpp, up to the buffer that it gives to
-- libav: the packets of a key frame put together to a byte stream. What libav makes of the buffer
-- is not modelled. Bytes are below 256, so that a mask is a quotient or a remainder.
pub mod Fragments
mod Tests
use janus_ftl_plugin.Prelude.{
  ℕ, ◌+◌, ◌*◌, ◌/◌, ◌%◌, List, [], ◌∷◌, ◌++◌, map, ◌==◌, if◌then◌else◌, take, drop,
}
use janus_ftl_plugin.Rtp.Packet.{Bytes, get_rtp_payload}

-- What a packet's payload adds to the buffer; a payload of fewer than two bytes is skipped.
pub append_payload : Bytes → Bytes
append_payload [] = []
append_payload (first ∷ []) = []
append_payload (first ∷ second ∷ rest) =
    if first % 32 == 28
    then if second / 128 % 2 == 0 then rest else 0 ∷ 0 ∷ 1 ∷ (first / 32 * 32 + second % 32) ∷ rest
    else 0 ∷ 0 ∷ 1 ∷ first ∷ second ∷ rest

pub append_payloads : List Bytes → Bytes
unfolding append_payload
append_payloads [] = []
append_payloads (p ∷ ps) = append_payload p ++ append_payloads ps

-- The bytes of the span, as far as the packet has them.
pub payload_bytes : Bytes → Bytes
unfolding get_rtp_payload
payload_bytes packet =
    let payload = get_rtp_payload packet in take payload.count (drop payload.start packet)

-- The buffer that libav gets.
unfoldable keyframe_data : List Bytes → Bytes
unfolding append_payloads payload_bytes
keyframe_data packets = append_payloads (map payload_bytes packets)
