-- ===== src/Rtp/Packet/Payload.antt =====
-- Where `GetRtpPayload` of src/Rtp/RtpPacket.cpp puts the payload.
use janus_ftl_plugin.Prelude.{
  ℕ, zero, suc, [], ◌∷◌, inl, inr, All, ◌+◌, ◌*◌, ◌^◌, ◌≤◌, ◌<◌, ◌≡◌, ◌⊎◌, arith, length,
}
use janus_ftl_plugin.Rtp.Packet.{
  Bytes, byte_at, u16_at, get_rtp_header, payload_index, get_rtp_payload, empty_span,
}

-- If the header ends within the packet, the payload is empty or runs from the header's end to
-- the packet's end.
get_rtp_payload_fits :
    (b : Bytes)
    → length b < 2 ^ 32
    → payload_index b ≤ length b
    → (get_rtp_payload b ≡ empty_span)
      ⊎ (((get_rtp_payload b).start ≡ payload_index b)
          × ((get_rtp_payload b).start + (get_rtp_payload b).count ≡ length b))
unfolding get_rtp_payload
get_rtp_payload_fits b small h = ground arith

byte_at-lt : (b : Bytes) (i : ℕ) → All (λ x. x < 256) b → byte_at b i < 256
byte_at-lt [] i h = omega arith
byte_at-lt (x ∷ xs) zero h = h.0
byte_at-lt (x ∷ xs) (suc i) h = byte_at-lt xs i h.1

-- Where the list of sources ends, according to the header.
abbrev pub sources_end : Bytes → ℕ
sources_end b = 12 + (get_rtp_header b).csrc_count * 4

-- The header claims more sources than the packet holds, or a header extension, itself begun within the
-- packet, that is longer than the rest of it.
abbrev pub ClaimsTooMuch : Bytes → Type 0
ClaimsTooMuch b =
    (length b < sources_end b)
    ⊎ ((0 < (get_rtp_header b).extension)
        × (sources_end b + 4 ≤ length b)
        × (length b < sources_end b + 4 + u16_at b (sources_end b + 2) * 4))

-- If the header of a version 2 packet of at least 12 and fewer than 2 ^ 32 bytes, all below 256, claims more sources
-- than the packet holds, or a header extension, begun within the packet, that is longer than the rest
-- of it, the test for an invalid size does not reject it: the span starts past the end and its size
-- wraps to more than 2 ^ 63 bytes.
pub get_rtp_payload_overrun :
    (b : Bytes)
    → All (λ x. x < 256) b
    → 12 ≤ length b
    → length b < 2 ^ 32
    → (get_rtp_header b).version ≡ 2
    → ClaimsTooMuch b
    → (length b < (get_rtp_payload b).start) × (2 ^ 63 < (get_rtp_payload b).count)
unfolding get_rtp_payload payload_index
get_rtp_payload_overrun b bytes big small v (inl over) = ground arith
get_rtp_payload_overrun b bytes big small v (inr (flag, begun, over)) =
    ground
      (arith, byte_at-lt b (sources_end b + 2) bytes, byte_at-lt b (sources_end b + 2 + 1) bytes)
