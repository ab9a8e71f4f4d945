-- ===== src/Rtp/Packet.antt =====
-- src/Rtp/RtpPacket.{h,cpp} and the structures of src/Rtp/Types.h, as they lie in memory on a
-- little-endian machine. A packet is its bytes; a byte read past the end is 0 (the callers check
-- the size first, but for `get_rtp_payload`, whose result keeps its position and its count).
pub mod Payload
pub mod Wire
use janus_ftl_plugin.Prelude.{
  ℕ, ◌+◌, ◌-◌, ◌*◌, ◌/◌, ◌%◌, ◌^◌, Bool, ◌&&◌, List, [], ◌∷◌, ◌++◌, ltb, leb, ◌==◌, if◌then◌else◌,
  length, get_or,
}

abbrev pub Bytes : Type 0
Bytes = List ℕ

abbrev pub byte_at : Bytes → ℕ → ℕ
byte_at b i = get_or b i 0

-- `ntohs` and `ntohl` of a field at an offset.
abbrev pub u16_at : Bytes → ℕ → ℕ
u16_at b i = byte_at b i * 256 + byte_at b (i + 1)

abbrev pub u32_at : Bytes → ℕ → ℕ
u32_at b i = u16_at b i * 65536 + u16_at b (i + 2)

pub record RtpHeader : Type 0 where
  pub version : ℕ
  pub padding : ℕ
  pub extension : ℕ
  pub csrc_count : ℕ
  pub marker_bit : ℕ
  pub type : ℕ
  pub sequence_number : ℕ
  pub timestamp : ℕ
  pub ssrc : ℕ

-- The bit fields from the low end of each byte, and the other fields in host order.
unfoldable pub get_rtp_header : Bytes → RtpHeader
get_rtp_header b = record {
  version = byte_at b 0 / 64 % 4;
  padding = byte_at b 0 / 32 % 2;
  extension = byte_at b 0 / 16 % 2;
  csrc_count = byte_at b 0 % 16;
  marker_bit = byte_at b 1 / 128 % 2;
  type = byte_at b 1 % 128;
  sequence_number = u16_at b 2;
  timestamp = u32_at b 4;
  ssrc = u32_at b 8;
}

unfoldable pub get_rtp_sequence : Bytes → ℕ
get_rtp_sequence b = (get_rtp_header b).sequence_number

-- A `std::span` into the packet: where it starts and its `size()`.
pub record Span : Type 0 where
  pub start : ℕ
  pub count : ℕ

abbrev pub empty_span : Span
empty_span = record { start = 0; count = 0 }

-- `payloadIndex`, after the CSRC list and the header extension.
pub payload_index : Bytes → ℕ
payload_index b =
    let csrc = 12 + (get_rtp_header b).csrc_count * 4 in
    if ltb 0 (get_rtp_header b).extension && leb (csrc + 4) (length b)
    then csrc + (4 + u16_at b (csrc + 2) * 4)
    else csrc

-- `size() - payloadIndex` is a `size_t`, so the test `<= 0` finds only an exact fit, and the size
-- of the span wraps as well.
unfoldable pub get_rtp_payload : Bytes → Span
unfolding payload_index get_rtp_header
get_rtp_payload b =
    let rest = (length b + 2 ^ 64 - payload_index b) % 2 ^ 64 in
    if ltb (length b) 12
    then empty_span
    else if (get_rtp_header b).version == 2
    then if leb rest 0 then empty_span else record { start = payload_index b; count = rest }
    else empty_span

pub record RtpPacket : Type 0 where
  pub bytes : Bytes
  pub extended_sequence_num : ℕ

abbrev pub header : RtpPacket → RtpHeader
header p = get_rtp_header p.bytes

-- `htons` and `htonl`: the bytes of a field in network order.
abbrev be16 : ℕ → Bytes
be16 n = (n / 256 % 256) ∷ (n % 256) ∷ []

abbrev be32 : ℕ → Bytes
be32 n = be16 (n / 65536) ++ be16 (n % 65536)

abbrev pub rtpfb : ℕ
rtpfb = 205

abbrev pub rtcp_nack : ℕ
rtcp_nack = 1

-- `RtcpHeader`: version, padding and count in the first byte, then the type and the length.
abbrev rtcp_header : ℕ → ℕ → ℕ → ℕ → Bytes
rtcp_header version rc type len = (version * 64 + rc) ∷ type ∷ be16 len

-- `RtcpFeedbackPacket` with a `RtcpFeedbackPacketNackControlInfo`, as `sendNack` of
-- src/FtlMediaConnection.cpp fills it in; `seq` is truncated by `htons`.
pub nack_bytes : ℕ → ℕ → ℕ → Bytes
nack_bytes ssrc seq blp =
    rtcp_header 2 rtcp_nack rtpfb 3
    ++ (be32 ssrc ++ (be32 ssrc ++ (be16 (seq % 2 ^ 16) ++ be16 blp)))
