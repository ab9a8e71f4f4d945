-- ===== src/Rtp/Packet/Wire.antt =====
-- The bytes of the NACK that src/FtlMediaConnection.cpp sends, read back.
use janus_ftl_plugin.Prelude.{ℕ, ◌+◌, ◌*◌, ◌/◌, ◌%◌, ◌^◌, ◌<◌, ◌≡◌, arith, length}
use janus_ftl_plugin.Rtp.Packet.{byte_at, u16_at, u32_at, rtpfb, rtcp_nack, nack_bytes}

-- A NACK is 16 bytes long, of version 2 and type RTPFB, with a length field of 3 further words,
-- and names the stream twice, the low 16 bits of the lost number, and the mask.
nack_bytes_lem :
    (ssrc seq blp : ℕ)
    → ssrc < 2 ^ 32
    → blp < 2 ^ 16
    → let b = nack_bytes ssrc seq blp in
      (length b ≡ 16)
      × (byte_at b 0 / 64 ≡ 2)
      × (byte_at b 0 % 32 ≡ rtcp_nack)
      × (byte_at b 1 ≡ rtpfb)
      × ((u16_at b 2 + 1) * 4 ≡ length b)
      × (u32_at b 4 ≡ ssrc)
      × (u32_at b 8 ≡ ssrc)
      × (u16_at b 12 ≡ seq % 2 ^ 16)
      × (u16_at b 14 ≡ blp)
unfolding nack_bytes
nack_bytes_lem ssrc seq blp h k = omega arith
