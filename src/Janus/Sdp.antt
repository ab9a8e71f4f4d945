-- ===== src/Janus/Sdp.antt =====
-- `generateSdpOffer` of src/JanusFtl.cpp: the offer that a viewer gets.
use janus_ftl_plugin.Prelude.{
  ℕ, zero, suc, ◌+◌, ◌-◌, ◌*◌, ◌/◌, ◌%◌, ◌^◌, ◌<◌, ◌≡◌, refl, [], ◌∷◌, ◌++◌, arith, ltb,
  if◌then◌else◌,
}
use janus_ftl_plugin.Prelude.Text.{Text, codes}
use janus_ftl_plugin.FtlTypes.{audio_codec_string, video_codec_string}
use janus_ftl_plugin.Janus.{JanusSession, JanusStream}

-- `std::to_string` of a number with at most as many digits as the fuel.
pub digits : ℕ → ℕ → Text
digits zero n = []
digits (suc fuel) n =
    let rest = digits fuel (n / 10) in
    if ltb n 10 then (b'0' + n) ∷ [] else rest ++ (b'0' + n % 10) ∷ []

-- A 64-bit number has 20 digits at most.
unfoldable pub to_decimal : ℕ → Text
unfolding digits
to_decimal n = digits 20 n

unfoldable pub generate_sdp_offer : JanusSession → JanusStream → Text
unfolding to_decimal audio_codec_string video_codec_string
generate_sdp_offer session stream =
    let m = stream.media_metadata in
    let audio_payload_type = to_decimal m.audio_payload_type in
    let video_payload_type = to_decimal m.video_payload_type in
    codes "v=0\r\no=- "
    ++ to_decimal session.sdp_session_id
    ++ codes " "
    ++ to_decimal session.sdp_version
    ++ codes " IN IP4 127.0.0.1\r\ns=Channel "
    ++ to_decimal stream.channel_id
    ++ codes "\r\n"
    ++ (if m.has_audio
        then codes "m=audio 1 RTP/SAVPF "
          ++ audio_payload_type
          ++ codes "\r\nc=IN IP4 1.1.1.1\r\na=rtpmap:"
          ++ audio_payload_type
          ++ codes " "
          ++ audio_codec_string m.audio_codec
          ++ codes "/48000/2\r\na=fmtp:"
          ++ audio_payload_type
          ++ codes
              " sprop-stereo=1;\r\na=sendonly\r\na=extmap:1 urn:ietf:params:rtp-hdrext:sdes:mid\r\n"
        else [])
    ++ (if m.has_video
        then codes "m=video 1 RTP/SAVPF "
          ++ video_payload_type
          ++ codes "\r\nc=IN IP4 1.1.1.1\r\na=rtpmap:"
          ++ video_payload_type
          ++ codes " "
          ++ video_codec_string m.video_codec
          ++ codes "/90000\r\na=fmtp:"
          ++ video_payload_type
          ++ codes " profile-level-id=42e01f;packetization-mode=1;\r\na=rtcp-fb:"
          ++ video_payload_type
          ++ codes " nack\r\na=rtcp-fb:"
          ++ video_payload_type
          ++ codes " nack pli\r\na=sendonly\r\na=extmap:1 urn:ietf:params:rtp-hdrext:sdes:mid\r\n"
          ++ codes "a=extmap:6 http://www.webrtc.org/experiments/rtp-hdrext/playout-delay\r\n"
        else [])

-- The number that decimal digits stand for.
unfoldable value_of : ℕ → Text → ℕ
value_of acc [] = acc
value_of acc (c ∷ cs) = value_of (acc * 10 + (c - b'0')) cs

value_of-append :
    (acc c : ℕ) (cs : Text) → value_of acc (cs ++ c ∷ []) ≡ value_of acc cs * 10 + (c - b'0')
unfolding value_of
value_of-append acc c [] = refl
value_of-append acc c (d ∷ cs) = value_of-append (acc * 10 + (d - b'0')) c cs

value_of-digits : (fuel n : ℕ) → n < 10 ^ fuel → value_of 0 (digits fuel n) ≡ n
unfolding digits value_of
value_of-digits zero n h = ground arith
value_of-digits (suc fuel) n h =
    ground (
      arith,
      value_of-digits fuel (n / 10),
      value_of-append 0 (b'0' + n % 10) (digits fuel (n / 10)),
    )

-- A number below 10^20, so every 64-bit one, is written with the digits that stand for it.
value_of-to_decimal : (n : ℕ) → n < 10 ^ 20 → value_of 0 (to_decimal n) ≡ n
unfolding to_decimal
value_of-to_decimal n h = value_of-digits 20 n h
