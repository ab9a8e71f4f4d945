-- ===== src/Control.antt =====
-- src/FtlControlConnection.{h,cpp}: the text protocol by which a client opens a stream. The
-- regular expressions, HMAC, the random engine, `std::stoul` and the printing of numbers are
-- parameters (`Library`). What the connection writes and asks of its manager comes back as a list
-- of effects, in order. The client's address, which goes along with a request for a port, is left
-- out, and so are the reading thread and the log.
pub mod Frozen
pub mod Session
pub mod Commands
pub mod Thread
pub mod Ended
mod Tests
use mathlib.Core.List.{reverse}
use janus_ftl_plugin.Prelude.{
  ℕ, zero, suc, ◌+◌, ◌-◌, ◌%◌, ◌^◌, Bool, true, false, not, ◌&&◌, ◌||◌, Option, some, none, List,
  [], ◌∷◌, ◌++◌, leb, ◌==◌, if◌then◌else◌, length, take, drop,
}
use janus_ftl_plugin.Prelude.Text.{Text, codes, same}
use janus_ftl_plugin.Rtp.Packet.{Bytes}
use janus_ftl_plugin.FtlTypes.{
  AudioCodecKind, VideoCodecKind, parse_audio_codec, parse_video_codec, MediaMetadata, no_metadata,
}
use janus_ftl_plugin.Util.{hex_string_to_byte_array, byte_array_to_hex_string}

pub record Library : Type 0 where
  -- The groups of CONNECT_PATTERN, searched in a command, and of ATTRIBUTE_PATTERN, matched with
  -- all of it.
  pub connect_groups : Text → Option (Text × Text)
  pub attribute_groups : Text → Option (Text × Text)
  -- `none` for what `std::stoul` throws.
  pub stoul : Text → Option ℕ
  pub to_decimal : ℕ → Text
  -- HMAC-SHA512 of a payload under a key.
  pub hmac : Bytes → Bytes → Bytes
  -- The n-th payload that `GenerateRandomBinaryPayload` gives this connection.
  pub random_payload : ℕ → Bytes

pub data Effect : Type 0 where
  write : Text → Effect
  request_hmac_key : (channel_id : ℕ) → Effect
  request_media_port : (channel_id : ℕ) (metadata : MediaMetadata) → Effect

pub record FtlControlConnection : Type 0 where
  pub hmac_requested : Bool
  pub is_authenticated : Bool
  pub is_streaming : Bool
  pub stop_requested : Bool
  pub channel_id : ℕ
  pub payloads_generated : ℕ
  pub hmac_payload : Bytes
  pub client_hmac_hash : Bytes
  pub media_metadata : MediaMetadata
  pub command_buffer : Text

abbrev pub new_control_connection : FtlControlConnection
new_control_connection = record {
  hmac_requested = false;
  is_authenticated = false;
  is_streaming = false;
  stop_requested = false;
  channel_id = 0;
  payloads_generated = 0;
  hmac_payload = [];
  client_hmac_hash = [];
  media_metadata = no_metadata;
  command_buffer = [];
}

abbrev pub Result : Type 0
Result = FtlControlConnection × List Effect

abbrev ftl_ingest_resp_ok : ℕ
ftl_ingest_resp_ok = 200

abbrev ftl_ingest_resp_ping : ℕ
ftl_ingest_resp_ping = 201

unfoldable pub request_stop : FtlControlConnection → Result
request_stop c = (record c { stop_requested = true }, [])

-- `{}\n`
unfoldable pub response : Library → ℕ → Effect
response l code = write (l.to_decimal code ++ codes "\n")

unfoldable pub provide_hmac_key : Library → Bytes → FtlControlConnection → Result
unfolding request_stop response same
provide_hmac_key l key c =
    if c.is_authenticated
    then (c, [])
    else if not c.hmac_requested
    then (c, [])
    else if same (l.hmac key c.hmac_payload) c.client_hmac_hash
    then (record c { is_authenticated = true }, response l ftl_ingest_resp_ok ∷ [])
    else request_stop c

pub start_media_port : Library → ℕ → FtlControlConnection → Result
start_media_port l port c = (
  record c { is_streaming = true },
  write (
        l.to_decimal ftl_ingest_resp_ok
        ++ codes " hi. Use UDP port "
        ++ l.to_decimal port
        ++ codes "\n")
      ∷ [],
)

pub terminate_with_response : Library → ℕ → FtlControlConnection → Result
unfolding response
terminate_with_response l code c = (record c { stop_requested = true }, response l code ∷ [])

unfoldable pub process_hmac_command : Library → FtlControlConnection → Result
unfolding byte_array_to_hex_string
process_hmac_command l c =
    let payload = l.random_payload c.payloads_generated in
    (
      record c { hmac_payload = payload; payloads_generated = c.payloads_generated + 1 },
      write (
            l.to_decimal ftl_ingest_resp_ok
            ++ codes " "
            ++ byte_array_to_hex_string payload
            ++ codes "\n")
          ∷ [],
    )

-- `ftl_channel_id_t` is a `uint32_t`.
unfoldable pub connect_channel : Option ℕ → Text → FtlControlConnection → Result
unfolding request_stop hex_string_to_byte_array
connect_channel none hash c = request_stop c
connect_channel (some id) hash c = if c.hmac_requested then request_stop c else (
  record c {
    channel_id = id % 2 ^ 32;
    client_hmac_hash = hex_string_to_byte_array hash;
    hmac_requested = true;
  },
  request_hmac_key (id % 2 ^ 32) ∷ [],
)

unfoldable pub process_connect_command : Library → Text → FtlControlConnection → Result
unfolding request_stop connect_channel
process_connect_command l command c = elim (l.connect_groups command) [
  | none ↦ request_stop c
  | some (channel, hash) ↦ connect_channel (l.stoul channel) hash c
]

-- A number that `std::stoul` does not read leaves the field as it was; the others are cut to the
-- field's width.
unfoldable pub number_or : Option ℕ → ℕ → ℕ → ℕ
number_or none width old = old
number_or (some n) width old = n % 2 ^ width

unfoldable set_attribute : Library → Text → Text → MediaMetadata → MediaMetadata
unfolding same number_or parse_audio_codec parse_video_codec
set_attribute l key value m =
    if same key (codes "VendorName")
    then record m { vendor_name = value }
    else if same key (codes "VendorVersion")
    then record m { vendor_version = value }
    else if same key (codes "Video")
    then record m { has_video = same value (codes "true") }
    else if same key (codes "Audio")
    then record m { has_audio = same value (codes "true") }
    else if same key (codes "VideoCodec")
    then record m { video_codec = parse_video_codec value }
    else if same key (codes "AudioCodec")
    then record m { audio_codec = parse_audio_codec value }
    else if same key (codes "VideoWidth")
    then record m { video_width = number_or (l.stoul value) 16 m.video_width }
    else if same key (codes "VideoHeight")
    then record m { video_height = number_or (l.stoul value) 16 m.video_height }
    else if same key (codes "VideoIngestSSRC")
    then record m { video_ssrc = number_or (l.stoul value) 32 m.video_ssrc }
    else if same key (codes "AudioIngestSSRC")
    then record m { audio_ssrc = number_or (l.stoul value) 32 m.audio_ssrc }
    else if same key (codes "VideoPayloadType")
    then record m { video_payload_type = number_or (l.stoul value) 8 m.video_payload_type }
    else if same key (codes "AudioPayloadType")
    then record m { audio_payload_type = number_or (l.stoul value) 8 m.audio_payload_type }
    else m

pub process_attribute : Library → Option (Text × Text) → FtlControlConnection → Result
unfolding set_attribute
process_attribute l none c = (c, [])
process_attribute l (some (key, value)) c =
    (record c { media_metadata = set_attribute l key value c.media_metadata }, [])

pub process_attribute_command : Library → Text → FtlControlConnection → Result
unfolding request_stop process_attribute
process_attribute_command l command c =
    if not c.is_authenticated
    then request_stop c
    else if c.is_streaming
    then request_stop c
    else process_attribute l (l.attribute_groups command) c

abbrev pub is_audio_codec : AudioCodecKind → Bool
is_audio_codec AudioCodecKind.opus = true
is_audio_codec AudioCodecKind.unsupported = false

abbrev pub is_video_codec : VideoCodecKind → Bool
is_video_codec VideoCodecKind.h264 = true
is_video_codec VideoCodecKind.unsupported = false

pub process_dot_command : FtlControlConnection → Result
unfolding request_stop
process_dot_command c =
    let m = c.media_metadata in
    if not c.is_authenticated
    then request_stop c
    else if not m.has_audio && not m.has_video
    then request_stop c
    else if m.has_audio
        && (m.audio_payload_type == 0 || (m.audio_ssrc == 0 || not (is_audio_codec m.audio_codec)))
    then request_stop c
    else if m.has_video
        && (m.video_payload_type == 0 || (m.video_ssrc == 0 || not (is_video_codec m.video_codec)))
    then request_stop c
    else (c, request_media_port c.channel_id m ∷ [])

pub process_ping_command : Library → FtlControlConnection → Result
unfolding response
process_ping_command l c = (c, response l ftl_ingest_resp_ping ∷ [])

unfoldable is_attribute : Library → Text → Bool
is_attribute l command = elim (l.attribute_groups command) [ none ↦ false | some groups ↦ true ]

pub process_command : Library → Text → FtlControlConnection → Result
unfolding same process_hmac_command process_connect_command is_attribute process_attribute_command
    process_dot_command process_ping_command
process_command l command c =
    if same command (codes "HMAC")
    then process_hmac_command l c
    else if same (take 7 command) (codes "CONNECT")
    then process_connect_command l command c
    else if is_attribute l command
    then process_attribute_command l command c
    else if same command (codes ".")
    then process_dot_command c
    else if same (take 4 command) (codes "PING")
    then process_ping_command l c
    else (c, [])

-- DELIMITER_SEQUENCE: a carriage return and a line feed, twice.
pub delimiter : ℕ → ℕ
delimiter n = if n == 0 || n == 2 then 13 else 10

-- One turn of the loop over the buffer: `seen` is what the buffer has before the index, the last
-- character first, and `n` how much of the delimiter has been read. The command is what stands
-- before the delimiter.
pub scan_character : Text → ℕ → ℕ → (Text × ℕ) × Option Text
unfolding delimiter
scan_character seen n x =
    if x == delimiter n
    then if leb 3 n then (([], 0), some (reverse (drop 3 seen))) else ((x ∷ seen, suc n), none)
    else ((x ∷ seen, 0), none)

pub process_found : Library → Option Text → FtlControlConnection → Result
unfolding process_command
process_found l none c = (c, [])
process_found l (some command) c = process_command l command c

-- The loop, over what the buffer has from the index on; no command changes the buffer.
pub scan : Library → Text → ℕ → Text → FtlControlConnection → Result
unfolding scan_character process_found
scan l seen n [] c = (record c { command_buffer = reverse seen }, [])
scan l seen n (x ∷ rest) c =
    let ((seen', n'), found) = scan_character seen n x in
    let (c', es) = process_found l found c in
    let (c'', es') = scan l seen' n' rest c' in (c'', es ++ es')

-- The search starts four characters before the new ones.
pub on_transport_bytes_received : Library → Bytes → FtlControlConnection → Result
unfolding scan
on_transport_bytes_received l bytes c =
    let start = length c.command_buffer - 4 in
    scan l (reverse (take start c.command_buffer)) 0 (drop start c.command_buffer ++ bytes) c
