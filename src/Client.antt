-- ===== src/Client.antt =====
-- src/FtlClient.{h,cpp}: the client that relays a stream to another node. Sockets are whether there
-- is one; what the operating system answers is an argument, and so is each response, `none` where
-- `waitForResponse` has timed out. The regular expression, `std::stoi` and the formatting of numbers
-- are parameters.
pub mod Closing
pub mod Reading
pub mod Handshake
pub mod Connect
pub mod Connected
pub mod Lost
mod Tests
use janus_ftl_plugin.Prelude.{
  ℕ, ◌%◌, ◌^◌, Bool, true, false, not, ◌&&◌, Option, none, some, List, [], ◌∷◌, ◌++◌, ltb, leb,
  ◌==◌, if◌then◌else◌, length, take, drop, get_or,
}
use janus_ftl_plugin.Prelude.Text.{Text, codes}
use janus_ftl_plugin.Rtp.Packet.{Bytes}
use janus_ftl_plugin.Util.{hex_string_to_byte_array, byte_array_to_hex_string}

-- What the client tells the target of its stream.
pub record ConnectMetadata : Type 0 where
  pub vendor_name : Text
  pub vendor_version : Text
  pub has_video : Bool
  pub video_codec : Text
  pub video_height : ℕ
  pub video_width : ℕ
  pub video_payload_type : ℕ
  pub video_ingest_ssrc : ℕ
  pub has_audio : Bool
  pub audio_codec : Text
  pub audio_payload_type : ℕ
  pub audio_ingest_ssrc : ℕ

pub record FtlResponse : Type 0 where
  pub status_code : ℕ
  pub payload : Text

pub record Library : Type 0 where
  pub to_decimal : ℕ → Text
  -- `std::stoi`; `none` for what it throws and for a number below 0.
  pub stoi : Text → Option ℕ
  -- HMAC-SHA512 of a payload under a key.
  pub hmac : Bytes → Bytes → Bytes
  -- The digits after "Use UDP port ", searched in a payload.
  pub port_digits : Text → Option Text

pub record FtlClient : Type 0 where
  pub channel_id : ℕ
  pub stream_key : Bytes
  pub is_stopping : Bool
  pub is_stopped : Bool
  pub control_socket : Bool
  pub media_socket : Bool
  pub received_bytes : Text
  pub received_responses : List FtlResponse
  pub assigned_media_port : ℕ

abbrev pub new_client : ℕ → Bytes → FtlClient
new_client channel key = record {
  channel_id = channel;
  stream_key = key;
  is_stopping = false;
  is_stopped = false;
  control_socket = false;
  media_socket = false;
  received_bytes = [];
  received_responses = [];
  assigned_media_port = 0;
}

pub data Effect : Type 0 where
  close_control close_media wait_for_thread on_closed : Effect
  write_media : Bytes → Effect

pub close_sockets : FtlClient → List Effect
close_sockets c =
    (if c.control_socket then close_control ∷ [] else [])
    ++ (if c.media_socket then close_media ∷ [] else [])

-- The future of the thread is always valid, so that `Stop` waits for the thread whenever it has not
-- stopped.
pub stop : FtlClient → List Effect × FtlClient
unfolding close_sockets
stop c =
    if not c.is_stopping && not c.is_stopped
    then (close_sockets c ++ wait_for_thread ∷ [], record c { is_stopping = true })
    else if c.is_stopping && not c.is_stopped
    then (wait_for_thread ∷ [], c)
    else ([], c)

pub end_connection : FtlClient → List Effect × FtlClient
unfolding close_sockets
end_connection c =
    if not c.is_stopping
    then (close_sockets c ++ on_closed ∷ [], record c { is_stopping = true; is_stopped = true })
    else ([], record c { is_stopped = true })

unfoldable pub relay_packet : Bytes → FtlClient → List Effect
relay_packet packet c = if c.media_socket then write_media packet ∷ [] else []

-- Up to the first newline, and what follows it.
pub split_line : Text → Option (Text × Text)
split_line [] = none
split_line (x ∷ xs) =
    let rest = split_line xs in
    if x == 10
    then some ([], xs)
    else elim rest [ none ↦ none | some (line, after) ↦ some (x ∷ line, after) ]

-- A space before the payload is left out.
pub response_payload : Text → Text
response_payload line =
    if ltb 3 (length line) && get_or line 3 0 == 32 then drop 4 line else drop 3 line

pub checked_response : Text → Option ℕ → Option FtlResponse
unfolding response_payload
checked_response line none = none
checked_response line (some code) =
    if ltb code 65535
    then some (record { status_code = code; payload = response_payload line })
    else none

-- `none` for what ends the connection.
pub parse_response : Library → Text → Option FtlResponse
unfolding checked_response
parse_response l line =
    if ltb (length line) 3 then none else checked_response line (l.stoi (take 3 line))

pub receive_response : Option FtlResponse → FtlClient → Bool × FtlClient
receive_response none c = (false, c)
receive_response (some r) c =
    (true, record c { received_responses = c.received_responses ++ r ∷ [] })

pub receive_line : Library → Text → Option (Text × Text) → FtlClient → Bool × FtlClient
unfolding parse_response receive_response
receive_line l bytes none c = (true, record c { received_bytes = c.received_bytes ++ bytes })
receive_line l bytes (some (line, after)) c =
    receive_response (parse_response l (c.received_bytes ++ line))
      (record c { received_bytes = after })

-- One read of the connection thread, and whether it goes on. A newline is looked for only in what
-- has just been read, and one response at most is taken out.
pub on_read : Library → Text → FtlClient → Bool × FtlClient
unfolding split_line receive_line
on_read l bytes c = receive_line l bytes (split_line bytes) c

abbrev end_of_message : Text
end_of_message = 13 ∷ 10 ∷ 13 ∷ 10 ∷ []

abbrev pub hmac_command : Text
hmac_command = codes "HMAC"

-- `CONNECT %d $%s`, with the hash in hexadecimal digits. The payload of the response is in them too:
-- what a `std::stringstream` makes of other characters is not modelled.
pub connect_command : Library → FtlClient → Text → Text
unfolding hex_string_to_byte_array byte_array_to_hex_string
connect_command l c payload =
    codes "CONNECT "
    ++ l.to_decimal c.channel_id
    ++ codes " $"
    ++ byte_array_to_hex_string (l.hmac c.stream_key (hex_string_to_byte_array payload))

abbrev pub is_ok : Option FtlResponse → Bool
is_ok none = false
is_ok (some r) = r.status_code == 200

-- The commands that are sent, each followed by `end_of_message`, and whether it succeeds.
unfoldable pub authenticate_control_connection :
    Library → FtlClient → Option FtlResponse → Option FtlResponse → List Text × Bool
unfolding connect_command
authenticate_control_connection l c none auth = (hmac_command ∷ [], false)
authenticate_control_connection l c (some hmac) auth =
    (hmac_command ∷ connect_command l c hmac.payload ∷ [], is_ok auth)

abbrev true_or_false : Bool → Text
true_or_false b = if b then codes "true" else codes "false"

unfoldable metadata_commands : Library → ConnectMetadata → List Text
metadata_commands l m =
    (codes "ProtocolVersion: " ++ l.to_decimal 0 ++ codes "." ++ l.to_decimal 9)
    ∷ (codes "VendorName: " ++ m.vendor_name)
    ∷ (codes "VendorVersion: " ++ m.vendor_version)
    ∷ (codes "Video: " ++ true_or_false m.has_video)
    ∷ (codes "VideoCodec: " ++ m.video_codec)
    ∷ (codes "VideoHeight: " ++ l.to_decimal m.video_height)
    ∷ (codes "VideoWidth: " ++ l.to_decimal m.video_width)
    ∷ (codes "VideoPayloadType: " ++ l.to_decimal m.video_payload_type)
    ∷ (codes "VideoIngestSSRC: " ++ l.to_decimal m.video_ingest_ssrc)
    ∷ (codes "Audio: " ++ true_or_false m.has_audio)
    ∷ (codes "AudioCodec: " ++ m.audio_codec)
    ∷ (codes "AudioPayloadType: " ++ l.to_decimal m.audio_payload_type)
    ∷ (codes "AudioIngestSSRC: " ++ l.to_decimal m.audio_ingest_ssrc)
    ∷ codes "."
    ∷ []

abbrev port_number : Library → Option Text → Option ℕ
port_number l none = none
port_number l (some digits) = l.stoi digits

abbrev checked_port : Option ℕ → Option ℕ
checked_port none = none
checked_port (some port) = if ltb 65535 port then none else some port

-- The media port of the response to the metadata; `none` for an error.
unfoldable assigned_port : Library → Option FtlResponse → Option ℕ
assigned_port l none = none
assigned_port l (some r) =
    if r.status_code == 200 then checked_port (port_number l (l.port_digits r.payload)) else none

unfoldable send_control_start_stream :
    Library → ConnectMetadata → Option FtlResponse → FtlClient → List Text × Bool × FtlClient
unfolding metadata_commands assigned_port
send_control_start_stream l m response c = elim (assigned_port l response) [
  | none ↦ (metadata_commands l m, false, c)
  | some port ↦ (metadata_commands l m, true, record c { assigned_media_port = port })
]
