-- ===== src/Client/Tests.antt =====
-- The theorems about src/FtlClient.cpp at a concrete client and server.
use janus_ftl_plugin.Prelude.{
  ℕ, ◌≡◌, refl, ap, true, false, none, some, List, [], ◌∷◌, ◌++◌, arith, All, ◌==◌, ◌+◌, ◌-◌, ◌%◌,
  get_or, drop, if◌then◌else◌, Bool-cases, inl, inr,
}
use janus_ftl_plugin.Prelude.Text.{Text, codes, same}
use janus_ftl_plugin.Util.{byte_array_to_hex_string}
use janus_ftl_plugin.Client.{
  Library, FtlClient, FtlResponse, new_client, connect_command, parse_response, checked_response,
  response_payload,
}
use janus_ftl_plugin.Client.{ConnectMetadata}
use janus_ftl_plugin.Client.Connect.{Answers, connect_async}
use janus_ftl_plugin.Client.Lost.{lost_while_starting}
use janus_ftl_plugin.Client.Connected.{IsSettled, connect_async-IsSettled}
use janus_ftl_plugin.Client.Reading.{
  Line, IsResponse, read_all, all_reads, responses, read_all-lines,
}
use janus_ftl_plugin.Client.Handshake.{AreAlike, written, responded, handshake_authenticates}
use janus_ftl_plugin.Client.{authenticate_control_connection, hmac_command, on_read}
use janus_ftl_plugin.Control
use janus_ftl_plugin.Control.{
  new_control_connection, process_hmac_command, process_connect_command, provide_hmac_key,
  request_hmac_key,
}

-- Every number is read as 200; every hash is the byte 42.
abbrev library : Library
library = record {
  to_decimal = λ n. codes "200";
  stoi = λ text. some 200;
  hmac = λ key payload. 42 ∷ [];
  port_digits = λ payload. none;
}

abbrev client : FtlClient
client = new_client 7 (1 ∷ 2 ∷ [])

abbrev payload_response : FtlResponse
payload_response = record { status_code = 200; payload = codes "a1" }

abbrev ok_response : FtlResponse
ok_response = record { status_code = 200; payload = [] }

-- The first line arrives in two reads.
abbrev lines : List (Line × FtlResponse)
lines = ((codes "200 " ∷ [], codes "a1"), payload_response) ∷ (([], codes "200"), ok_response) ∷ []

parsed_payload : parse_response library (codes "200 a1") ≡ some payload_response
unfolding parse_response checked_response response_payload
parsed_payload = refl

parsed_ok : parse_response library (codes "200") ≡ some ok_response
unfolding parse_response checked_response response_payload
parsed_ok = refl

lines_responses : All (λ (x : Line × FtlResponse). IsResponse library x.0 x.1) lines
lines_responses =
    (((grind arith, tt), grind arith, parsed_payload), ((tt, grind arith, parsed_ok), tt))

read_all-lines_example : read_all library (all_reads lines) client ≡ (
  true,
  record client {
    received_bytes = [];
    received_responses = client.received_responses ++ responses lines;
  },
)
read_all-lines_example = read_all-lines library lines client lines_responses refl

-- A number other than 200 is printed as one character; a command is cut at its second space.
abbrev print : ℕ → Text
print n = if n == 200 then codes "200" else (n + 1000) ∷ []

abbrev read : Text → ℕ
read [] = 0
read (x ∷ []) = x - 1000
read (x ∷ y ∷ text) = 200

abbrev cut : Text → Text × Text
cut [] = ([], [])
cut (x ∷ text) = let rest = cut text in if x == 32 then ([], drop 1 text) else (x ∷ rest.0, rest.1)

abbrev alike_client : Library
alike_client = record {
  to_decimal = print;
  stoi = λ text. some (read text);
  hmac = λ key payload. (get_or key 0 0 % 256) ∷ [];
  port_digits = λ payload. none;
}

abbrev alike_server : Control.Library
alike_server = record {
  connect_groups = λ command. some (cut (drop 8 command));
  attribute_groups = λ command. none;
  stoul = λ text. some (read text);
  to_decimal = print;
  hmac = λ key payload. (get_or key 0 0 % 256) ∷ [];
  random_payload = λ n. 161 ∷ [];
}

cut-print : (n : ℕ) (hash : Text) → cut (print n ++ codes " $" ++ hash) ≡ (print n, hash)
cut-print n hash = elim (Bool-cases (n == 200)) [
  | inl is_ok ↦ rw is_ok refl
  | inr other ↦ let no_space : (n + 1000 == 32) ≡ false = ground arith in rw (other, no_space) refl
]

read-print : (n : ℕ) → read (print n) ≡ n
read-print n = ground arith

alike : AreAlike alike_client alike_server
alike = record {
  to_decimal = λ n. refl;
  hmac = λ key payload. refl;
  hmac_bytes = λ key payload. (omega arith, tt);
  payload_bytes = λ n. (omega arith, tt);
  connect_read = λ channel key payload.
      ap some (cut-print channel (byte_array_to_hex_string ((get_or key 0 0 % 256) ∷ [])));
  number_read = λ n small. ap some (read-print n);
  ok_printed = refl;
  ok_read = refl;
}

handshake_authenticates_example :
    let c = new_client 7 (1 ∷ 2 ∷ []) in
    let payload = alike_server.random_payload 0 in
    let (s', hmac_effects) = process_hmac_command alike_server new_control_connection in
    (digits : Text) × (on_read alike_client (written hmac_effects) c
      ≡ (true, responded c 200 digits))
    × (let command = connect_command alike_client c digits in
        let (s'', connect_effects) = process_connect_command alike_server command s' in
        let (t, key_effects) = provide_hmac_key alike_server (1 ∷ 2 ∷ []) s'' in
        (connect_effects ≡ request_hmac_key 7 ∷ [])
        × ((provide_hmac_key alike_server (3 ∷ []) s'').0.is_authenticated
            ≡ same (alike_server.hmac (3 ∷ []) payload) (alike_server.hmac (1 ∷ 2 ∷ []) payload))
        × (t.is_authenticated ≡ true)
        × (on_read alike_client (written key_effects) c ≡ (true, responded c 200 []))
        × (authenticate_control_connection alike_client c
              (some (record { status_code = 200; payload = digits }))
              (some (record { status_code = 200; payload = [] }))
            ≡ (hmac_command ∷ command ∷ [], true)))
handshake_authenticates_example =
    handshake_authenticates alike_client alike_server 7 (1 ∷ 2 ∷ []) (3 ∷ []) new_control_connection
      alike (omega arith) refl refl

-- The server assigns the port 200.
abbrev with_port : Library
with_port = record library { port_digits = λ payload. some (codes "200") }

abbrev metadata : ConnectMetadata
metadata = record {
  vendor_name = codes "v";
  vendor_version = codes "1";
  has_video = true;
  video_codec = codes "H264";
  video_height = 720;
  video_width = 1280;
  video_payload_type = 96;
  video_ingest_ssrc = 8;
  has_audio = false;
  audio_codec = [];
  audio_payload_type = 97;
  audio_ingest_ssrc = 7;
}

-- The media connection cannot be opened.
abbrev refused : Answers
refused = record (lost_while_starting payload_response [] (some ok_response)) {
  lost_starting = false;
  media = record { found = true; connected = false };
}

connect_async-IsSettled_example :
    IsSettled (connect_async with_port refused metadata (new_client 7 (1 ∷ 2 ∷ [])))
connect_async-IsSettled_example =
    connect_async-IsSettled with_port refused metadata 7 (1 ∷ 2 ∷ []) (refl, refl, refl)
