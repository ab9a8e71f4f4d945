-- ===== src/Client/Handshake.antt =====
-- The handshake of src/FtlClient.cpp with the server's end of it, src/FtlControlConnection.cpp.
use janus_ftl_plugin.Prelude.{
  List, ℕ, ◌+◌, ◌%◌, ◌^◌, ◌<◌, ◌≡◌, refl, ◌∙◌, true, false, some, [], ◌∷◌, ◌++◌, arith, All, length,
  ltb, suc, Bool-cases, inl, inr,
}
use mathlib.Core.List.{append-nil}
use janus_ftl_plugin.Prelude.Text.{Text, codes, same, same_refl}
use janus_ftl_plugin.Rtp.Packet.{Bytes}
use janus_ftl_plugin.Util.{
  hex_string_to_byte_array, byte_array_to_hex_string,
  hex_string_to_byte_array-byte_array_to_hex_string, byte_array_to_hex_string-All,
}
use janus_ftl_plugin.Client.{
  Library, FtlClient, new_client, connect_command, parse_response, checked_response,
  response_payload, receive_response, on_read, hmac_command, authenticate_control_connection,
}
use janus_ftl_plugin.Client.Reading.{IsPiece, on_read-line}
use janus_ftl_plugin.Control
use janus_ftl_plugin.Control.{
  FtlControlConnection, process_hmac_command, process_connect_command, connect_channel,
  provide_hmac_key, request_hmac_key, request_stop, Effect, write, request_media_port, response,
}

-- Both ends print numbers alike and compute the same HMAC.
pub record AreAlike (client : Library) (server : Control.Library) : Type 0 where
  pub to_decimal : (n : ℕ) → client.to_decimal n ≡ server.to_decimal n
  pub hmac : (key payload : Bytes) → client.hmac key payload ≡ server.hmac key payload
  pub hmac_bytes : (key payload : Bytes) → All (λ b. b < 256) (server.hmac key payload)
  pub payload_bytes : (n : ℕ) → All (λ b. b < 256) (server.random_payload n)
  -- CONNECT_PATTERN finds the two parts of the command again, and `std::stoul` the number.
  pub connect_read :
      (channel : ℕ) (key payload : Bytes)
      → let hash = byte_array_to_hex_string (server.hmac key payload) in
        server.connect_groups (codes "CONNECT " ++ server.to_decimal channel ++ codes " $" ++ hash)
        ≡ some (server.to_decimal channel, hash)
  pub number_read : (n : ℕ) → n < 2 ^ 32 → server.stoul (server.to_decimal n) ≡ some n
  pub ok_printed : server.to_decimal 200 ≡ codes "200"
  pub ok_read : client.stoi (codes "200") ≡ some 200

-- The bytes that the server writes to the client.
abbrev pub written : List Effect → Text
written [] = []
written (write text ∷ es) = text ++ written es
written (request_hmac_key channel ∷ es) = written es
written (request_media_port channel metadata ∷ es) = written es

-- A client that has received one response.
abbrev pub responded : FtlClient → ℕ → Text → FtlClient
responded c code payload = record c {
  received_bytes = [];
  received_responses =
      c.received_responses ++ record { status_code = code; payload = payload } ∷ [];
}

hmac_read :
    (client : Library) (server : Control.Library) (channel : ℕ) (key : Bytes)
    (s : FtlControlConnection)
    → AreAlike client server
    → let payload = server.random_payload s.payloads_generated in
      let c = new_client channel key in
      on_read client (written (process_hmac_command server s).1) c
      ≡ (true, responded c 200 (byte_array_to_hex_string payload))
unfolding process_hmac_command parse_response checked_response response_payload receive_response
hmac_read client server channel key s a =
    let hex = byte_array_to_hex_string (server.random_payload s.payloads_generated) in
    let line : Text = codes "200 " ++ hex in
    let piece : IsPiece line = (
      ground arith,
      (
        ground arith,
        (
          ground arith,
          (ground arith, byte_array_to_hex_string-All (server.random_payload s.payloads_generated)),
        ),
      ),
    ) in
    let long : ltb (suc (suc (suc (suc (length hex))))) 3 ≡ false = ground arith in
    let longer : ltb 3 (suc (suc (suc (suc (length hex))))) ≡ true = ground arith in
    rw (append-nil (server.to_decimal 200 ++ codes " " ++ hex ++ codes "\n"), a.ok_printed)
      (on_read-line client line [] (new_client channel key) piece
        ∙ rw (parse_response, a.ok_read, long, longer) refl)

accepted_read :
    (client : Library) (server : Control.Library) (channel : ℕ) (key : Bytes)
    → AreAlike client server
    → let c = new_client channel key in
      on_read client (written (response server 200 ∷ [])) c ≡ (true, responded c 200 [])
unfolding response parse_response checked_response response_payload receive_response
accepted_read client server channel key a =
    rw (append-nil (server.to_decimal 200 ++ codes "\n"), a.ok_printed)
      (on_read-line client (codes "200") [] (new_client channel key)
          (ground arith, (ground arith, (ground arith, tt)))
        ∙ rw a.ok_read refl)

-- The command as the server would print it.
abbrev command_of : Control.Library → ℕ → Bytes → Text
command_of server channel hash =
    codes "CONNECT " ++ server.to_decimal channel ++ codes " $" ++ byte_array_to_hex_string hash

connect_command-command_of :
    (client : Library) (server : Control.Library) (c : FtlClient) (payload : Bytes)
    → AreAlike client server
    → All (λ b. b < 256) payload
    → connect_command client c (byte_array_to_hex_string payload)
      ≡ command_of server c.channel_id (server.hmac c.stream_key payload)
unfolding connect_command
connect_command-command_of client server c payload a bytes =
    rw
      (
        a.to_decimal c.channel_id,
        hex_string_to_byte_array-byte_array_to_hex_string payload bytes,
        a.hmac c.stream_key payload,
      )
      refl

process_connect_command-groups :
    (l : Control.Library) (command channel hash : Text) (id : ℕ) (s : FtlControlConnection)
    → l.connect_groups command ≡ some (channel, hash)
    → l.stoul channel ≡ some id
    → id < 2 ^ 32
    → s.hmac_requested ≡ false
    → process_connect_command l command s ≡ (
      record s {
        channel_id = id;
        client_hmac_hash = hex_string_to_byte_array hash;
        hmac_requested = true;
      },
      request_hmac_key id ∷ [],
    )
unfolding process_connect_command connect_channel
process_connect_command-groups l command channel hash id s groups number small fresh =
    let whole : id % 2 ^ 32 ≡ id = omega (arith, small) in
    rw (groups, process_connect_command, number, fresh, whole) refl

-- A server's connection that has sent a payload and knows the client's hash.
abbrev waiting_for_key : ℕ → Bytes → Bytes → FtlControlConnection → FtlControlConnection
waiting_for_key id payload hash s = record s {
  hmac_payload = payload;
  payloads_generated = s.payloads_generated + 1;
  channel_id = id;
  client_hmac_hash = hash;
  hmac_requested = true;
}

-- A key whose HMAC is the hash authenticates, and the server says so; another one does not.
provide_hmac_key-waiting :
    (l : Control.Library) (key : Bytes) (id : ℕ) (payload hash : Bytes) (s : FtlControlConnection)
    → s.is_authenticated ≡ false
    → let (t, es) = provide_hmac_key l key (waiting_for_key id payload hash s) in
      (t.is_authenticated ≡ same (l.hmac key payload) hash)
      × (same (l.hmac key payload) hash ≡ true → es ≡ response l 200 ∷ [])
      × (same (l.hmac key payload) hash ≡ false → es ≡ [])
unfolding provide_hmac_key request_stop
provide_hmac_key-waiting l key id payload hash s unknown =
    elim (Bool-cases (same (l.hmac key payload) hash)) [
      | inl right ↦ rw (unknown, right) (refl, λ _. refl, λ bad. absurd (ground arith))
      | inr wrong ↦ rw (unknown, wrong) (refl, λ bad. absurd (ground arith), λ _. refl)
    ]

-- The handshake of a new client, for a channel below 2^32, with a connection of the server that has
-- neither asked for a key nor been authenticated, where both print and hash alike, payloads and hashes
-- are bytes below 256, and the server's pattern and the reading of numbers find what was printed. What the server writes for the HMAC command is
-- read by the client as one response, with the code 200; from it the client makes its CONNECT
-- command, for which the server asks for the key of the client's channel. A key that the server then
-- gets authenticates the client exactly if its HMAC of the payload that was sent is that under the
-- client's key, and the client's own key does; what the server writes then is read by the client as a
-- response with the code 200, with which its handshake succeeds, after just these two commands.
pub handshake_authenticates :
    (client : Library) (server : Control.Library) (channel : ℕ) (client_key key : Bytes)
    (s : FtlControlConnection)
    → AreAlike client server
    → channel < 2 ^ 32
    → s.hmac_requested ≡ false
    → s.is_authenticated ≡ false
    → let c = new_client channel client_key in
      let payload = server.random_payload s.payloads_generated in
      let (s', hmac_effects) = process_hmac_command server s in
      (digits : Text) × (on_read client (written hmac_effects) c ≡ (true, responded c 200 digits))
      × (let command = connect_command client c digits in
          let (s'', connect_effects) = process_connect_command server command s' in
          let (t, key_effects) = provide_hmac_key server client_key s'' in
          (connect_effects ≡ request_hmac_key channel ∷ [])
          × ((provide_hmac_key server key s'').0.is_authenticated
              ≡ same (server.hmac key payload) (server.hmac client_key payload))
          × (t.is_authenticated ≡ true)
          × (on_read client (written key_effects) c ≡ (true, responded c 200 []))
          × (authenticate_control_connection client c
                (some (record { status_code = 200; payload = digits }))
                (some (record { status_code = 200; payload = [] }))
              ≡ (hmac_command ∷ command ∷ [], true)))
unfolding authenticate_control_connection process_hmac_command
handshake_authenticates client server channel client_key key s a small fresh unknown =
    let c = new_client channel client_key in
    let payload = server.random_payload s.payloads_generated in
    let hash = server.hmac client_key payload in
    let s' = (process_hmac_command server s).0 in
    let connected =
      process_connect_command-groups server (command_of server channel hash)
        (server.to_decimal channel) (byte_array_to_hex_string hash) channel s'
        (a.connect_read channel client_key payload) (a.number_read channel small) small fresh in
    let decoded =
      hex_string_to_byte_array-byte_array_to_hex_string hash (a.hmac_bytes client_key payload) in
    let (own, told, _) =
      provide_hmac_key-waiting server client_key channel payload hash s unknown in
    let (other, _, _) = provide_hmac_key-waiting server key channel payload hash s unknown in
    (
      byte_array_to_hex_string payload,
      hmac_read client server channel client_key s a,
      rw
          (
            connect_command-command_of client server c payload a
                (a.payload_bytes s.payloads_generated),
            connected,
            decoded,
          )
          (
            refl,
            other,
            own ∙ same_refl hash,
            rw (told (same_refl hash)) (accepted_read client server channel client_key a),
            refl,
          ),
    )
