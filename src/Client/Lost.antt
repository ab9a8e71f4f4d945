-- ===== src/Client/Lost.antt =====
-- `ConnectAsync` of src/FtlClient.cpp where the connection is lost meanwhile.
use janus_ftl_plugin.Prelude.{
  ℕ, ◌≡◌, ◌∙◌, refl, sym, ap, subst, Bool, true, false, Option, none, some, List, [], ◌∷◌, map, sum,
}
use janus_ftl_plugin.Prelude.Text.{Text}
use janus_ftl_plugin.Rtp.Packet.{Bytes}
use janus_ftl_plugin.Client.{
  Library, ConnectMetadata, FtlResponse, FtlClient, new_client, stop, end_connection, close_sockets,
  authenticate_control_connection, send_control_start_stream, assigned_port, metadata_commands,
  hmac_command, connect_command,
}
use janus_ftl_plugin.Client.Connect.{
  Answers, open_control, start_thread, send, Connecting, open_control_connection,
  open_media_connection, lose, then_or_stop, authenticate, start_stream, connect_opened,
  connect_if_open, connect_async,
}
use janus_ftl_plugin.Client.Connected.{control_closes, media_opens, media_closes}

lost-start :
    (l : Library) (a : Answers) (m : ConnectMetadata) (c : FtlClient) (port : ℕ)
    → assigned_port l a.metadata ≡ some port
    → a.lost_starting ≡ true
    → start_stream l a m c
      ≡ lose true (map send (metadata_commands l m), true, record c { assigned_media_port = port })
unfolding start_stream send_control_start_stream
lost-start l a m c port assigned lost =
    let r : Option ℕ → List Text × Bool × FtlClient = λ o. elim o [
      | none ↦ (metadata_commands l m, false, c)
      | some p ↦ (metadata_commands l m, true, record c { assigned_media_port = p })
    ] in
    ap (λ o. lose a.lost_starting (map send (r o).0, (r o).1, (r o).2)) assigned
    ∙ ap
        (λ b.
          lose b (map send (metadata_commands l m), true, record c { assigned_media_port = port }))
        lost

-- Every call of the system succeeds and the client is authenticated, but the thread ends the
-- connection while the stream is being started.
abbrev pub lost_while_starting : FtlResponse → Text → Option FtlResponse → Answers
lost_while_starting hmac payload metadata = record {
  control = record { found = true; connected = true };
  hmac = some hmac;
  auth = some (record { status_code = 200; payload = payload });
  metadata = metadata;
  media = record { found = true; connected = true };
  lost_authenticating = false;
  lost_starting = true;
  lost_opening = false;
}

-- Where the thread ends the connection while the stream is being started, although the response with
-- the port has come and every call of the system succeeds, `ConnectAsync` of a new client reports
-- success with the control connection closed, and opens a media connection that `Stop` does not
-- close.
connect_async-leaks :
    (l : Library) (m : ConnectMetadata) (channel port : ℕ) (key : Bytes) (hmac : FtlResponse)
    (payload : Text) (response : Option FtlResponse)
    → assigned_port l response ≡ some port
    → let (es, ok, c) =
        connect_async l (lost_while_starting hmac payload response) m (new_client channel key) in
      (ok ≡ true)
      × (sum control_closes es ≡ 1)
      × (sum media_opens es ≡ 1)
      × (sum media_closes es ≡ 0)
      × ((stop c).0 ≡ [])
unfolding connect_async open_control_connection connect_if_open connect_opened authenticate
    then_or_stop lose open_media_connection authenticate_control_connection end_connection
    close_sockets stop metadata_commands
connect_async-leaks l m channel port key hmac payload response assigned =
    let a = lost_while_starting hmac payload response in
    let c : FtlClient = record (new_client channel key) { control_socket = true } in
    let P = λ (x : Connecting).
      let (es, ok, d) = then_or_stop x (λ (d : FtlClient).
        then_or_stop (lose false (open_media_connection a.media d))
          (λ (d' : FtlClient). ([], true, d'))) in
      let es' =
        open_control
        ∷ start_thread
        ∷ send hmac_command
        ∷ send (connect_command l c hmac.payload)
        ∷ es in
      (ok ≡ true)
      × (sum control_closes es' ≡ 1)
      × (sum media_opens es' ≡ 1)
      × (sum media_closes es' ≡ 0)
      × ((stop d).0 ≡ []) in
    subst P (sym (lost-start l a m c port assigned refl)) (refl, refl, refl, refl, refl)
