-- ===== src/Janus/Plugin.antt =====
-- The handlers of src/JanusFtl.cpp: the calls of the Janus core and of the FTL server.
use janus_ftl_plugin.Prelude.{
  ℕ, Bool, true, false, ◌&&◌, Option, none, some, List, [], ◌∷◌, ◌++◌, ◌==◌, if◌then◌else◌,
}
use janus_ftl_plugin.Prelude.OrdMap.{OrdMap, OrdSet, find, assign, erase}
use janus_ftl_plugin.Prelude.OrdMap.Update.{insert_or_assign, union}
use janus_ftl_plugin.Rtp.Packet.{Bytes}
use janus_ftl_plugin.FtlTypes.{MediaMetadata}
use janus_ftl_plugin.Janus.{
  NodeKind, JanusSession, ActiveSession, JanusStream, JanusFtl, preparing, Effect, push_event,
  use_after_free, stop_stream, end_service_stream, publish,
}
use janus_ftl_plugin.Janus.Sdp.{generate_sdp_offer}
use janus_ftl_plugin.Janus.Streams.{
  send_rtp_packet, add_viewer_session, remove_all_viewer_sessions, stop_relays,
}
use janus_ftl_plugin.Janus.Edge.{start_stream}

abbrev pub Result : Type 0
Result = List Effect × JanusFtl

unfoldable pub is_edge : NodeKind → Bool
is_edge NodeKind.edge = true
is_edge kind = false

unfoldable pub is_ingest : NodeKind → Bool
is_ingest NodeKind.ingest = true
is_ingest kind = false

-- The constructor of JanusSession, with `janus_get_real_time()`.
abbrev pub new_session : ℕ → Option (ℕ × ℕ) → JanusSession
new_session now delay = record {
  is_started = false;
  sdp_session_id = now;
  sdp_version = 1;
  playout_delay = delay;
  playout_delay_send_count = 0;
}

abbrev pub new_active_session : ℕ → Option (ℕ × ℕ) → ActiveSession
new_active_session now delay = record {
  watching_channel_id = none;
  session = new_session now delay;
}

unfoldable pub create_session : ℕ → ℕ → JanusFtl → JanusFtl
unfolding insert_or_assign
create_session now handle s = record s {
  sessions = insert_or_assign handle (new_active_session now s.playout_delay) s.sessions;
}

abbrev pub started : ActiveSession → ActiveSession
started a = record a { session = record a.session { is_started = true } }

-- `sessions[handle]` is written only where it has been found.
unfoldable pub start_if_found : ℕ → Option ActiveSession → JanusFtl → JanusFtl
unfolding assign
start_if_found handle none s = s
start_if_found handle (some a) s = record s { sessions = assign handle (started a) s.sessions }

unfoldable pub setup_media : ℕ → JanusFtl → JanusFtl
unfolding find start_if_found
setup_media handle s = start_if_found handle (find handle s.sessions) s

unfoldable pub found_or_empty : Option OrdSet → OrdSet
found_or_empty none = []
found_or_empty (some set) = set

-- `pendingViewerSessions[channelId]`, which is empty where there was nothing.
unfoldable pub pending_of : ℕ → JanusFtl → OrdSet
unfolding find found_or_empty
pending_of channel s = found_or_empty (find channel s.pending_viewer_sessions)

unfoldable pub publish_if_ingest : Bool → ℕ → ℕ → JanusFtl → List Effect
unfolding is_ingest
publish_if_ingest is_publish channel stream s =
    if is_ingest s.node_kind && s.orchestration_client
    then publish is_publish channel stream ∷ []
    else []

-- The viewers wait for the channel's next stream.
unfoldable pub retire_stream : ℕ → ℕ → JanusStream → JanusFtl → Result
unfolding pending_of publish_if_ingest remove_all_viewer_sessions stop_relays union insert_or_assign
    erase
retire_stream channel stream st s =
    let (viewers, st') = remove_all_viewer_sessions st in
    let (stopped, _) = stop_relays st' in
    (
      publish_if_ingest false st.channel_id st.stream_id s
          ++ stopped
          ++ end_service_stream stream ∷ [],
      record s {
        pending_viewer_sessions =
            insert_or_assign channel (union viewers (pending_of channel s))
              s.pending_viewer_sessions;
        streams = erase channel s.streams;
      },
    )

unfoldable pub end_if_found : ℕ → ℕ → Option JanusStream → JanusFtl → Result
unfolding retire_stream
end_if_found channel stream none s = ([], s)
end_if_found channel stream (some st) s =
    if st.stream_id == stream then retire_stream channel stream st s else ([], s)

unfoldable pub end_stream : ℕ → ℕ → JanusFtl → Result
unfolding find end_if_found
end_stream channel stream s = end_if_found channel stream (find channel s.streams) s

unfoldable pub send_jsep : ℕ → Option ActiveSession → JanusStream → Effect
unfolding generate_sdp_offer
send_jsep handle none st = use_after_free handle
send_jsep handle (some a) st = push_event handle (preparing (generate_sdp_offer a.session st))

unfoldable pub add_pending : OrdSet → OrdMap ActiveSession → JanusStream → List Effect × JanusStream
unfolding add_viewer_session send_jsep find
add_pending [] sessions st = ([], st)
add_pending ((h, u) ∷ hs) sessions st =
    let st' = add_viewer_session h st in
    let (es, st'') = add_pending hs sessions st' in (send_jsep h (find h sessions) st' ∷ es, st'')

-- On an Edge node the service connection is its own; another one answers with `answer`, where
-- `none` is an error.
unfoldable pub service_start_stream : Option ℕ → JanusFtl → Option ℕ × JanusFtl
unfolding is_edge start_stream
service_start_stream answer s =
    let (id, s') = start_stream s in if is_edge s.node_kind then (some id, s') else (answer, s)

unfoldable pub stop_existing : Option JanusStream → JanusFtl → Result
unfolding end_stream
stop_existing none s = ([], s)
stop_existing (some st) s =
    let (es, s') = end_stream st.channel_id st.stream_id s in
    (stop_stream st.channel_id st.stream_id ∷ es, s')

abbrev pub new_stream : ℕ → ℕ → MediaMetadata → JanusStream
new_stream channel stream metadata = record {
  channel_id = channel;
  stream_id = stream;
  media_metadata = metadata;
  viewer_sessions = [];
  relays = [];
}

-- The new stream is in the map before the pending sessions are moved; it is the same object.
unfoldable pub register_stream : ℕ → ℕ → MediaMetadata → JanusFtl → Result
unfolding pending_of add_pending publish_if_ingest insert_or_assign erase
register_stream channel stream metadata s =
    let (es, st) =
      add_pending (pending_of channel s) s.sessions (new_stream channel stream metadata) in
    (
      es ++ publish_if_ingest true channel stream s,
      record s {
        streams = insert_or_assign channel st s.streams;
        pending_viewer_sessions = erase channel s.pending_viewer_sessions;
      },
    )

unfoldable pub register_started :
    ℕ → MediaMetadata → Option ℕ → JanusFtl → Option ℕ × List Effect × JanusFtl
unfolding stop_existing register_stream find
register_started channel metadata none s = (none, [], s)
register_started channel metadata (some stream) s =
    let (es, s') = stop_existing (find channel s.streams) s in
    let (es', s'') = register_stream channel stream metadata s' in (some stream, es ++ es', s'')

-- The result is the stream's id, or `none` for an error.
unfoldable pub ftl_server_stream_started :
    ℕ → MediaMetadata → Option ℕ → JanusFtl → Option ℕ × List Effect × JanusFtl
unfolding service_start_stream register_started
ftl_server_stream_started channel metadata answer s =
    let (result, s') = service_start_stream answer s in register_started channel metadata result s'

unfoldable pub ftl_server_stream_ended : ℕ → ℕ → JanusFtl → Result
unfolding end_stream
ftl_server_stream_ended channel stream s = end_stream channel stream s

unfoldable pub send_if_found : Bytes → Option JanusStream → JanusFtl → Result
unfolding send_rtp_packet
send_if_found packet none s = ([], s)
send_if_found packet (some st) s =
    let (es, sessions) = send_rtp_packet packet st s.sessions in
    (es, record s { sessions = sessions })

-- A packet at the channel's stream, which is the server's packet sink. A stream that has been
-- taken out of the map has no viewers and no relays left, and sends nothing.
unfoldable pub packet_received : ℕ → Bytes → JanusFtl → Result
unfolding send_if_found find
packet_received channel packet s = send_if_found packet (find channel s.streams) s
