-- ===== src/Janus/Tests.antt =====
-- The theorems about src/JanusFtl.cpp at a concrete plugin: an Edge node with one viewer.
use janus_ftl_plugin.Prelude.{
  ℕ, ◌+◌, ◌%◌, ◌^◌, ◌≤◌, ◌<◌, ◌≡◌, ◌⊎◌, refl, true, false, ◌&&◌, not, Option, none, some, List, [],
  ◌∷◌, ◌==◌, if◌then◌else◌, arith, length, All,
}
use janus_ftl_plugin.Prelude.OrdMap.{contains, find, emplace}
use janus_ftl_plugin.Prelude.OrdMap.Update.{insert_or_assign}
use janus_ftl_plugin.Prelude.Text.{codes, same}
use janus_ftl_plugin.Rtp.Packet.{Bytes}
use janus_ftl_plugin.FtlTypes.{VideoCodecKind, no_metadata}
use janus_ftl_plugin.Janus.{
  NodeKind, ActiveSession, JanusStream, JanusFtl, new_janus_ftl, subscribe, push_event, pending,
}
use janus_ftl_plugin.Janus.Plugin.{
  is_edge, is_ingest, new_session, new_stream, end_stream, pending_of, found_or_empty,
}
use janus_ftl_plugin.Janus.Viewers.{object, ok_wait, handle_watch_message, destroy_session}
use janus_ftl_plugin.Janus.Edge.{get_hmac_key}
use janus_ftl_plugin.Janus.Subscribing.{handle_watch_message-subscribe}
use janus_ftl_plugin.Janus.Attached.{viewing, waiting, attached, is_viewer, is_live, end_stream_lem}
use janus_ftl_plugin.Janus.Valid.{session_watch, is_watching, IsValid, Keyed-insert_or_assign}
use janus_ftl_plugin.Janus.Safe.{IsSafe}
use janus_ftl_plugin.Janus.Calls.{
  Call, create, message, destroy, stream_started, stream_ended, packet, run_all, requested, replay,
  replay_all, IsAllowed, AreAllowed,
}
use janus_ftl_plugin.Janus.Refined.{nobody, run_all-replay_all}
use janus_ftl_plugin.Janus.Rewatch.{handle_watch_message-dangles}
use janus_ftl_plugin.Janus.Rtcp.{incoming_rtcp, incoming_rtcp-bounded, incoming_rtcp_overrun}
use janus_ftl_plugin.Janus.Report.{Service, StreamInfo, ok, report_pass}
use janus_ftl_plugin.Janus.Reported.{is_to_end, report_pass-is_live}

abbrev watch : ℕ → Call
watch channel = message 1 [] (object (some (codes "watch")) (some channel))

-- An Edge node asks no service.
abbrev no_answer : Option ℕ
no_answer = none

abbrev calls : List Call
calls =
    create 5 1
    ∷ watch 7
    ∷ stream_started 7 no_metadata no_answer
    ∷ packet 7 (128 ∷ 0 ∷ [])
    ∷ stream_ended 7 1
    ∷ destroy 1
    ∷ []

calls_allowed : AreAllowed NodeKind.edge calls nobody
unfolding AreAllowed IsAllowed replay requested is_ingest same
calls_allowed = (refl, ((λ c d e w. absurd (grind arith)), (tt, (tt, (tt, (tt, tt))))))

run_all-replay_all_example :
    let r = run_all calls (new_janus_ftl NodeKind.edge none) in
    ((h c : ℕ) → attached h c r.1 ≡ is_watching c (replay_all NodeKind.edge calls nobody h))
    × IsSafe r.0
run_all-replay_all_example = run_all-replay_all NodeKind.edge none calls calls_allowed

abbrev viewer : ActiveSession
viewer = record { watching_channel_id = some 7; session = new_session 5 none }

abbrev stream : JanusStream
stream = record (new_stream 7 3 no_metadata) { viewer_sessions = (1, tt) ∷ [] }

abbrev one_viewer : JanusFtl
one_viewer = record {
  node_kind = NodeKind.edge;
  orchestration_client = true;
  playout_delay = none;
  streams = (7, stream) ∷ [];
  sessions = (1, viewer) ∷ [];
  pending_viewer_sessions = [];
  stream_keys = (7, 1 ∷ 2 ∷ []) ∷ [];
  last_assigned_stream_id = 4;
}

one_viewer-IsValid : IsValid one_viewer
unfolding attached viewing waiting is_viewer pending_of found_or_empty session_watch contains find
    insert_or_assign emplace
one_viewer-IsValid = record {
  watched = λ h c. ground arith;
  exclusive = λ c live. refl;
  keyed = Keyed-insert_or_assign 7 stream [] refl (λ c st found. absurd (grind arith));
}

end_stream_lem_example :
    let s' = (end_stream 7 3 one_viewer).1 in
    (viewing 1 7 s' ≡ (if is_live 7 3 one_viewer && 7 == 7 then false else viewing 1 7 one_viewer))
    × (waiting 1 7 s' ≡ (
        if is_live 7 3 one_viewer && 7 == 7
        then attached 1 7 one_viewer
        else waiting 1 7 one_viewer))
end_stream_lem_example = end_stream_lem 7 3 one_viewer 1 7

one_viewer_found : find 1 one_viewer.sessions ≡ some viewer
unfolding find
one_viewer_found = refl

one_viewer-attached : attached 1 7 one_viewer ≡ true
unfolding attached viewing waiting is_viewer pending_of found_or_empty contains find
one_viewer-attached = refl

handle_watch_message-dangles_example :
    let s' = (handle_watch_message 1 viewer (some 8) [] one_viewer).2 in
    let s'' = (destroy_session 1 s').2 in (attached 1 7 s'' ≡ true) × (find 1 s''.sessions ≡ none)
handle_watch_message-dangles_example =
    handle_watch_message-dangles 1 7 8 viewer [] one_viewer one_viewer_found one_viewer-attached
      (omega arith) one_viewer-IsValid

-- A receiver report with nothing but its sender.
abbrev report : ℕ → Bytes
report words = 128 ∷ 201 ∷ 0 ∷ words ∷ 0 ∷ 0 ∷ 0 ∷ 1 ∷ []

incoming_rtcp-bounded_example :
    (incoming_rtcp 1 (report 1) 0 8 ≡ some (0 ∷ [])) × All (λ o. o + 4 ≤ length (report 1)) (0 ∷ [])
incoming_rtcp-bounded_example =
    incoming_rtcp-bounded (report 1) 0 1 [] (refl, omega arith, tt) refl (omega arith)

-- A receiver report and one that says that it is longer than what is left.
abbrev overlong : Bytes
overlong = 128 ∷ 201 ∷ 0 ∷ 1 ∷ 0 ∷ 0 ∷ 0 ∷ 1 ∷ 128 ∷ 201 ∷ 0 ∷ 5 ∷ 0 ∷ 0 ∷ 0 ∷ 1 ∷ []

incoming_rtcp_overrun_example :
    (incoming_rtcp 3 overlong 0 16 ≡ some (0 ∷ 8 ∷ 32 ∷ [])) × (length overlong < 32)
incoming_rtcp_overrun_example =
    incoming_rtcp_overrun overlong 0 8 5 (1 ∷ []) (refl, omega arith, tt) refl (omega arith)
      (omega arith) (omega arith) (omega arith) refl (omega arith) (omega arith)

abbrev service : Service
service = record {
  my_hostname = codes "edge";
  max_allowed_bits_per_second = 1000;
  update_stream_metadata = λ stream metadata. ok;
  read_video_dimensions = λ packets. none;
  generate_jpeg_image = λ packets. none;
}

abbrev busy : StreamInfo
busy = record {
  channel_id = 7;
  stream_id = 3;
  duration_seconds = 60;
  packets_received = 100;
  packets_nacked = 1;
  packets_lost = 0;
  rolling_average_bitrate_bps = 1001;
  keyframe_codec = VideoCodecKind.h264;
  keyframe_packets = [];
}

report_pass-is_live_example :
    let (_, _, s') = report_pass service (busy ∷ []) one_viewer one_viewer in
    ((c stream : ℕ)
      → is_live c stream s'
        ≡ (is_live c stream one_viewer && not (is_to_end service c stream (busy ∷ []) one_viewer)))
    × ((h d : ℕ) → attached h d s' ≡ attached h d one_viewer)
    × IsValid s'
report_pass-is_live_example =
    report_pass-is_live service (busy ∷ []) one_viewer one_viewer one_viewer-IsValid

abbrev fresh_edge : JanusFtl
fresh_edge = new_janus_ftl NodeKind.edge none

fresh_edge-is_edge : is_edge fresh_edge.node_kind ≡ true
unfolding is_edge new_janus_ftl
fresh_edge-is_edge = refl

fresh_edge-streams : find (9 % 2 ^ 32) fresh_edge.streams ≡ none
unfolding find new_janus_ftl
fresh_edge-streams = refl

fresh_edge-pending_of : pending_of (9 % 2 ^ 32) fresh_edge ≡ []
unfolding pending_of found_or_empty find new_janus_ftl
fresh_edge-pending_of = refl

handle_watch_message-subscribe_example :
    let (result, es, s') = handle_watch_message 1 viewer (some 9) (1 ∷ 2 ∷ []) fresh_edge in
    (key : Bytes) × (result ≡ ok_wait)
    × (es ≡ subscribe (9 % 2 ^ 32) key ∷ push_event 1 pending ∷ [])
    × (get_hmac_key (9 % 2 ^ 32) s' ≡ some key)
    × ((get_hmac_key (9 % 2 ^ 32) fresh_edge ≡ some key)
        ⊎ ((get_hmac_key (9 % 2 ^ 32) fresh_edge ≡ none) × (key ≡ 1 ∷ 2 ∷ [])))
handle_watch_message-subscribe_example =
    handle_watch_message-subscribe 1 9 viewer (1 ∷ 2 ∷ []) fresh_edge fresh_edge-is_edge
      fresh_edge-streams fresh_edge-pending_of
