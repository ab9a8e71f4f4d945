-- ===== src/Janus/Kind.antt =====
-- src/JanusFtl.cpp: no call changes the kind of the node.
use janus_ftl_plugin.Prelude.{
  ℕ, ◌+◌, ◌%◌, ◌^◌, ◌≡◌, refl, ◌∙◌, Option, none, some, arith, Bool-cases, Option-cases, inl, inr,
}
use janus_ftl_plugin.Prelude.OrdMap.{OrdSet, find, assign}
use janus_ftl_plugin.Prelude.Text.{codes, same}
use janus_ftl_plugin.Rtp.Packet.{Bytes}
use janus_ftl_plugin.FtlTypes.{MediaMetadata}
use janus_ftl_plugin.Janus.{ActiveSession, JanusStream, JanusFtl}
use janus_ftl_plugin.Janus.Edge.{start_stream}
use janus_ftl_plugin.Janus.Plugin.{
  is_edge, is_ingest, create_session, setup_media, start_if_found, end_stream, retire_stream,
  stop_existing, register_stream, register_started, service_start_stream, ftl_server_stream_started,
  ftl_server_stream_ended, packet_received, send_if_found,
}
use janus_ftl_plugin.Janus.Viewers.{
  Message, object, missing, not_an_object, handle_message, handle_if_found, handle_request,
  handle_watch_message, watching, watch_stream, leave_stream, leave_pending, destroy_session,
  ConnectionRelayPayload, on_orchestrator_stream_relay, relay_if_found, start_relay, end_relay,
}
use janus_ftl_plugin.Janus.Attached.{end_stream-cases}
use janus_ftl_plugin.Janus.Watching.{subscribe_if_first-keys}
use janus_ftl_plugin.Janus.Leaving.{left}
use janus_ftl_plugin.Janus.Destroy.{
  destroy_session-none, destroy_session-idle, destroy_session-watching,
}
use janus_ftl_plugin.Janus.Calls.{
  Call, create, message, media, destroy, stream_started, stream_ended, packet, relay, run,
}

end_stream-kind : (c stream : ℕ) (s : JanusFtl) → (end_stream c stream s).1.node_kind ≡ s.node_kind
unfolding retire_stream
end_stream-kind c stream s = elim (end_stream-cases c stream s) [
  | inl (other, e) ↦ rw e refl
  | inr (st, found, live, e) ↦ rw e refl
]

stop_existing-kind :
    (o : Option JanusStream) (s : JanusFtl) → (stop_existing o s).1.node_kind ≡ s.node_kind
unfolding stop_existing
stop_existing-kind none s = refl
stop_existing-kind (some st) s = end_stream-kind st.channel_id st.stream_id s

register_started-kind :
    (c : ℕ) (m : MediaMetadata) (answer : Option ℕ) (s : JanusFtl)
    → (register_started c m answer s).2.node_kind ≡ s.node_kind
unfolding register_started register_stream
register_started-kind c m none s = refl
register_started-kind c m (some stream) s = stop_existing-kind (find c s.streams) s

stream_started-kind :
    (c : ℕ) (m : MediaMetadata) (answer : Option ℕ) (s : JanusFtl)
    → (ftl_server_stream_started c m answer s).2.node_kind ≡ s.node_kind
unfolding ftl_server_stream_started service_start_stream start_stream
stream_started-kind c m answer s = elim (Bool-cases (is_edge s.node_kind)) [
  | inl on_edge ↦
      let id = s.last_assigned_stream_id in
      let next = (id + 1) % 2 ^ 32 in
      rw on_edge (register_started-kind c m (some id) (record s { last_assigned_stream_id = next }))
  | inr other ↦ rw other (register_started-kind c m answer s)
]

watch_stream-kind :
    (h c : ℕ) (key : Bytes) (s : JanusFtl)
    → (watch_stream h c key (find c s.streams) s).1.node_kind ≡ s.node_kind
unfolding watch_stream
watch_stream-kind h c key s = elim (Option-cases (find c s.streams)) [
  | inl absent ↦ let (ks, e) = subscribe_if_first-keys c key s in rw (absent, e) refl
  | inr (st, found) ↦ rw found refl
]

handle_request-kind :
    (h : ℕ) (a : ActiveSession) (key : Bytes) (m : Message) (s : JanusFtl)
    → (handle_request h a key m s).2.node_kind ≡ s.node_kind
unfolding handle_request handle_watch_message
handle_request-kind h a key missing s = refl
handle_request-kind h a key not_an_object s = refl
handle_request-kind h a key (object none id) s = refl
handle_request-kind h a key (object (some r) none) s = ground arith
handle_request-kind h a key (object (some r) (some id)) s =
    elim (Bool-cases (same r (codes "watch"))) [
      | inl watch ↦
          let c = id % 2 ^ 32 in
          rw watch
            (watch_stream-kind h c key (record s { sessions = assign h (watching c a) s.sessions }))
      | inr other ↦ rw other (ground arith)
    ]

handle_message-kind :
    (h : ℕ) (key : Bytes) (m : Message) (s : JanusFtl)
    → (handle_message h key m s).2.node_kind ≡ s.node_kind
unfolding handle_message handle_if_found
handle_message-kind h key m s = elim (Bool-cases (is_ingest s.node_kind)) [
  | inl ingests ↦ rw ingests refl
  | inr other ↦ elim (Option-cases (find h s.sessions)) [
    | inl absent ↦ rw (other, absent) refl
    | inr (a, found) ↦ rw (other, found) (handle_request-kind h a key m s)
  ]
]

leave_stream-kind :
    (h c : ℕ) (o : Option JanusStream) (s : JanusFtl)
    → (leave_stream h c o s).1.node_kind ≡ s.node_kind
unfolding leave_stream
leave_stream-kind h c none s = refl
leave_stream-kind h c (some st) s = refl

leave_pending-kind :
    (h c : ℕ) (o : Option OrdSet) (s : JanusFtl) → (leave_pending h c o s).1.node_kind ≡ s.node_kind
unfolding leave_pending
leave_pending-kind h c none s = refl
leave_pending-kind h c (some set) s = ground arith

destroy_session-kind : (h : ℕ) (s : JanusFtl) → (destroy_session h s).2.node_kind ≡ s.node_kind
unfolding left
destroy_session-kind h s = elim (Option-cases (find h s.sessions)) [
  | inl absent ↦ rw (destroy_session-none h s absent) refl
  | inr (a, found) ↦ elim (Option-cases a.watching_channel_id) [
    | inl idle ↦ rw (destroy_session-idle h a s found idle) refl
    | inr (c, watched) ↦
        let (ks, e) = destroy_session-watching h c a s found watched in
        let s' = (leave_stream h c (find c s.streams) s).1 in
        rw e (
          leave_pending-kind h c (find c s'.pending_viewer_sessions) s'
          ∙ leave_stream-kind h c (find c s.streams) s)
  ]
]

relay_if_found-kind :
    (p : ConnectionRelayPayload) (client : Option ℕ) (o : Option JanusStream) (s : JanusFtl)
    → (relay_if_found p client o s).2.node_kind ≡ s.node_kind
unfolding relay_if_found start_relay end_relay
relay_if_found-kind p client none s = refl
relay_if_found-kind p none (some st) s = ground arith
relay_if_found-kind p (some k) (some st) s = ground arith

pub run-kind : (k : Call) (s : JanusFtl) → (run k s).1.node_kind ≡ s.node_kind
unfolding run create_session setup_media start_if_found ftl_server_stream_ended packet_received
    send_if_found on_orchestrator_stream_relay
run-kind (create now h) s = refl
run-kind (message h key m) s = handle_message-kind h key m s
run-kind (media h) s = elim (Option-cases (find h s.sessions)) [
  | inl absent ↦ rw absent refl
  | inr (a, found) ↦ rw found refl
]
run-kind (destroy h) s = destroy_session-kind h s
run-kind (stream_started c m answer) s = stream_started-kind c m answer s
run-kind (stream_ended c stream) s = end_stream-kind c stream s
run-kind (packet c bytes) s = elim (Option-cases (find c s.streams)) [
  | inl absent ↦ rw absent refl
  | inr (st, found) ↦ rw found refl
]
run-kind (relay p client) s = relay_if_found-kind p client (find p.channel_id s.streams) s
