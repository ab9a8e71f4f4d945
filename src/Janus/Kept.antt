-- ===== src/Janus/Kept.antt =====
-- src/JanusFtl.cpp: the handlers that leave it to each session which channel it watches.
use janus_ftl_plugin.Prelude.{
  ℕ, ◌+◌, ◌%◌, ◌^◌, ◌≡◌, refl, sym, ◌∙◌, subst, ap, true, false, ◌||◌, Option, none, some, List, [],
  ◌∷◌, ◌++◌, map, ◌==◌, arith, Bool-cases, Option-cases, inl, inr, All-append,
}
use janus_ftl_plugin.Prelude.OrdMap.{OrdMap, find, assign, find-assign}
use janus_ftl_plugin.Prelude.OrdMap.Update.{contains-find, contains-assign}
use janus_ftl_plugin.Rtp.Packet.{Bytes}
use janus_ftl_plugin.FtlTypes.{MediaMetadata}
use janus_ftl_plugin.Janus.{
  ActiveSession, JanusStream, JanusFtl, Effect, relay_packet, end_service_stream,
}
use janus_ftl_plugin.Janus.Edge.{start_stream}
use janus_ftl_plugin.Janus.Streams.{
  send_to_viewers, send_rtp_packet, stop_clients, add_relay_client, stop_relay, split_relays,
}
use janus_ftl_plugin.Janus.Plugin.{
  pending_of, publish_if_ingest, retire_stream, end_stream, add_pending, register_stream,
  new_stream, stop_existing, register_started, ftl_server_stream_started, service_start_stream,
  send_if_found, packet_received, is_edge, setup_media, start_if_found, started,
}
use janus_ftl_plugin.Janus.Viewers.{
  ConnectionRelayPayload, on_orchestrator_stream_relay, relay_if_found, start_relay, end_relay,
}
use janus_ftl_plugin.Janus.Attached.{
  viewing, waiting, attached, is_viewer, viewing-found, end_stream-cases,
}
use janus_ftl_plugin.Janus.Valid.{
  watch_state, session_watch, is_watching, IsValid, Keyed-assign, stop_existing-IsValid,
  ids-IsValid,
}
use janus_ftl_plugin.Janus.Watching.{session_watch-assign}
use janus_ftl_plugin.Janus.Safe.{
  is_fault, IsSafe, Alive, attached-alive, send_to_viewers-Alive, relays-IsSafe,
  stop_clients-IsSafe, publish_if_ingest-IsSafe, add_pending-IsSafe,
}

pub append-IsSafe : (es fs : List Effect) → IsSafe es → IsSafe fs → IsSafe (es ++ fs)
append-IsSafe = All-append (λ e. is_fault e ≡ false)

pub end_stream-IsSafe : (c stream : ℕ) (s : JanusFtl) → IsSafe (end_stream c stream s).0
unfolding retire_stream
end_stream-IsSafe c stream s = elim (end_stream-cases c stream s) [
  | inl (other, e) ↦ rw e tt
  | inr (st, found, live, e) ↦
      let published = publish_if_ingest false st.channel_id st.stream_id s in
      let stopped = stop_clients st.relays in
      rw e (
        append-IsSafe (published ++ stopped) (end_service_stream stream ∷ [])
          (append-IsSafe published stopped
            (publish_if_ingest-IsSafe false st.channel_id st.stream_id s)
            (stop_clients-IsSafe st.relays))
          (refl, tt))
]

pub end_stream-sessions :
    (c stream : ℕ) (s : JanusFtl) → (end_stream c stream s).1.sessions ≡ s.sessions
unfolding retire_stream
end_stream-sessions c stream s = elim (end_stream-cases c stream s) [
  | inl (other, e) ↦ rw e refl
  | inr (st, found, live, e) ↦ rw e refl
]

pub packet_received-kept :
    (c : ℕ) (b : Bytes) (s : JanusFtl)
    → IsValid s
    → IsSafe (packet_received c b s).0
      × ((k : ℕ) → session_watch k (packet_received c b s).1 ≡ session_watch k s)
      × IsValid (packet_received c b s).1
unfolding packet_received send_if_found send_rtp_packet session_watch attached viewing waiting
    pending_of
packet_received-kept c b s v = elim (Option-cases (find c s.streams)) [
  | inl absent ↦ rw absent (tt, λ k. refl, v)
  | inr (st, found) ↦
      let alive : Alive st.viewer_sessions s.sessions =
        λ h seen. attached-alive h c s v (ground (arith, viewing-found h c st s found)) in
      let sent = send_to_viewers st.viewer_sessions b st.media_metadata s.sessions in
      let all : (k : ℕ)
          → IsSafe sent.0 × (watch_state (find k sent.1) ≡ watch_state (find k s.sessions)) =
        λ k. send_to_viewers-Alive st.viewer_sessions k b st.media_metadata s.sessions alive in
      rw found (
        append-IsSafe sent.0 (map (λ r. relay_packet r.client b) st.relays) (all 0).0
            (relays-IsSafe b st.relays),
        λ k. (all k).1,
        record {
          watched = λ h d. v.watched h d ∙ sym (ap (is_watching d) (all h).1);
          exclusive = v.exclusive;
          keyed = v.keyed;
        },
      )
]

register_stream-IsSafe :
    (c stream : ℕ) (m : MediaMetadata) (s : JanusFtl)
    → IsValid s
    → IsSafe (register_stream c stream m s).0
unfolding register_stream attached waiting
register_stream-IsSafe c stream m s v =
    let alive : Alive (pending_of c s) s.sessions =
      λ h waits. attached-alive h c s v (ground arith) in
    append-IsSafe (add_pending (pending_of c s) s.sessions (new_stream c stream m)).0
      (publish_if_ingest true c stream s)
      (add_pending-IsSafe (pending_of c s) s.sessions (new_stream c stream m) alive)
      (publish_if_ingest-IsSafe true c stream s)

stop_existing-kept :
    (o : Option JanusStream) (s : JanusFtl)
    → IsSafe (stop_existing o s).0 × ((stop_existing o s).1.sessions ≡ s.sessions)
unfolding stop_existing
stop_existing-kept none s = (tt, refl)
stop_existing-kept (some st) s = (
  (refl, end_stream-IsSafe st.channel_id st.stream_id s),
  end_stream-sessions st.channel_id st.stream_id s,
)

register_started-kept :
    (c : ℕ) (m : MediaMetadata) (answer : Option ℕ) (s : JanusFtl)
    → IsValid s
    → IsSafe (register_started c m answer s).1
      × ((register_started c m answer s).2.sessions ≡ s.sessions)
unfolding register_started register_stream
register_started-kept c m none s v = (tt, refl)
register_started-kept c m (some stream) s v =
    let (es, s') = stop_existing (find c s.streams) s in
    let (_, v') = stop_existing-IsValid c s v in
    let (safe, kept) = stop_existing-kept (find c s.streams) s in
    (
      append-IsSafe es (register_stream c stream m s').0 safe
          (register_stream-IsSafe c stream m s' v'),
      kept,
    )

pub ftl_server_stream_started-kept :
    (c : ℕ) (m : MediaMetadata) (answer : Option ℕ) (s : JanusFtl)
    → IsValid s
    → IsSafe (ftl_server_stream_started c m answer s).1
      × ((ftl_server_stream_started c m answer s).2.sessions ≡ s.sessions)
unfolding ftl_server_stream_started service_start_stream start_stream
ftl_server_stream_started-kept c m answer s v = elim (Bool-cases (is_edge s.node_kind)) [
  | inl on_edge ↦
      let id = s.last_assigned_stream_id in
      rw on_edge (
        register_started-kept c m (some id)
          (record s { last_assigned_stream_id = (id + 1) % 2 ^ 32 })
          (ids-IsValid ((id + 1) % 2 ^ 32) s v))
  | inr other ↦ rw other (register_started-kept c m answer s v)
]

is_viewer-assign :
    (h c d : ℕ) (st st' : JanusStream) (m : OrdMap JanusStream)
    → find c m ≡ some st
    → st'.viewer_sessions ≡ st.viewer_sessions
    → is_viewer h (find d (assign c st' m)) ≡ is_viewer h (find d m)
unfolding is_viewer
is_viewer-assign h c d st st' m found same =
    ground (arith, find-assign c d st' m, contains-find c m)

-- A stream whose relays have changed.
streams-IsValid :
    (c : ℕ) (st st' : JanusStream) (s : JanusFtl)
    → find c s.streams ≡ some st
    → st'.channel_id ≡ st.channel_id
    → st'.viewer_sessions ≡ st.viewer_sessions
    → IsValid s
    → IsValid (record s { streams = assign c st' s.streams })
unfolding session_watch attached viewing is_viewer waiting pending_of
streams-IsValid c st st' s found same_channel same_viewers v = record {
  watched = λ h d.
      ap (λ seen. seen || waiting h d s)
        (is_viewer-assign h c d st st' s.streams found same_viewers)
      ∙ v.watched h d;
  exclusive = λ d live. v.exclusive d (sym (contains-assign c d st' s.streams) ∙ live);
  keyed = Keyed-assign c st' s.streams (same_channel ∙ v.keyed c st found) v.keyed;
}

start_relay-kept :
    (p : ConnectionRelayPayload) (client : Option ℕ) (st : JanusStream) (s : JanusFtl)
    → find p.channel_id s.streams ≡ some st
    → IsValid s
    → IsSafe (start_relay p client st s).1
      × ((start_relay p client st s).2.sessions ≡ s.sessions)
      × IsValid (start_relay p client st s).2
unfolding start_relay add_relay_client
start_relay-kept p none st s found v = ((refl, tt), refl, v)
start_relay-kept p (some client) st s found v = (
  (refl, tt),
  refl,
  streams-IsValid p.channel_id st (add_relay_client p.target_hostname client st) s found refl refl
      v,
)

end_relay-kept :
    (p : ConnectionRelayPayload) (st : JanusStream) (s : JanusFtl)
    → find p.channel_id s.streams ≡ some st
    → IsValid s
    → IsSafe (end_relay p st s).1
      × ((end_relay p st s).2.sessions ≡ s.sessions)
      × IsValid (end_relay p st s).2
unfolding end_relay stop_relay
end_relay-kept p st s found v = elim (Bool-cases (st.stream_id == p.stream_id)) [
  | inl same ↦
      let (removed, kept) = split_relays p.target_hostname st.relays in
      rw same (
        stop_clients-IsSafe removed,
        refl,
        streams-IsValid p.channel_id st (record st { relays = kept }) s found refl refl v,
      )
  | inr other ↦ rw other (tt, refl, v)
]

pub on_orchestrator_stream_relay-kept :
    (p : ConnectionRelayPayload) (client : Option ℕ) (s : JanusFtl)
    → IsValid s
    → IsSafe (on_orchestrator_stream_relay p client s).1
      × ((on_orchestrator_stream_relay p client s).2.sessions ≡ s.sessions)
      × IsValid (on_orchestrator_stream_relay p client s).2
unfolding on_orchestrator_stream_relay relay_if_found
on_orchestrator_stream_relay-kept p client s v = elim (Option-cases (find p.channel_id s.streams)) [
  | inl absent ↦ rw absent (tt, refl, v)
  | inr (st, found) ↦ elim (Bool-cases p.is_start_relay) [
    | inl starts ↦ rw (found, starts) (start_relay-kept p client st s found v)
    | inr ends ↦ rw (found, ends) (end_relay-kept p st s found v)
  ]
]

started_watch :
    (h k : ℕ) (a : ActiveSession) (s : JanusFtl)
    → find h s.sessions ≡ some a
    → session_watch k (record s { sessions = assign h (started a) s.sessions }) ≡ session_watch k s
unfolding session_watch
started_watch h k a s found = elim (Bool-cases (k == h)) [
  | inl here ↦
      let same : k ≡ h = ground arith in
      let kept : session_watch h s ≡ some a.watching_channel_id = rw found refl in
      session_watch-assign h k a (started a) s found
      ∙ rw here (sym (subst (λ x. session_watch x s ≡ some a.watching_channel_id) (sym same) kept))
  | inr there ↦ session_watch-assign h k a (started a) s found ∙ rw there refl
]

pub setup_media-kept :
    (h : ℕ) (s : JanusFtl)
    → IsValid s
    → ((k : ℕ) → session_watch k (setup_media h s) ≡ session_watch k s) × IsValid (setup_media h s)
unfolding setup_media start_if_found attached viewing waiting pending_of
setup_media-kept h s v = elim (Option-cases (find h s.sessions)) [
  | inl absent ↦ rw absent (λ k. refl, v)
  | inr (a, found) ↦
      let s' = record s { sessions = assign h (started a) s.sessions } in
      let same : (k : ℕ) → session_watch k s' ≡ session_watch k s =
        λ k. started_watch h k a s found in
      rw found (
        same,
        record {
          watched = λ k d. v.watched k d ∙ sym (ap (is_watching d) (same k));
          exclusive = v.exclusive;
          keyed = v.keyed;
        },
      )
]
