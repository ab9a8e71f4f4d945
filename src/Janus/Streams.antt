-- ===== src/Janus/Streams.antt =====
-- src/JanusStream.cpp and `JanusSession::SendRtpPacket`: a stream's viewers and relays, and the
-- packets that they get.
use janus_ftl_plugin.Prelude.{
  ℕ, ◌+◌, not, ◌&&◌, Option, none, some, List, [], ◌∷◌, ◌++◌, map, ltb, ◌==◌, if◌then◌else◌, length,
}
use janus_ftl_plugin.Prelude.OrdMap.{OrdMap, OrdSet, find, emplace, erase}
use janus_ftl_plugin.Prelude.OrdMap.Update.{insert_or_assign}
use janus_ftl_plugin.Prelude.Text.{Text, same}
use janus_ftl_plugin.Rtp.Packet.{Bytes, get_rtp_header}
use janus_ftl_plugin.FtlTypes.{MediaMetadata}
use janus_ftl_plugin.Janus.{
  JanusSession, ActiveSession, Relay, JanusStream, Effect, relay_rtp, use_after_free, relay_packet,
  stop_client,
}

abbrev playout_delay_send_count_target : ℕ
playout_delay_send_count_target = 500

-- With JANUS_PLAYOUT_DELAY_SUPPORT, and with the session's gateway handle still there.
unfoldable pub send_rtp_packet_to :
    ℕ → Bytes → MediaMetadata → JanusSession → List Effect × JanusSession
unfolding get_rtp_header
send_rtp_packet_to handle packet metadata s =
    let video = (get_rtp_header packet).type == metadata.video_payload_type in
    if not s.is_started
    then ([], s)
    else if video && ltb s.playout_delay_send_count playout_delay_send_count_target
    then elim s.playout_delay [
      | none ↦ (relay_rtp handle packet video none ∷ [], s)
      | some delay ↦ (
        relay_rtp handle packet video (some delay) ∷ [],
        record s { playout_delay_send_count = s.playout_delay_send_count + 1 },
      )
    ]
    else (relay_rtp handle packet video none ∷ [], s)

-- A viewer whose session is gone is a pointer into freed memory.
unfoldable pub send_to_viewer :
    ℕ
    → Bytes
    → MediaMetadata
    → Option ActiveSession
    → OrdMap ActiveSession
    → List Effect × OrdMap ActiveSession
unfolding send_rtp_packet_to insert_or_assign
send_to_viewer h packet m none sessions = (use_after_free h ∷ [], sessions)
send_to_viewer h packet m (some a) sessions =
    let (es, s) = send_rtp_packet_to h packet m a.session in
    (es, insert_or_assign h (record a { session = s }) sessions)

unfoldable pub send_to_viewers :
    OrdSet → Bytes → MediaMetadata → OrdMap ActiveSession → List Effect × OrdMap ActiveSession
unfolding send_to_viewer find
send_to_viewers [] packet m sessions = ([], sessions)
send_to_viewers ((h, u) ∷ hs) packet m sessions =
    let (es, sessions') = send_to_viewer h packet m (find h sessions) sessions in
    let (es', sessions'') = send_to_viewers hs packet m sessions' in (es ++ es', sessions'')

-- The viewers' sessions are those of the plugin.
unfoldable pub send_rtp_packet :
    Bytes → JanusStream → OrdMap ActiveSession → List Effect × OrdMap ActiveSession
unfolding send_to_viewers
send_rtp_packet packet stream sessions =
    let (es, sessions') =
      send_to_viewers stream.viewer_sessions packet stream.media_metadata sessions in
    (es ++ map (λ r. relay_packet r.client packet) stream.relays, sessions')

unfoldable pub add_viewer_session : ℕ → JanusStream → JanusStream
unfolding emplace
add_viewer_session h s = record s { viewer_sessions = emplace h tt s.viewer_sessions }

unfoldable pub remove_viewer_session : ℕ → JanusStream → JanusStream
unfolding erase
remove_viewer_session h s = record s { viewer_sessions = erase h s.viewer_sessions }

unfoldable pub remove_all_viewer_sessions : JanusStream → OrdSet × JanusStream
remove_all_viewer_sessions s = (s.viewer_sessions, record s { viewer_sessions = [] })

unfoldable pub get_viewer_count : JanusStream → ℕ
get_viewer_count s = length s.viewer_sessions

unfoldable pub add_relay_client : Text → ℕ → JanusStream → JanusStream
add_relay_client hostname client s = record s {
  relays = s.relays ++ record { target_hostname = hostname; client = client } ∷ [];
}

-- The relays of a target, and the other ones.
pub split_relays : Text → List Relay → List Relay × List Relay
unfolding same
split_relays hostname [] = ([], [])
split_relays hostname (r ∷ rs) =
    let (removed, kept) = split_relays hostname rs in
    if same r.target_hostname hostname then (r ∷ removed, kept) else (removed, r ∷ kept)

unfoldable pub stop_clients : List Relay → List Effect
stop_clients rs = map (λ r. stop_client r.client) rs

-- The number of relays that were stopped is the source's result.
unfoldable pub stop_relay : Text → JanusStream → List Effect × JanusStream
unfolding split_relays stop_clients
stop_relay hostname s =
    let (removed, kept) = split_relays hostname s.relays in
    (stop_clients removed, record s { relays = kept })

unfoldable pub stop_relays : JanusStream → List Effect × JanusStream
unfolding stop_clients
stop_relays s = (stop_clients s.relays, record s { relays = [] })
