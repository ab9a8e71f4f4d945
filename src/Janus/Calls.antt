-- ===== src/Janus/Calls.antt =====
-- src/JanusFtl.cpp under any sequence of calls, against what a reader of its interface keeps in
-- mind: for each session, the channel that it watches.
use janus_ftl_plugin.Prelude.{
  ℕ, ◌%◌, ◌^◌, ◌≡◌, Option, none, some, List, [], ◌∷◌, ◌++◌, ◌==◌, if◌then◌else◌,
}
use janus_ftl_plugin.Prelude.Text.{codes, same}
use janus_ftl_plugin.Rtp.Packet.{Bytes}
use janus_ftl_plugin.FtlTypes.{MediaMetadata}
use janus_ftl_plugin.Janus.{NodeKind, JanusFtl}
use janus_ftl_plugin.Janus.Plugin.{
  Result, is_ingest, create_session, setup_media, ftl_server_stream_started,
  ftl_server_stream_ended, packet_received,
}
use janus_ftl_plugin.Janus.Viewers.{
  Message, object, handle_message, destroy_session, ConnectionRelayPayload,
  on_orchestrator_stream_relay,
}

pub data Call : Type 0 where
  create : (now handle : ℕ) → Call
  message : (handle : ℕ) (new_key : Bytes) (m : Message) → Call
  media : (handle : ℕ) → Call
  destroy : (handle : ℕ) → Call
  stream_started : (channel : ℕ) (metadata : MediaMetadata) (answer : Option ℕ) → Call
  stream_ended : (channel stream : ℕ) → Call
  packet : (channel : ℕ) (bytes : Bytes) → Call
  relay : (payload : ConnectionRelayPayload) (client : Option ℕ) → Call

unfoldable pub run : Call → JanusFtl → Result
unfolding create_session handle_message setup_media destroy_session ftl_server_stream_started
    ftl_server_stream_ended packet_received on_orchestrator_stream_relay
run (create now h) s = ([], create_session now h s)
run (message h key m) s = let (answer, es, s') = handle_message h key m s in (es, s')
run (media h) s = ([], setup_media h s)
run (destroy h) s = let (found, es, s') = destroy_session h s in (es, s')
run (stream_started c m answer) s =
    let (result, es, s') = ftl_server_stream_started c m answer s in (es, s')
run (stream_ended c stream) s = ftl_server_stream_ended c stream s
run (packet c bytes) s = packet_received c bytes s
run (relay p client) s = let (success, es, s') = on_orchestrator_stream_relay p client s in (es, s')

unfoldable pub run_all : List Call → JanusFtl → Result
unfolding run
run_all [] s = ([], s)
run_all (k ∷ ks) s = let (es, s') = run k s in let (es', s'') = run_all ks s' in (es ++ es', s'')

-- For a handle: `none` for no session, and otherwise the channel that it watches, if any.
abbrev pub Watches : Type 0
Watches = ℕ → Option (Option ℕ)

-- The channel that a message asks to watch.
unfoldable pub requested : Message → Option ℕ
unfolding same
requested (object (some request) (some id)) =
    if same request (codes "watch") then some (id % 2 ^ 32) else none
requested m = none

abbrev pub asked : Option ℕ → Option (Option ℕ) → Option (Option ℕ)
asked none w = w
asked (some c) none = none
asked (some c) (some w) = some (some c)

abbrev pub update : ℕ → Option (Option ℕ) → Watches → Watches
update h w f k = if k == h then w else f k

-- The same calls, of which only three concern a session.
unfoldable pub replay : NodeKind → Call → Watches → Watches
unfolding is_ingest requested
replay kind (create now h) f = update h (some none) f
replay kind (message h key m) f =
    if is_ingest kind then f else update h (asked (requested m) (f h)) f
replay kind (destroy h) f = update h none f
replay kind k f = f

unfoldable pub replay_all : NodeKind → List Call → Watches → Watches
unfolding replay
replay_all kind [] f = f
replay_all kind (k ∷ ks) f = replay_all kind ks (replay kind k f)

-- The Janus core creates one session for a handle, and a session asks for no second channel.
unfoldable pub IsAllowed : Call → Watches → Type 0
unfolding requested
IsAllowed (create now h) f = f h ≡ none
IsAllowed (message h key m) f = (c d : ℕ) → requested m ≡ some c → f h ≡ some (some d) → d ≡ c
IsAllowed k f = Unit {0}

unfoldable pub AreAllowed : NodeKind → List Call → Watches → Type 0
unfolding replay IsAllowed
AreAllowed kind [] f = Unit {0}
AreAllowed kind (k ∷ ks) f = IsAllowed k f × AreAllowed kind ks (replay kind k f)
