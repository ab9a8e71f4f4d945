-- ===== src/Janus/Viewers.antt =====
-- What a viewer's session asks of src/JanusFtl.cpp: to watch a channel, and to leave; and what the
-- orchestrator asks, to relay a stream.
use janus_ftl_plugin.Prelude.{
  ℕ, ◌%◌, ◌^◌, Bool, true, false, not, ◌&&◌, ◌||◌, Option, none, some, List, [], ◌∷◌, ◌++◌, ◌==◌,
  if◌then◌else◌, length,
}
use janus_ftl_plugin.Prelude.OrdMap.{OrdSet, contains, find, emplace, assign, erase}
use janus_ftl_plugin.Prelude.OrdMap.Update.{insert_or_assign}
use janus_ftl_plugin.Prelude.Text.{Text, codes, same}
use janus_ftl_plugin.Rtp.Packet.{Bytes}
use janus_ftl_plugin.Client.{ConnectMetadata}
use janus_ftl_plugin.FtlTypes.{MediaMetadata, video_codec_string, audio_codec_string}
use janus_ftl_plugin.Janus.{
  ActiveSession, JanusStream, JanusFtl, pending, Effect, push_event, connect_client, subscribe,
  unsubscribe,
}
use janus_ftl_plugin.Janus.Streams.{
  add_viewer_session, remove_viewer_session, get_viewer_count, add_relay_client, stop_relay,
}
use janus_ftl_plugin.Janus.Edge.{provision_stream_key, clear_stream_key}
use janus_ftl_plugin.Janus.Plugin.{Result, is_edge, is_ingest, pending_of, send_jsep}

-- The answer to a message. `undefined` stands for a call of `std::strcmp` with a null pointer.
pub data MessageResult : Type 0 where
  error : (code : ℕ) → MessageResult
  ok_wait : MessageResult
  undefined : MessageResult

abbrev ftl_plugin_error_no_message : ℕ
ftl_plugin_error_no_message = 450

abbrev ftl_plugin_error_invalid_json : ℕ
ftl_plugin_error_invalid_json = 451

abbrev ftl_plugin_error_invalid_request : ℕ
ftl_plugin_error_invalid_request = 452

abbrev ftl_plugin_error_missing_element : ℕ
ftl_plugin_error_missing_element = 453

abbrev ftl_plugin_error_unknown : ℕ
ftl_plugin_error_unknown = 470

-- What jansson reads of a message: the string at "request", and the integer at "channelId" as its
-- 64 bits.
pub data Message : Type 0 where
  missing not_an_object : Message
  object : (request : Option Text) (channel_id : Option ℕ) → Message

-- On an Edge node the first viewer of a channel subscribes to it.
unfoldable pub subscribe_if_first : ℕ → Bytes → JanusFtl → Result
unfolding is_edge pending_of provision_stream_key
subscribe_if_first channel new_key s =
    let (key, s') = provision_stream_key channel new_key s in
    if is_edge s.node_kind && length (pending_of channel s) == 0
    then (subscribe channel key ∷ [], s')
    else ([], s)

unfoldable pub watch_stream : ℕ → ℕ → Bytes → Option JanusStream → JanusFtl → Result
unfolding subscribe_if_first pending_of add_viewer_session send_jsep insert_or_assign emplace assign
    find
watch_stream handle channel new_key none s =
    let (es, s') = subscribe_if_first channel new_key s in
    (
      es ++ push_event handle pending ∷ [],
      record s' {
        pending_viewer_sessions =
            insert_or_assign channel (emplace handle tt (pending_of channel s'))
              s'.pending_viewer_sessions;
      },
    )
watch_stream handle channel new_key (some st) s =
    let st' = add_viewer_session handle st in
    (
      send_jsep handle (find handle s.sessions) st' ∷ [],
      record s { streams = assign channel st' s.streams },
    )

abbrev pub watching : ℕ → ActiveSession → ActiveSession
watching channel a = record a { watching_channel_id = some channel }

-- `channelId` is a `uint32_t`. The channel that the session has watched before is overwritten.
unfoldable pub handle_watch_message :
    ℕ → ActiveSession → Option ℕ → Bytes → JanusFtl → MessageResult × List Effect × JanusFtl
unfolding watch_stream assign find
handle_watch_message handle a none new_key s = (error ftl_plugin_error_missing_element, [], s)
handle_watch_message handle a (some id) new_key s =
    let channel = id % 2 ^ 32 in
    let s' = record s { sessions = assign handle (watching channel a) s.sessions } in
    let (es, s'') = watch_stream handle channel new_key (find channel s'.streams) s' in
    (ok_wait, es, s'')

unfoldable pub handle_request :
    ℕ → ActiveSession → Bytes → Message → JanusFtl → MessageResult × List Effect × JanusFtl
unfolding handle_watch_message same
handle_request handle a new_key missing s = (error ftl_plugin_error_no_message, [], s)
handle_request handle a new_key not_an_object s = (error ftl_plugin_error_invalid_json, [], s)
handle_request handle a new_key (object none channel) s = (undefined, [], s)
handle_request handle a new_key (object (some request) channel) s =
    if same request (codes "watch")
    then handle_watch_message handle a channel new_key s
    else if same request (codes "start")
    then (ok_wait, [], s)
    else (error ftl_plugin_error_invalid_request, [], s)

unfoldable pub handle_if_found :
    ℕ → Option ActiveSession → Bytes → Message → JanusFtl → MessageResult × List Effect × JanusFtl
unfolding handle_request
handle_if_found handle none new_key message s = (error ftl_plugin_error_unknown, [], s)
handle_if_found handle (some a) new_key message s = handle_request handle a new_key message s

unfoldable pub handle_message :
    ℕ → Bytes → Message → JanusFtl → MessageResult × List Effect × JanusFtl
unfolding is_ingest handle_if_found find
handle_message handle new_key message s =
    if is_ingest s.node_kind
    then (error ftl_plugin_error_invalid_request, [], s)
    else handle_if_found handle (find handle s.sessions) new_key message s

-- Whether the node is to unsubscribe, and what is left.
unfoldable pub leave_stream : ℕ → ℕ → Option JanusStream → JanusFtl → Bool × JanusFtl
unfolding remove_viewer_session get_viewer_count is_edge assign
leave_stream handle channel none s = (false, s)
leave_stream handle channel (some st) s =
    let st' = remove_viewer_session handle st in
    (
      is_edge s.node_kind && get_viewer_count st' == 0,
      record s { streams = assign channel st' s.streams },
    )

unfoldable pub leave_pending : ℕ → ℕ → Option OrdSet → JanusFtl → Bool × JanusFtl
unfolding is_edge contains assign erase
leave_pending handle channel none s = (false, s)
leave_pending handle channel (some set) s =
    let set' = erase handle set in
    if contains handle set
    then if length set' == 0
      then (
        is_edge s.node_kind,
        record s { pending_viewer_sessions = erase channel s.pending_viewer_sessions },
      )
      else (
        false,
        record s { pending_viewer_sessions = assign channel set' s.pending_viewer_sessions },
      )
    else (false, s)

-- The channel's temporary stream key goes along.
unfoldable pub unsubscribe_if : Bool → ℕ → JanusFtl → Result
unfolding clear_stream_key
unsubscribe_if false channel s = ([], s)
unsubscribe_if true channel s = (unsubscribe channel ∷ [], clear_stream_key channel s)

unfoldable pub leave_channel : ℕ → Option ℕ → JanusFtl → Result
unfolding leave_stream leave_pending unsubscribe_if find
leave_channel handle none s = ([], s)
leave_channel handle (some channel) s =
    let (left_stream, s') = leave_stream handle channel (find channel s.streams) s in
    let (left_pending, s'') =
      leave_pending handle channel (find channel s'.pending_viewer_sessions) s' in
    unsubscribe_if (left_stream || left_pending) channel s''

unfoldable pub destroy_if_found :
    ℕ → Option ActiveSession → JanusFtl → Bool × List Effect × JanusFtl
unfolding leave_channel erase
destroy_if_found handle none s = (false, [], s)
destroy_if_found handle (some a) s =
    let (es, s') = leave_channel handle a.watching_channel_id s in
    (true, es, record s' { sessions = erase handle s'.sessions })

-- The first result is `false` where `*error` is set to -2.
unfoldable pub destroy_session : ℕ → JanusFtl → Bool × List Effect × JanusFtl
unfolding find destroy_if_found
destroy_session handle s = destroy_if_found handle (find handle s.sessions) s

pub record ConnectionRelayPayload : Type 0 where
  pub is_start_relay : Bool
  pub channel_id : ℕ
  pub stream_id : ℕ
  pub target_hostname : Text
  pub stream_key : Bytes

unfoldable connect_metadata : MediaMetadata → ConnectMetadata
unfolding video_codec_string audio_codec_string
connect_metadata m = record {
  vendor_name = codes "janus-ftl-plugin";
  vendor_version = codes "0.0.0";
  has_video = m.has_video;
  video_codec = video_codec_string m.video_codec;
  video_height = m.video_height;
  video_width = m.video_width;
  video_payload_type = m.video_payload_type;
  video_ingest_ssrc = m.video_ssrc;
  has_audio = m.has_audio;
  audio_codec = audio_codec_string m.audio_codec;
  audio_payload_type = m.audio_payload_type;
  audio_ingest_ssrc = m.audio_ssrc;
}

-- `client` is the client that has connected, `none` where `ConnectAsync` has failed.
unfoldable pub start_relay :
    ConnectionRelayPayload → Option ℕ → JanusStream → JanusFtl → Bool × List Effect × JanusFtl
unfolding connect_metadata add_relay_client assign
start_relay p none st s = (
  false,
  connect_client p.target_hostname p.channel_id p.stream_key (connect_metadata st.media_metadata)
      ∷ [],
  s,
)
start_relay p (some client) st s = (
  true,
  connect_client p.target_hostname p.channel_id p.stream_key (connect_metadata st.media_metadata)
      ∷ [],
  record s {
    streams = assign p.channel_id (add_relay_client p.target_hostname client st) s.streams;
  },
)

unfoldable pub end_relay :
    ConnectionRelayPayload → JanusStream → JanusFtl → Bool × List Effect × JanusFtl
unfolding stop_relay assign
end_relay p st s =
    let (es, st') = stop_relay p.target_hostname st in
    if st.stream_id == p.stream_id
    then (true, es, record s { streams = assign p.channel_id st' s.streams })
    else (true, [], s)

unfoldable pub relay_if_found :
    ConnectionRelayPayload
    → Option ℕ
    → Option JanusStream
    → JanusFtl
    → Bool × List Effect × JanusFtl
unfolding start_relay end_relay
relay_if_found p client none s = (not p.is_start_relay, [], s)
relay_if_found p client (some st) s =
    if p.is_start_relay then start_relay p client st s else end_relay p st s

-- The first result is `IsSuccess`.
unfoldable pub on_orchestrator_stream_relay :
    ConnectionRelayPayload → Option ℕ → JanusFtl → Bool × List Effect × JanusFtl
unfolding relay_if_found find
on_orchestrator_stream_relay p client s = relay_if_found p client (find p.channel_id s.streams) s
