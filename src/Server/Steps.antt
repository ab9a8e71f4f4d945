-- ===== src/Server/Steps.antt =====
-- src/FtlServer.cpp as a step relation: the event thread, the threads of the asynchronous calls,
-- and the connections and streams that queue events, in any order. The callbacks of
-- src/JanusFtl.cpp may answer anything; `make_shared` gives a stream an address that no stream
-- has which the server knows. The thread of the events, which also makes the pass over the pending
-- connections, does neither any more once it is stuck.
use janus_ftl_plugin.Prelude.{
  ℕ, ◌+◌, ◌≡◌, Bool, true, false, List, [], ◌∷◌, ◌++◌, ◌==◌, if◌then◌else◌, sum,
}
use janus_ftl_plugin.Prelude.OrdMap.{contains}
use janus_ftl_plugin.Rtp.Packet.{Bytes}
use janus_ftl_plugin.FtlTypes.{MediaMetadata}
use janus_ftl_plugin.Server.{
  FtlServer, new_server, FtlServerEvent, stop_stream, new_control_connection,
  control_connection_closed, control_request_hmac_key, control_hmac_key_found,
  control_request_media_port, terminate_control_connection, stream_id_assigned, stream_started,
  stream_start_failed, stream_closed, Task, request_key, provide_hmac_key, terminate, start_channel,
  start_stream, request_stop, stream_ended, enqueue, handle, close_pending,
  ftl_ingest_resp_invalid_stream_key, ftl_ingest_resp_server_terminate,
}

abbrev pub one_if : Bool → ℕ
one_if b = if b then 1 else 0

-- Whether an event announces the stream at an address.
abbrev pub announces : ℕ → FtlServerEvent → ℕ
announces a (stream_started p channel stream port) = one_if (a == p)
announces a e = 0

-- How many streams the server knows at an address.
abbrev pub known : ℕ → FtlServer → ℕ
known a s = one_if (contains a s.active_streams) + sum (announces a) s.event_queue

-- The events that connections, streams and the plugin queue by themselves.
abbrev pub is_external : FtlServerEvent → Bool
is_external (stop_stream channel stream) = true
is_external (new_control_connection c) = true
is_external (control_connection_closed c) = true
is_external (control_request_hmac_key c channel) = true
is_external (control_request_media_port c channel m) = true
is_external (stream_closed p) = true
is_external e = false

-- What a task may queue when it ends.
pub data Outcome (s : FtlServer) : Task → List FtlServerEvent → Type 0 where
  key_found :
      {c channel : ℕ} (key : Bytes)
      → Outcome s (request_key c channel) (control_hmac_key_found c key ∷ [])
  no_key :
      {c channel : ℕ}
      → Outcome s
          (request_key c channel)
          (terminate_control_connection c ftl_ingest_resp_invalid_stream_key ∷ [])
  key_provided : {c : ℕ} {key : Bytes} → Outcome s (provide_hmac_key c key) []
  terminated : {c code : ℕ} → Outcome s (terminate c code) []
  id_assigned :
      {c channel : ℕ} {m : MediaMetadata} (stream : ℕ)
      → Outcome s (start_channel c channel m) (stream_id_assigned c channel stream m ∷ [])
  refused :
      {c channel : ℕ} {m : MediaMetadata}
      → Outcome s
          (start_channel c channel m)
          (terminate_control_connection c ftl_ingest_resp_server_terminate ∷ [])
  started :
      {c channel stream port : ℕ} {m : MediaMetadata} (p : ℕ)
      → known p s ≡ 0
      → Outcome s (start_stream c channel stream port m) (stream_started p channel stream port ∷ [])
  start_failed :
      {c channel stream port : ℕ} {m : MediaMetadata}
      → Outcome s
          (start_stream c channel stream port m)
          (stream_start_failed channel stream port ∷ [])
  closed : {p : ℕ} → Outcome s (request_stop p) (stream_closed p ∷ [])
  closed_before : {p : ℕ} → Outcome s (request_stop p) []
  ended : {channel stream : ℕ} → Outcome s (stream_ended channel stream) []

pub data Step (s : FtlServer) : FtlServer → Type 0 where
  call : (e : FtlServerEvent) → is_external e ≡ true → Step s (enqueue e s)
  process :
      (now : ℕ) (e : FtlServerEvent) (es : List FtlServerEvent)
      → s.event_queue ≡ e ∷ es
      → s.is_stuck ≡ false
      → Step s (handle now e (record s { event_queue = es }))
  finish :
      (before after : List Task) (t : Task) (es : List FtlServerEvent)
      → s.async_tasks ≡ before ++ t ∷ after
      → Outcome s t es
      → Step s (record s { async_tasks = before ++ after; event_queue = s.event_queue ++ es })
  pass : (now : ℕ) → s.is_stuck ≡ false → Step s (close_pending now s)

pub data Reachable (min max : ℕ) : FtlServer → Type 0 where
  start : Reachable min max (new_server min max)
  next : {s s' : FtlServer} → Reachable min max s → Step s s' → Reachable min max s'
