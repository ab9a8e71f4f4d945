-- ===== src/Server.antt =====
-- src/FtlServer.{h,cpp}: the server's event queue, its handlers, and the media ports it reserves.
-- A connection or a stream is the number of its address. What `dispatchAsyncCall` runs on a thread
-- of its own is a task that waits in `async_tasks`; src/FtlServer.cpp reads the clock at the start
-- of an entry, here once for a pass. The locks and the listening thread are left out.
pub mod Ports
pub mod Steps
pub mod Held
pub mod Invariant
pub mod Handlers
pub mod Reached
pub mod Stats
mod Tests
use janus_ftl_plugin.Prelude.{
  ℕ, zero, suc, ◌+◌, ◌-◌, ◌%◌, ◌^◌, Bool, true, false, ◌&&◌, Option, none, some, List, [], ◌∷◌,
  ◌++◌, ltb, leb, ◌==◌, if◌then◌else◌,
}
use janus_ftl_plugin.Prelude.OrdMap.{OrdMap, OrdSet, contains, find, emplace, erase}
use janus_ftl_plugin.Rtp.Packet.{Bytes}
use janus_ftl_plugin.FtlTypes.{MediaMetadata}

-- A stream's channel is that of its control connection.
pub record FtlStreamRecord : Type 0 where
  pub channel_id : ℕ
  pub stream_id : ℕ
  pub media_port : ℕ

-- The packet sink, the target address and the message of an error go along in the source.
pub data FtlServerEvent : Type 0 where
  stop_stream : (channel_id stream_id : ℕ) → FtlServerEvent
  new_control_connection : (connection : ℕ) → FtlServerEvent
  control_connection_closed : (connection : ℕ) → FtlServerEvent
  control_request_hmac_key : (connection channel_id : ℕ) → FtlServerEvent
  control_hmac_key_found : (connection : ℕ) (hmac_key : Bytes) → FtlServerEvent
  control_request_media_port :
      (connection channel_id : ℕ) (metadata : MediaMetadata) → FtlServerEvent
  terminate_control_connection : (connection response_code : ℕ) → FtlServerEvent
  stream_id_assigned :
      (connection channel_id stream_id : ℕ) (metadata : MediaMetadata) → FtlServerEvent
  stream_started : (stream channel_id stream_id media_port : ℕ) → FtlServerEvent
  stream_start_failed : (channel_id stream_id media_port : ℕ) → FtlServerEvent
  stream_closed : (stream : ℕ) → FtlServerEvent

-- The calls that the server hands to other threads.
pub data Task : Type 0 where
  request_key : (connection channel_id : ℕ) → Task
  provide_hmac_key : (connection : ℕ) (hmac_key : Bytes) → Task
  terminate : (connection response_code : ℕ) → Task
  start_channel : (connection channel_id : ℕ) (metadata : MediaMetadata) → Task
  start_stream : (connection channel_id stream_id media_port : ℕ) (metadata : MediaMetadata) → Task
  request_stop : (stream : ℕ) → Task
  stream_ended : (channel_id stream_id : ℕ) → Task

pub record FtlServer : Type 0 where
  pub min_media_port : ℕ
  pub max_media_port : ℕ
  pub event_queue : List FtlServerEvent
  pub async_tasks : List Task
  pub pending_control_connections : OrdMap ℕ
  pub active_streams : OrdMap FtlStreamRecord
  pub used_media_ports : OrdSet
  -- Whether the thread of the events is in a loop that does not end.
  pub is_stuck : Bool

abbrev pub new_server : ℕ → ℕ → FtlServer
new_server min max = record {
  min_media_port = min;
  max_media_port = max;
  event_queue = [];
  async_tasks = [];
  pending_control_connections = [];
  active_streams = [];
  used_media_ports = [];
  is_stuck = false;
}

abbrev pub ftl_ingest_resp_invalid_stream_key : ℕ
ftl_ingest_resp_invalid_stream_key = 405

abbrev pub ftl_ingest_resp_server_terminate : ℕ
ftl_ingest_resp_server_terminate = 410

abbrev ftl_ingest_resp_internal_server_error : ℕ
ftl_ingest_resp_internal_server_error = 500

-- Nanoseconds.
abbrev connection_auth_timeout : ℕ
connection_auth_timeout = 5_000_000_000

pub enqueue : FtlServerEvent → FtlServer → FtlServer
enqueue e s = record s { event_queue = s.event_queue ++ e ∷ [] }

pub dispatch_async_call : Task → FtlServer → FtlServer
dispatch_async_call t s = record s { async_tasks = s.async_tasks ++ t ∷ [] }

pub dispatch_on_stream_ended : ℕ → ℕ → FtlServer → FtlServer
unfolding dispatch_async_call
dispatch_on_stream_ended channel stream s = dispatch_async_call (stream_ended channel stream) s

-- The loop of `reserveMediaPort`, whose index is a `uint16_t`: `none` when it has not ended within
-- the fuel, and otherwise the port or the error.
pub find_media_port : ℕ → ℕ → ℕ → OrdSet → Option (Option ℕ)
find_media_port zero i max used = none
find_media_port (suc fuel) i max used =
    let next = find_media_port fuel ((i + 1) % 2 ^ 16) max used in
    if leb i max then if contains i used then next else some (some i) else some none

-- Without a limit to the ports the loop sees each of them once in 2^16 steps.
pub reserve_media_port : FtlServer → Option (Option ℕ)
reserve_media_port s = find_media_port (2 ^ 16) s.min_media_port s.max_media_port s.used_media_ports

-- The record is there: both callers have looked it up.
pub remove_stream_record : ℕ → FtlStreamRecord → FtlServer → FtlServer
remove_stream_record stream r s = record s {
  used_media_ports = erase r.media_port s.used_media_ports;
  active_streams = erase stream s.active_streams;
}

-- The first active stream with both ids.
pub find_stream : ℕ → ℕ → OrdMap FtlStreamRecord → Option (ℕ × FtlStreamRecord)
find_stream channel stream [] = none
find_stream channel stream ((p, r) ∷ m) =
    if r.channel_id == channel && r.stream_id == stream
    then some (p, r)
    else find_stream channel stream m

pub event_stop_stream : ℕ → ℕ → FtlServer → FtlServer
unfolding find_stream remove_stream_record dispatch_async_call
event_stop_stream channel stream s = elim (find_stream channel stream s.active_streams) [
  | none ↦ s
  | some (p, r) ↦ dispatch_async_call (request_stop p) (remove_stream_record p r s)
]

pub event_new_control_connection : ℕ → ℕ → FtlServer → FtlServer
event_new_control_connection now connection s = record s {
  pending_control_connections = emplace connection now s.pending_control_connections;
}

pub event_control_connection_closed : ℕ → FtlServer → FtlServer
event_control_connection_closed connection s =
    if contains connection s.pending_control_connections
    then record s { pending_control_connections = erase connection s.pending_control_connections }
    else s

pub event_control_hmac_key_found : ℕ → Bytes → FtlServer → FtlServer
unfolding dispatch_async_call
event_control_hmac_key_found connection key s =
    if contains connection s.pending_control_connections
    then dispatch_async_call (provide_hmac_key connection key) s
    else s

pub event_terminate_control_connection : ℕ → ℕ → FtlServer → FtlServer
unfolding dispatch_async_call
event_terminate_control_connection connection code s =
    if contains connection s.pending_control_connections
    then dispatch_async_call (terminate connection code)
        (record s { pending_control_connections = erase connection s.pending_control_connections })
    else s

-- The stream is on, but there may be no port for it. `none`: the search for one does not end, since all
-- of the 2^16 ports are searched and in use.
pub assign_media_port : ℕ → ℕ → ℕ → MediaMetadata → Option (Option ℕ) → FtlServer → FtlServer
unfolding enqueue dispatch_async_call dispatch_on_stream_ended
assign_media_port connection channel stream m none s = record s { is_stuck = true }
assign_media_port connection channel stream m (some none) s =
    enqueue (terminate_control_connection connection ftl_ingest_resp_internal_server_error)
      (dispatch_on_stream_ended channel stream s)
assign_media_port connection channel stream m (some (some port)) s =
    dispatch_async_call (start_stream connection channel stream port m) (record s {
      used_media_ports = emplace port tt s.used_media_ports;
      pending_control_connections = erase connection s.pending_control_connections;
    })

pub event_stream_id_assigned : ℕ → ℕ → ℕ → MediaMetadata → FtlServer → FtlServer
unfolding dispatch_on_stream_ended assign_media_port
event_stream_id_assigned connection channel stream m s =
    if contains connection s.pending_control_connections
    then assign_media_port connection channel stream m (reserve_media_port s) s
    else dispatch_on_stream_ended channel stream s

pub event_stream_started : ℕ → ℕ → ℕ → ℕ → FtlServer → FtlServer
event_stream_started p channel stream port s = record s {
  active_streams =
      emplace p (record { channel_id = channel; stream_id = stream; media_port = port })
        s.active_streams;
}

pub event_stream_start_failed : ℕ → ℕ → ℕ → FtlServer → FtlServer
unfolding dispatch_on_stream_ended
event_stream_start_failed channel stream port s =
    dispatch_on_stream_ended channel stream
      (record s { used_media_ports = erase port s.used_media_ports })

pub event_stream_closed : ℕ → FtlServer → FtlServer
unfolding remove_stream_record dispatch_on_stream_ended
event_stream_closed p s = elim (find p s.active_streams) [
  | none ↦ s
  | some r ↦ dispatch_on_stream_ended r.channel_id r.stream_id (remove_stream_record p r s)
]

-- The listener of each kind of event.
pub handle : ℕ → FtlServerEvent → FtlServer → FtlServer
unfolding dispatch_async_call event_stop_stream event_new_control_connection
    event_control_connection_closed event_control_hmac_key_found event_terminate_control_connection
    event_stream_id_assigned event_stream_started event_stream_start_failed event_stream_closed
handle now (stop_stream channel stream) s = event_stop_stream channel stream s
handle now (new_control_connection c) s = event_new_control_connection now c s
handle now (control_connection_closed c) s = event_control_connection_closed c s
handle now (control_request_hmac_key c channel) s = dispatch_async_call (request_key c channel) s
handle now (control_hmac_key_found c key) s = event_control_hmac_key_found c key s
handle now (control_request_media_port c channel m) s =
    dispatch_async_call (start_channel c channel m) s
handle now (terminate_control_connection c code) s = event_terminate_control_connection c code s
handle now (stream_id_assigned c channel stream m) s = event_stream_id_assigned c channel stream m s
handle now (stream_started p channel stream port) s = event_stream_started p channel stream port s
handle now (stream_start_failed channel stream port) s =
    event_stream_start_failed channel stream port s
handle now (stream_closed p) s = event_stream_closed p s

-- What the pass over the pending connections keeps, and what it hands to other threads.
unfoldable is_late : ℕ → ℕ → Bool
is_late now since = ltb connection_auth_timeout (now - since)

unfoldable keep_pending : ℕ → OrdMap ℕ → OrdMap ℕ
keep_pending now [] = []
keep_pending now ((c, since) ∷ m) =
    let rest = keep_pending now m in if is_late now since then rest else (c, since) ∷ rest

pub close_late : ℕ → OrdMap ℕ → List Task
close_late now [] = []
close_late now ((c, since) ∷ m) =
    let rest = close_late now m in
    if is_late now since then terminate c ftl_ingest_resp_server_terminate ∷ rest else rest

-- The part of `eventQueueThreadBody` that follows the processing of events.
pub close_pending : ℕ → FtlServer → FtlServer
close_pending now s = record s {
  pending_control_connections = keep_pending now s.pending_control_connections;
  async_tasks = s.async_tasks ++ close_late now s.pending_control_connections;
}
