-- ===== src/Server/Handlers.antt =====
-- The listeners of src/FtlServer.cpp keep the invariant.
use janus_ftl_plugin.Prelude.{
  ℕ, ◌^◌, ◌≡◌, refl, inl, inr, false, Option, some, none, [], ◌∷◌, arith, sum-append, Bool-cases,
  Option-cases,
}
use janus_ftl_plugin.Prelude.OrdMap.{
  contains, find, emplace, erase, emplace-Ascends, contains-emplace, contains-erase,
}
use janus_ftl_plugin.Rtp.Packet.{Bytes}
use janus_ftl_plugin.FtlTypes.{MediaMetadata}
use janus_ftl_plugin.Server.{
  FtlStreamRecord, FtlServer, FtlServerEvent, stop_stream, new_control_connection,
  control_connection_closed, control_request_hmac_key, control_hmac_key_found,
  control_request_media_port, terminate_control_connection, stream_id_assigned, stream_started,
  stream_start_failed, stream_closed, start_stream, request_stop, terminate, stream_ended,
  provide_hmac_key, request_key, start_channel, dispatch_async_call, dispatch_on_stream_ended,
  reserve_media_port, remove_stream_record, find_stream, event_stop_stream,
  event_new_control_connection, event_control_connection_closed, event_control_hmac_key_found,
  event_terminate_control_connection, assign_media_port, event_stream_id_assigned,
  event_stream_started, event_stream_start_failed, event_stream_closed, handle,
}
use janus_ftl_plugin.Server.Held.{port_of_task, active_ports-emplace, find_stream-find}
use janus_ftl_plugin.Server.Invariant.{
  IsValid, IsTaken, dispatch-IsValid, enqueue-IsValid, pending-IsValid, taken-IsValid,
  remove_stream_record-IsValid, find_media_port-free,
}

reserve_media_port-free :
    (s : FtlServer) (port : ℕ)
    → reserve_media_port s ≡ some (some port)
    → contains port s.used_media_ports ≡ false
unfolding reserve_media_port
reserve_media_port-free s port =
    find_media_port-free (2 ^ 16) s.min_media_port s.max_media_port port s.used_media_ports

start_stream-IsValid :
    (c channel stream port : ℕ) (m : MediaMetadata) (s : FtlServer)
    → contains port s.used_media_ports ≡ false
    → IsValid s
    → IsValid (assign_media_port c channel stream m (some (some port)) s)
unfolding assign_media_port dispatch_async_call
start_stream-IsValid c channel stream port m s free v = record {
  ascends = v.ascends;
  known_once = v.known_once;
  balanced = λ q. ground (
    arith,
    contains-emplace port q tt s.used_media_ports,
    v.balanced q,
    sum-append (port_of_task q) s.async_tasks (start_stream c channel stream port m ∷ []),
  );
}

assign_media_port-IsValid :
    (c channel stream : ℕ) (m : MediaMetadata) (o : Option (Option ℕ)) (s : FtlServer)
    → ((port : ℕ) → o ≡ some (some port) → contains port s.used_media_ports ≡ false)
    → IsValid s
    → IsValid (assign_media_port c channel stream m o s)
unfolding assign_media_port dispatch_on_stream_ended
assign_media_port-IsValid c channel stream m none s free v = record {
  ascends = v.ascends;
  known_once = v.known_once;
  balanced = v.balanced;
}
assign_media_port-IsValid c channel stream m (some none) s free v =
    enqueue-IsValid (terminate_control_connection c 500)
      (dispatch_async_call (stream_ended channel stream) s) (λ a. refl) (λ q. refl)
      (dispatch-IsValid (stream_ended channel stream) s (λ q. refl) v)
assign_media_port-IsValid c channel stream m (some (some port)) s free v =
    start_stream-IsValid c channel stream port m s (free port refl) v

event_stream_id_assigned-IsValid :
    (c channel stream : ℕ) (m : MediaMetadata) (s : FtlServer)
    → IsValid s
    → IsValid (event_stream_id_assigned c channel stream m s)
unfolding event_stream_id_assigned dispatch_on_stream_ended
event_stream_id_assigned-IsValid c channel stream m s v =
    elim (Bool-cases (contains c s.pending_control_connections)) [
      | inl here ↦ rw here (
          assign_media_port-IsValid c channel stream m (reserve_media_port s) s
            (reserve_media_port-free s) v)
      | inr gone ↦ rw gone (dispatch-IsValid (stream_ended channel stream) s (λ q. refl) v)
    ]

event_stream_started-IsValid :
    (p channel stream port : ℕ) (s : FtlServer)
    → IsTaken (stream_started p channel stream port) s
    → IsValid (event_stream_started p channel stream port s)
unfolding event_stream_started
event_stream_started-IsValid p channel stream port s v =
    let r : FtlStreamRecord = record {
      channel_id = channel;
      stream_id = stream;
      media_port = port;
    } in
    let absent : contains p s.active_streams ≡ false = ground (arith, v.known_once p) in
    record {
      ascends = emplace-Ascends p r s.active_streams v.ascends;
      known_once = λ a. ground (arith, contains-emplace p a r s.active_streams, v.known_once a);
      balanced =
          λ q. ground (arith, active_ports-emplace q p r s.active_streams absent, v.balanced q);
    }

event_stream_start_failed-IsValid :
    (channel stream port : ℕ) (s : FtlServer)
    → IsTaken (stream_start_failed channel stream port) s
    → IsValid (event_stream_start_failed channel stream port s)
unfolding event_stream_start_failed dispatch_on_stream_ended
event_stream_start_failed-IsValid channel stream port s v =
    dispatch-IsValid (stream_ended channel stream)
      (record s { used_media_ports = erase port s.used_media_ports }) (λ q. refl)
      (record {
        ascends = v.ascends;
        known_once = λ a. omega (arith, v.known_once a);
        balanced = λ q. ground (arith, contains-erase port q s.used_media_ports, v.balanced q);
      })

event_stop_stream-IsValid :
    (channel stream : ℕ) (s : FtlServer) → IsValid s → IsValid (event_stop_stream channel stream s)
unfolding event_stop_stream
event_stop_stream-IsValid channel stream s v =
    elim (Option-cases (find_stream channel stream s.active_streams)) [
      | inl e ↦ rw (e, event_stop_stream) v
      | inr ((p, r), e) ↦
          rw (e, event_stop_stream)
            (dispatch-IsValid (request_stop p) (remove_stream_record p r s) (λ q. refl)
              (remove_stream_record-IsValid p r s
                (find_stream-find channel stream p r s.active_streams v.ascends e) v))
    ]

event_stream_closed-IsValid :
    (p : ℕ) (s : FtlServer) → IsValid s → IsValid (event_stream_closed p s)
unfolding event_stream_closed dispatch_on_stream_ended
event_stream_closed-IsValid p s v = elim (Option-cases (find p s.active_streams)) [
  | inl e ↦ rw (e, event_stream_closed) v
  | inr (r, e) ↦
      rw (e, event_stream_closed)
        (dispatch-IsValid (stream_ended r.channel_id r.stream_id) (remove_stream_record p r s)
          (λ q. refl) (remove_stream_record-IsValid p r s e v))
]

event_terminate-IsValid :
    (c code : ℕ) (s : FtlServer) → IsValid s → IsValid (event_terminate_control_connection c code s)
unfolding event_terminate_control_connection
event_terminate-IsValid c code s v = elim (Bool-cases (contains c s.pending_control_connections)) [
  | inl here ↦ rw here (
      dispatch-IsValid (terminate c code)
        (record s { pending_control_connections = erase c s.pending_control_connections })
        (λ q. refl) (pending-IsValid (erase c s.pending_control_connections) s v))
  | inr gone ↦ rw gone v
]

event_hmac_key_found-IsValid :
    (c : ℕ) (key : Bytes) (s : FtlServer)
    → IsValid s
    → IsValid (event_control_hmac_key_found c key s)
unfolding event_control_hmac_key_found
event_hmac_key_found-IsValid c key s v =
    elim (Bool-cases (contains c s.pending_control_connections)) [
      | inl here ↦ rw here (dispatch-IsValid (provide_hmac_key c key) s (λ q. refl) v)
      | inr gone ↦ rw gone v
    ]

event_closed-IsValid :
    (c : ℕ) (s : FtlServer) → IsValid s → IsValid (event_control_connection_closed c s)
unfolding event_control_connection_closed
event_closed-IsValid c s v = elim (Bool-cases (contains c s.pending_control_connections)) [
  | inl here ↦ rw here (pending-IsValid (erase c s.pending_control_connections) s v)
  | inr gone ↦ rw gone v
]

pub handle-IsValid :
    (now : ℕ) (e : FtlServerEvent) (s : FtlServer) → IsTaken e s → IsValid (handle now e s)
unfolding handle event_new_control_connection
handle-IsValid now (stop_stream channel stream) s t =
    event_stop_stream-IsValid channel stream s
      (taken-IsValid (stop_stream channel stream) s (λ q. refl) t)
handle-IsValid now (new_control_connection c) s t =
    pending-IsValid (emplace c now s.pending_control_connections) s
      (taken-IsValid (new_control_connection c) s (λ q. refl) t)
handle-IsValid now (control_connection_closed c) s t =
    event_closed-IsValid c s (taken-IsValid (control_connection_closed c) s (λ q. refl) t)
handle-IsValid now (control_request_hmac_key c channel) s t =
    dispatch-IsValid (request_key c channel) s (λ q. refl)
      (taken-IsValid (control_request_hmac_key c channel) s (λ q. refl) t)
handle-IsValid now (control_hmac_key_found c key) s t =
    event_hmac_key_found-IsValid c key s
      (taken-IsValid (control_hmac_key_found c key) s (λ q. refl) t)
handle-IsValid now (control_request_media_port c channel m) s t =
    dispatch-IsValid (start_channel c channel m) s (λ q. refl)
      (taken-IsValid (control_request_media_port c channel m) s (λ q. refl) t)
handle-IsValid now (terminate_control_connection c code) s t =
    event_terminate-IsValid c code s
      (taken-IsValid (terminate_control_connection c code) s (λ q. refl) t)
handle-IsValid now (stream_id_assigned c channel stream m) s t =
    event_stream_id_assigned-IsValid c channel stream m s
      (taken-IsValid (stream_id_assigned c channel stream m) s (λ q. refl) t)
handle-IsValid now (stream_started p channel stream port) s t =
    event_stream_started-IsValid p channel stream port s t
handle-IsValid now (stream_start_failed channel stream port) s t =
    event_stream_start_failed-IsValid channel stream port s t
handle-IsValid now (stream_closed p) s t =
    event_stream_closed-IsValid p s (taken-IsValid (stream_closed p) s (λ q. refl) t)
