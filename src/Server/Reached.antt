-- ===== src/Server/Reached.antt =====
-- Every reachable state of src/FtlServer.cpp keeps the invariant, whatever the order of events.
use janus_ftl_plugin.Prelude.{
  ℕ, ◌+◌, ◌≤◌, ◌≡◌, ◌≢◌, refl, sym, ◌∙◌, ap, subst, inl, inr, true, false, some, List, [], ◌∷◌,
  ◌++◌, arith, ◌==◌, ==_iff, sum, sum-append, Bool-cases,
}
use janus_ftl_plugin.Prelude.OrdMap.{OrdMap, contains, find, erase, erase-Ascends}
use janus_ftl_plugin.Server.{
  FtlStreamRecord, FtlServer, FtlServerEvent, stop_stream, new_control_connection,
  control_connection_closed, control_request_hmac_key, control_hmac_key_found,
  control_request_media_port, terminate_control_connection, stream_id_assigned, stream_started,
  stream_start_failed, stream_closed, Task, close_late, close_pending,
}
use janus_ftl_plugin.Server.Steps.{
  announces, known, is_external, Outcome, key_found, no_key, key_provided, terminated, id_assigned,
  refused, started, start_failed, closed, closed_before, ended, Step, call, process, finish, pass,
  Reachable, start, next,
}
use janus_ftl_plugin.Server.Held.{port_of_event, port_of_task, active_ports, active_ports-erase}
use janus_ftl_plugin.Server.Invariant.{IsValid, IsTaken, enqueue-IsValid}
use janus_ftl_plugin.Server.Handlers.{handle-IsValid}

external-announces : (a : ℕ) (e : FtlServerEvent) → is_external e ≡ true → announces a e ≡ 0
external-announces a (stream_started p channel stream port) h = ground arith
external-announces a (stop_stream channel stream) h = refl
external-announces a (new_control_connection c) h = refl
external-announces a (control_connection_closed c) h = refl
external-announces a (control_request_hmac_key c channel) h = refl
external-announces a (control_hmac_key_found c key) h = refl
external-announces a (control_request_media_port c channel m) h = refl
external-announces a (terminate_control_connection c code) h = refl
external-announces a (stream_id_assigned c channel stream m) h = refl
external-announces a (stream_start_failed channel stream port) h = refl
external-announces a (stream_closed p) h = refl

external-port : (q : ℕ) (e : FtlServerEvent) → is_external e ≡ true → port_of_event q e ≡ 0
external-port q (stream_started p channel stream port) h = ground arith
external-port q (stop_stream channel stream) h = refl
external-port q (new_control_connection c) h = refl
external-port q (control_connection_closed c) h = refl
external-port q (control_request_hmac_key c channel) h = refl
external-port q (control_hmac_key_found c key) h = refl
external-port q (control_request_media_port c channel m) h = refl
external-port q (terminate_control_connection c code) h = refl
external-port q (stream_id_assigned c channel stream m) h = refl
external-port q (stream_start_failed channel stream port) h = ground arith
external-port q (stream_closed p) h = refl

close_late-ports : (q now : ℕ) (m : OrdMap ℕ) → sum (port_of_task q) (close_late now m) ≡ 0
unfolding close_late
close_late-ports q now [] = refl
close_late-ports q now ((c, since) ∷ m) = ground (arith, close_late-ports q now m)

Outcome-port :
    (q : ℕ) (s : FtlServer) (t : Task) (es : List FtlServerEvent)
    → Outcome s t es
    → sum (port_of_event q) es ≡ port_of_task q t
Outcome-port q s t es (key_found key) = refl
Outcome-port q s t es no_key = refl
Outcome-port q s t es key_provided = refl
Outcome-port q s t es terminated = refl
Outcome-port q s t es (id_assigned stream) = refl
Outcome-port q s t es refused = refl
Outcome-port q s t es (started p fresh) = omega arith
Outcome-port q s t es start_failed = omega arith
Outcome-port q s t es closed = refl
Outcome-port q s t es closed_before = refl
Outcome-port q s t es ended = refl

Outcome-known :
    (a : ℕ) (s : FtlServer) (t : Task) (es : List FtlServerEvent)
    → Outcome s t es
    → known a s ≤ 1
    → known a s + sum (announces a) es ≤ 1
Outcome-known a s t es (key_found key) h = omega arith
Outcome-known a s t es no_key h = omega arith
Outcome-known a s t es key_provided h = omega arith
Outcome-known a s t es terminated h = omega arith
Outcome-known a s t es (id_assigned stream) h = omega arith
Outcome-known a s t es refused h = omega arith
Outcome-known a s t es (started p fresh) h = elim (Bool-cases (a == p)) [
  | inl same ↦ ground (arith, subst (λ (x : ℕ). known x s ≡ 0) (sym ((==_iff a p).0 same)) fresh)
  | inr other ↦ ground arith
]
Outcome-known a s t es start_failed h = omega arith
Outcome-known a s t es closed h = omega arith
Outcome-known a s t es closed_before h = omega arith
Outcome-known a s t es ended h = omega arith

process-IsTaken :
    (s : FtlServer) (e : FtlServerEvent) (es : List FtlServerEvent)
    → s.event_queue ≡ e ∷ es
    → IsValid s
    → IsTaken e (record s { event_queue = es })
process-IsTaken s e es front v = record {
  ascends = v.ascends;
  known_once = λ a.
      let h : sum (announces a) s.event_queue ≡ sum (announces a) (e ∷ es) =
        ap (sum (announces a)) front in
      omega (arith, h, v.known_once a);
  balanced = λ q.
      let h : sum (port_of_event q) s.event_queue ≡ sum (port_of_event q) (e ∷ es) =
        ap (sum (port_of_event q)) front in
      omega (arith, h, v.balanced q);
}

Step-IsValid : (s s' : FtlServer) → Step s s' → IsValid s → IsValid s'
unfolding close_pending
Step-IsValid s s' (call e external) v =
    enqueue-IsValid e s (λ a. external-announces a e external) (λ q. external-port q e external) v
Step-IsValid s s' (process now e es front running) v =
    handle-IsValid now e (record s { event_queue = es }) (process-IsTaken s e es front v)
Step-IsValid s s' (finish before after t es running out) v = record {
  ascends = v.ascends;
  known_once = λ a. omega (
    arith,
    sum-append (announces a) s.event_queue es,
    Outcome-known a s t es out (v.known_once a),
  );
  balanced = λ q.
      let h : sum (port_of_task q) s.async_tasks ≡ sum (port_of_task q) (before ++ t ∷ after) =
        ap (sum (port_of_task q)) running in
      omega (
        arith,
        h,
        sum-append (port_of_event q) s.event_queue es,
        sum-append (port_of_task q) before (t ∷ after),
        sum-append (port_of_task q) before after,
        Outcome-port q s t es out,
        v.balanced q,
      );
}
Step-IsValid s s' (pass now running) v = record {
  ascends = v.ascends;
  known_once = v.known_once;
  balanced = λ q.
      let m = s.pending_control_connections in
      omega (
        arith,
        sum-append (port_of_task q) s.async_tasks (close_late now m),
        close_late-ports q now m,
        v.balanced q,
      );
}

-- Every reachable state of the server: the active streams are kept once each, the server knows no
-- two streams at one address, and the number of streams that hold a port, active or about to
-- start, is one if the port is in use and zero if it is not.
pub Reachable-IsValid : (min max : ℕ) (s : FtlServer) → Reachable min max s → IsValid s
unfolding contains
Reachable-IsValid min max s start = record {
  ascends = tt;
  known_once = λ a. ground arith;
  balanced = λ q. ground arith;
}
Reachable-IsValid min max s' (next {s} before step) =
    Step-IsValid s s' step (Reachable-IsValid min max s before)

find-erase_other : (k j : ℕ) (m : OrdMap FtlStreamRecord) → k ≢ j → find j (erase k m) ≡ find j m
unfolding find erase
find-erase_other k j [] h = refl
find-erase_other k j ((i, w) ∷ m) h = ground (arith, find-erase_other k j m h)

-- In a reachable state two active streams do not have the same media port, and the media port of
-- an active stream is in use.
Reachable-active_ports :
    (min max : ℕ) (s : FtlServer) (p p' : ℕ) (r r' : FtlStreamRecord)
    → Reachable min max s
    → find p s.active_streams ≡ some r
    → find p' s.active_streams ≡ some r'
    → p ≢ p'
    → (r.media_port ≢ r'.media_port) × (contains r.media_port s.used_media_ports ≡ true)
Reachable-active_ports min max s p p' r r' reached e e' differ =
    let v : IsValid s = Reachable-IsValid min max s reached in
    let q = r.media_port in
    let m = s.active_streams in
    let other : find p' (erase p m) ≡ some r' = find-erase_other p p' m differ ∙ e' in
    let first = active_ports-erase q p r m v.ascends e in
    let second = active_ports-erase q p' r' (erase p m) (erase-Ascends p m v.ascends) other in
    (λ same. ground (arith, same, first, second, v.balanced q), ground (arith, first, v.balanced q))

-- In a reachable state without active streams, events and tasks, no media port is in use.
Reachable-quiet :
    (min max : ℕ) (s : FtlServer) (q : ℕ)
    → Reachable min max s
    → s.active_streams ≡ []
    → s.event_queue ≡ []
    → s.async_tasks ≡ []
    → contains q s.used_media_ports ≡ false
Reachable-quiet min max s q reached active events tasks =
    let v : IsValid s = Reachable-IsValid min max s reached in
    let a : active_ports q s.active_streams ≡ 0 = ap (active_ports q) active in
    let b : sum (port_of_event q) s.event_queue ≡ 0 = ap (sum (port_of_event q)) events in
    let c : sum (port_of_task q) s.async_tasks ≡ 0 = ap (sum (port_of_task q)) tasks in
    ground (arith, a, b, c, v.balanced q)
