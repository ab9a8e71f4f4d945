-- ===== src/Server/Invariant.antt =====
-- What holds of every state of src/FtlServer.cpp: no port is held twice and none leaks.
use janus_ftl_plugin.Prelude.{
  ℕ, zero, suc, ◌+◌, ◌%◌, ◌^◌, ◌≤◌, ◌≡◌, false, some, [], ◌∷◌, arith, sum-append,
}
use janus_ftl_plugin.Prelude.OrdMap.{
  OrdMap, OrdSet, contains, find, Ascends, erase-Ascends, contains-erase,
}
use janus_ftl_plugin.Server.{
  FtlStreamRecord, FtlServer, FtlServerEvent, Task, enqueue, dispatch_async_call, find_media_port,
  remove_stream_record,
}
use janus_ftl_plugin.Server.Steps.{announces, known}
use janus_ftl_plugin.Server.Held.{port_of_event, port_of_task, held, in_use, active_ports-erase}

-- The active streams are kept once each, the server knows no two streams at one address, and a
-- port is in use exactly if one stream holds it.
pub record IsValid (s : FtlServer) : Type 0 where
  pub ascends : Ascends s.active_streams
  pub known_once : (a : ℕ) → known a s ≤ 1
  pub balanced : (q : ℕ) → held q s ≡ in_use q s

-- The same of a server that has just taken an event off its queue.
pub record IsTaken (e : FtlServerEvent) (s : FtlServer) : Type 0 where
  pub ascends : Ascends s.active_streams
  pub known_once : (a : ℕ) → announces a e + known a s ≤ 1
  pub balanced : (q : ℕ) → port_of_event q e + held q s ≡ in_use q s

pub dispatch-IsValid :
    (t : Task) (s : FtlServer)
    → ((q : ℕ) → port_of_task q t ≡ 0)
    → IsValid s
    → IsValid (dispatch_async_call t s)
unfolding dispatch_async_call
dispatch-IsValid t s none_held v = record {
  ascends = v.ascends;
  known_once = v.known_once;
  balanced = λ q.
      omega (arith, none_held q, v.balanced q, sum-append (port_of_task q) s.async_tasks (t ∷ []));
}

pub enqueue-IsValid :
    (e : FtlServerEvent) (s : FtlServer)
    → ((a : ℕ) → announces a e ≡ 0)
    → ((q : ℕ) → port_of_event q e ≡ 0)
    → IsValid s
    → IsValid (enqueue e s)
unfolding enqueue
enqueue-IsValid e s not_known none_held v = record {
  ascends = v.ascends;
  known_once = λ a.
      omega (arith, not_known a, v.known_once a, sum-append (announces a) s.event_queue (e ∷ []));
  balanced = λ q.
      omega (arith, none_held q, v.balanced q, sum-append (port_of_event q) s.event_queue (e ∷ []));
}

pub pending-IsValid :
    (m : OrdMap ℕ) (s : FtlServer)
    → IsValid s
    → IsValid (record s { pending_control_connections = m })
pending-IsValid m s v = record {
  ascends = v.ascends;
  known_once = v.known_once;
  balanced = v.balanced;
}

pub taken-IsValid :
    (e : FtlServerEvent) (s : FtlServer)
    → ((q : ℕ) → port_of_event q e ≡ 0)
    → IsTaken e s
    → IsValid s
taken-IsValid e s none_held v = record {
  ascends = v.ascends;
  known_once = λ a. omega (arith, v.known_once a);
  balanced = λ q. omega (arith, none_held q, v.balanced q);
}

pub remove_stream_record-IsValid :
    (p : ℕ) (r : FtlStreamRecord) (s : FtlServer)
    → find p s.active_streams ≡ some r
    → IsValid s
    → IsValid (remove_stream_record p r s)
unfolding remove_stream_record
remove_stream_record-IsValid p r s e v = record {
  ascends = erase-Ascends p s.active_streams v.ascends;
  known_once = λ a. ground (arith, contains-erase p a s.active_streams, v.known_once a);
  balanced = λ q. ground (
    arith,
    contains-erase r.media_port q s.used_media_ports,
    v.balanced q,
    active_ports-erase q p r s.active_streams v.ascends e,
  );
}

pub find_media_port-free :
    (fuel i max port : ℕ) (used : OrdSet)
    → find_media_port fuel i max used ≡ some (some port)
    → contains port used ≡ false
unfolding find_media_port
find_media_port-free zero i max port used e = absurd (ground arith)
find_media_port-free (suc fuel) i max port used e =
    ground (arith, find_media_port-free fuel ((i + 1) % 2 ^ 16) max port used)
