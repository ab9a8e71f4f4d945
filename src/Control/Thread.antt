-- ===== src/Control/Thread.antt =====
-- `threadBody` of src/FtlControlConnection.cpp, beside the calls of the server: each turn of its
-- loop, with what the transport's `Read` yields, and what it does when it ends.
use janus_ftl_plugin.Prelude.{
  Bool, true, false, Option, none, some, List, [], ◌∷◌, ◌++◌, map, if◌then◌else◌, length, ◌==◌,
}
use janus_ftl_plugin.Rtp.Packet.{Bytes}
use janus_ftl_plugin.Control.{
  Library, Effect, FtlControlConnection, new_control_connection, Result,
  on_transport_bytes_received,
}
use janus_ftl_plugin.Control.Session.{Call, run}

-- A connection with its thread; the manager is the server.
pub record Thread : Type 0 where
  pub connection : FtlControlConnection
  pub has_stream : Bool
  pub has_manager : Bool
  pub has_ended : Bool

abbrev pub new_thread : Bool → Thread
new_thread manager = record {
  connection = new_control_connection;
  has_stream = false;
  has_manager = manager;
  has_ended = false;
}

pub data ThreadEffect : Type 0 where
  own : Effect → ThreadEffect
  stop_transport notify_stream notify_manager : ThreadEffect

-- One turn of the loop, with what is read, `none` for an error; a call of the server; and
-- `SetFtlStream`.
pub data Event : Type 0 where
  turn : (bytes : Option Bytes) → Event
  call : Call → Event
  set_ftl_stream : Event

-- The stream is told, or else the manager.
abbrev pub notice_of : Bool → Bool → List ThreadEffect
notice_of true manager = notify_stream ∷ []
notice_of false true = notify_manager ∷ []
notice_of false false = []

-- The end of the thread: first the transport is stopped.
unfoldable pub end_thread : Thread → List ThreadEffect × Thread
end_thread t =
    (stop_transport ∷ notice_of t.has_stream t.has_manager, record t { has_ended = true })

abbrev pub with_result : Thread → Result → List ThreadEffect × Thread
with_result t r = (map own r.1, record t { connection = r.0 })

unfoldable pub read_turn : Library → Option Bytes → Thread → List ThreadEffect × Thread
unfolding end_thread
read_turn l none t = end_thread t
read_turn l (some bytes) t =
    if length bytes == 0
    then ([], t)
    else with_result t (on_transport_bytes_received l bytes t.connection)

-- A stop that has been requested is seen before the next read. A thread that has ended has no turns.
unfoldable pub step : Library → Event → Thread → List ThreadEffect × Thread
unfolding read_turn end_thread run
step l (turn bytes) t =
    if t.has_ended
    then ([], t)
    else if t.connection.stop_requested
    then end_thread t
    else read_turn l bytes t
step l (call k) t = with_result t (run l k t.connection)
step l set_ftl_stream t = ([], record t { has_stream = true })

unfoldable pub steps : Library → List Event → Thread → List ThreadEffect × Thread
unfolding step
steps l [] t = ([], t)
steps l (e ∷ es) t = let (fs, t') = step l e t in let (fs', t'') = steps l es t' in (fs ++ fs', t'')
