-- ===== src/Media/Thread.antt =====
-- `RequestStop` and `threadBody` of src/FtlMediaConnection.cpp, over the transport of a socket.
use janus_ftl_plugin.Prelude.{
  ℕ, Bool, true, false, Option, none, some, List, [], ◌∷◌, ◌++◌, map, ◌==◌, if◌then◌else◌, length,
}
use janus_ftl_plugin.Rtp.Packet.{Bytes}
use janus_ftl_plugin.FtlTypes.{MediaMetadata}
use janus_ftl_plugin.Transport.{NetworkSocketConnectionTransport, Poll, Received, read, stop}
use janus_ftl_plugin.Transport
use janus_ftl_plugin.Media.{Effect, FtlMediaConnection, new_connection, on_bytes_received}

-- A connection with its thread and its transport; there is always an `onClosed`.
pub record MediaThread : Type 0 where
  pub connection : FtlMediaConnection
  pub transport : NetworkSocketConnectionTransport
  pub stop_requested : Bool
  pub has_ended : Bool

abbrev pub new_media_thread :
    MediaMetadata → ℕ → Bool → NetworkSocketConnectionTransport → MediaThread
new_media_thread m avg nack transport = record {
  connection = new_connection m avg nack;
  transport = transport;
  stop_requested = false;
  has_ended = false;
}

pub data ThreadEffect : Type 0 where
  own : Effect → ThreadEffect
  on_socket : Transport.Effect → ThreadEffect
  on_closed : ThreadEffect

-- One turn of the loop, at a time and with what the system answers; and `RequestStop`.
pub data Event : Type 0 where
  turn : (now : ℕ) (p : Poll) (answer : Received) → Event
  stop_request : Event

unfoldable pub end_thread : MediaThread → List ThreadEffect × MediaThread
unfolding stop
end_thread t =
    let (es, transport) = stop t.transport in
    (map on_socket es ++ on_closed ∷ [], record t { transport = transport; has_ended = true })

-- What is read is handled if there is any; an error ends the thread.
unfoldable pub read_turn : ℕ → Option Bytes → MediaThread → List ThreadEffect × MediaThread
unfolding end_thread on_bytes_received
read_turn now none t = end_thread t
read_turn now (some bytes) t =
    if length bytes == 0
    then ([], t)
    else let (c, es) = on_bytes_received now bytes t.connection in
      (map own es, record t { connection = c })

-- A stop that has been requested is seen before the next read. A thread that has ended has no turns.
unfoldable pub step : Event → MediaThread → List ThreadEffect × MediaThread
unfolding end_thread read_turn
step (turn now p answer) t =
    if t.has_ended
    then ([], t)
    else if t.stop_requested
    then end_thread t
    else let (result, transport) = read p answer t.transport in
      read_turn now result (record t { transport = transport })
step stop_request t = ([], record t { stop_requested = true })

unfoldable pub steps : List Event → MediaThread → List ThreadEffect × MediaThread
unfolding step
steps [] t = ([], t)
steps (e ∷ es) t = let (fs, t') = step e t in let (fs', t'') = steps es t' in (fs ++ fs', t'')
