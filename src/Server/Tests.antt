-- ===== src/Server/Tests.antt =====
-- The theorems about src/FtlServer.cpp at a concrete server.
use janus_ftl_plugin.Prelude.{ℕ, ◌≤◌, ◌<◌, ◌≡◌, refl, true, false, some, [], ◌∷◌, arith}
use janus_ftl_plugin.Prelude.OrdMap.{contains, find, emplace, erase}
use janus_ftl_plugin.FtlTypes.{no_metadata}
use janus_ftl_plugin.Server.{
  FtlStreamRecord, FtlServer, new_server, new_control_connection, control_request_media_port,
  start_channel, start_stream, stream_id_assigned, stream_started, stream_closed, stream_ended,
  reserve_media_port, find_media_port, handle, enqueue,
}
use janus_ftl_plugin.Server.Steps.{
  Reachable, start, next, call, process, finish, id_assigned, started, ended,
}
use janus_ftl_plugin.Server.Invariant.{IsValid}
use janus_ftl_plugin.Server.Ports.{
  IsLeastFree, reserve_media_port-IsLeastFree, reserve_media_port_wraps,
}
use janus_ftl_plugin.Server.Reached.{Reachable-IsValid}

abbrev busy : FtlServer
busy = record (new_server 9000 9002) { used_media_ports = (9000, tt) ∷ [] }

reserve_media_port-IsLeastFree_example :
    IsLeastFree 9000 9002 ((9000, tt) ∷ []) (reserve_media_port busy)
reserve_media_port-IsLeastFree_example =
    reserve_media_port-IsLeastFree busy (omega arith) (omega arith)

-- The highest port is 65,535, and it is the only one, and in use.
abbrev full : FtlServer
full = record (new_server 65535 65535) { used_media_ports = (65535, tt) ∷ [] }

only_port : (q : ℕ) → 65535 ≤ q → q < 65536 → contains q full.used_media_ports ≡ true
unfolding contains
only_port q low high = ground arith

no_port_zero : contains 0 full.used_media_ports ≡ false
unfolding contains
no_port_zero = refl

reserve_media_port_wraps_example : reserve_media_port full ≡ some (some 0)
reserve_media_port_wraps_example =
    reserve_media_port_wraps full refl (omega arith) (omega arith) only_port no_port_zero

abbrev stream_record : ℕ → FtlStreamRecord
stream_record port = record { channel_id = 7; stream_id = 8; media_port = port }

-- One stream is on, and then another of the same channel.
abbrev one_stream : FtlServer
one_stream = record (new_server 9000 9002) {
  active_streams = (1, stream_record 9000) ∷ [];
  used_media_ports = (9000, tt) ∷ [];
}

abbrev two_streams : FtlServer
two_streams = record (new_server 9000 9002) {
  active_streams = (1, stream_record 9000) ∷ (2, stream_record 9001) ∷ [];
  used_media_ports = (9000, tt) ∷ (9001, tt) ∷ [];
}

one_stream-Reachable : Reachable 9000 9002 one_stream
unfolding enqueue handle reserve_media_port find_media_port contains emplace erase
one_stream-Reachable =
    next
      (next
        (next
          (next
            (next
              (next
                (next (next start (call (new_control_connection 5) refl))
                  (process 0 (new_control_connection 5) [] refl refl))
                (call (control_request_media_port 5 7 no_metadata) refl))
              (process 0 (control_request_media_port 5 7 no_metadata) [] refl refl))
            (finish [] [] (start_channel 5 7 no_metadata) _ refl (id_assigned 8)))
          (process 0 (stream_id_assigned 5 7 8 no_metadata) [] refl refl))
        (finish [] [] (start_stream 5 7 8 9000 no_metadata) _ refl (started 1 refl)))
      (process 0 (stream_started 1 7 8 9000) [] refl refl)

two_streams-Reachable : Reachable 9000 9002 two_streams
unfolding enqueue handle reserve_media_port find_media_port contains emplace erase
two_streams-Reachable =
    next
      (next
        (next
          (next
            (next
              (next
                (next (next one_stream-Reachable (call (new_control_connection 6) refl))
                  (process 0 (new_control_connection 6) [] refl refl))
                (call (control_request_media_port 6 7 no_metadata) refl))
              (process 0 (control_request_media_port 6 7 no_metadata) [] refl refl))
            (finish [] [] (start_channel 6 7 no_metadata) _ refl (id_assigned 8)))
          (process 0 (stream_id_assigned 6 7 8 no_metadata) [] refl refl))
        (finish [] [] (start_stream 6 7 8 9001 no_metadata) _ refl (started 2 refl)))
      (process 0 (stream_started 2 7 8 9001) [] refl refl)

-- The one stream closes.
closed-Reachable : Reachable 9000 9002 (new_server 9000 9002)
unfolding enqueue handle find erase
closed-Reachable =
    next
      (next (next one_stream-Reachable (call (stream_closed 1) refl))
        (process 0 (stream_closed 1) [] refl refl))
      (finish [] [] (stream_ended 7 8) _ refl ended)

Reachable-IsValid_example : IsValid two_streams
Reachable-IsValid_example = Reachable-IsValid 9000 9002 two_streams two_streams-Reachable
