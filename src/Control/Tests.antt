-- ===== src/Control/Tests.antt =====
-- The theorems about src/FtlControlConnection.cpp and src/Utilities/Util.h at a concrete session,
-- with small stand-ins for the library.
use janus_ftl_plugin.Prelude.{sum, true, ◌≡◌, refl, some, none, List, [], ◌∷◌, ◌++◌}
use janus_ftl_plugin.Prelude.Text.{Text, codes}
use janus_ftl_plugin.Rtp.Packet.{Bytes}
use janus_ftl_plugin.Control.{Library, new_control_connection, on_transport_bytes_received}
use janus_ftl_plugin.Control.Frozen.{IsBound, on_transport_bytes_received-IsBound}
use janus_ftl_plugin.Control.Session.{Call, receive, provide, run_all, IsKey, run_all-authenticated}
use janus_ftl_plugin.Control.Thread.{Event, turn, call, set_ftl_stream, new_thread, steps}
use janus_ftl_plugin.Control.Ended.{own_effects, stops, notices, one_if_ended, steps-session}

-- Every CONNECT names the channel 7 and the hash `2a`, and every hash is that of this library.
abbrev library : Library
library = record {
  connect_groups = λ command. some (codes "7", codes "2a");
  attribute_groups = λ command. none;
  stoul = λ text. some 7;
  to_decimal = λ n. 50 ∷ n ∷ [];
  hmac = λ key payload. 42 ∷ [];
  random_payload = λ n. n ∷ [];
}

abbrev greeting : Text
greeting = codes "HMAC" ++ 13 ∷ 10 ∷ 13 ∷ 10 ∷ codes "CONNECT" ++ 13 ∷ 10 ∷ 13 ∷ 10 ∷ []

abbrev session : List Call
session = receive greeting ∷ provide (1 ∷ []) ∷ []

on_transport_bytes_received-IsBound_example :
    IsBound new_control_connection
      (on_transport_bytes_received library greeting new_control_connection)
on_transport_bytes_received-IsBound_example =
    on_transport_bytes_received-IsBound library greeting new_control_connection

run_all-authenticated_example :
    (before : List Call) × (key : Bytes) × (after : List Call) × (session
      ≡ before ++ provide key ∷ after)
    × IsKey library key (run_all library before new_control_connection).0
unfolding run_all
run_all-authenticated_example =
    run_all-authenticated library session new_control_connection refl refl

-- The greeting is read, the key provided, and then the read fails.
abbrev life : List Event
life =
    turn (some greeting)
    ∷ turn (some [])
    ∷ call (provide (1 ∷ []))
    ∷ set_ftl_stream
    ∷ turn none
    ∷ []

steps-session_example :
    let (fs, t) = steps library life (new_thread true) in
    ((ks : List Call) × (run_all library ks new_control_connection
        ≡ (t.connection, own_effects fs)))
    × (sum stops fs ≡ one_if_ended t)
    × (sum notices fs ≡ one_if_ended t)
steps-session_example = steps-session library life
