-- ===== src/Listener/Tests.antt =====
-- The theorem about src/ConnectionListeners/TcpConnectionListener.cpp at concrete sockets.
use janus_ftl_plugin.Prelude.{◌≡◌, refl, true, false, List, [], ◌∷◌}
use janus_ftl_plugin.Transport.{Address}
use janus_ftl_plugin.Listener.{Accepted, refused, accepted, accept_all}
use janus_ftl_plugin.Listener.Accepting.{heard, accept_all-heard}

abbrev peer : Address
peer = record { host = 9; port = 5000 }

-- The third socket cannot be made nonblocking.
abbrev answers : List Accepted
answers =
    accepted 4 peer true true
    ∷ refused false
    ∷ accepted 5 peer true true
    ∷ accepted 6 peer true false
    ∷ accepted 7 peer true true
    ∷ []

accept_all-heard_example : accept_all true answers ≡ heard answers
accept_all-heard_example = accept_all-heard answers (refl, (tt, (refl, (refl, (refl, tt)))))
