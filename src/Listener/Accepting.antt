-- ===== src/Listener/Accepting.antt =====
-- What becomes of the sockets that src/ConnectionListeners/TcpConnectionListener.cpp accepts.
use janus_ftl_plugin.Prelude.{◌≡◌, refl, ap, true, false, some, List, [], ◌∷◌, ◌==◌, All}
use janus_ftl_plugin.Transport.{Address, tcp, nonblocking, new_transport, close_socket}
use janus_ftl_plugin.Transport
use janus_ftl_plugin.Listener.{
  Accepted, refused, accepted, ListenEffect, new_connection, on_socket, handed_on, accept_one,
  accept_all,
}

abbrev pub HasSocket : Accepted → Type 0
HasSocket (refused invalid) = Unit {0}
HasSocket (accepted handle peer get_flags set_flags) = (handle == 0) ≡ false

-- What is to become of what `accept` answers: a transport over the very socket, for a stream of bytes
-- and to the socket's peer, or the closing of this socket.
abbrev pub heard : List Accepted → List ListenEffect
heard [] = []
heard (refused true ∷ answers) = []
heard (refused false ∷ answers) = heard answers
heard (accepted handle peer true true ∷ answers) =
    new_connection (new_transport tcp handle (some peer)) ∷ heard answers
heard (accepted handle peer true false ∷ answers) = on_socket (Transport.close handle) ∷ []
heard (accepted handle peer false set_flags ∷ answers) = on_socket (Transport.close handle) ∷ []

-- With a callback, and sockets whose handles are not 0: each socket that is accepted is handed on, once
-- and in the order of the sockets, as a new open transport for a stream of bytes over this socket and
-- with its peer, until EINVAL, or until a socket that cannot be made nonblocking; this one is closed
-- and not handed on, and nothing that comes after either of the two is accepted.
pub accept_all-heard :
    (answers : List Accepted) → All HasSocket answers → accept_all true answers ≡ heard answers
unfolding accept_all accept_one handed_on nonblocking close_socket
accept_all-heard [] h = refl
accept_all-heard (refused true ∷ answers) h = refl
accept_all-heard (refused false ∷ answers) h = accept_all-heard answers h.1
accept_all-heard (accepted handle peer true true ∷ answers) h =
    ap (λ (es : List ListenEffect). new_connection (new_transport tcp handle (some peer)) ∷ es)
      (accept_all-heard answers h.1)
accept_all-heard (accepted handle peer true false ∷ answers) h = rw (h.0) refl
accept_all-heard (accepted handle peer false set_flags ∷ answers) h = rw (h.0) refl
