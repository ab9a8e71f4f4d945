-- ===== src/Listener.antt =====
-- src/ConnectionListeners/TcpConnectionListener.cpp and
-- src/ConnectionCreators/UdpConnectionCreator.cpp: where the transports of connections come from.
-- What the calls of the system answer are arguments, and so is whether a callback has been set.
pub mod Accepting
mod Tests
use janus_ftl_plugin.Prelude.{
  ℕ, Bool, true, false, Option, none, some, List, [], ◌∷◌, ◌++◌, map, if◌then◌else◌, ◌==◌,
}
use janus_ftl_plugin.Transport.{
  Address, NetworkSocketConnectionTransport, NetworkSocketConnectionKind, tcp, udp, nonblocking,
}
use janus_ftl_plugin.Transport

-- The exceptions, by their messages.
pub data Failure : Type 0 where
  no_socket no_option address_in_use access_denied bind_failed port_in_use listen_failed
        not_nonblocking :
      Failure

-- `EADDRINUSE` and `EACCES`.
abbrev eaddrinuse : ℕ
eaddrinuse = 98

abbrev eacces : ℕ
eacces = 13

-- What a call that sets up a socket returns, which is compared with the numbers of errors.
pub data Returned : Type 0 where
  minus_one : Returned
  number : ℕ → Returned

bind_failure : Returned → Option Failure
bind_failure minus_one = some bind_failed
bind_failure (number n) =
    if n == 0
    then none
    else if n == eaddrinuse
    then some address_in_use
    else if n == eacces
    then some access_denied
    else some bind_failed

listen_failure : Returned → Option Failure
listen_failure minus_one = some listen_failed
listen_failure (number n) =
    if n == 0 then none else if n == eaddrinuse then some port_in_use else some listen_failed

-- What `accept` answers: an error, which may be EINVAL, or a socket with its peer, and whether each
-- of the calls that make it nonblocking succeeds.
pub data Accepted : Type 0 where
  refused : (invalid : Bool) → Accepted
  accepted : (handle : ℕ) (peer : Address) (get_flags set_flags : Bool) → Accepted

pub data ListenEffect : Type 0 where
  ready : ListenEffect
  new_connection : NetworkSocketConnectionTransport → ListenEffect
  on_socket : Transport.Effect → ListenEffect

-- What becomes of a socket, and whether the loop goes on.
pub handed_on :
    List Transport.Effect × Option NetworkSocketConnectionTransport → List ListenEffect × Bool
handed_on (es, none) = (map on_socket es, false)
handed_on (es, some t) = (map on_socket es ++ new_connection t ∷ [], true)

-- One turn of the loop; without a callback the socket stays as it is.
pub accept_one : Bool → Accepted → List ListenEffect × Bool
unfolding handed_on
accept_one has_callback (refused invalid) = if invalid then ([], false) else ([], true)
accept_one has_callback (accepted handle peer get_flags set_flags) =
    if has_callback
    then handed_on (nonblocking get_flags set_flags tcp handle (some peer))
    else ([], true)

-- The loop, over what `accept` answers.
pub accept_all : Bool → List Accepted → List ListenEffect
unfolding accept_one
accept_all has_callback [] = []
accept_all has_callback (a ∷ answers) =
    let (es, goes_on) = accept_one has_callback a in
    let rest = accept_all has_callback answers in if goes_on then es ++ rest else es

pub record SetUp : Type 0 where
  pub has_socket : Bool
  pub option_set : Bool
  pub bind_result : Returned
  pub listen_result : Returned

set_up_failure : SetUp → Option Failure
unfolding bind_failure listen_failure
set_up_failure s =
    if s.has_socket
    then if s.option_set
      then elim (bind_failure s.bind_result) [
        | none ↦ listen_failure s.listen_result
        | some f ↦ some f
      ]
      else some no_option
    else some no_socket

-- `some` is an exception.
unfoldable listen : SetUp → Bool → List Accepted → List ListenEffect × Option Failure
unfolding set_up_failure accept_all
listen s has_callback answers = elim (set_up_failure s) [
  | none ↦ (ready ∷ accept_all has_callback answers, none)
  | some f ↦ ([], some f)
]

pub data Created : Type 0 where
  created : NetworkSocketConnectionTransport → Created
  thrown : Failure → Created

created_or_thrown : Option NetworkSocketConnectionTransport → Created
created_or_thrown none = thrown not_nonblocking
created_or_thrown (some t) = created t

-- `CreateConnection`: a socket whose `bind` fails stays open.
unfoldable create_connection :
    Option ℕ → Bool → Bool → Bool → ℕ → ℕ → List Transport.Effect × Created
unfolding created_or_thrown
create_connection none bound get_flags set_flags port host = ([], thrown no_socket)
create_connection (some handle) bound get_flags set_flags port host =
    let target : Address = record { host = host; port = port } in
    let (es, t) = nonblocking get_flags set_flags udp handle (some target) in
    if bound then (es, created_or_thrown t) else ([], thrown bind_failed)
