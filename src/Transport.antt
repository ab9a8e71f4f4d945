-- ===== src/Transport.antt =====
-- src/ConnectionTransports/NetworkSocketConnectionTransport.{h,cpp}: a socket. What `fcntl`, `poll`,
-- `recvfrom` and `sendto` answer is an argument; what the transport does with the socket is a list of
-- effects. A socket is its handle, and an address is the number of the host and the port.
pub mod Sending
pub mod Reading
pub mod Stopping
pub mod Aimed
mod Tests
use janus_ftl_plugin.Prelude.{
  ℕ, zero, suc, ◌+◌, ◌-◌, ◌^◌, Bool, true, false, not, Option, none, some, List, [], ◌∷◌, ◌++◌, ltb,
  ◌==◌, if◌then◌else◌, length, take, drop,
}
use janus_ftl_plugin.Rtp.Packet.{Bytes}

pub data NetworkSocketConnectionKind : Type 0 where
  tcp udp : NetworkSocketConnectionKind

pub record Address : Type 0 where
  pub host : ℕ
  pub port : ℕ

pub record NetworkSocketConnectionTransport : Type 0 where
  pub connection_kind : NetworkSocketConnectionKind
  pub socket_handle : ℕ
  pub target_addr : Option Address
  pub is_stopped : Bool

pub data Effect : Type 0 where
  close : (handle : ℕ) → Effect
  send_to : (handle : ℕ) (target : Option Address) (bytes : Bytes) → Effect

abbrev pub buffer_size : ℕ
buffer_size = 2048

abbrev pub is_udp : NetworkSocketConnectionKind → Bool
is_udp tcp = false
is_udp udp = true

-- `shutdown` and `close`.
unfoldable pub close_socket : ℕ → List Effect
close_socket handle = if handle == 0 then [] else close handle ∷ []

abbrev pub new_transport :
    NetworkSocketConnectionKind → ℕ → Option Address → NetworkSocketConnectionTransport
new_transport kind handle target = record {
  connection_kind = kind;
  socket_handle = handle;
  target_addr = target;
  is_stopped = false;
}

-- Whether each of the two calls of `fcntl` succeeds; `none` is the error.
unfoldable pub nonblocking :
    Bool
    → Bool
    → NetworkSocketConnectionKind
    → ℕ
    → Option Address
    → List Effect × Option NetworkSocketConnectionTransport
unfolding close_socket
nonblocking get_flags set_flags kind handle target =
    if not get_flags
    then (close_socket handle, none)
    else if not set_flags
    then (close_socket handle, none)
    else ([], some (new_transport kind handle target))

-- What `poll` sets: one of POLLERR, POLLHUP and POLLNVAL, and POLLIN.
pub record Poll : Type 0 where
  pub closed : Bool
  pub readable : Bool

-- What `recvfrom` answers: bytes with where they are from, or an error.
pub data Received : Type 0 where
  bytes : (source : Address) (data_bytes : Bytes) → Received
  invalid would_block failed : Received

-- What the bytes of a read become: `none` is the error. A datagram's port becomes the target's.
pub accept_from :
    Address
    → Bytes
    → NetworkSocketConnectionKind
    → Option Address
    → NetworkSocketConnectionTransport
    → Option Bytes × NetworkSocketConnectionTransport
accept_from source bs tcp target t = (some bs, t)
accept_from source bs udp none t = (some bs, t)
accept_from source bs udp (some target) t =
    if source.host == target.host
    then (some bs, record t { target_addr = some (record target { port = source.port }) })
    else (some [], t)

pub accept_bytes :
    Address
    → Bytes
    → NetworkSocketConnectionTransport
    → Option Bytes × NetworkSocketConnectionTransport
unfolding accept_from
accept_bytes source bs t = accept_from source bs t.connection_kind t.target_addr t

pub receive_bytes :
    Address
    → Bytes
    → NetworkSocketConnectionTransport
    → Option Bytes × NetworkSocketConnectionTransport
unfolding accept_bytes
receive_bytes source [] t = if is_udp t.connection_kind then (some [], t) else (none, t)
receive_bytes source (b ∷ bs) t = accept_bytes source (b ∷ bs) t

pub receive_answer :
    Received → NetworkSocketConnectionTransport → Option Bytes × NetworkSocketConnectionTransport
unfolding receive_bytes
receive_answer (bytes source bs) t = receive_bytes source (take buffer_size bs) t
receive_answer invalid t = (none, t)
receive_answer would_block t = (some [], t)
receive_answer failed t = (none, t)

-- No bytes stand for a read that has timed out too.
pub read :
    Poll
    → Received
    → NetworkSocketConnectionTransport
    → Option Bytes × NetworkSocketConnectionTransport
unfolding receive_answer
read p answer t =
    if t.is_stopped
    then (none, t)
    else if p.closed
    then (none, t)
    else if p.readable
    then receive_answer answer t
    else (some [], t)

-- What `sendto` answers: how much it has written, or an error, which may be that it would block.
pub data Sent : Type 0 where
  sent : (count : ℕ) → Sent
  error : (again : Bool) → Sent

-- The answers to the n-th call, by how many bytes it is asked to write.
abbrev pub Sendings : Type 0
Sendings = ℕ → ℕ → Sent

-- The result is kept as a `size_t`, in which -1 is the greatest number.
pub write_result : Sent → ℕ
write_result (sent n) = n
write_result (error again) = 2 ^ 64 - 1

abbrev is_again : Sent → Bool
is_again (sent n) = false
is_again (error again) = again

abbrev pub target_of : NetworkSocketConnectionTransport → Option Address
target_of t = if is_udp t.connection_kind then t.target_addr else none

pub data Turn : Type 0 where
  again : Turn
  more : (count : ℕ) → Turn
  finished : (success : Bool) → Turn

-- A result below 0 and one below the size of all of the data go on.
pub turn : Sent → ℕ → Turn
unfolding write_result
turn answer size =
    let r = write_result answer in
    if ltb r 0
    then if is_again answer then again else finished false
    else if ltb r size
    then more r
    else finished true

-- The loop of `sendData`: the calls, and whether it succeeds, `none` when it has not ended within
-- the fuel.
pub send_rest :
    ℕ → ℕ → Sendings → Bytes → ℕ → NetworkSocketConnectionTransport → List Effect × Option Bool
unfolding turn
send_rest zero n answers bs written t = ([], none)
send_rest (suc fuel) n answers bs written t =
    let rest = λ (from : ℕ). send_rest fuel (suc n) answers bs from t in
    let call = send_to t.socket_handle (target_of t) (drop written bs) in
    elim (turn (answers n (length bs - written)) (length bs)) [
      | again ↦ (call ∷ (rest written).0, (rest written).1)
      | more k ↦ (call ∷ (rest (written + k)).0, (rest (written + k)).1)
      | finished success ↦ (call ∷ [], some success)
    ]

pub send_data : ℕ → Sendings → Bytes → NetworkSocketConnectionTransport → List Effect × Option Bool
unfolding send_rest
send_data fuel answers bs t = send_rest fuel 0 answers bs 0 t

-- `some false` is the error.
pub write : ℕ → Sendings → Bytes → NetworkSocketConnectionTransport → List Effect × Option Bool
unfolding send_data
write fuel answers bs t = if t.is_stopped then ([], some false) else send_data fuel answers bs t

unfoldable pub stop :
    NetworkSocketConnectionTransport → List Effect × NetworkSocketConnectionTransport
unfolding close_socket
stop t = (if t.is_stopped then [] else close_socket t.socket_handle, record t { is_stopped = true })
