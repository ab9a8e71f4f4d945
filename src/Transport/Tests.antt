-- ===== src/Transport/Tests.antt =====
-- The theorems about src/ConnectionTransports/NetworkSocketConnectionTransport.cpp at concrete
-- answers.
use janus_ftl_plugin.Prelude.{
  ℕ, ◌≡◌, ◌==◌, refl, true, false, some, none, List, [], ◌∷◌, if◌then◌else◌, arith, Bool-cases, inl,
  inr,
}
use janus_ftl_plugin.Rtp.Packet.{Bytes}
use janus_ftl_plugin.Transport.{
  NetworkSocketConnectionTransport, tcp, udp, Poll, Received, bytes, would_block, Sendings, sent,
  error, send_to, target_of, new_transport, read, write, accept_bytes, accept_from, receive_answer,
  receive_bytes,
}
use janus_ftl_plugin.Transport.Sending.{IsWriting, write_partial, write_first}
use janus_ftl_plugin.Transport.Reading.{read_all}
use janus_ftl_plugin.Transport.Stopping.{
  Call, reading, writing, stopping, run_all, IsSound, run_all-IsSound,
}

abbrev socket : NetworkSocketConnectionTransport
socket = new_transport tcp 3 none

-- Two of three bytes are written, and then none.
abbrev slowly : Sendings
slowly n asked = if asked == 3 then sent 2 else sent 0

slowly-IsWriting : IsWriting slowly
slowly-IsWriting n asked = elim (Bool-cases (asked == 3)) [
  | inl e ↦ rw e (2, refl, ground arith)
  | inr e ↦ rw e (0, refl, omega arith)
]

write_partial_example : (write 40 slowly (1 ∷ 2 ∷ 3 ∷ []) socket).1 ≡ none
write_partial_example =
    write_partial 40 2 slowly (1 ∷ 2 ∷ 3 ∷ []) socket slowly-IsWriting refl refl (omega arith)
      (omega arith)

abbrev broken : Sendings
broken n asked = error false

write_first_example :
    write 1 broken (1 ∷ 2 ∷ []) socket ≡ (send_to 3 (target_of socket) (1 ∷ 2 ∷ []) ∷ [], some true)
write_first_example =
    write_first 0 broken (1 ∷ 2 ∷ []) socket refl (omega arith) (inl (false, refl))

abbrev datagrams : NetworkSocketConnectionTransport
datagrams = new_transport udp 4 (some (record { host = 9; port = 8082 }))

abbrev ready : Poll
ready = record { closed = false; readable = true }

abbrev from : ℕ → ℕ → Bytes → Poll × Received
from host port bs = (ready, bytes (record { host = host; port = port }) bs)

abbrev reads : List (Poll × Received)
reads =
    from 9 5000 (1 ∷ [])
    ∷ from 7 5001 (2 ∷ [])
    ∷ (ready, would_block)
    ∷ from 9 5002 (3 ∷ 4 ∷ [])
    ∷ []

port_followed : (read_all reads datagrams).1.target_addr ≡ some (record { host = 9; port = 5002 })
unfolding read_all read receive_answer receive_bytes accept_bytes accept_from
port_followed = refl

abbrev calls : List Call
calls =
    writing 2 broken (1 ∷ [])
    ∷ stopping
    ∷ reading ready would_block
    ∷ writing 2 broken (2 ∷ [])
    ∷ stopping
    ∷ []

run_all-IsSound_example : IsSound socket.is_stopped (run_all calls socket).0
run_all-IsSound_example = run_all-IsSound calls socket refl
