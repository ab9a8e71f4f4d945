-- ===== src/Transport/Stopping.antt =====
-- Any calls of src/ConnectionTransports/NetworkSocketConnectionTransport.cpp.
use janus_ftl_plugin.Prelude.{
  ℕ, zero, suc, ◌+◌, ◌-◌, ◌≡◌, ◌⊎◌, subst, refl, Bool, true, false, Option, none, some, List, [],
  ◌∷◌, ◌++◌, ◌==◌, Bool-cases, if-both, length, take, inl, inr,
}
use janus_ftl_plugin.Rtp.Packet.{Bytes}
use janus_ftl_plugin.Transport.{
  Effect, close, send_to, NetworkSocketConnectionTransport, Poll, Received, Sendings, read, write,
  stop, close_socket, send_rest, send_data, Turn, turn, again, more, finished, Address,
  NetworkSocketConnectionKind, tcp, udp, is_udp, accept_from, accept_bytes, receive_bytes,
  receive_answer, buffer_size, bytes, invalid, would_block, failed,
}

pub data Call : Type 0 where
  reading : (p : Poll) (answer : Received) → Call
  writing : (fuel : ℕ) (answers : Sendings) (data_bytes : Bytes) → Call
  stopping : Call

unfoldable pub run :
    Call → NetworkSocketConnectionTransport → List Effect × NetworkSocketConnectionTransport
unfolding read write stop
run (reading p answer) t = ([], (read p answer t).1)
run (writing fuel answers bs) t = ((write fuel answers bs t).0, t)
run stopping t = stop t

unfoldable pub run_all :
    List Call → NetworkSocketConnectionTransport → List Effect × NetworkSocketConnectionTransport
unfolding run
run_all [] t = ([], t)
run_all (k ∷ ks) t = let (es, t') = run k t in let (es', t'') = run_all ks t' in (es ++ es', t'')

-- From a socket that is closed or not, nothing is sent and nothing is closed once it is closed.
abbrev pub IsSound : Bool → List Effect → Type 0
IsSound closed [] = Unit {0}
IsSound closed (close handle ∷ es) = (closed ≡ false) × IsSound true es
IsSound closed (send_to handle target bs ∷ es) = (closed ≡ false) × IsSound closed es

Turn-cases : (x : Turn) → (x ≡ again) ⊎ ((k : ℕ) × (x ≡ more k)) ⊎ ((b : Bool) × (x ≡ finished b))
Turn-cases again = inl refl
Turn-cases (more k) = inr (inl (k, refl))
Turn-cases (finished b) = inr (inr (b, refl))

send_rest-IsSound :
    (fuel n : ℕ) (answers : Sendings) (bs : Bytes) (written : ℕ)
    (t : NetworkSocketConnectionTransport) (es : List Effect)
    → IsSound false es
    → IsSound false ((send_rest fuel n answers bs written t).0 ++ es)
unfolding send_rest
send_rest-IsSound zero n answers bs written t es ok = ok
send_rest-IsSound (suc fuel) n answers bs written t es ok =
    let x = turn (answers n (length bs - written)) (length bs) in
    elim (Turn-cases x) [
      | inl e ↦ rw (send_rest, e) (refl, send_rest-IsSound fuel (suc n) answers bs written t es ok)
      | inr (inl (k, e)) ↦
          rw (send_rest, e) (refl, send_rest-IsSound fuel (suc n) answers bs (written + k) t es ok)
      | inr (inr (b, e)) ↦ rw (send_rest, e) (refl, ok)
    ]

write-IsSound :
    (fuel : ℕ) (answers : Sendings) (bs : Bytes) (t : NetworkSocketConnectionTransport)
    (es : List Effect)
    → IsSound t.is_stopped es
    → IsSound t.is_stopped ((write fuel answers bs t).0 ++ es)
unfolding write send_data
write-IsSound fuel answers bs t es ok = elim (Bool-cases t.is_stopped) [
  | inl stopped ↦ rw stopped (subst (λ b. IsSound b es) stopped ok)
  | inr running ↦ rw running (
      send_rest-IsSound fuel 0 answers bs 0 (record t { is_stopped = false }) es
        (subst (λ b. IsSound b es) running ok))
]

-- What stays of a transport.
abbrev Keeps :
    NetworkSocketConnectionTransport → Option Bytes × NetworkSocketConnectionTransport → Type 0
Keeps t r = (r.1.socket_handle ≡ t.socket_handle) × (r.1.is_stopped ≡ t.is_stopped)

accept_from-Keeps :
    (source : Address) (bs : Bytes) (kind : NetworkSocketConnectionKind) (target : Option Address)
    (t : NetworkSocketConnectionTransport)
    → Keeps t (accept_from source bs kind target t)
unfolding accept_from
accept_from-Keeps source bs tcp target t = (refl, refl)
accept_from-Keeps source bs udp none t = (refl, refl)
accept_from-Keeps source bs udp (some target) t =
    if-both (Keeps t) (source.host == target.host) (refl, refl) (refl, refl)

receive_answer-Keeps :
    (answer : Received) (t : NetworkSocketConnectionTransport) → Keeps t (receive_answer answer t)
unfolding receive_answer receive_bytes accept_bytes
receive_answer-Keeps (bytes source []) t =
    if-both (Keeps t) (is_udp t.connection_kind) (refl, refl) (refl, refl)
receive_answer-Keeps (bytes source (b ∷ bs)) t =
    accept_from-Keeps source (take buffer_size (b ∷ bs)) t.connection_kind t.target_addr t
receive_answer-Keeps invalid t = (refl, refl)
receive_answer-Keeps would_block t = (refl, refl)
receive_answer-Keeps failed t = (refl, refl)

pub read-Keeps :
    (p : Poll) (answer : Received) (t : NetworkSocketConnectionTransport)
    → Keeps t (read p answer t)
unfolding read
read-Keeps p answer t =
    if-both (Keeps t) t.is_stopped (refl, refl)
      (if-both (Keeps t) p.closed (refl, refl)
        (if-both (Keeps t) p.readable (receive_answer-Keeps answer t) (refl, refl)))

-- A step, before effects that are sound from the state that it leaves.
run-IsSound :
    (k : Call) (t : NetworkSocketConnectionTransport) (es : List Effect)
    → (t.socket_handle == 0) ≡ false
    → let (es', t') = run k t in
      (t'.socket_handle ≡ t.socket_handle)
      × (IsSound t'.is_stopped es → IsSound t.is_stopped (es' ++ es))
unfolding run stop close_socket
run-IsSound (reading p answer) t es handle =
    let (same, flag) = read-Keeps p answer t in (same, subst (λ b. IsSound b es) flag)
run-IsSound (writing fuel answers bs) t es handle = (refl, write-IsSound fuel answers bs t es)
run-IsSound stopping t es handle = elim (Bool-cases t.is_stopped) [
  | inl stopped ↦ rw stopped (refl, λ ok. ok)
  | inr running ↦ rw (running, handle) (refl, λ ok. (refl, ok))
]

-- Over any reads, writes and stops of a transport with a socket, the socket is closed once at most,
-- and nothing is sent on it after that.
pub run_all-IsSound :
    (ks : List Call) (t : NetworkSocketConnectionTransport)
    → (t.socket_handle == 0) ≡ false
    → IsSound t.is_stopped (run_all ks t).0
unfolding run_all
run_all-IsSound [] t handle = tt
run_all-IsSound (k ∷ ks) t handle =
    let (same, sound) = run-IsSound k t (run_all ks (run k t).1).0 handle in
    sound (run_all-IsSound ks (run k t).1 (rw same handle))
