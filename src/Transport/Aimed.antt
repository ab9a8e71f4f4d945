-- ===== src/Transport/Aimed.antt =====
-- What a socket for datagrams with a target yields, whatever its port: `Read` of
-- src/ConnectionTransports/NetworkSocketConnectionTransport.cpp without its state.
use janus_ftl_plugin.Prelude.{
  ℕ, ◌≡◌, ◌∙◌, refl, ap, false, Option, none, some, [], ◌∷◌, ◌==◌, arith, if◌then◌else◌, take,
  if-both, if-cases, subst, Bool-cases, inl, inr,
}
use janus_ftl_plugin.Rtp.Packet.{Bytes}
use janus_ftl_plugin.Transport.{
  udp, Address, NetworkSocketConnectionTransport, Poll, Received, bytes, invalid, would_block,
  failed, accept_from, accept_bytes, receive_bytes, receive_answer, read, buffer_size, is_udp,
}
use janus_ftl_plugin.Transport.Reading.{IsAimed, read-IsRead}
use janus_ftl_plugin.Transport.Stopping.{read-Keeps}

-- Nothing that comes from another host.
pub answered : ℕ → Received → Option Bytes
answered host (bytes source bs) =
    if source.host == host then some (take buffer_size bs) else some []
answered host invalid = none
answered host would_block = some []
answered host failed = none

pub yields : ℕ → Poll → Received → Option Bytes
unfolding answered
yields host p answer =
    if p.closed then none else if p.readable then answered host answer else some []

-- A socket for datagrams that has a target and has not been stopped.
abbrev pub IsOpen : ℕ → ℕ → NetworkSocketConnectionTransport → Type 0
IsOpen host handle t = IsAimed host t × (t.is_stopped ≡ false) × (t.socket_handle ≡ handle)

accept_from-answered :
    (host : ℕ) (source target : Address) (bs : Bytes) (t : NetworkSocketConnectionTransport)
    → target.host ≡ host
    → (accept_from source bs udp (some target) t).0
      ≡ (if source.host == host then some bs else some [])
unfolding accept_from
accept_from-answered host source target bs t same =
    let P = λ (h : ℕ).
      (accept_from source bs udp (some target) t).0
      ≡ (if source.host == h then some bs else some []) in
    subst P same (elim (Bool-cases (source.host == target.host)) [
      | inl right ↦ rw right refl
      | inr wrong ↦ rw wrong refl
    ])

accept_bytes-answered :
    (host : ℕ) (source : Address) (bs : Bytes) (t : NetworkSocketConnectionTransport)
    → IsAimed host t
    → (accept_bytes source bs t).0 ≡ (if source.host == host then some bs else some [])
unfolding accept_bytes
accept_bytes-answered host source bs t (kind, (target, e, same)) =
    ap (λ k. (accept_from source bs k t.target_addr t).0) kind
    ∙ ap (λ a. (accept_from source bs udp a t).0) e
    ∙ accept_from-answered host source target bs t same

receive_bytes-answered :
    (host : ℕ) (source : Address) (bs : Bytes) (t : NetworkSocketConnectionTransport)
    → IsAimed host t
    → (receive_bytes source bs t).0 ≡ (if source.host == host then some bs else some [])
unfolding receive_bytes
receive_bytes-answered host source [] t (kind, target) =
    ap
      (λ k.
        let r : Option Bytes × NetworkSocketConnectionTransport =
          if is_udp k then (some [], t) else (none, t) in
        r.0)
      kind
    ∙ if-both (λ (o : Option Bytes). some [] ≡ o) (source.host == host) refl refl
receive_bytes-answered host source (b ∷ bs) t aimed =
    accept_bytes-answered host source (b ∷ bs) t aimed

receive_answer-answered :
    (host : ℕ) (answer : Received) (t : NetworkSocketConnectionTransport)
    → IsAimed host t
    → (receive_answer answer t).0 ≡ answered host answer
unfolding receive_answer answered
receive_answer-answered host (bytes source bs) t aimed =
    receive_bytes-answered host source (take buffer_size bs) t aimed
receive_answer-answered host invalid t aimed = refl
receive_answer-answered host would_block t aimed = refl
receive_answer-answered host failed t aimed = refl

pub read-yields :
    (host handle : ℕ) (p : Poll) (answer : Received) (t : NetworkSocketConnectionTransport)
    → IsOpen host handle t
    → ((read p answer t).0 ≡ yields host p answer) × IsOpen host handle (read p answer t).1
unfolding read yields
read-yields host handle p answer t (aimed, running, same) =
    let (same', running') = read-Keeps p answer t in
    let (aimed', _) = read-IsRead host p answer t aimed in
    (result, (aimed', running' ∙ running, same' ∙ same))
  where
    result : (read p answer t).0 ≡ yields host p answer
    result =
        let P =
          λ (r : Option Bytes × NetworkSocketConnectionTransport). r.0 ≡ yields host p answer in
        if-cases P t.is_stopped (λ stopped. absurd (ground arith))
          (λ _.
            if-cases P p.closed (λ closed. rw closed refl)
              (λ quiet.
                if-cases P p.readable
                  (λ ready. receive_answer-answered host answer t aimed ∙ rw (quiet, ready) refl)
                  (λ idle. rw (quiet, idle) refl)))
