-- ===== src/Transport/Reading.antt =====
-- `Read` of src/ConnectionTransports/NetworkSocketConnectionTransport.cpp, any number of times.
use janus_ftl_plugin.Prelude.{
  ℕ, ◌≡◌, ◌⊎◌, ◌∙◌, refl, sym, ap, subst, Option, none, some, List, [], ◌∷◌, ◌==◌, arith, inl, inr,
  take, All, Bool-cases, if-both,
}
use janus_ftl_plugin.Rtp.Packet.{Bytes}
use janus_ftl_plugin.Transport.{
  udp, Address, NetworkSocketConnectionTransport, Poll, Received, bytes, invalid, would_block,
  failed, accept_from, accept_bytes, receive_bytes, receive_answer, read, buffer_size, is_udp,
}

abbrev collected : Received → Option Bytes → List (Received × Bytes) → List (Received × Bytes)
collected answer none out = out
collected answer (some bs) out = (answer, bs) ∷ out

-- Each read with what the system answers to it, and the bytes that it yields.
unfoldable pub read_all :
    List (Poll × Received)
    → NetworkSocketConnectionTransport
    → List (Received × Bytes) × NetworkSocketConnectionTransport
read_all [] t = ([], t)
read_all ((p, answer) ∷ reads) t =
    let (result, t') = read p answer t in
    let (out, t'') = read_all reads t' in (collected answer result out, t'')

-- Nothing is read, or the first bytes of a packet from the host, at most as many as the buffer has.
abbrev IsFrom : ℕ → Received × Bytes → Type 0
IsFrom host (answer, bs) =
    (bs ≡ [])
    ⊎ ((source : Address) × (sent_bytes : Bytes) × (answer ≡ bytes source sent_bytes)
        × (source.host ≡ host)
        × (bs ≡ take buffer_size sent_bytes))

-- A socket for datagrams with a target.
abbrev pub IsAimed : ℕ → NetworkSocketConnectionTransport → Type 0
IsAimed host t =
    (t.connection_kind ≡ udp)
    × ((target : Address) × (t.target_addr ≡ some target) × (target.host ≡ host))

-- An error, nothing, or bytes from the host.
abbrev IsRead : ℕ → Received → Option Bytes × NetworkSocketConnectionTransport → Type 0
IsRead host answer r =
    IsAimed host r.1
    × ((r.0 ≡ none)
        ⊎ (r.0 ≡ some [])
        ⊎ ((source : Address) × (sent_bytes : Bytes) × (answer ≡ bytes source sent_bytes)
            × (source.host ≡ host)
            × (r.0 ≡ some (take buffer_size sent_bytes))))

accept_from-IsRead :
    (host : ℕ) (source target : Address) (bs : Bytes) (t : NetworkSocketConnectionTransport)
    → IsAimed host t
    → target.host ≡ host
    → IsRead host (bytes source bs) (accept_from source (take buffer_size bs) udp (some target) t)
unfolding accept_from
accept_from-IsRead host source target bs t aimed same =
    elim (Bool-cases (source.host == target.host)) [
      | inl right ↦
          let source_host : source.host ≡ host = ground arith in
          rw right (
            (aimed.0, (record target { port = source.port }, refl, same)),
            inr (inr (source, bs, refl, source_host, refl)),
          )
      | inr wrong ↦ rw wrong (aimed, inr (inl refl))
    ]

accept_bytes-IsRead :
    (host : ℕ) (source : Address) (bs : Bytes) (t : NetworkSocketConnectionTransport)
    → IsAimed host t
    → IsRead host (bytes source bs) (accept_bytes source (take buffer_size bs) t)
unfolding accept_bytes
accept_bytes-IsRead host source bs t (kind, (target, e, same)) =
    let bs' = take buffer_size bs in
    let eq : accept_bytes source bs' t ≡ accept_from source bs' udp (some target) t =
      ap (λ k. accept_from source bs' k t.target_addr t) kind
      ∙ ap (λ a. accept_from source bs' udp a t) e in
    subst (IsRead host (bytes source bs)) (sym eq)
      (accept_from-IsRead host source target bs t (kind, (target, e, same)) same)

receive_bytes-IsRead :
    (host : ℕ) (source : Address) (bs : Bytes) (t : NetworkSocketConnectionTransport)
    → IsAimed host t
    → IsRead host (bytes source bs) (receive_bytes source (take buffer_size bs) t)
unfolding receive_bytes
receive_bytes-IsRead host source [] t aimed =
    if-both (IsRead host (bytes source [])) (is_udp t.connection_kind) (aimed, inr (inl refl))
      (aimed, inl refl)
receive_bytes-IsRead host source (b ∷ bs) t aimed = accept_bytes-IsRead host source (b ∷ bs) t aimed

receive_answer-IsRead :
    (host : ℕ) (answer : Received) (t : NetworkSocketConnectionTransport)
    → IsAimed host t
    → IsRead host answer (receive_answer answer t)
unfolding receive_answer
receive_answer-IsRead host (bytes source bs) t aimed = receive_bytes-IsRead host source bs t aimed
receive_answer-IsRead host invalid t aimed = (aimed, inl refl)
receive_answer-IsRead host would_block t aimed = (aimed, inr (inl refl))
receive_answer-IsRead host failed t aimed = (aimed, inl refl)

pub read-IsRead :
    (host : ℕ) (p : Poll) (answer : Received) (t : NetworkSocketConnectionTransport)
    → IsAimed host t
    → IsRead host answer (read p answer t)
unfolding read
read-IsRead host p answer t aimed =
    let P = IsRead host answer in
    if-both P t.is_stopped (aimed, inl refl)
      (if-both P p.closed (aimed, inl refl)
        (if-both P p.readable (receive_answer-IsRead host answer t aimed) (aimed, inr (inl refl))))

collected-IsFrom :
    (host : ℕ) (answer : Received) (r : Option Bytes × NetworkSocketConnectionTransport)
    (out : List (Received × Bytes))
    → IsRead host answer r
    → All (IsFrom host) out
    → All (IsFrom host) (collected answer r.0 out)
collected-IsFrom host answer r out (aimed, inl e) ok = rw e ok
collected-IsFrom host answer r out (aimed, inr (inl e)) ok = rw e (inl refl, ok)
collected-IsFrom host answer r out (aimed, inr (inr (source, bs, whole, same, e))) ok =
    rw e (inr (source, bs, whole, same, refl), ok)

-- Datagrams that a transport with a target yields, over any number of reads and whatever arrives, all
-- come from the target's host, which stays the same; each is what the packet holds, up to the size of
-- the buffer.
read_all-IsFrom :
    (host : ℕ) (reads : List (Poll × Received)) (t : NetworkSocketConnectionTransport)
    → IsAimed host t
    → let (out, t') = read_all reads t in All (IsFrom host) out × IsAimed host t'
unfolding read_all
read_all-IsFrom host [] t aimed = (tt, aimed)
read_all-IsFrom host ((p, answer) ∷ reads) t aimed =
    let r = read p answer t in
    let good = read-IsRead host p answer t aimed in
    let (ok, last) = read_all-IsFrom host reads r.1 good.0 in
    (collected-IsFrom host answer r (read_all reads r.1).0 good ok, last)
