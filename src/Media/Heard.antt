-- ===== src/Media/Heard.antt =====
-- Which packets a media connection handles: src/FtlMediaConnection.cpp over the transport of a
-- socket that has the client's host as its target.
use janus_ftl_plugin.Prelude.{
  ℕ, ◌+◌, ◌≡◌, ◌∙◌, refl, sym, ap, subst, Bool, true, false, Option, none, some, List, [], ◌∷◌,
  ◌++◌, map, ◌==◌, if◌then◌else◌, length, arith, sum, sum-append, Bool-cases, inl, inr, if-cases,
}
use janus_ftl_plugin.Rtp.Packet.{Bytes}
use janus_ftl_plugin.FtlTypes.{MediaMetadata}
use janus_ftl_plugin.Transport.{NetworkSocketConnectionTransport, stop, read, close_socket}
use janus_ftl_plugin.Transport
use janus_ftl_plugin.Transport.Aimed.{yields, IsOpen, read-yields}
use janus_ftl_plugin.Media.{Effect, FtlMediaConnection, new_connection, on_bytes_received}
use janus_ftl_plugin.Media.Thread.{
  MediaThread, new_media_thread, ThreadEffect, own, on_socket, on_closed, Event, turn, stop_request,
  end_thread, read_turn, step, steps,
}

unfoldable handled_next : ℕ → Option Bytes → List (ℕ × Bytes) → List (ℕ × Bytes)
handled_next now none rest = []
handled_next now (some bs) rest = if length bs == 0 then rest else (now, bs) ∷ rest

-- The datagrams of the host, each with its time, up to the first request to stop or error.
pub handled : ℕ → List Event → List (ℕ × Bytes)
unfolding handled_next
handled host [] = []
handled host (turn now p answer ∷ es) = handled_next now (yields host p answer) (handled host es)
handled host (stop_request ∷ es) = []

-- What the connection makes of packets.
pub handle_all : List (ℕ × Bytes) → FtlMediaConnection → FtlMediaConnection × List Effect
handle_all [] c = (c, [])
handle_all ((now, bs) ∷ ps) c =
    let (c', es) = on_bytes_received now bs c in
    let (c'', es') = handle_all ps c' in (c'', es ++ es')

abbrev pub own_effects : List ThreadEffect → List Effect
own_effects [] = []
own_effects (own e ∷ fs) = e ∷ own_effects fs
own_effects (on_socket e ∷ fs) = own_effects fs
own_effects (on_closed ∷ fs) = own_effects fs

abbrev pub closes : ThreadEffect → ℕ
closes (on_socket (Transport.close handle)) = 1
closes f = 0

abbrev pub notices : ThreadEffect → ℕ
notices on_closed = 1
notices f = 0

abbrev pub one_if_ended : MediaThread → ℕ
one_if_ended t = if t.has_ended then 1 else 0

own_effects-append :
    (xs ys : List ThreadEffect) → own_effects (xs ++ ys) ≡ own_effects xs ++ own_effects ys
own_effects-append [] ys = refl
own_effects-append (own e ∷ xs) ys = ap (λ (zs : List Effect). e ∷ zs) (own_effects-append xs ys)
own_effects-append (on_socket e ∷ xs) ys = own_effects-append xs ys
own_effects-append (on_closed ∷ xs) ys = own_effects-append xs ys

own-quiet :
    (es : List Effect)
    → (own_effects (map own es) ≡ es)
      × (sum closes (map own es) ≡ 0)
      × (sum notices (map own es) ≡ 0)
own-quiet [] = (refl, refl, refl)
own-quiet (e ∷ es) =
    let (a, b, c) = own-quiet es in
    (ap (λ (zs : List Effect). e ∷ zs) a, omega (arith, b), omega (arith, c))

-- What the connection has become and done, and whether the thread has ended in between.
abbrev IsRun :
    MediaThread → FtlMediaConnection × List Effect → List ThreadEffect × MediaThread → Type 0
IsRun t p r =
    ((r.1.connection, own_effects r.0) ≡ p)
    × (sum closes r.0 + one_if_ended t ≡ one_if_ended r.1)
    × (sum notices r.0 + one_if_ended t ≡ one_if_ended r.1)

then-IsRun :
    (t : MediaThread) (es es' : List Effect) (c c' : FtlMediaConnection)
    (r r' : List ThreadEffect × MediaThread)
    → IsRun t (c, es) r
    → IsRun r.1 (c', es') r'
    → IsRun t (c', es ++ es') (r.0 ++ r'.0, r'.1)
then-IsRun t es es' c c' r r' (a, b, d) (a', b', d') = (
  ap (λ zs. (r'.1.connection, zs)) (own_effects-append r.0 r'.0)
      ∙ ap (λ (p : FtlMediaConnection × List Effect). (r'.1.connection, p.1 ++ own_effects r'.0)) a
      ∙ ap (λ (p : FtlMediaConnection × List Effect). (p.0, es ++ p.1)) a',
  omega (arith, b, b', sum-append closes r.0 r'.0),
  omega (arith, d, d', sum-append notices r.0 r'.0),
)

ended-IsRun :
    (es : List Event) (t : MediaThread)
    → t.has_ended ≡ true
    → IsRun t (t.connection, []) (steps es t)
unfolding steps step
ended-IsRun [] t ended = (refl, omega arith, omega arith)
ended-IsRun (turn now p answer ∷ es) t ended =
    let P = λ (r : List ThreadEffect × MediaThread).
      IsRun t (t.connection, []) (r.0 ++ (steps es r.1).0, (steps es r.1).1) in
    if-cases P t.has_ended (λ _. ended-IsRun es t ended) (λ running. absurd (ground arith))
ended-IsRun (stop_request ∷ es) t ended = ended-IsRun es (record t { stop_requested = true }) ended

-- A thread that runs, with a socket that is open.
abbrev IsLive : ℕ → ℕ → MediaThread → Type 0
IsLive host handle t =
    IsOpen host handle t.transport × ((handle == 0) ≡ false) × (t.has_ended ≡ false)

end_thread-IsRun :
    (host handle : ℕ) (t : MediaThread)
    → IsLive host handle t
    → IsRun t (t.connection, []) (end_thread t)
unfolding end_thread stop close_socket
end_thread-IsRun host handle t ((aimed, working, same), socket, running) =
    let P = λ (es : List Transport.Effect).
      IsRun t (t.connection, [])
        (map on_socket es ++ on_closed ∷ [], record t { has_ended = true }) in
    let before : one_if_ended t ≡ 0 = rw running refl in
    if-cases P t.transport.is_stopped (λ stopped. absurd (ground arith))
      (λ _.
        if-cases P (t.transport.socket_handle == 0) (λ zero. absurd (ground arith))
          (λ _. (refl, omega (arith, before), omega (arith, before))))

end_thread_then-IsRun :
    (host handle : ℕ) (t : MediaThread) (es : List Event)
    → IsLive host handle t
    → let r = end_thread t in IsRun t (t.connection, []) (r.0 ++ (steps es r.1).0, (steps es r.1).1)
unfolding end_thread
end_thread_then-IsRun host handle t es live =
    let r = end_thread t in
    then-IsRun t [] [] t.connection t.connection r (steps es r.1)
      (end_thread-IsRun host handle t live) (ended-IsRun es r.1 refl)

requested-IsRun :
    (host handle : ℕ) (es : List Event) (t : MediaThread)
    → IsLive host handle t
    → t.stop_requested ≡ true
    → IsRun t (t.connection, []) (steps es t)
unfolding steps step
requested-IsRun host handle [] t live asked = (refl, omega arith, omega arith)
requested-IsRun host handle (turn now p answer ∷ es) t live asked =
    let (_, _, running) = live in
    let P = λ (r : List ThreadEffect × MediaThread).
      IsRun t (t.connection, []) (r.0 ++ (steps es r.1).0, (steps es r.1).1) in
    if-cases P t.has_ended (λ ended. absurd (ground arith))
      (λ _.
        if-cases P t.stop_requested (λ _. end_thread_then-IsRun host handle t es live)
          (λ quiet. absurd (ground arith)))
requested-IsRun host handle (stop_request ∷ es) t live asked =
    requested-IsRun host handle es (record t { stop_requested = true }) live refl

-- A turn that has read, before the steps that are left.
read_turn-IsRun :
    (host handle now : ℕ) (o : Option Bytes) (es : List Event) (t : MediaThread)
    → IsLive host handle t
    → ((c : FtlMediaConnection)
        → IsRun t (handle_all (handled host es) c) (steps es (record t { connection = c })))
    → let r = read_turn now o t in
      IsRun t
        (handle_all (handled_next now o (handled host es)) t.connection)
        (r.0 ++ (steps es r.1).0, (steps es r.1).1)
unfolding read_turn handled_next handle_all
read_turn-IsRun host handle now none es t live rest = end_thread_then-IsRun host handle t es live
read_turn-IsRun host handle now (some bs) es t live rest = elim (Bool-cases (length bs == 0)) [
  | inl e ↦ rw e (rest t.connection)
  | inr e ↦
      let (c, fs) = on_bytes_received now bs t.connection in
      let later = handle_all (handled host es) c in
      let t' : MediaThread = record t { connection = c } in
      let (same, none_closed, none_told) = own-quiet fs in
      rw e (
        then-IsRun t fs later.1 c later.0 (map own fs, t') (steps es t')
          (ap (λ zs. (c, zs)) same, omega (arith, none_closed), omega (arith, none_told)) (rest c))
]

live-IsRun :
    (host handle : ℕ) (es : List Event) (t : MediaThread)
    → IsLive host handle t
    → t.stop_requested ≡ false
    → IsRun t (handle_all (handled host es) t.connection) (steps es t)
unfolding steps step handled handle_all
live-IsRun host handle [] t live quiet = (refl, omega arith, omega arith)
live-IsRun host handle (turn now p answer ∷ es) t (aimed, socket, running) quiet =
    let P = λ (r : List ThreadEffect × MediaThread).
      IsRun t (handle_all (handled_next now (yields host p answer) (handled host es)) t.connection)
        (r.0 ++ (steps es r.1).0, (steps es r.1).1) in
    let (yielded, aimed') = read-yields host handle p answer t.transport aimed in
    let t' : MediaThread = record t { transport = (read p answer t.transport).1 } in
    if-cases P t.has_ended (λ ended. absurd (ground arith))
      (λ _.
        if-cases P t.stop_requested (λ asked. absurd (ground arith))
          (λ _.
            subst (λ o. P (read_turn now o t')) (sym yielded)
              (read_turn-IsRun host handle now (yields host p answer) es t'
                (aimed', socket, running)
                (λ c.
                  live-IsRun host handle es (record t' { connection = c }) (aimed', socket, running)
                    quiet))))
live-IsRun host handle (stop_request ∷ es) t live quiet =
    requested-IsRun host handle es (record t { stop_requested = true }) live refl

-- Over any events, a new connection over a datagram socket whose target is the client's host handles
-- the datagrams of that host, cut to the size of the buffer, one by one in their order, up to the
-- first request to stop or error, and nothing else; when its thread has ended, and only then, the
-- socket has been closed, once, and `onClosed` called, once.
pub steps-handle_all :
    (host handle avg : ℕ) (nack : Bool) (m : MediaMetadata)
    (transport : NetworkSocketConnectionTransport) (es : List Event)
    → IsOpen host handle transport
    → (handle == 0) ≡ false
    → let (fs, t) = steps es (new_media_thread m avg nack transport) in
      ((t.connection, own_effects fs) ≡ handle_all (handled host es) (new_connection m avg nack))
      × (sum closes fs ≡ one_if_ended t)
      × (sum notices fs ≡ one_if_ended t)
steps-handle_all host handle avg nack m transport es aimed socket =
    let t = new_media_thread m avg nack transport in
    let (same, closed, told) = live-IsRun host handle es t (aimed, socket, refl) refl in
    (same, omega (arith, closed), omega (arith, told))
