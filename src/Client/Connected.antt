-- ===== src/Client/Connected.antt =====
-- What `ConnectAsync` of src/FtlClient.cpp leaves open.
use janus_ftl_plugin.Prelude.{
  ℕ, ◌+◌, ◌≡◌, refl, sym, subst, Bool, true, false, not, ◌&&◌, Option, none, some, List, [], ◌∷◌,
  ◌++◌, map, arith, if◌then◌else◌, sum, sum-append, if-cases,
}
use janus_ftl_plugin.Prelude.Text.{Text}
use janus_ftl_plugin.Rtp.Packet.{Bytes}
use janus_ftl_plugin.Client.{
  Library, ConnectMetadata, FtlResponse, FtlClient, new_client, Effect, close_control, close_media,
  wait_for_thread, stop, close_sockets, authenticate_control_connection, send_control_start_stream,
  assigned_port, metadata_commands,
}
use janus_ftl_plugin.Client.Connect.{
  Opening, Answers, ConnectEffect, open_control, open_media, send, own, Connecting,
  open_control_connection, open_media_connection, lose, then_or_stop, authenticate, start_stream,
  connect_opened, connect_if_open, connect_async,
}

abbrev control_opens : ConnectEffect → ℕ
control_opens open_control = 1
control_opens e = 0

abbrev pub control_closes : ConnectEffect → ℕ
control_closes (own close_control) = 1
control_closes e = 0

abbrev pub media_opens : ConnectEffect → ℕ
media_opens (open_media port) = 1
media_opens e = 0

abbrev pub media_closes : ConnectEffect → ℕ
media_closes (own close_media) = 1
media_closes e = 0

abbrev pub one_if : Bool → ℕ
one_if b = if b then 1 else 0

-- Each socket that has been opened has been closed once, or both are open and stay so.
abbrev pub IsSettled : Connecting → Type 0
IsSettled (es, ok, c) =
    (sum control_closes es + one_if ok ≡ sum control_opens es)
    × (sum media_closes es + one_if ok ≡ sum media_opens es)
    × (ok ≡ true → (c.control_socket ≡ true) × (c.media_socket ≡ true) × (c.is_stopping ≡ false))

-- The same after the control connection has been opened.
abbrev IsSettling : Connecting → Type 0
IsSettling (es, ok, c) =
    (sum control_opens es ≡ 0)
    × (sum control_closes es + one_if ok ≡ 1)
    × (sum media_closes es + one_if ok ≡ sum media_opens es)
    × (ok ≡ true → (c.control_socket ≡ true) × (c.media_socket ≡ true) × (c.is_stopping ≡ false))

abbrev IsQuiet : List ConnectEffect → Type 0
IsQuiet es =
    (sum control_opens es ≡ 0)
    × (sum control_closes es ≡ 0)
    × (sum media_opens es ≡ 0)
    × (sum media_closes es ≡ 0)

-- Only the control connection is open.
abbrev IsReady : FtlClient → Type 0
IsReady c =
    (c.control_socket ≡ true)
    × (c.media_socket ≡ false)
    × (c.is_stopping ≡ false)
    × (c.is_stopped ≡ false)

map-IsQuiet : (messages : List Text) → IsQuiet (map send messages)
map-IsQuiet [] = (refl, refl, refl, refl)
map-IsQuiet (x ∷ messages) =
    let (a, b, c, d) = map-IsQuiet messages in
    (omega (arith, a), omega (arith, b), omega (arith, c), omega (arith, d))

stop-IsReady : (c : FtlClient) → IsReady c → (stop c).0 ≡ close_control ∷ wait_for_thread ∷ []
unfolding stop close_sockets
stop-IsReady c (control, media, stopping, stopped) =
    let P = λ (r : List Effect × FtlClient). r.0 ≡ close_control ∷ wait_for_thread ∷ [] in
    if-cases P (not c.is_stopping && not c.is_stopped)
      (λ _.
        if-cases
          (λ (es : List Effect).
            (es ++ (if c.media_socket then close_media ∷ [] else [])) ++ wait_for_thread ∷ []
            ≡ close_control ∷ wait_for_thread ∷ [])
          c.control_socket
          (λ _.
            if-cases
              (λ (es : List Effect).
                close_control ∷ es ++ wait_for_thread ∷ [] ≡ close_control ∷ wait_for_thread ∷ [])
              c.media_socket (λ opened. absurd (ground arith)) (λ _. refl))
          (λ closed. absurd (ground arith)))
      (λ running. absurd (ground arith))

stopped-IsSettling :
    (es : List ConnectEffect) (c : FtlClient) (next : FtlClient → Connecting)
    → IsReady c
    → (sum control_opens es ≡ 0)
      × (sum control_closes es ≡ 0)
      × (sum media_closes es ≡ sum media_opens es)
    → IsSettling (then_or_stop (es, false, c) next)
unfolding then_or_stop
stopped-IsSettling es c next ready (a, b, d) =
    subst (λ fs. IsSettling (es ++ map own fs, false, (stop c).1)) (sym (stop-IsReady c ready))
      (let fs : List ConnectEffect = own close_control ∷ own wait_for_thread ∷ [] in
        (
          omega (arith, a, sum-append control_opens es fs),
          omega (arith, b, sum-append control_closes es fs),
          omega (arith, d, sum-append media_opens es fs, sum-append media_closes es fs),
          λ bad. absurd (ground arith),
        ))

then_or_stop-IsSettling :
    (es : List ConnectEffect) (ok : Bool) (c : FtlClient) (next : FtlClient → Connecting)
    → IsQuiet es
    → IsReady c
    → IsSettling (next c)
    → IsSettling (then_or_stop (es, ok, c) next)
unfolding then_or_stop
then_or_stop-IsSettling es true c next (a, b, d, e) ready (a', b', d', f) =
    let es' = (next c).0 in
    (
      omega (arith, a, a', sum-append control_opens es es'),
      omega (arith, b, b', sum-append control_closes es es'),
      omega (arith, d, e, d', sum-append media_opens es es', sum-append media_closes es es'),
      f,
    )
then_or_stop-IsSettling es false c next (a, b, d, e) ready settled =
    stopped-IsSettling es c next ready (a, b, omega (arith, d, e))

open_media-IsSettling :
    (o : Opening) (c : FtlClient)
    → IsReady c
    → IsSettling (then_or_stop (open_media_connection o c) (λ (d : FtlClient). ([], true, d)))
unfolding open_media_connection then_or_stop
open_media-IsSettling o c (control, media, stopping, stopped) =
    let P = λ (r : Connecting). IsSettling (then_or_stop r (λ (d : FtlClient). ([], true, d))) in
    if-cases P o.found
      (λ _.
        if-cases P o.connected (λ _. (refl, refl, refl, λ _. (control, refl, stopping)))
          (λ _.
            stopped-IsSettling (open_media c.assigned_media_port ∷ own close_media ∷ [])
              (record c { media_socket = false }) (λ (d : FtlClient). ([], true, d))
              (control, refl, stopping, stopped) (refl, refl, refl)))
      (λ _.
        stopped-IsSettling [] c (λ (d : FtlClient). ([], true, d))
          (control, media, stopping, stopped) (refl, refl, refl))

lose-kept : (b : Bool) (r : Connecting) → b ≡ false → lose b r ≡ r
unfolding lose
lose-kept true r kept = absurd (ground arith)
lose-kept false r kept = refl

send_control_start_stream-IsReady :
    (l : Library) (m : ConnectMetadata) (response : Option FtlResponse) (c : FtlClient)
    → IsReady c
    → IsReady (send_control_start_stream l m response c).2
unfolding send_control_start_stream
send_control_start_stream-IsReady l m response c ready =
    elim (assigned_port l response)
      as (λ (o : Option ℕ).
        let r : List Text × Bool × FtlClient = elim o [
          | none ↦ (metadata_commands l m, false, c)
          | some port ↦ (metadata_commands l m, true, record c { assigned_media_port = port })
        ] in
        IsReady r.2) [ none ↦ ready | some port ↦ ready ]

-- The thread does not end the connection meanwhile.
abbrev pub IsKept : Answers → Type 0
IsKept a = (a.lost_authenticating ≡ false) × (a.lost_starting ≡ false) × (a.lost_opening ≡ false)

connect_opened-IsSettling :
    (l : Library) (a : Answers) (m : ConnectMetadata) (c : FtlClient)
    → IsKept a
    → IsReady c
    → IsSettling (connect_opened l a m c)
unfolding connect_opened authenticate start_stream
connect_opened-IsSettling l a m c (kept, kept', kept'') ready =
    let last = λ (d : FtlClient).
      then_or_stop (lose a.lost_opening (open_media_connection a.media d))
        (λ (d' : FtlClient). ([], true, d')) in
    let (messages, ok) = authenticate_control_connection l c a.hmac a.auth in
    let (messages', ok', c') = send_control_start_stream l m a.metadata c in
    rw (lose-kept a.lost_authenticating (map send messages, ok, c) kept) (
      then_or_stop-IsSettling (map send messages) ok c _ (map-IsQuiet messages) ready (
        rw (lose-kept a.lost_starting (map send messages', ok', c') kept') (
          then_or_stop-IsSettling (map send messages') ok' c' last (map-IsQuiet messages')
            (send_control_start_stream-IsReady l m a.metadata c ready)
            (rw (lose-kept a.lost_opening (open_media_connection a.media c') kept'') (
              open_media-IsSettling a.media c'
                (send_control_start_stream-IsReady l m a.metadata c ready))))))

connect_if_open-IsSettled :
    (l : Library) (a : Answers) (m : ConnectMetadata) (c : FtlClient)
    → IsKept a
    → c.media_socket ≡ false
    → c.is_stopping ≡ false
    → c.is_stopped ≡ false
    → IsSettled
        (connect_if_open l a m (open_control ∷ [], true, record c { control_socket = true }))
unfolding connect_if_open
connect_if_open-IsSettled l a m c kept media stopping stopped =
    let (b, d, e, f) =
      connect_opened-IsSettling l a m (record c { control_socket = true }) kept
        (refl, media, stopping, stopped) in
    (omega (arith, b, d), omega (arith, e), f)

-- Where the other thread does not end the connection meanwhile, `ConnectAsync` of a new client
-- leaves both sockets open if it succeeds, without having closed any; and if it fails, each socket
-- that it has opened has been closed, once.
pub connect_async-IsSettled :
    (l : Library) (a : Answers) (m : ConnectMetadata) (channel : ℕ) (key : Bytes)
    → IsKept a
    → IsSettled (connect_async l a m (new_client channel key))
unfolding connect_async open_control_connection connect_if_open
connect_async-IsSettled l a m channel key kept =
    let c = new_client channel key in
    let P = λ (r : Connecting). IsSettled (connect_if_open l a m r) in
    if-cases P a.control.found
      (λ _.
        if-cases P a.control.connected (λ _. connect_if_open-IsSettled l a m c kept refl refl refl)
          (λ _. (refl, refl, λ bad. absurd (ground arith))))
      (λ _. (refl, refl, λ bad. absurd (ground arith)))
