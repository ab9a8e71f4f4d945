-- ===== src/Stream/Closing.antt =====
-- src/FtlStream.cpp over any sequence of calls: the stream is closed once.
use janus_ftl_plugin.Prelude.{
  ℕ, ◌+◌, ◌≡◌, refl, Bool, Option, none, some, List, [], ◌∷◌, ◌++◌, arith, if◌then◌else◌, sum,
  sum-append, Bool-cases, inl, inr,
}
use janus_ftl_plugin.FtlTypes.{MediaMetadata}
use janus_ftl_plugin.Media.{FtlMediaConnection}
use janus_ftl_plugin.Stream.{
  FtlStream, new_ftl_stream, Effect, start_media_port, terminate, on_closed, start_media_connection,
  start_if_none, stop_media_if, request_stop, control_connection_stopped,
  on_media_connection_closed,
}

pub data Call : Type 0 where
  start : (port : ℕ) (metadata : MediaMetadata) → Call
  stop control_stopped media_closed : Call

abbrev effects_of : Option (List Effect) → List Effect
effects_of none = []
effects_of (some es) = es

unfoldable pub run : Call → FtlStream → List Effect × FtlStream
unfolding start_media_connection control_connection_stopped on_media_connection_closed
run (start port metadata) s =
    let (es, s') = start_media_connection port metadata s in (effects_of es, s')
run stop s = request_stop s
run control_stopped s = control_connection_stopped s
run media_closed s = on_media_connection_closed s

unfoldable pub run_all : List Call → FtlStream → List Effect × FtlStream
unfolding run
run_all [] s = ([], s)
run_all (k ∷ ks) s = let (es, s') = run k s in let (es', s'') = run_all ks s' in (es ++ es', s'')

abbrev pub closes : Effect → ℕ
closes on_closed = 1
closes e = 0

abbrev pub opens : Effect → ℕ
opens (start_media_port port) = 1
opens e = 0

abbrev pub one_if : Bool → ℕ
one_if b = if b then 1 else 0

abbrev pub is_open : Option FtlMediaConnection → ℕ
is_open none = 0
is_open (some c) = 1

start-counts :
    (port : ℕ) (metadata : MediaMetadata) (o : Option FtlMediaConnection) (s : FtlStream)
    → let r = start_if_none port metadata o s in
      (sum closes (effects_of r.0) + one_if s.closed ≡ one_if r.1.closed)
      × (s.media_connection ≡ o
          → sum opens (effects_of r.0) + is_open o ≡ is_open r.1.media_connection)
unfolding start_if_none
start-counts port metadata none s = (omega arith, λ e. refl)
start-counts port metadata (some c) s = (omega arith, λ e. rw e refl)

stop-counts :
    (o : Option FtlMediaConnection)
    → (sum closes (stop_media_if o ++ terminate ∷ on_closed ∷ []) ≡ 1)
      × (sum opens (stop_media_if o ++ terminate ∷ on_closed ∷ []) ≡ 0)
stop-counts none = (refl, refl)
stop-counts (some c) = (refl, refl)

request_stop-counts :
    (s : FtlStream)
    → let r = request_stop s in
      (sum closes r.0 + one_if s.closed ≡ one_if r.1.closed)
      × (sum opens r.0 + is_open s.media_connection ≡ is_open r.1.media_connection)
unfolding request_stop
request_stop-counts s = elim (Bool-cases s.closed) [
  | inl was ↦ rw was (refl, omega arith)
  | inr still ↦
      rw still (
        omega (arith, stop-counts s.media_connection),
        omega (arith, stop-counts s.media_connection),
      )
]

run-counts :
    (k : Call) (s : FtlStream)
    → let r = run k s in
      (sum closes r.0 + one_if s.closed ≡ one_if r.1.closed)
      × (sum opens r.0 + is_open s.media_connection ≡ is_open r.1.media_connection)
unfolding run start_media_connection control_connection_stopped on_media_connection_closed
run-counts (start port metadata) s =
    let (closing, opening) = start-counts port metadata s.media_connection s in
    (closing, opening refl)
run-counts stop s = request_stop-counts s
run-counts control_stopped s = request_stop-counts s
run-counts media_closed s = request_stop-counts s

run_all-counts :
    (ks : List Call) (s : FtlStream)
    → let r = run_all ks s in
      (sum closes r.0 + one_if s.closed ≡ one_if r.1.closed)
      × (sum opens r.0 + is_open s.media_connection ≡ is_open r.1.media_connection)
unfolding run_all
run_all-counts [] s = (omega arith, omega arith)
run_all-counts (k ∷ ks) s =
    let (es, s') = run k s in
    let es' = (run_all ks s').0 in
    let (closing, opening) = run-counts k s in
    let (closing', opening') = run_all-counts ks s' in
    (
      omega (arith, closing, closing', sum-append closes es es'),
      omega (arith, opening, opening', sum-append opens es es'),
    )

-- Over any calls in any order, `onClosed` is called once if the stream has ended, and otherwise
-- never; and the control connection is told a media port once if the media connection has been
-- started, and otherwise never.
pub run_all-ends_once :
    (ks : List Call) (avg : ℕ) (nack : Bool)
    → let (es, s) = run_all ks (new_ftl_stream avg nack) in
      (sum closes es ≡ one_if s.closed) × (sum opens es ≡ is_open s.media_connection)
run_all-ends_once ks avg nack =
    let (closing, opening) = run_all-counts ks (new_ftl_stream avg nack) in
    (omega (arith, closing), omega (arith, opening))
