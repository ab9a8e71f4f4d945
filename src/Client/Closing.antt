-- ===== src/Client/Closing.antt =====
-- `Stop` and `endConnection` of src/FtlClient.cpp in any order.
use janus_ftl_plugin.Prelude.{
  ℕ, ◌+◌, ◌≤◌, Bool, List, [], ◌∷◌, ◌++◌, arith, sum, sum-append, if◌then◌else◌,
}
use janus_ftl_plugin.Client.{
  FtlClient, Effect, close_control, close_media, on_closed, close_sockets, stop, end_connection,
}

pub data Call : Type 0 where
  ask_to_stop connection_ended : Call

unfoldable pub run : Call → FtlClient → List Effect × FtlClient
unfolding stop end_connection
run ask_to_stop c = stop c
run connection_ended c = end_connection c

unfoldable pub run_all : List Call → FtlClient → List Effect × FtlClient
unfolding run
run_all [] c = ([], c)
run_all (k ∷ ks) c = let (es, c') = run k c in let (es', c'') = run_all ks c' in (es ++ es', c'')

abbrev calls_back : Effect → ℕ
calls_back on_closed = 1
calls_back e = 0

abbrev closes_control : Effect → ℕ
closes_control close_control = 1
closes_control e = 0

abbrev closes_media : Effect → ℕ
closes_media close_media = 1
closes_media e = 0

abbrev pub one_if : Bool → ℕ
one_if b = if b then 1 else 0

run-counts :
    (k : Call) (c : FtlClient)
    → let (es, c') = run k c in
      (sum calls_back es + one_if c.is_stopping ≤ one_if c'.is_stopping)
      × (sum closes_control es + one_if c.is_stopping ≤ one_if c'.is_stopping)
      × (sum closes_media es + one_if c.is_stopping ≤ one_if c'.is_stopping)
unfolding run stop end_connection close_sockets
run-counts ask_to_stop c = ground arith
run-counts connection_ended c = ground arith

run_all-counts :
    (ks : List Call) (c : FtlClient)
    → let (es, c') = run_all ks c in
      (sum calls_back es + one_if c.is_stopping ≤ one_if c'.is_stopping)
      × (sum closes_control es + one_if c.is_stopping ≤ one_if c'.is_stopping)
      × (sum closes_media es + one_if c.is_stopping ≤ one_if c'.is_stopping)
unfolding run_all
run_all-counts [] c = (omega arith, omega arith, omega arith)
run_all-counts (k ∷ ks) c =
    let (es, c') = run k c in
    let es' = (run_all ks c').0 in
    let (back, control, media) = run-counts k c in
    let (back', control', media') = run_all-counts ks c' in
    (
      omega (arith, back, back', sum-append calls_back es es'),
      omega (arith, control, control', sum-append closes_control es es'),
      omega (arith, media, media', sum-append closes_media es es'),
    )

-- However often the client is stopped and its connection ends, in any order, each socket is closed
-- at most once and `onClosed` is called at most once; from a client that has been asked to stop
-- already, neither happens any more.
run_all-closes_once :
    (ks : List Call) (c : FtlClient)
    → let es = (run_all ks c).0 in
      (sum calls_back es + one_if c.is_stopping ≤ 1)
      × (sum closes_control es + one_if c.is_stopping ≤ 1)
      × (sum closes_media es + one_if c.is_stopping ≤ 1)
run_all-closes_once ks c =
    let c' = (run_all ks c).1 in
    let (back, control, media) = run_all-counts ks c in
    let most : one_if c'.is_stopping ≤ 1 = ground arith in
    (omega (arith, back, most), omega (arith, control, most), omega (arith, media, most))
