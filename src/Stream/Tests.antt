-- ===== src/Stream/Tests.antt =====
-- The theorem about src/FtlStream.cpp at a concrete sequence of calls.
use janus_ftl_plugin.Prelude.{◌≡◌, false, List, [], ◌∷◌, sum}
use janus_ftl_plugin.FtlTypes.{no_metadata}
use janus_ftl_plugin.Stream.{new_ftl_stream}
use janus_ftl_plugin.Stream.Closing.{
  Call, start, stop, control_stopped, media_closed, run_all, closes, opens, one_if, is_open,
  run_all-ends_once,
}

abbrev calls : List Call
calls = start 9000 no_metadata ∷ start 9001 no_metadata ∷ control_stopped ∷ stop ∷ media_closed ∷ []

run_all-ends_once_example :
    let (es, s) = run_all calls (new_ftl_stream 2000 false) in
    (sum closes es ≡ one_if s.closed) × (sum opens es ≡ is_open s.media_connection)
run_all-ends_once_example = run_all-ends_once calls 2000 false
