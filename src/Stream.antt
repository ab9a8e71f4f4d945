-- ===== src/Stream.antt =====
-- src/FtlStream.cpp: a stream's control connection and its media connection, from the start of the
-- one to the end of both.
pub mod Closing
mod Tests
use janus_ftl_plugin.Prelude.{
  ℕ, zero, suc, ◌+◌, ◌≤◌, ◌≡◌, refl, Bool, true, false, Option, none, some, List, [], ◌∷◌, ◌++◌,
  arith, if◌then◌else◌, sum, sum-append, Bool-cases, inl, inr,
}
use janus_ftl_plugin.FtlTypes.{MediaMetadata}
use janus_ftl_plugin.Media.{FtlMediaConnection, new_connection}
use janus_ftl_plugin.Media.Stats.{FtlStreamStats, FtlKeyframe, get_stats, get_keyframe}

pub record FtlStream : Type 0 where
  pub media_connection : Option FtlMediaConnection
  pub rolling_size_avg_ms : ℕ
  pub nack_lost_packets : Bool
  pub closed : Bool

abbrev pub new_ftl_stream : ℕ → Bool → FtlStream
new_ftl_stream avg nack = record {
  media_connection = none;
  rolling_size_avg_ms = avg;
  nack_lost_packets = nack;
  closed = false;
}

-- The calls of the control connection, of the media connection and of `onClosed`.
pub data Effect : Type 0 where
  start_media_port : (media_port : ℕ) → Effect
  stop_media terminate on_closed : Effect

pub start_if_none :
    ℕ → MediaMetadata → Option FtlMediaConnection → FtlStream → Option (List Effect) × FtlStream
unfolding new_connection
start_if_none port metadata none s = (
  some (start_media_port port ∷ []),
  record s {
    media_connection = some (new_connection metadata s.rolling_size_avg_ms s.nack_lost_packets);
  },
)
start_if_none port metadata (some c) s = (none, s)

-- The error that the media connection has been started already is `none`.
pub start_media_connection : ℕ → MediaMetadata → FtlStream → Option (List Effect) × FtlStream
unfolding start_if_none
start_media_connection port metadata s = start_if_none port metadata s.media_connection s

abbrev pub stop_media_if : Option FtlMediaConnection → List Effect
stop_media_if none = []
stop_media_if (some c) = stop_media ∷ []

-- The control connection is there from the constructor on.
unfoldable pub request_stop : FtlStream → List Effect × FtlStream
request_stop s = if s.closed then ([], s) else (
  stop_media_if s.media_connection ++ terminate ∷ on_closed ∷ [],
  record s { closed = true },
)

pub control_connection_stopped : FtlStream → List Effect × FtlStream
unfolding request_stop
control_connection_stopped s = request_stop s

pub on_media_connection_closed : FtlStream → List Effect × FtlStream
unfolding request_stop
on_media_connection_closed s = request_stop s

-- `none` is the error that there is no media connection.
unfoldable pub get_stream_stats : ℕ → FtlStream → Option FtlStreamStats
unfolding get_stats
get_stream_stats seconds s = elim s.media_connection [
  | none ↦ none
  | some c ↦ some (get_stats seconds c)
]

unfoldable pub get_stream_keyframe : FtlStream → Option FtlKeyframe
unfolding get_keyframe
get_stream_keyframe s = elim s.media_connection [ none ↦ none | some c ↦ get_keyframe c ]
