-- ===== src/Server/Stats.antt =====
-- `Stop`, `GetStats` and `GetAllStatsAndKeyframes` of src/FtlServer.cpp. The streams themselves stand
-- in a store: at each address the stream, and for how many seconds its media connection has been
-- there.
use janus_ftl_plugin.Prelude.{
  ℕ, ◌≡◌, refl, Bool, true, false, ◌&&◌, Option, none, some, List, [], ◌∷◌, ◌++◌, map, ◌==◌, arith,
  if◌then◌else◌, All, All-append, All-map, All-map_both,
}
use janus_ftl_plugin.Prelude.OrdMap.{OrdMap}
use janus_ftl_plugin.Media.Stats.{FtlStreamStats, FtlKeyframe}
use janus_ftl_plugin.Stream.{FtlStream, get_stream_stats, get_stream_keyframe}
use janus_ftl_plugin.Server.{FtlServer, FtlStreamRecord}

abbrev Store : Type 0
Store = ℕ → ℕ × FtlStream

pub data StopEffect : Type 0 where
  terminate_connection : (connection : ℕ) → StopEffect
  request_stream_stop : (stream : ℕ) → StopEffect

-- The end of the listening thread and of the waiting is left out.
unfoldable pub stop : FtlServer → List StopEffect × FtlServer
stop s = (
  map (λ (c : ℕ × ℕ). terminate_connection c.0) s.pending_control_connections
      ++ map (λ (p : ℕ × FtlStreamRecord). request_stream_stop p.0) s.active_streams,
  record s { pending_control_connections = [] },
)

pub record StreamStats : Type 0 where
  pub channel_id : ℕ
  pub stream_id : ℕ
  pub stats : FtlStreamStats
  pub keyframe : FtlKeyframe

-- A stream without statistics or without a key frame is skipped.
stats_if_both : FtlStreamRecord → Option FtlStreamStats → Option FtlKeyframe → List StreamStats
stats_if_both r none k = []
stats_if_both r (some st) none = []
stats_if_both r (some st) (some k) =
    record { channel_id = r.channel_id; stream_id = r.stream_id; stats = st; keyframe = k } ∷ []

abbrev stats_at : Store → ℕ → Option FtlStreamStats
stats_at store p = let (seconds, stream) = store p in get_stream_stats seconds stream

abbrev keyframe_at : Store → ℕ → Option FtlKeyframe
keyframe_at store p = get_stream_keyframe (store p).1

all_stats : Store → OrdMap FtlStreamRecord → List StreamStats
unfolding stats_if_both
all_stats store [] = []
all_stats store ((p, r) ∷ m) =
    stats_if_both r (stats_at store p) (keyframe_at store p) ++ all_stats store m

get_all_stats_and_keyframes : Store → FtlServer → List StreamStats
unfolding all_stats
get_all_stats_and_keyframes store s = all_stats store s.active_streams

-- The first active stream with both ids.
stats_of : Store → ℕ → ℕ → OrdMap FtlStreamRecord → Option FtlStreamStats
stats_of store channel stream [] = none
stats_of store channel stream ((p, r) ∷ m) =
    if r.channel_id == channel && r.stream_id == stream
    then stats_at store p
    else stats_of store channel stream m

unfoldable pub get_stats : Store → ℕ → ℕ → FtlServer → Option FtlStreamStats
unfolding stats_of
get_stats store channel stream s = stats_of store channel stream s.active_streams

abbrev has_ids : ℕ → ℕ → FtlStreamRecord → Bool
has_ids channel stream r = r.channel_id == channel && r.stream_id == stream

-- No two active streams have both ids in common.
abbrev AreDistinct : OrdMap FtlStreamRecord → Type 0
AreDistinct [] = Unit {0}
AreDistinct ((p, r) ∷ m) =
    All (λ (x : ℕ × FtlStreamRecord). has_ids x.1.channel_id x.1.stream_id r ≡ false) m
    × AreDistinct m

all_stats-ids :
    (store : Store) (P : ℕ → ℕ → Type 0) (m : OrdMap FtlStreamRecord)
    → All (λ (x : ℕ × FtlStreamRecord). P x.1.channel_id x.1.stream_id) m
    → All (λ (e : StreamStats). P e.channel_id e.stream_id) (all_stats store m)
unfolding all_stats
all_stats-ids store P [] h = tt
all_stats-ids store P ((p, r) ∷ m) h =
    All-append (λ (e : StreamStats). P e.channel_id e.stream_id)
      (stats_if_both r (stats_at store p) (keyframe_at store p)) (all_stats store m)
      (own (stats_at store p) (keyframe_at store p)) (all_stats-ids store P m h.1)
  where
    own :
        (st : Option FtlStreamStats) (k : Option FtlKeyframe)
        → All (λ (e : StreamStats). P e.channel_id e.stream_id) (stats_if_both r st k)
    own none k = tt
    own (some st) none = tt
    own (some st) (some k) = (h.0, tt)

stats_if_both-own :
    (r : FtlStreamRecord) (o st : Option FtlStreamStats) (k : Option FtlKeyframe)
    → o ≡ st
    → All
        (λ (e : StreamStats). (has_ids e.channel_id e.stream_id r ≡ true) × (o ≡ some e.stats))
        (stats_if_both r st k)
unfolding stats_if_both
stats_if_both-own r o none k e = tt
stats_if_both-own r o (some st) none e = tt
stats_if_both-own r o (some st) (some k) e = ((ground arith, e), tt)

all_stats-stats_of :
    (store : Store) (m : OrdMap FtlStreamRecord)
    → AreDistinct m
    → All
        (λ (e : StreamStats). stats_of store e.channel_id e.stream_id m ≡ some e.stats)
        (all_stats store m)
unfolding all_stats stats_of
all_stats-stats_of store [] h = tt
all_stats-stats_of store ((p, r) ∷ m) h =
    All-append
      (λ (e : StreamStats). stats_of store e.channel_id e.stream_id ((p, r) ∷ m) ≡ some e.stats)
      (stats_if_both r (stats_at store p) (keyframe_at store p)) (all_stats store m)
      (All-map
        (λ (e : StreamStats).
          (has_ids e.channel_id e.stream_id r ≡ true) × (stats_at store p ≡ some e.stats))
        (λ (e : StreamStats). stats_of store e.channel_id e.stream_id ((p, r) ∷ m) ≡ some e.stats)
        (stats_if_both r (stats_at store p) (keyframe_at store p)) (λ e q. rw (q.0) (q.1))
        (stats_if_both-own r (stats_at store p) (stats_at store p) (keyframe_at store p) refl))
      (All-map_both (λ (e : StreamStats). has_ids e.channel_id e.stream_id r ≡ false)
        (λ (e : StreamStats). stats_of store e.channel_id e.stream_id m ≡ some e.stats)
        (λ (e : StreamStats). stats_of store e.channel_id e.stream_id ((p, r) ∷ m) ≡ some e.stats)
        (all_stats store m) (λ e differs own. rw differs own)
        (all_stats-ids store (λ c i. has_ids c i r ≡ false) m h.0) (all_stats-stats_of store m h.1))

-- Where no two active streams have the same channel and stream, what `GetAllStatsAndKeyframes` says
-- of each stream is what `GetStats` answers for its ids.
get_all_stats_and_keyframes-get_stats :
    (store : Store) (s : FtlServer)
    → AreDistinct s.active_streams
    → All
        (λ (e : StreamStats). get_stats store e.channel_id e.stream_id s ≡ some e.stats)
        (get_all_stats_and_keyframes store s)
unfolding get_all_stats_and_keyframes get_stats
get_all_stats_and_keyframes-get_stats store s h = all_stats-stats_of store s.active_streams h
