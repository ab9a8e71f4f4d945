-- ===== src/Janus/Attached.antt =====
-- src/JanusFtl.cpp: which sessions view a channel and which wait for it, after a stream has ended
-- or started.
use janus_ftl_plugin.Prelude.{
  ℕ, ◌≡◌, refl, Bool, true, false, ◌&&◌, ◌||◌, ◌⊎◌, Option, none, some, [], ◌∷◌, ◌==◌,
  if◌then◌else◌, arith, Bool-cases, Option-cases, inl, inr,
}
use janus_ftl_plugin.Prelude.OrdMap.{OrdMap, OrdSet, contains, find, contains-emplace}
use janus_ftl_plugin.Prelude.OrdMap.Update.{
  union, contains-union, find-erase, find-insert_or_assign,
}
use janus_ftl_plugin.FtlTypes.{MediaMetadata}
use janus_ftl_plugin.Janus.{ActiveSession, JanusStream, JanusFtl}
use janus_ftl_plugin.Janus.Streams.{add_viewer_session, remove_all_viewer_sessions}
use janus_ftl_plugin.Janus.Plugin.{
  pending_of, found_or_empty, retire_stream, end_if_found, end_stream, add_pending, register_stream,
  new_stream,
}

unfoldable pub is_viewer : ℕ → Option JanusStream → Bool
unfolding contains
is_viewer h none = false
is_viewer h (some st) = contains h st.viewer_sessions

-- A viewer of the channel's stream.
unfoldable pub viewing : ℕ → ℕ → JanusFtl → Bool
unfolding is_viewer find
viewing h c s = is_viewer h (find c s.streams)

-- A session that waits for the channel's stream.
unfoldable pub waiting : ℕ → ℕ → JanusFtl → Bool
unfolding contains pending_of
waiting h c s = contains h (pending_of c s)

unfoldable pub attached : ℕ → ℕ → JanusFtl → Bool
unfolding viewing waiting
attached h c s = viewing h c s || waiting h c s

pub viewing-found :
    (h c : ℕ) (st : JanusStream) (s : JanusFtl)
    → find c s.streams ≡ some st
    → viewing h c s ≡ contains h st.viewer_sessions
unfolding viewing is_viewer
viewing-found h c st s found = rw found refl

pub retire_stream-viewing :
    (c stream : ℕ) (st : JanusStream) (s : JanusFtl) (h d : ℕ)
    → viewing h d (retire_stream c stream st s).1 ≡ (if d == c then false else viewing h d s)
unfolding viewing is_viewer retire_stream
retire_stream-viewing c stream st s h d = ground (arith, find-erase c d s.streams)

pub retire_stream-waiting :
    (c stream : ℕ) (st : JanusStream) (s : JanusFtl) (h d : ℕ)
    → waiting h d (retire_stream c stream st s).1
      ≡ (if d == c then contains h st.viewer_sessions || waiting h c s else waiting h d s)
unfolding waiting pending_of found_or_empty retire_stream remove_all_viewer_sessions
retire_stream-waiting c stream st s h d =
    let all = union st.viewer_sessions (pending_of c s) in
    rw (find-insert_or_assign c d all s.pending_viewer_sessions)
      (ground (arith, contains-union h st.viewer_sessions (pending_of c s)))

add_pending-viewers :
    (h : ℕ) (hs : OrdSet) (sessions : OrdMap ActiveSession) (st : JanusStream)
    → contains h (add_pending hs sessions st).1.viewer_sessions
      ≡ (contains h hs || contains h st.viewer_sessions)
unfolding contains add_pending add_viewer_session
add_pending-viewers h [] sessions st = refl
add_pending-viewers h ((k, u) ∷ hs) sessions st = ground (
  arith,
  add_pending-viewers h hs sessions (add_viewer_session k st),
  contains-emplace k h tt st.viewer_sessions,
)

pub register_stream-viewing :
    (c stream : ℕ) (m : MediaMetadata) (s : JanusFtl) (h d : ℕ)
    → viewing h d (register_stream c stream m s).1
      ≡ (if d == c then waiting h c s else viewing h d s)
unfolding viewing waiting is_viewer register_stream contains
register_stream-viewing c stream m s h d =
    let st = (add_pending (pending_of c s) s.sessions (new_stream c stream m)).1 in
    rw (find-insert_or_assign c d st s.streams)
      (ground (arith, add_pending-viewers h (pending_of c s) s.sessions (new_stream c stream m)))

pub register_stream-waiting :
    (c stream : ℕ) (m : MediaMetadata) (s : JanusFtl) (h d : ℕ)
    → waiting h d (register_stream c stream m s).1 ≡ (if d == c then false else waiting h d s)
unfolding waiting pending_of found_or_empty register_stream contains
register_stream-waiting c stream m s h d =
    rw (find-erase c d s.pending_viewer_sessions) (ground arith)

unfoldable pub is_stream : ℕ → Option JanusStream → Bool
is_stream stream none = false
is_stream stream (some st) = st.stream_id == stream

-- The channel's stream is the one with this id.
unfoldable pub is_live : ℕ → ℕ → JanusFtl → Bool
unfolding is_stream find
is_live c stream s = is_stream stream (find c s.streams)

-- What `endStream` does: nothing, or the stream is the one that it is asked to end.
pub end_stream-cases :
    (c stream : ℕ) (s : JanusFtl)
    → ((is_live c stream s ≡ false) × (end_stream c stream s ≡ ([], s)))
      ⊎ ((st : JanusStream) × (find c s.streams ≡ some st)
          × (is_live c stream s ≡ true)
          × (end_stream c stream s ≡ retire_stream c stream st s))
unfolding end_stream end_if_found is_live is_stream
end_stream-cases c stream s = elim (Option-cases (find c s.streams)) [
  | inl new ↦ inl (rw new refl, rw new refl)
  | inr (st, found) ↦ elim (Bool-cases (st.stream_id == stream)) [
    | inl same ↦ inr (st, found, rw found same, rw (found, same) refl)
    | inr other ↦ inl (rw found other, rw (found, other) refl)
  ]
]

pub end_stream-found :
    (c : ℕ) (st : JanusStream) (s : JanusFtl)
    → find c s.streams ≡ some st
    → end_stream c st.stream_id s ≡ retire_stream c st.stream_id st s
unfolding end_stream end_if_found
end_stream-found c st s found =
    let same : (st.stream_id == st.stream_id) ≡ true = ground arith in rw (found, same) refl

-- Ending a stream makes its viewers wait for the channel's next one, beside those that wait
-- already, and leaves nobody viewing it; other channels keep who views them and who waits for them,
-- and so does the channel where the id is not its stream's.
pub end_stream_lem :
    (c stream : ℕ) (s : JanusFtl) (h d : ℕ)
    → let s' = (end_stream c stream s).1 in
      (viewing h d s' ≡ (if is_live c stream s && d == c then false else viewing h d s))
      × (waiting h d s' ≡ (if is_live c stream s && d == c then attached h c s else waiting h d s))
unfolding attached
end_stream_lem c stream s h d = elim (end_stream-cases c stream s) [
  | inl (other, e) ↦ rw (other, e) (refl, refl)
  | inr (st, found, live, e) ↦
      let seen : viewing h c s ≡ contains h st.viewer_sessions = viewing-found h c st s found in
      rw (e, live, seen)
        (
          ground (arith, retire_stream-viewing c stream st s h d),
          ground (arith, retire_stream-waiting c stream st s h d),
        )
]

pub end_stream-attached :
    (c stream : ℕ) (s : JanusFtl) (h d : ℕ)
    → attached h d (end_stream c stream s).1 ≡ attached h d s
unfolding attached
end_stream-attached c stream s h d = ground (arith, end_stream_lem c stream s h d)
