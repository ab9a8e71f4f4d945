-- ===== src/Janus/Valid.antt =====
-- src/JanusFtl.cpp: what holds between the streams, the waiting sessions and the channels that
-- sessions watch, and that the handlers of a stream keep it.
use janus_ftl_plugin.Prelude.{
  ℕ, ◌+◌, ◌%◌, ◌^◌, ◌≡◌, refl, sym, ◌∙◌, subst, Bool, true, false, Option, none, some, [], ◌∷◌,
  ◌==◌, arith, Bool-cases, Option-cases, inl, inr,
}
use mathlib.Core.Option.{some-injective}
use janus_ftl_plugin.Prelude.OrdMap.{
  OrdMap, OrdSet, contains, find, contains-erase, assign, find-assign,
}
use janus_ftl_plugin.Prelude.OrdMap.Update.{
  insert_or_assign, union, find-erase, find-insert_or_assign, contains-insert_or_assign,
  contains-find,
}
use janus_ftl_plugin.Janus.Edge.{start_stream}
use janus_ftl_plugin.Rtp.Packet.{Bytes}
use janus_ftl_plugin.FtlTypes.{MediaMetadata}
use janus_ftl_plugin.Janus.{ActiveSession, JanusStream, JanusFtl}
use janus_ftl_plugin.Janus.Streams.{add_viewer_session}
use janus_ftl_plugin.Janus.Plugin.{
  pending_of, retire_stream, end_stream, add_pending, register_stream, new_stream, stop_existing,
  register_started, ftl_server_stream_started, service_start_stream, is_edge,
}
use janus_ftl_plugin.Janus.Attached.{
  viewing, waiting, attached, is_viewer, end_stream-cases, end_stream-found,
  register_stream-viewing, register_stream-waiting, retire_stream-viewing, retire_stream-waiting,
  viewing-found,
}

abbrev pub watch_state : Option ActiveSession → Option (Option ℕ)
watch_state none = none
watch_state (some a) = some a.watching_channel_id

-- `none` for no session; otherwise the channel that it watches, if any.
unfoldable pub session_watch : ℕ → JanusFtl → Option (Option ℕ)
unfolding find
session_watch h s = watch_state (find h s.sessions)

abbrev pub is_watching : ℕ → Option (Option ℕ) → Bool
is_watching c none = false
is_watching c (some none) = false
is_watching c (some (some d)) = c == d

-- A stream is kept under its channel.
abbrev pub Keyed : OrdMap JanusStream → Type 0
Keyed m = (c : ℕ) (st : JanusStream) → find c m ≡ some st → st.channel_id ≡ c

pub Keyed-insert_or_assign :
    (c : ℕ) (st : JanusStream) (m : OrdMap JanusStream)
    → st.channel_id ≡ c
    → Keyed m
    → Keyed (insert_or_assign c st m)
Keyed-insert_or_assign c st m e k d st' at = elim (Bool-cases (d == c)) [
  | inl here ↦
      let same : some st ≡ some st' = sym (find-insert_or_assign c d st m ∙ rw here refl) ∙ at in
      subst (λ x. x.channel_id ≡ d) (some-injective st st' same) (ground arith)
  | inr there ↦
      let found : find d m ≡ some st' = sym (find-insert_or_assign c d st m ∙ rw there refl) ∙ at in
      k d st' found
]

pub Keyed-assign :
    (c : ℕ) (st : JanusStream) (m : OrdMap JanusStream)
    → st.channel_id ≡ c
    → Keyed m
    → Keyed (assign c st m)
unfolding insert_or_assign
Keyed-assign c st m e k d st' at = elim (Bool-cases (contains c m)) [
  | inl present ↦ let all = Keyed-insert_or_assign c st m e k d st' in all (rw present at)
  | inr absent ↦ k d st' (ground (arith, find-assign c d st m, contains-find c m))
]

-- Exactly the sessions that watch a channel view its stream or wait for it; nobody waits for a
-- channel that has a stream; and a stream is kept under its channel.
pub record IsValid (s : JanusFtl) : Type 0 where
  pub watched : (h c : ℕ) → attached h c s ≡ is_watching c (session_watch h s)
  pub exclusive :
      (c : ℕ) → contains c s.streams ≡ true → contains c s.pending_viewer_sessions ≡ false
  pub keyed : Keyed s.streams

retire_stream-IsValid :
    (c stream : ℕ) (st : JanusStream) (s : JanusFtl)
    → find c s.streams ≡ some st
    → IsValid s
    → IsValid (retire_stream c stream st s).1
unfolding session_watch retire_stream attached
retire_stream-IsValid c stream st s found v = record {
  watched = λ h d. ground (
    arith,
    retire_stream-viewing c stream st s h d,
    retire_stream-waiting c stream st s h d,
    viewing-found h c st s found,
    v.watched h d,
    v.watched h c,
  );
  exclusive = λ d in_streams. ground (
    arith,
    contains-erase c d s.streams,
    contains-insert_or_assign c d (union st.viewer_sessions (pending_of c s))
        s.pending_viewer_sessions,
    v.exclusive d,
  );
  keyed = λ d st' at. v.keyed d st' (ground (arith, find-erase c d s.streams));
}

pub end_stream-IsValid :
    (c stream : ℕ) (s : JanusFtl) → IsValid s → IsValid (end_stream c stream s).1
end_stream-IsValid c stream s v = elim (end_stream-cases c stream s) [
  | inl (other, e) ↦ rw e v
  | inr (st, found, live, e) ↦ rw e (retire_stream-IsValid c stream st s found v)
]

add_pending-channel_id :
    (hs : OrdSet) (sessions : OrdMap ActiveSession) (st : JanusStream)
    → (add_pending hs sessions st).1.channel_id ≡ st.channel_id
unfolding add_pending add_viewer_session
add_pending-channel_id [] sessions st = refl
add_pending-channel_id ((h, u) ∷ hs) sessions st =
    add_pending-channel_id hs sessions (add_viewer_session h st)

register_stream-IsValid :
    (c stream : ℕ) (m : MediaMetadata) (s : JanusFtl)
    → contains c s.streams ≡ false
    → IsValid s
    → IsValid (register_stream c stream m s).1
unfolding session_watch register_stream attached viewing is_viewer
register_stream-IsValid c stream m s absent v =
    let st = (add_pending (pending_of c s) s.sessions (new_stream c stream m)).1 in
    record {
      watched = λ h d. ground (
        arith,
        register_stream-viewing c stream m s h d,
        register_stream-waiting c stream m s h d,
        contains-find c s.streams,
        v.watched h d,
      );
      exclusive = λ d in_streams. ground (
        arith,
        contains-erase c d s.pending_viewer_sessions,
        contains-insert_or_assign c d st s.streams,
        v.exclusive d,
      );
      keyed =
          Keyed-insert_or_assign c st s.streams
            (add_pending-channel_id (pending_of c s) s.sessions (new_stream c stream m)) v.keyed;
    }

-- The channel's stream, if there is one, has ended.
pub stop_existing-IsValid :
    (c : ℕ) (s : JanusFtl)
    → IsValid s
    → (contains c (stop_existing (find c s.streams) s).1.streams ≡ false)
      × IsValid (stop_existing (find c s.streams) s).1
unfolding stop_existing retire_stream
stop_existing-IsValid c s v = elim (Option-cases (find c s.streams)) [
  | inl absent ↦ rw absent (ground (arith, contains-find c s.streams), v)
  | inr (st, found) ↦
      let gone : contains c (end_stream c st.stream_id s).1.streams ≡ false =
        rw (end_stream-found c st s found) (ground (arith, contains-erase c c s.streams)) in
      rw (found, v.keyed c st found) (gone, end_stream-IsValid c st.stream_id s v)
]

keys-IsValid :
    (ks : OrdMap Bytes) (s : JanusFtl) → IsValid s → IsValid (record s { stream_keys = ks })
unfolding session_watch attached viewing waiting pending_of
keys-IsValid ks s v = record { watched = v.watched; exclusive = v.exclusive; keyed = v.keyed }

pub ids-IsValid :
    (id : ℕ) (s : JanusFtl) → IsValid s → IsValid (record s { last_assigned_stream_id = id })
unfolding session_watch attached viewing waiting pending_of
ids-IsValid id s v = record { watched = v.watched; exclusive = v.exclusive; keyed = v.keyed }

register_started-IsValid :
    (c : ℕ) (m : MediaMetadata) (answer : Option ℕ) (s : JanusFtl)
    → IsValid s
    → IsValid (register_started c m answer s).2
unfolding register_started
register_started-IsValid c m none s v = v
register_started-IsValid c m (some stream) s v =
    let (gone, v') = stop_existing-IsValid c s v in
    register_stream-IsValid c stream m (stop_existing (find c s.streams) s).1 gone v'

pub ftl_server_stream_started-IsValid :
    (c : ℕ) (m : MediaMetadata) (answer : Option ℕ) (s : JanusFtl)
    → IsValid s
    → IsValid (ftl_server_stream_started c m answer s).2
unfolding ftl_server_stream_started service_start_stream start_stream
ftl_server_stream_started-IsValid c m answer s v = elim (Bool-cases (is_edge s.node_kind)) [
  | inl on_edge ↦
      let id = s.last_assigned_stream_id in
      rw on_edge (
        register_started-IsValid c m (some id)
          (record s { last_assigned_stream_id = (id + 1) % 2 ^ 32 })
          (ids-IsValid ((id + 1) % 2 ^ 32) s v))
  | inr other ↦ rw other (register_started-IsValid c m answer s v)
]
