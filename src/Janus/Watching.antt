-- ===== src/Janus/Watching.antt =====
-- src/JanusFtl.cpp: the handlers of a session, and what they keep. A session that asks for a second
-- channel is the subject of Rewatch.
use janus_ftl_plugin.Prelude.{
  ℕ, ◌%◌, ◌^◌, ◌≡◌, refl, sym, ◌∙◌, ap, Bool, true, false, ◌&&◌, Option, some, ◌==◌, if◌then◌else◌,
  length, arith, Bool-cases, Option-cases, inl, inr,
}
use janus_ftl_plugin.Prelude.OrdMap.{
  OrdMap, contains, find, emplace, assign, contains-emplace, find-assign,
}
use janus_ftl_plugin.Prelude.OrdMap.Update.{
  insert_or_assign, find-insert_or_assign, contains-insert_or_assign, contains-assign,
  contains-find,
}
use janus_ftl_plugin.Rtp.Packet.{Bytes}
use janus_ftl_plugin.Janus.{ActiveSession, JanusFtl}
use janus_ftl_plugin.Janus.Streams.{add_viewer_session}
use janus_ftl_plugin.Janus.Edge.{provision_stream_key, provision_if_none}
use janus_ftl_plugin.Janus.Plugin.{pending_of, found_or_empty, is_edge}
use janus_ftl_plugin.Janus.Viewers.{
  subscribe_if_first, watch_stream, watching, handle_watch_message,
}
use janus_ftl_plugin.Janus.Attached.{viewing, waiting, attached, is_viewer}
use janus_ftl_plugin.Janus.Valid.{session_watch, is_watching, IsValid, Keyed, Keyed-assign}

pub session_watch-assign :
    (h k : ℕ) (a b : ActiveSession) (s : JanusFtl)
    → find h s.sessions ≡ some a
    → session_watch k (record s { sessions = assign h b s.sessions })
      ≡ (if k == h then some b.watching_channel_id else session_watch k s)
unfolding session_watch
session_watch-assign h k a b s found =
    let present : contains h s.sessions ≡ true = rw (contains-find h s.sessions, found) refl in
    ground (arith, find-assign h k b s.sessions)

-- Adding a session to those that wait, and to those that view.
pub subscribe_if_first-keys :
    (c : ℕ) (key : Bytes) (s : JanusFtl)
    → (ks : OrdMap Bytes) × ((subscribe_if_first c key s).1 ≡ record s { stream_keys = ks })
unfolding subscribe_if_first provision_stream_key provision_if_none
subscribe_if_first-keys c key s =
    elim (Bool-cases (is_edge s.node_kind && length (pending_of c s) == 0)) [
      | inl first ↦ elim (Option-cases (find c s.stream_keys)) [
        | inl new ↦ (insert_or_assign c key s.stream_keys, rw (first, new) refl)
        | inr (old, e) ↦ (s.stream_keys, rw (first, e) refl)
      ]
      | inr later ↦ (s.stream_keys, rw later refl)
    ]

pub watch_stream-sessions :
    (h c : ℕ) (key : Bytes) (s : JanusFtl)
    → (watch_stream h c key (find c s.streams) s).1.sessions ≡ s.sessions
unfolding watch_stream
watch_stream-sessions h c key s = elim (Option-cases (find c s.streams)) [
  | inl absent ↦ let (ks, e) = subscribe_if_first-keys c key s in rw (absent, e) refl
  | inr (st, found) ↦ rw found refl
]

pub watch_stream-session_watch :
    (h c : ℕ) (key : Bytes) (k : ℕ) (s : JanusFtl)
    → session_watch k (watch_stream h c key (find c s.streams) s).1 ≡ session_watch k s
unfolding session_watch
watch_stream-session_watch h c key k s = rw (watch_stream-sessions h c key s) refl

pub watch_stream-attached :
    (h c : ℕ) (key : Bytes) (k d : ℕ) (s : JanusFtl)
    → attached k d (watch_stream h c key (find c s.streams) s).1
      ≡ (if k == h && d == c then true else attached k d s)
unfolding attached viewing waiting is_viewer pending_of found_or_empty watch_stream
    add_viewer_session contains
watch_stream-attached h c key k d s = elim (Option-cases (find c s.streams)) [
  | inl absent ↦
      let (ks, e) = subscribe_if_first-keys c key s in
      let set = emplace h tt (pending_of c s) in
      rw (absent, e, find-insert_or_assign c d set s.pending_viewer_sessions)
        (ground (arith, contains-emplace h k tt (pending_of c s)))
  | inr (st, found) ↦
      rw (found, find-assign c d (add_viewer_session h st) s.streams)
        (ground (arith, contains-find c s.streams, contains-emplace h k tt st.viewer_sessions))
]

watch_stream-exclusive :
    (h c : ℕ) (key : Bytes) (s : JanusFtl)
    → ((d : ℕ) → contains d s.streams ≡ true → contains d s.pending_viewer_sessions ≡ false)
    → (d : ℕ) → contains d (watch_stream h c key (find c s.streams) s).1.streams ≡ true
    → contains d (watch_stream h c key (find c s.streams) s).1.pending_viewer_sessions ≡ false
unfolding watch_stream
watch_stream-exclusive h c key s exclusive d = elim (Option-cases (find c s.streams)) [
  | inl absent ↦
      let (ks, e) = subscribe_if_first-keys c key s in
      let set = emplace h tt (pending_of c s) in
      rw (absent, e)
        (λ live. ground (
          arith,
          exclusive d,
          contains-find c s.streams,
          contains-insert_or_assign c d set s.pending_viewer_sessions,
        ))
  | inr (st, found) ↦
      rw found
        (λ live. exclusive d (sym (contains-assign c d (add_viewer_session h st) s.streams) ∙ live))
]

pub watch_stream-Keyed :
    (h c : ℕ) (key : Bytes) (s : JanusFtl)
    → Keyed s.streams
    → Keyed (watch_stream h c key (find c s.streams) s).1.streams
unfolding watch_stream add_viewer_session
watch_stream-Keyed h c key s keyed = elim (Option-cases (find c s.streams)) [
  | inl absent ↦ let (ks, e) = subscribe_if_first-keys c key s in rw (absent, e) keyed
  | inr (st, found) ↦
      rw found (Keyed-assign c (add_viewer_session h st) s.streams (keyed c st found) keyed)
]

-- A session that watches at most the channel that it now asks for.
now_watching :
    (k h c d : ℕ) (was : Bool) (w : Option (Option ℕ))
    → was ≡ is_watching d w
    → (k ≡ h → is_watching d w ≡ true → d ≡ c)
    → (if k == h && d == c then true else was) ≡ is_watching d (if k == h then some (some c) else w)
now_watching k h c d was w e allowed = elim (Bool-cases (k == h)) [
  | inl here ↦ elim (Bool-cases (is_watching d w)) [
    | inl watches ↦
        let same : d ≡ c = allowed (ground arith) watches in rw (here, same) (ground arith)
    | inr free ↦ rw (here, e, free) (ground arith)
  ]
  | inr there ↦ rw there e
]

pub handle_watch_message-IsValid :
    (h : ℕ) (a : ActiveSession) (id : ℕ) (key : Bytes) (s : JanusFtl)
    → find h s.sessions ≡ some a
    → ((d : ℕ) → is_watching d (session_watch h s) ≡ true → d ≡ id % 2 ^ 32)
    → IsValid s
    → IsValid (handle_watch_message h a (some id) key s).2
unfolding handle_watch_message attached viewing waiting pending_of
handle_watch_message-IsValid h a id key s found allowed v =
    let c = id % 2 ^ 32 in
    let s' = record s { sessions = assign h (watching c a) s.sessions } in
    record {
      watched = λ k d.
          watch_stream-attached h c key k d s'
          ∙ now_watching k h c d (attached k d s) (session_watch k s) (v.watched k d)
              (λ here. rw here (allowed d))
          ∙ sym (
              ap (is_watching d) (
                watch_stream-session_watch h c key k s'
                ∙ session_watch-assign h k a (watching c a) s found));
      exclusive = watch_stream-exclusive h c key s' v.exclusive;
      keyed = watch_stream-Keyed h c key s' v.keyed;
    }
