-- ===== src/Janus/Leaving.antt =====
-- `DestroySession` of src/JanusFtl.cpp: what a session leaves behind, and when the node unsubscribes.
use janus_ftl_plugin.Prelude.{
  ℕ, ◌≡◌, refl, sym, ◌∙◌, subst, ap, Bool, true, false, ◌&&◌, ◌||◌, Option, none, some, [], ◌∷◌,
  ◌==◌, if◌then◌else◌, length, arith, Bool-cases, Option-cases, inl, inr,
}
use janus_ftl_plugin.Prelude.OrdMap.{
  OrdMap, OrdSet, contains, find, erase, contains-erase, find-assign,
}
use janus_ftl_plugin.Prelude.OrdMap.Update.{find-erase, contains-assign, contains-find}
use janus_ftl_plugin.Janus.{JanusFtl, unsubscribe}
use janus_ftl_plugin.Rtp.Packet.{Bytes}
use janus_ftl_plugin.Janus.Edge.{clear_stream_key}
use janus_ftl_plugin.Janus.Streams.{remove_viewer_session}
use janus_ftl_plugin.Janus.Plugin.{pending_of, found_or_empty}
use janus_ftl_plugin.Janus.Viewers.{leave_stream, leave_pending, leave_channel, unsubscribe_if}
use janus_ftl_plugin.Janus.Attached.{viewing, waiting, attached, is_viewer}
use janus_ftl_plugin.Janus.Valid.{session_watch, is_watching, IsValid, Keyed, Keyed-assign}

leave_stream-attached :
    (h c k d : ℕ) (s : JanusFtl)
    → let s' = (leave_stream h c (find c s.streams) s).1 in
      (viewing k d s' ≡ (if k == h && d == c then false else viewing k d s))
      × (waiting k d s' ≡ waiting k d s)
unfolding viewing waiting is_viewer pending_of leave_stream remove_viewer_session
leave_stream-attached h c k d s = elim (Option-cases (find c s.streams)) [
  | inl absent ↦ rw absent (ground (arith, absent), refl)
  | inr (st, found) ↦
      rw (found, find-assign c d (remove_viewer_session h st) s.streams)
        (ground (arith, contains-find c s.streams, contains-erase h k st.viewer_sessions), refl)
]

pub empty_contains : (k : ℕ) (m : OrdSet) → length m ≡ 0 → contains k m ≡ false
unfolding contains
empty_contains k [] e = refl
empty_contains k (x ∷ m) e = absurd (omega arith)

leave_pending-attached :
    (h c k d : ℕ) (s : JanusFtl)
    → let s' = (leave_pending h c (find c s.pending_viewer_sessions) s).1 in
      (viewing k d s' ≡ viewing k d s)
      × (waiting k d s' ≡ (if k == h && d == c then false else waiting k d s))
unfolding viewing waiting pending_of found_or_empty leave_pending contains
leave_pending-attached h c k d s = elim (Option-cases (find c s.pending_viewer_sessions)) [
  | inl absent ↦ rw absent (refl, ground (arith, absent))
  | inr (set, found) ↦ elim (Bool-cases (contains h set)) [
    | inl present ↦ elim (Bool-cases (length (erase h set) == 0)) [
      | inl last ↦
          rw (found, present, last, find-erase c d s.pending_viewer_sessions)
            (refl, ground (arith, contains-erase h k set, empty_contains k (erase h set)))
      | inr others ↦
          rw (found, present, others, find-assign c d (erase h set) s.pending_viewer_sessions)
            (
              refl,
              ground (arith, contains-find c s.pending_viewer_sessions, contains-erase h k set),
            )
    ]
    | inr missing ↦ rw (found, missing) (refl, ground (arith, found))
  ]
]

-- What leaving a channel keeps of the layout.
leave_stream-kept :
    (h c : ℕ) (s : JanusFtl)
    → Keyed s.streams
    → let s' = (leave_stream h c (find c s.streams) s).1 in
      ((d : ℕ) → contains d s'.streams ≡ contains d s.streams)
      × (s'.pending_viewer_sessions ≡ s.pending_viewer_sessions)
      × (s'.sessions ≡ s.sessions)
      × (s'.node_kind ≡ s.node_kind)
      × Keyed s'.streams
unfolding leave_stream remove_viewer_session
leave_stream-kept h c s keyed = elim (Option-cases (find c s.streams)) [
  | inl absent ↦ rw absent (λ d. refl, refl, refl, refl, keyed)
  | inr (st, found) ↦
      let st' = remove_viewer_session h st in
      rw found (
        λ d. contains-assign c d st' s.streams,
        refl,
        refl,
        refl,
        Keyed-assign c st' s.streams (keyed c st found) keyed,
      )
]

leave_pending-kept :
    (h c : ℕ) (s : JanusFtl)
    → let s' = (leave_pending h c (find c s.pending_viewer_sessions) s).1 in
      (s'.streams ≡ s.streams)
      × (s'.sessions ≡ s.sessions)
      × ((d : ℕ)
          → contains d s.pending_viewer_sessions ≡ false
          → contains d s'.pending_viewer_sessions ≡ false)
unfolding leave_pending
leave_pending-kept h c s = elim (Option-cases (find c s.pending_viewer_sessions)) [
  | inl absent ↦ rw absent (refl, refl, λ d e. e)
  | inr (set, found) ↦ elim (Bool-cases (contains h set)) [
    | inl present ↦ elim (Bool-cases (length (erase h set) == 0)) [
      | inl last ↦
          rw (found, present, last)
            (refl, refl, λ d e. ground (arith, contains-erase c d s.pending_viewer_sessions))
      | inr others ↦
          rw (found, present, others)
            (refl, refl, λ d e. contains-assign c d (erase h set) s.pending_viewer_sessions ∙ e)
    ]
    | inr missing ↦ rw (found, missing) (refl, refl, λ d e. e)
  ]
]

-- The state in which a session has left a channel, but for the stream key.
unfoldable pub left : ℕ → ℕ → JanusFtl → JanusFtl
unfolding leave_stream leave_pending
left h c s =
    let s' = (leave_stream h c (find c s.streams) s).1 in
    (leave_pending h c (find c s'.pending_viewer_sessions) s').1

-- Whether it makes the node unsubscribe.
unfoldable pub last_left : ℕ → ℕ → JanusFtl → Bool
unfolding leave_stream leave_pending
last_left h c s =
    let (left_stream, s') = leave_stream h c (find c s.streams) s in
    left_stream || (leave_pending h c (find c s'.pending_viewer_sessions) s').0

pub left-attached :
    (h c k d : ℕ) (s : JanusFtl)
    → attached k d (left h c s) ≡ (if k == h && d == c then false else attached k d s)
unfolding attached left
left-attached h c k d s =
    let s' = (leave_stream h c (find c s.streams) s).1 in
    ground (arith, leave_stream-attached h c k d s, leave_pending-attached h c k d s')

unsubscribe_if-keys :
    (b : Bool) (c : ℕ) (s : JanusFtl)
    → (ks : OrdMap Bytes) × (unsubscribe_if b c s
        ≡ ((if b then unsubscribe c ∷ [] else []), record s { stream_keys = ks }))
unfolding unsubscribe_if clear_stream_key
unsubscribe_if-keys false c s = (s.stream_keys, refl)
unsubscribe_if-keys true c s = (erase c s.stream_keys, refl)

pub leave_channel-left :
    (h c : ℕ) (s : JanusFtl)
    → (ks : OrdMap Bytes) × (leave_channel h (some c) s ≡ (
      (if last_left h c s then unsubscribe c ∷ [] else []),
      record (left h c s) { stream_keys = ks },
    ))
unfolding leave_channel left last_left
leave_channel-left h c s = unsubscribe_if-keys (last_left h c s) c (left h c s)

pub session_watch-erase :
    (h k : ℕ) (s : JanusFtl)
    → session_watch k (record s { sessions = erase h s.sessions })
      ≡ (if k == h then none else session_watch k s)
unfolding session_watch
session_watch-erase h k s = ground (arith, find-erase h k s.sessions)

pub left-sessions : (h c : ℕ) (s : JanusFtl) → Keyed s.streams → (left h c s).sessions ≡ s.sessions
unfolding left
left-sessions h c s keyed =
    let s' = (leave_stream h c (find c s.streams) s).1 in
    (leave_pending-kept h c s').1 ∙ (leave_stream-kept h c s keyed).2

destroyed_watched :
    (h k d : ℕ) (c : ℕ) (was : Bool) (w : Option (Option ℕ))
    → was ≡ is_watching d w
    → (k ≡ h → w ≡ some (some c))
    → (if k == h && d == c then false else was) ≡ is_watching d (if k == h then none else w)
destroyed_watched h k d c was w e own = elim (Bool-cases (k == h)) [
  | inl here ↦ rw (here, e, own (ground arith)) (ground arith)
  | inr there ↦ rw there e
]

left-exclusive :
    (h c : ℕ) (s : JanusFtl)
    → IsValid s
    → (d : ℕ) → contains d (left h c s).streams ≡ true
    → contains d (left h c s).pending_viewer_sessions ≡ false
unfolding left
left-exclusive h c s v d =
    let s' = (leave_stream h c (find c s.streams) s).1 in
    let (same, pending, _, _, _) = leave_stream-kept h c s v.keyed in
    let (streams, _, fewer) = leave_pending-kept h c s' in
    rw streams (λ live. fewer d (rw pending (v.exclusive d (sym (same d) ∙ live))))

left-Keyed : (h c : ℕ) (s : JanusFtl) → Keyed s.streams → Keyed (left h c s).streams
unfolding left
left-Keyed h c s keyed =
    let s' = (leave_stream h c (find c s.streams) s).1 in
    let (_, _, _, _, keyed') = leave_stream-kept h c s keyed in
    rw ((leave_pending-kept h c s').0) keyed'

pub left-IsValid :
    (h c : ℕ) (ks : OrdMap Bytes) (s : JanusFtl)
    → session_watch h s ≡ some (some c)
    → IsValid s
    → IsValid (record (left h c s) { stream_keys = ks; sessions = erase h (left h c s).sessions })
unfolding session_watch attached viewing waiting pending_of
left-IsValid h c ks s own v = record {
  watched = λ k d.
      left-attached h c k d s
      ∙ destroyed_watched h k d c (attached k d s) (session_watch k s) (v.watched k d)
          (λ same. subst (λ x. session_watch x s ≡ some (some c)) (sym same) own)
      ∙ sym (ap (is_watching d) (rw (left-sessions h c s v.keyed) (session_watch-erase h k s)));
  exclusive = left-exclusive h c s v;
  keyed = left-Keyed h c s v.keyed;
}
