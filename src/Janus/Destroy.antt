-- ===== src/Janus/Destroy.antt =====
-- `DestroySession` of src/JanusFtl.cpp as a whole, and when an Edge node unsubscribes.
use janus_ftl_plugin.Prelude.{
  ℕ, ◌≡◌, refl, sym, ◌∙◌, subst, ap, Bool, true, false, Option, none, some, [], ◌∷◌, ◌==◌,
  if◌then◌else◌, arith, Bool-cases, Option-cases, inl, inr,
}
use janus_ftl_plugin.Prelude.OrdMap.{OrdMap, find, erase}
use janus_ftl_plugin.Rtp.Packet.{Bytes}
use janus_ftl_plugin.Janus.{ActiveSession, JanusFtl, unsubscribe}
use janus_ftl_plugin.Janus.Plugin.{pending_of}
use janus_ftl_plugin.Janus.Viewers.{leave_channel, destroy_session, destroy_if_found}
use janus_ftl_plugin.Janus.Attached.{viewing, waiting, attached}
use janus_ftl_plugin.Janus.Valid.{session_watch, is_watching, IsValid}
use janus_ftl_plugin.Janus.Leaving.{
  left, last_left, left-sessions, left-IsValid, leave_channel-left, session_watch-erase,
}

pub destroy_session-none :
    (h : ℕ) (s : JanusFtl) → find h s.sessions ≡ none → destroy_session h s ≡ (false, [], s)
unfolding destroy_session destroy_if_found
destroy_session-none h s absent = rw absent refl

pub destroy_session-idle :
    (h : ℕ) (a : ActiveSession) (s : JanusFtl)
    → find h s.sessions ≡ some a
    → a.watching_channel_id ≡ none
    → destroy_session h s ≡ (true, [], record s { sessions = erase h s.sessions })
unfolding destroy_session destroy_if_found leave_channel
destroy_session-idle h a s found idle = rw (found, idle) refl

pub destroy_session-watching :
    (h c : ℕ) (a : ActiveSession) (s : JanusFtl)
    → find h s.sessions ≡ some a
    → a.watching_channel_id ≡ some c
    → (ks : OrdMap Bytes) × (destroy_session h s ≡ (
      true,
      (if last_left h c s then unsubscribe c ∷ [] else []),
      record (left h c s) { stream_keys = ks; sessions = erase h (left h c s).sessions },
    ))
unfolding destroy_session destroy_if_found
destroy_session-watching h c a s found watches =
    let (ks, e) = leave_channel-left h c s in (ks, rw (found, watches, e) refl)

idle_watched :
    (h k d : ℕ) (was : Bool) (w : Option (Option ℕ))
    → was ≡ is_watching d w
    → (k ≡ h → w ≡ some none)
    → was ≡ is_watching d (if k == h then none else w)
idle_watched h k d was w e idle = elim (Bool-cases (k == h)) [
  | inl here ↦ rw (here, e, idle (ground arith)) refl
  | inr there ↦ rw there e
]

pub destroy_session-IsValid : (h : ℕ) (s : JanusFtl) → IsValid s → IsValid (destroy_session h s).2
unfolding session_watch attached viewing waiting pending_of
destroy_session-IsValid h s v = elim (Option-cases (find h s.sessions)) [
  | inl absent ↦ rw (destroy_session-none h s absent) v
  | inr (a, found) ↦ elim (Option-cases a.watching_channel_id) [
    | inl idle ↦ rw (destroy_session-idle h a s found idle) (record {
      watched = λ k d.
          idle_watched h k d (attached k d s) (session_watch k s) (v.watched k d)
            (λ same. subst (λ x. session_watch x s ≡ some none) (sym same) (rw (found, idle) refl))
          ∙ sym (ap (is_watching d) (session_watch-erase h k s));
      exclusive = v.exclusive;
      keyed = v.keyed;
    })
    | inr (c, watches) ↦
        let (ks, e) = destroy_session-watching h c a s found watches in
        rw e (left-IsValid h c ks s (rw (found, watches) refl) v)
  ]
]

-- After any session is destroyed, it watches nothing, and the others watch what they did.
pub destroy_session-session_watch :
    (h k : ℕ) (s : JanusFtl)
    → IsValid s
    → session_watch k (destroy_session h s).2 ≡ (if k == h then none else session_watch k s)
unfolding session_watch
destroy_session-session_watch h k s v = elim (Option-cases (find h s.sessions)) [
  | inl absent ↦ rw (destroy_session-none h s absent) (ground (arith, absent))
  | inr (a, found) ↦ elim (Option-cases a.watching_channel_id) [
    | inl idle ↦ rw (destroy_session-idle h a s found idle) (session_watch-erase h k s)
    | inr (c, watches) ↦
        let (ks, e) = destroy_session-watching h c a s found watches in
        rw (e, left-sessions h c s v.keyed) (session_watch-erase h k s)
  ]
]
