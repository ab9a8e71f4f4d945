-- ===== src/Janus/Asking.antt =====
-- src/JanusFtl.cpp: the handlers that open a session and take its messages, against Calls.
use janus_ftl_plugin.Prelude.{
  ℕ, ◌%◌, ◌^◌, ◌≡◌, refl, sym, ◌∙◌, subst, ap, true, Option, none, some, List, [], ◌∷◌, ◌==◌,
  if◌then◌else◌, arith, Bool-cases, Option-cases, inl, inr,
}
use janus_ftl_plugin.Prelude.OrdMap.{find, assign, find-assign}
use janus_ftl_plugin.Prelude.OrdMap.Update.{find-insert_or_assign, contains-find}
use janus_ftl_plugin.Prelude.Text.{codes, same}
use janus_ftl_plugin.Rtp.Packet.{Bytes}
use janus_ftl_plugin.Janus.{ActiveSession, JanusFtl, Effect, push_event, pending}
use janus_ftl_plugin.Janus.Plugin.{
  is_ingest, create_session, new_active_session, pending_of, send_jsep,
}
use janus_ftl_plugin.Janus.Viewers.{
  Message, object, missing, not_an_object, handle_message, handle_if_found, handle_request,
  handle_watch_message, watch_stream, subscribe_if_first, watching,
}
use janus_ftl_plugin.Janus.Attached.{viewing, waiting, attached}
use janus_ftl_plugin.Janus.Valid.{session_watch, is_watching, IsValid}
use janus_ftl_plugin.Janus.Watching.{
  session_watch-assign, handle_watch_message-IsValid, watch_stream-session_watch,
}
use janus_ftl_plugin.Janus.Safe.{IsSafe}
use janus_ftl_plugin.Janus.Kept.{append-IsSafe}
use janus_ftl_plugin.Janus.Calls.{requested, asked, replay, message}

pub create_session-session_watch :
    (now h k : ℕ) (s : JanusFtl)
    → session_watch k (create_session now h s) ≡ (if k == h then some none else session_watch k s)
unfolding session_watch create_session
create_session-session_watch now h k s =
    ground (arith, find-insert_or_assign h k (new_active_session now s.playout_delay) s.sessions)

new_watch :
    (h k d : ℕ) (w : Option (Option ℕ))
    → (k ≡ h → w ≡ none)
    → is_watching d w ≡ is_watching d (if k == h then some none else w)
new_watch h k d w new = elim (Bool-cases (k == h)) [
  | inl here ↦ rw (here, new (ground arith)) refl
  | inr there ↦ rw there refl
]

pub create_session-IsValid :
    (now h : ℕ) (s : JanusFtl)
    → session_watch h s ≡ none
    → IsValid s
    → IsValid (create_session now h s)
unfolding create_session attached viewing waiting pending_of
create_session-IsValid now h s new v = record {
  watched = λ k d.
      v.watched k d
      ∙ new_watch h k d (session_watch k s)
          (λ same. subst (λ x. session_watch x s ≡ none) (sym same) new)
      ∙ sym (ap (is_watching d) (create_session-session_watch now h k s));
  exclusive = v.exclusive;
  keyed = v.keyed;
}

subscribe_if_first-IsSafe :
    (c : ℕ) (key : Bytes) (s : JanusFtl) → IsSafe (subscribe_if_first c key s).0
unfolding subscribe_if_first
subscribe_if_first-IsSafe c key s = ground arith

watch_stream-IsSafe :
    (h c : ℕ) (key : Bytes) (a : ActiveSession) (s : JanusFtl)
    → find h s.sessions ≡ some a
    → IsSafe (watch_stream h c key (find c s.streams) s).0
unfolding watch_stream send_jsep
watch_stream-IsSafe h c key a s found = elim (Option-cases (find c s.streams)) [
  | inl absent ↦ rw absent (
      append-IsSafe (subscribe_if_first c key s).0 (push_event h pending ∷ [])
        (subscribe_if_first-IsSafe c key s) (refl, tt))
  | inr (st, live) ↦ rw (live, found) (refl, tt)
]

-- A message after which every session watches what it did.
pub session_watch-found :
    (h : ℕ) (a : ActiveSession) (s : JanusFtl)
    → find h s.sessions ≡ some a
    → session_watch h s ≡ some a.watching_channel_id
unfolding session_watch
session_watch-found h a s found = rw found refl

session_watch-none : (h : ℕ) (s : JanusFtl) → find h s.sessions ≡ none → session_watch h s ≡ none
unfolding session_watch
session_watch-none h s absent = rw absent refl

watching-some : (d : ℕ) (w : Option (Option ℕ)) → is_watching d w ≡ true → w ≡ some (some d)
watching-some d none e = absurd (grind arith)
watching-some d (some none) e = absurd (grind arith)
watching-some d (some (some c)) e = ap (λ x. some (some x)) (ground arith)

unasked :
    (h k : ℕ) (s : JanusFtl)
    → session_watch k s ≡ (if k == h then session_watch h s else session_watch k s)
unasked h k s = elim (Bool-cases (k == h)) [
  | inl here ↦ let same : k ≡ h = ground arith in rw here (ap (λ x. session_watch x s) same)
  | inr there ↦ rw there refl
]

-- A message that asks for the channel `o`, if any.
abbrev Refines : ℕ → Option ℕ → List Effect → JanusFtl → JanusFtl → Type 0
Refines h o es s s' =
    IsSafe es
    × ((k : ℕ)
        → session_watch k s' ≡ (if k == h then asked o (session_watch h s) else session_watch k s))
    × IsValid s'

unchanged-Refines : (h : ℕ) (s : JanusFtl) → IsValid s → Refines h none [] s s
unchanged-Refines h s v = (tt, λ k. unasked h k s, v)

handle_watch_message-Refines :
    (h : ℕ) (a : ActiveSession) (id : ℕ) (key : Bytes) (s : JanusFtl)
    → find h s.sessions ≡ some a
    → ((d : ℕ) → is_watching d (session_watch h s) ≡ true → d ≡ id % 2 ^ 32)
    → IsValid s
    → let r = handle_watch_message h a (some id) key s in Refines h (some (id % 2 ^ 32)) r.1 s r.2
unfolding handle_watch_message
handle_watch_message-Refines h a id key s found allowed v =
    let c = id % 2 ^ 32 in
    let s' = record s { sessions = assign h (watching c a) s.sessions } in
    let known : session_watch h s ≡ some a.watching_channel_id = session_watch-found h a s found in
    let kept : find h s'.sessions ≡ some (watching c a) =
      ground (arith, find-assign h h (watching c a) s.sessions, contains-find h s.sessions) in
    (
      watch_stream-IsSafe h c key (watching c a) s' kept,
      λ k.
          watch_stream-session_watch h c key k s'
          ∙ session_watch-assign h k a (watching c a) s found
          ∙ (rw known refl),
      handle_watch_message-IsValid h a id key s found allowed v,
    )

handle_request-Refines :
    (h : ℕ) (a : ActiveSession) (key : Bytes) (m : Message) (s : JanusFtl)
    → find h s.sessions ≡ some a
    → ((c d : ℕ) → requested m ≡ some c → session_watch h s ≡ some (some d) → d ≡ c)
    → IsValid s
    → let r = handle_request h a key m s in Refines h (requested m) r.1 s r.2
unfolding handle_request requested handle_watch_message
handle_request-Refines h a key missing s found allowed v = unchanged-Refines h s v
handle_request-Refines h a key not_an_object s found allowed v = unchanged-Refines h s v
handle_request-Refines h a key (object none id) s found allowed v = unchanged-Refines h s v
handle_request-Refines h a key (object (some r) none) s found allowed v =
    elim (Bool-cases (same r (codes "watch"))) [
      | inl watch ↦ rw watch (unchanged-Refines h s v)
      | inr other ↦ elim (Bool-cases (same r (codes "start"))) [
        | inl starts ↦ rw (other, starts) (unchanged-Refines h s v)
        | inr unknown ↦ rw (other, unknown) (unchanged-Refines h s v)
      ]
    ]
handle_request-Refines h a key (object (some r) (some id)) s found allowed v =
    elim (Bool-cases (same r (codes "watch"))) [
      | inl watch ↦
          let own : (d : ℕ) → is_watching d (session_watch h s) ≡ true → d ≡ id % 2 ^ 32 =
            λ d watches.
              allowed (id % 2 ^ 32) d (rw watch refl)
                (watching-some d (session_watch h s) watches) in
          rw watch (handle_watch_message-Refines h a id key s found own v)
      | inr other ↦ elim (Bool-cases (same r (codes "start"))) [
        | inl starts ↦ rw (other, starts) (unchanged-Refines h s v)
        | inr unknown ↦ rw (other, unknown) (unchanged-Refines h s v)
      ]
    ]

asked_missing : (o : Option ℕ) → asked o none ≡ none
asked_missing none = refl
asked_missing (some c) = refl

pub handle_message-refines :
    (h : ℕ) (key : Bytes) (m : Message) (s : JanusFtl)
    → ((c d : ℕ) → requested m ≡ some c → session_watch h s ≡ some (some d) → d ≡ c)
    → IsValid s
    → let r = handle_message h key m s in
      IsSafe r.1
      × ((k : ℕ)
          → session_watch k r.2 ≡ replay s.node_kind (message h key m) (λ j. session_watch j s) k)
      × IsValid r.2
unfolding handle_message handle_if_found replay
handle_message-refines h key m s allowed v = elim (Bool-cases (is_ingest s.node_kind)) [
  | inl ingests ↦ rw ingests (tt, λ k. refl, v)
  | inr other ↦ elim (Option-cases (find h s.sessions)) [
    | inl absent ↦
        let free : session_watch h s ≡ none = session_watch-none h s absent in
        rw (other, absent) (tt, λ k. unasked h k s ∙ rw (free, asked_missing (requested m)) refl, v)
    | inr (a, found) ↦ rw (other, found) (handle_request-Refines h a key m s found allowed v)
  ]
]
