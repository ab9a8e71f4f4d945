-- ===== src/Janus/Refined.antt =====
-- Any sequence of the calls of src/JanusFtl.cpp refines the map from sessions to channels of Calls.
use janus_ftl_plugin.Prelude.{
  ℕ, ◌≡◌, refl, sym, ◌∙◌, subst, ap, Option, none, List, [], ◌∷◌, arith, Option-cases, inl, inr,
}
use janus_ftl_plugin.Prelude.OrdMap.{contains, find}
use janus_ftl_plugin.Janus.{NodeKind, JanusFtl, new_janus_ftl}
use janus_ftl_plugin.Janus.Plugin.{
  end_stream, ftl_server_stream_started, ftl_server_stream_ended, pending_of, found_or_empty,
}
use janus_ftl_plugin.Janus.Viewers.{destroy_session, on_orchestrator_stream_relay}
use janus_ftl_plugin.Janus.Attached.{viewing, waiting, attached, is_viewer}
use janus_ftl_plugin.Janus.Valid.{
  session_watch, is_watching, IsValid, end_stream-IsValid, ftl_server_stream_started-IsValid,
}
use janus_ftl_plugin.Janus.Destroy.{
  destroy_session-IsValid, destroy_session-session_watch, destroy_session-none,
  destroy_session-idle, destroy_session-watching,
}
use janus_ftl_plugin.Janus.Kind.{run-kind}
use janus_ftl_plugin.Janus.Safe.{IsSafe}
use janus_ftl_plugin.Janus.Kept.{
  append-IsSafe, end_stream-IsSafe, end_stream-sessions, packet_received-kept,
  ftl_server_stream_started-kept, on_orchestrator_stream_relay-kept, setup_media-kept,
}
use janus_ftl_plugin.Janus.Asking.{
  create_session-session_watch, create_session-IsValid, handle_message-refines,
}
use janus_ftl_plugin.Janus.Calls.{
  Call, create, message, media, destroy, stream_started, stream_ended, packet, relay, run, run_all,
  Watches, replay, replay_all, IsAllowed, AreAllowed,
}

-- What the sessions watch, as the map that calls are replayed on.
abbrev pub watches : JanusFtl → Watches
watches s h = session_watch h s

same_sessions :
    (s s' : JanusFtl) → s'.sessions ≡ s.sessions → (k : ℕ) → session_watch k s' ≡ session_watch k s
unfolding session_watch
same_sessions s s' e k = rw e refl

destroy_session-IsSafe : (h : ℕ) (s : JanusFtl) → IsSafe (destroy_session h s).1
destroy_session-IsSafe h s = elim (Option-cases (find h s.sessions)) [
  | inl absent ↦ rw (destroy_session-none h s absent) tt
  | inr (a, found) ↦ elim (Option-cases a.watching_channel_id) [
    | inl idle ↦ rw (destroy_session-idle h a s found idle) tt
    | inr (c, watched) ↦
        let (ks, e) = destroy_session-watching h c a s found watched in rw e (ground arith)
  ]
]

run-refines :
    (k : Call) (s : JanusFtl)
    → IsAllowed k (watches s)
    → IsValid s
    → IsSafe (run k s).0
      × ((h : ℕ) → session_watch h (run k s).1 ≡ replay s.node_kind k (watches s) h)
      × IsValid (run k s).1
unfolding run replay IsAllowed ftl_server_stream_ended
run-refines (create now h) s allowed v =
    (tt, λ k. create_session-session_watch now h k s, create_session-IsValid now h s allowed v)
run-refines (message h key m) s allowed v = handle_message-refines h key m s allowed v
run-refines (media h) s allowed v = let (same, v') = setup_media-kept h s v in (tt, same, v')
run-refines (destroy h) s allowed v = (
  destroy_session-IsSafe h s,
  (λ k. destroy_session-session_watch h k s v),
  destroy_session-IsValid h s v,
)
run-refines (stream_started c m answer) s allowed v =
    let (safe, same) = ftl_server_stream_started-kept c m answer s v in
    (
      safe,
      same_sessions s (ftl_server_stream_started c m answer s).2 same,
      ftl_server_stream_started-IsValid c m answer s v,
    )
run-refines (stream_ended c stream) s allowed v = (
  end_stream-IsSafe c stream s,
  same_sessions s (end_stream c stream s).1 (end_stream-sessions c stream s),
  end_stream-IsValid c stream s v,
)
run-refines (packet c bytes) s allowed v = packet_received-kept c bytes s v
run-refines (relay p client) s allowed v =
    let (safe, same, v') = on_orchestrator_stream_relay-kept p client s v in
    (safe, same_sessions s (on_orchestrator_stream_relay p client s).2 same, v')

run_all-refines :
    (ks : List Call) (s : JanusFtl)
    → AreAllowed s.node_kind ks (watches s)
    → IsValid s
    → IsSafe (run_all ks s).0
      × (watches (run_all ks s).1 ≡ replay_all s.node_kind ks (watches s))
      × IsValid (run_all ks s).1
unfolding run_all replay_all AreAllowed
run_all-refines [] s allowed v = (tt, refl, v)
run_all-refines (k ∷ ks) s allowed v =
    let s' = (run k s).1 in
    let (safe, same, v') = run-refines k s allowed.0 v in
    let f = replay s.node_kind k (watches s) in
    let next : watches s' ≡ f = λ i h. same h i in
    let allowed' : AreAllowed s'.node_kind ks (watches s') =
      rw (run-kind k s) (subst (AreAllowed s.node_kind ks) (sym next) allowed.1) in
    let (safe', same', v'') = run_all-refines ks s' allowed' v' in
    (
      append-IsSafe (run k s).0 (run_all ks s').0 safe safe',
      same' ∙ rw (run-kind k s) (ap (replay_all s.node_kind ks) next),
      v'',
    )

new_janus_ftl-IsValid :
    (kind : NodeKind) (delay : Option (ℕ × ℕ)) → IsValid (new_janus_ftl kind delay)
unfolding new_janus_ftl attached viewing waiting pending_of found_or_empty session_watch is_viewer
    contains
new_janus_ftl-IsValid kind delay = record {
  watched = λ h c. refl;
  exclusive = λ c e. refl;
  keyed = λ c st e. absurd (grind arith);
}

abbrev pub nobody : Watches
nobody h = none

new_watches :
    (kind : NodeKind) (delay : Option (ℕ × ℕ)) → watches (new_janus_ftl kind delay) ≡ nobody
unfolding new_janus_ftl session_watch
new_watches kind delay = refl

-- Over any calls in any order, in which the core creates one session for a handle and no session
-- asks for a second channel, the sessions that view or wait for a channel are exactly those whose
-- last answered request was for it, as the replay of the calls says; and no call uses a session
-- that has been destroyed.
pub run_all-replay_all :
    (kind : NodeKind) (delay : Option (ℕ × ℕ)) (ks : List Call)
    → AreAllowed kind ks nobody
    → let r = run_all ks (new_janus_ftl kind delay) in
      ((h c : ℕ) → attached h c r.1 ≡ is_watching c (replay_all kind ks nobody h)) × IsSafe r.0
unfolding new_janus_ftl session_watch
run_all-replay_all kind delay ks allowed =
    let (safe, same, v) =
      run_all-refines ks (new_janus_ftl kind delay) allowed (new_janus_ftl-IsValid kind delay) in
    (λ h c. v.watched h c ∙ ap (λ f. is_watching c (f h)) same, safe)
