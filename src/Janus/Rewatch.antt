-- ===== src/Janus/Rewatch.antt =====
-- src/JanusFtl.cpp: a session that asks for a second channel, and is then destroyed.
use janus_ftl_plugin.Prelude.{
  ℕ, ◌%◌, ◌^◌, ◌≡◌, ◌≢◌, refl, ◌∙◌, true, false, none, some, ◌==◌, arith,
}
use janus_ftl_plugin.Prelude.OrdMap.{find, assign, find-assign}
use janus_ftl_plugin.Prelude.OrdMap.Update.{contains-find, find-erase}
use janus_ftl_plugin.Rtp.Packet.{Bytes}
use janus_ftl_plugin.Janus.{ActiveSession, JanusFtl}
use janus_ftl_plugin.Janus.Plugin.{pending_of}
use janus_ftl_plugin.Janus.Viewers.{handle_watch_message, watch_stream, watching, destroy_session}
use janus_ftl_plugin.Janus.Attached.{attached, viewing, waiting}
use janus_ftl_plugin.Janus.Valid.{IsValid}
use janus_ftl_plugin.Janus.Watching.{
  watch_stream-attached, watch_stream-Keyed, watch_stream-sessions,
}
use janus_ftl_plugin.Janus.Leaving.{left-attached, left-sessions}
use janus_ftl_plugin.Janus.Destroy.{destroy_session-watching}

-- A session that views a channel's stream or waits for it, and then asks for another channel, stays
-- among the viewers or the waiting sessions of the first one after it is destroyed.
pub handle_watch_message-dangles :
    (h c id : ℕ) (a : ActiveSession) (key : Bytes) (s : JanusFtl)
    → find h s.sessions ≡ some a
    → attached h c s ≡ true
    → c ≢ id % 2 ^ 32
    → IsValid s
    → let s' = (handle_watch_message h a (some id) key s).2 in
      let s'' = (destroy_session h s').2 in (attached h c s'' ≡ true) × (find h s''.sessions ≡ none)
unfolding handle_watch_message attached viewing waiting pending_of
handle_watch_message-dangles h c id a key s found views other v =
    let d = id % 2 ^ 32 in
    let s1 = record s { sessions = assign h (watching d a) s.sessions } in
    let s' = (watch_stream h d key (find d s1.streams) s1).1 in
    let own : find h s1.sessions ≡ some (watching d a) =
      ground (arith, find-assign h h (watching d a) s.sessions, contains-find h s.sessions) in
    let now : find h s'.sessions ≡ some (watching d a) =
      rw (watch_stream-sessions h d key s1) own in
    let (ks, e) = destroy_session-watching h d (watching d a) s' now refl in
    let keyed' = watch_stream-Keyed h d key s1 v.keyed in
    let elsewhere : (c == d) ≡ false = ground arith in
    let still : attached h c s' ≡ true =
      watch_stream-attached h d key h c s1 ∙ rw elsewhere (ground arith) in
    rw e (
      ground (arith, left-attached h d h c s', still),
      rw (left-sessions h d s' keyed') (find-erase h h s'.sessions ∙ ground arith),
    )
