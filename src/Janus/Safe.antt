-- ===== src/Janus/Safe.antt =====
-- src/JanusFtl.cpp, src/JanusStream.cpp: the sessions that the plugin calls are there.
use janus_ftl_plugin.Prelude.{
  ℕ, ◌≡◌, refl, sym, ◌∙◌, Bool, true, false, Option, none, some, List, [], ◌∷◌, map, arith,
  Option-cases, inl, inr, All, All-append,
}
use janus_ftl_plugin.Prelude.OrdMap.{OrdMap, OrdSet, contains, find}
use janus_ftl_plugin.Prelude.OrdMap.Update.{is_some, find-insert_or_assign}
use janus_ftl_plugin.Rtp.Packet.{Bytes}
use janus_ftl_plugin.FtlTypes.{MediaMetadata}
use janus_ftl_plugin.Janus.{
  ActiveSession, Relay, JanusStream, JanusSession, JanusFtl, Effect, use_after_free, relay_packet,
}
use janus_ftl_plugin.Janus.Streams.{
  send_rtp_packet_to, send_to_viewer, send_to_viewers, stop_clients, add_viewer_session,
}
use janus_ftl_plugin.Janus.Plugin.{publish_if_ingest, send_jsep, add_pending}
use janus_ftl_plugin.Janus.Attached.{attached}
use janus_ftl_plugin.Janus.Valid.{watch_state, session_watch, is_watching, IsValid}

abbrev pub is_fault : Effect → Bool
is_fault (use_after_free h) = true
is_fault e = false

-- No effect uses a session that has been destroyed.
abbrev pub IsSafe : List Effect → Type 0
IsSafe es = All (λ e. is_fault e ≡ false) es

-- Every session of a set is there.
abbrev pub Alive : OrdSet → OrdMap ActiveSession → Type 0
Alive hs sessions = (h : ℕ) → contains h hs ≡ true → is_some (find h sessions) ≡ true

watching-alive :
    (c : ℕ) (o : Option ActiveSession) → is_watching c (watch_state o) ≡ true → is_some o ≡ true
watching-alive c none e = e
watching-alive c (some a) e = refl

pub attached-alive :
    (h c : ℕ) (s : JanusFtl)
    → IsValid s
    → attached h c s ≡ true
    → is_some (find h s.sessions) ≡ true
unfolding session_watch
attached-alive h c s v e = watching-alive c (find h s.sessions) (sym (v.watched h c) ∙ e)

send_rtp_packet_to-IsSafe :
    (h : ℕ) (b : Bytes) (m : MediaMetadata) (j : JanusSession)
    → IsSafe (send_rtp_packet_to h b m j).0
unfolding send_rtp_packet_to
send_rtp_packet_to-IsSafe h b m j = elim (Option-cases j.playout_delay) [
  | inl off ↦ rw off (ground arith)
  | inr (delay, e) ↦ rw e (ground arith)
]

send_to_viewer-found :
    (h k : ℕ) (b : Bytes) (m : MediaMetadata) (a : ActiveSession) (sessions : OrdMap ActiveSession)
    → find h sessions ≡ some a
    → IsSafe (send_to_viewer h b m (some a) sessions).0
      × (watch_state (find k (send_to_viewer h b m (some a) sessions).1)
          ≡ watch_state (find k sessions))
unfolding send_to_viewer
send_to_viewer-found h k b m a sessions found = (
  send_rtp_packet_to-IsSafe h b m a.session,
  (let j = (send_rtp_packet_to h b m a.session).1 in
      ground (arith, find-insert_or_assign h k (record a { session = j }) sessions, found)),
)

is_some-watch_state :
    (o p : Option ActiveSession) → watch_state o ≡ watch_state p → is_some o ≡ is_some p
is_some-watch_state none none e = refl
is_some-watch_state none (some b) e = absurd (grind arith)
is_some-watch_state (some a) none e = absurd (grind arith)
is_some-watch_state (some a) (some b) e = refl

pub send_to_viewers-Alive :
    (hs : OrdSet) (k : ℕ) (b : Bytes) (m : MediaMetadata) (sessions : OrdMap ActiveSession)
    → Alive hs sessions
    → IsSafe (send_to_viewers hs b m sessions).0
      × (watch_state (find k (send_to_viewers hs b m sessions).1) ≡ watch_state (find k sessions))
unfolding send_to_viewers contains
send_to_viewers-Alive [] k b m sessions alive = (tt, refl)
send_to_viewers-Alive ((h, u) ∷ hs) k b m sessions alive = elim (Option-cases (find h sessions)) [
  | inl dead ↦ absurd (grind (arith, alive h))
  | inr (a, found) ↦
      let sessions' = (send_to_viewer h b m (some a) sessions).1 in
      let alive' : Alive hs sessions' = λ j there.
        is_some-watch_state (find j sessions') (find j sessions)
          ((send_to_viewer-found h j b m a sessions found).1)
        ∙ alive j (ground arith) in
      let (safe, kept) = send_to_viewers-Alive hs k b m sessions' alive' in
      let (safe', kept') = send_to_viewer-found h k b m a sessions found in
      rw found (
        All-append (λ e. is_fault e ≡ false) (send_to_viewer h b m (some a) sessions).0
            (send_to_viewers hs b m sessions').0 safe' safe,
        kept ∙ kept',
      )
]

pub relays-IsSafe : (b : Bytes) (rs : List Relay) → IsSafe (map (λ r. relay_packet r.client b) rs)
relays-IsSafe b [] = tt
relays-IsSafe b (r ∷ rs) = (refl, relays-IsSafe b rs)

pub stop_clients-IsSafe : (rs : List Relay) → IsSafe (stop_clients rs)
unfolding stop_clients
stop_clients-IsSafe [] = tt
stop_clients-IsSafe (r ∷ rs) = (refl, stop_clients-IsSafe rs)

pub publish_if_ingest-IsSafe :
    (p : Bool) (c stream : ℕ) (s : JanusFtl) → IsSafe (publish_if_ingest p c stream s)
unfolding publish_if_ingest
publish_if_ingest-IsSafe p c stream s = ground arith

pub add_pending-IsSafe :
    (hs : OrdSet) (sessions : OrdMap ActiveSession) (st : JanusStream)
    → Alive hs sessions
    → IsSafe (add_pending hs sessions st).0
unfolding add_pending send_jsep contains
add_pending-IsSafe [] sessions st alive = tt
add_pending-IsSafe ((h, u) ∷ hs) sessions st alive = elim (Option-cases (find h sessions)) [
  | inl dead ↦ absurd (grind (arith, alive h))
  | inr (a, found) ↦
      let rest =
        add_pending-IsSafe hs sessions (add_viewer_session h st)
          (λ j there. alive j (ground arith)) in
      rw found (refl, rest)
]
