-- ===== src/Janus/Subscribing.antt =====
-- src/JanusFtl.cpp on an Edge node: the first session that waits for a channel subscribes to it.
use janus_ftl_plugin.Prelude.{
  ℕ, ◌%◌, ◌^◌, ◌≡◌, ◌⊎◌, refl, true, none, some, [], ◌∷◌, arith, Option-cases, inl, inr,
}
use janus_ftl_plugin.Prelude.OrdMap.{find, assign}
use janus_ftl_plugin.Prelude.OrdMap.Update.{insert_or_assign, find-insert_or_assign}
use janus_ftl_plugin.Rtp.Packet.{Bytes}
use janus_ftl_plugin.Janus.{ActiveSession, JanusFtl, subscribe, push_event, pending}
use janus_ftl_plugin.Janus.Edge.{provision_stream_key, provision_if_none, get_hmac_key}
use janus_ftl_plugin.Janus.Plugin.{is_edge, pending_of}
use janus_ftl_plugin.Janus.Viewers.{
  handle_watch_message, watch_stream, watching, subscribe_if_first, ok_wait,
}

provision-get_hmac_key :
    (c : ℕ) (new_key : Bytes) (s : JanusFtl)
    → let (key, s') = provision_stream_key c new_key s in
      (get_hmac_key c s' ≡ some key)
      × ((get_hmac_key c s ≡ some key) ⊎ ((get_hmac_key c s ≡ none) × (key ≡ new_key)))
unfolding provision_stream_key provision_if_none get_hmac_key
provision-get_hmac_key c new_key s = elim (Option-cases (find c s.stream_keys)) [
  | inl new ↦
      let found : find c (insert_or_assign c new_key s.stream_keys) ≡ some new_key =
        ground (arith, find-insert_or_assign c c new_key s.stream_keys) in
      rw new (found, inr (refl, refl))
  | inr (key, e) ↦ rw e (e, inl refl)
]

-- On an Edge node a request to watch a channel without a stream, for which nobody waits, subscribes
-- to the channel with a key and tells the session to wait. The key is the one that the node has for
-- the channel from then on, with which it checks the relay; it is the one that it had, if any, and
-- otherwise a new one.
pub handle_watch_message-subscribe :
    (h id : ℕ) (a : ActiveSession) (new_key : Bytes) (s : JanusFtl)
    → is_edge s.node_kind ≡ true
    → find (id % 2 ^ 32) s.streams ≡ none
    → pending_of (id % 2 ^ 32) s ≡ []
    → let c = id % 2 ^ 32 in
      let (result, es, s') = handle_watch_message h a (some id) new_key s in
      (key : Bytes) × (result ≡ ok_wait)
      × (es ≡ subscribe c key ∷ push_event h pending ∷ [])
      × (get_hmac_key c s' ≡ some key)
      × ((get_hmac_key c s ≡ some key) ⊎ ((get_hmac_key c s ≡ none) × (key ≡ new_key)))
unfolding handle_watch_message watch_stream subscribe_if_first pending_of get_hmac_key
handle_watch_message-subscribe h id a new_key s edge_node absent nobody =
    let c = id % 2 ^ 32 in
    let s1 = record s { sessions = assign h (watching c a) s.sessions } in
    let (kept, from) = provision-get_hmac_key c new_key s1 in
    rw (absent, nobody, edge_node) ((provision_stream_key c new_key s1).0, refl, refl, kept, from)
