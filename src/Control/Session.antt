-- ===== src/Control/Session.antt =====
-- A whole session of src/FtlControlConnection.cpp: the bytes of the client and the calls of the
-- server, in any order.
use janus_ftl_plugin.Prelude.{
  ℕ, ◌+◌, ◌≤◌, ◌≡◌, ◌⊎◌, ◌∙◌, refl, sym, subst, ap, inl, inr, Bool, true, false, List, [], ◌∷◌,
  ◌++◌, arith, sum, sum-append, All, All-append, All-map, Bool-cases,
}
use janus_ftl_plugin.Prelude.Text.{same, same-eq, same_refl}
use janus_ftl_plugin.Rtp.Packet.{Bytes}
use janus_ftl_plugin.Control.{
  Library, Effect, write, request_hmac_key, request_media_port, FtlControlConnection,
  new_control_connection, Result, request_stop, response, provide_hmac_key, start_media_port,
  terminate_with_response, on_transport_bytes_received,
}
use janus_ftl_plugin.Control.Frozen.{
  IsAllowed, asks_key, one_if, IsBound, on_transport_bytes_received-IsBound,
}

pub data Call : Type 0 where
  receive : Bytes → Call
  provide : (key : Bytes) → Call
  start : (port : ℕ) → Call
  terminate : (code : ℕ) → Call

unfoldable pub run : Library → Call → FtlControlConnection → Result
unfolding on_transport_bytes_received provide_hmac_key start_media_port terminate_with_response
run l (receive bytes) c = on_transport_bytes_received l bytes c
run l (provide key) c = provide_hmac_key l key c
run l (start port) c = start_media_port l port c
run l (terminate code) c = terminate_with_response l code c

unfoldable pub run_all : Library → List Call → FtlControlConnection → Result
unfolding run
run_all l [] c = (c, [])
run_all l (k ∷ ks) c =
    let (c', es) = run l k c in let (c'', es') = run_all l ks c' in (c'', es ++ es')

-- The key that authenticates the client of a connection.
abbrev pub IsKey : Library → Bytes → FtlControlConnection → Type 0
IsKey l key c = (c.hmac_requested ≡ true) × (l.hmac key c.hmac_payload ≡ c.client_hmac_hash)

-- Every branch of `ProvideHmacKey`: a client that is authenticated stays so, and nothing is
-- written; one that is not and whose hash matches is authenticated and told so; otherwise nothing
-- is written, and the client is not authenticated.
provide_hmac_key_lem :
    (l : Library) (key : Bytes) (c : FtlControlConnection)
    → ((c.is_authenticated ≡ true) × (provide_hmac_key l key c ≡ (c, [])))
      ⊎ ((c.is_authenticated ≡ false)
          × IsKey l key c
          × (provide_hmac_key l key c
              ≡ (record c { is_authenticated = true }, response l 200 ∷ [])))
      ⊎ ((c.is_authenticated ≡ false)
          × (¬ IsKey l key c)
          × ((provide_hmac_key l key c).0.is_authenticated ≡ false)
          × ((provide_hmac_key l key c).0.media_metadata ≡ c.media_metadata)
          × ((provide_hmac_key l key c).0.is_streaming ≡ c.is_streaming)
          × ((provide_hmac_key l key c).0.hmac_requested ≡ c.hmac_requested)
          × ((provide_hmac_key l key c).1 ≡ []))
unfolding provide_hmac_key request_stop
provide_hmac_key_lem l key c =
    let h = l.hmac key c.hmac_payload in
    let same_if : h ≡ c.client_hmac_hash → same h c.client_hmac_hash ≡ true =
      λ e. subst (λ (x : Bytes). same h x ≡ true) e (same_refl h) in
    ground (arith, same-eq h c.client_hmac_hash, same_if)

-- What holds from one state of a connection to a later one, with the effects in between.
record IsLater (c : FtlControlConnection) (r : Result) : Type 0 where
  authenticated : (c.is_authenticated ≡ false) ⊎ (r.0.is_authenticated ≡ true)
  streaming :
      (c.is_streaming ≡ false)
      ⊎ ((r.0.is_streaming ≡ true) × (r.0.media_metadata ≡ c.media_metadata))
  keys : sum asks_key r.1 + one_if c.hmac_requested ≡ one_if r.0.hmac_requested
  allowed : All (IsAllowed r.0.is_authenticated) r.1

IsAllowed-mono :
    (a b : Bool) (e : Effect) → (a ≡ false) ⊎ (b ≡ true) → IsAllowed a e → IsAllowed b e
IsAllowed-mono a b (write text) m h = tt
IsAllowed-mono a b (request_hmac_key channel) m h = tt
IsAllowed-mono a b (request_media_port channel metadata) m h = (ground (arith, m, h.0), h.1)

IsBound-IsLater : (c : FtlControlConnection) (r : Result) → IsBound c r → IsLater c r
IsBound-IsLater c r h = record {
  authenticated = ground (arith, h.authenticated);
  streaming = elim h.metadata [
    | inl e ↦ elim (Bool-cases c.is_streaming) [
      | inl on ↦ inr (h.streaming ∙ on, e)
      | inr off ↦ inl off
    ]
    | inr (a, off) ↦ inl off
  ];
  keys = h.keys;
  allowed =
      All-map (IsAllowed c.is_authenticated) (IsAllowed r.0.is_authenticated) r.1
        (λ e.
          IsAllowed-mono c.is_authenticated r.0.is_authenticated e
            (ground (arith, h.authenticated)))
        h.allowed;
}

IsLater-eq : (c : FtlControlConnection) (r r' : Result) → r ≡ r' → IsLater c r' → IsLater c r
IsLater-eq c r r' e = subst (IsLater c) (sym e)

provide-IsLater :
    (l : Library) (key : Bytes) (c : FtlControlConnection) → IsLater c (provide_hmac_key l key c)
unfolding response
provide-IsLater l key c = elim (provide_hmac_key_lem l key c) [
  | inl (on, e) ↦
      IsLater-eq c (provide_hmac_key l key c) (c, []) e
        (record {
          authenticated = inr on;
          streaming = ground arith;
          keys = omega arith;
          allowed = tt;
        })
  | inr (inl (off, matches, e)) ↦
      IsLater-eq c (provide_hmac_key l key c)
        (record c { is_authenticated = true }, response l 200 ∷ []) e
        (record {
          authenticated = inl off;
          streaming = ground arith;
          keys = omega arith;
          allowed = (tt, tt);
        })
  | inr (inr (off, _, after, metadata, streaming, requested, silent)) ↦ record {
    authenticated = inl off;
    streaming = ground (arith, metadata, streaming);
    keys = rw (silent, requested) (omega arith);
    allowed = rw silent tt;
  }
]

run-IsLater : (l : Library) (k : Call) (c : FtlControlConnection) → IsLater c (run l k c)
unfolding run start_media_port terminate_with_response
run-IsLater l (receive bytes) c =
    IsBound-IsLater c (on_transport_bytes_received l bytes c)
      (on_transport_bytes_received-IsBound l bytes c)
run-IsLater l (provide key) c = provide-IsLater l key c
run-IsLater l (start port) c = record {
  authenticated = ground arith;
  streaming = inr (refl, refl);
  keys = omega arith;
  allowed = (tt, tt);
}
run-IsLater l (terminate code) c = record {
  authenticated = ground arith;
  streaming = ground arith;
  keys = omega arith;
  allowed = (tt, tt);
}

run_all-IsLater :
    (l : Library) (ks : List Call) (c : FtlControlConnection) → IsLater c (run_all l ks c)
unfolding run_all
run_all-IsLater l [] c = record {
  authenticated = ground arith;
  streaming = ground arith;
  keys = omega arith;
  allowed = tt;
}
run_all-IsLater l (k ∷ ks) c =
    let r = run l k c in
    let r' = run_all l ks r.0 in
    let h = run-IsLater l k c in
    let h' = run_all-IsLater l ks r.0 in
    record {
      authenticated = ground (arith, h.authenticated, h'.authenticated);
      streaming = elim h.streaming [
        | inl off ↦ inl off
        | inr (on, e) ↦ elim h'.streaming [
          | inl off ↦ absurd (ground (arith, on, off))
          | inr (on', e') ↦ inr (on', e' ∙ e)
        ]
      ];
      keys = omega (arith, sum-append asks_key r.1 r'.1, h.keys, h'.keys);
      allowed =
          All-append (IsAllowed r'.0.is_authenticated) r.1 r'.1
            (All-map (IsAllowed r.0.is_authenticated) (IsAllowed r'.0.is_authenticated) r.1
              (λ e. IsAllowed-mono r.0.is_authenticated r'.0.is_authenticated e h'.authenticated)
              h.allowed)
            h'.allowed;
    }

-- In a session from the start, the key of a channel is asked for at most once.
run_all-asks_key :
    (l : Library) (ks : List Call) → sum asks_key (run_all l ks new_control_connection).1 ≤ 1
run_all-asks_key l ks =
    let h = (run_all-IsLater l ks new_control_connection).keys in ground (arith, h)

-- In a session, a media port is asked for only with metadata that a stream can start with, and
-- never if the client is not authenticated by the end.
run_all-IsAllowed :
    (l : Library) (ks : List Call) (c : FtlControlConnection)
    → All (IsAllowed (run_all l ks c).0.is_authenticated) (run_all l ks c).1
run_all-IsAllowed l ks c = (run_all-IsLater l ks c).allowed

-- Once the stream has started, nothing in a session changes its metadata.
run_all-metadata :
    (l : Library) (ks : List Call) (c : FtlControlConnection)
    → c.is_streaming ≡ true
    → (run_all l ks c).0.media_metadata ≡ c.media_metadata
run_all-metadata l ks c on = elim (run_all-IsLater l ks c).streaming [
  | inl off ↦ absurd (ground (arith, on, off))
  | inr (_, e) ↦ e
]

run-authenticates :
    (l : Library) (k : Call) (c : FtlControlConnection)
    → c.is_authenticated ≡ false
    → (run l k c).0.is_authenticated ≡ true
    → (key : Bytes) × (k ≡ provide key) × IsKey l key c
unfolding run start_media_port terminate_with_response
run-authenticates l (receive bytes) c off on =
    absurd (ground (arith, off, on, (on_transport_bytes_received-IsBound l bytes c).authenticated))
run-authenticates l (start port) c off on = absurd (ground (arith, off, on))
run-authenticates l (terminate code) c off on = absurd (ground (arith, off, on))
run-authenticates l (provide key) c off on = elim (provide_hmac_key_lem l key c) [
  | inl (before, _) ↦ absurd (ground (arith, off, before))
  | inr (inl (_, matches, _)) ↦ (key, refl, matches)
  | inr (inr (_, _, after, _, _, _, _)) ↦ absurd (ground (arith, on, after))
]

-- A client that is authenticated at the end of a session, and was not at its start, has been so by
-- a key which the server provided after the client had asked for its channel, and under which the
-- payload sent to the client has the hash that the client sent.
pub run_all-authenticated :
    (l : Library) (ks : List Call) (c : FtlControlConnection)
    → c.is_authenticated ≡ false
    → (run_all l ks c).0.is_authenticated ≡ true
    → (before : List Call) × (key : Bytes) × (after : List Call) × (ks
        ≡ before ++ provide key ∷ after)
      × IsKey l key (run_all l before c).0
unfolding run_all
run_all-authenticated l [] c off on = absurd (ground (arith, off, on))
run_all-authenticated l (k ∷ ks) c off on = elim (Bool-cases (run l k c).0.is_authenticated) [
  | inl now ↦
      let (key, e, matches) = run-authenticates l k c off now in
      ([], key, ks, ap (λ (x : Call). x ∷ ks) e, matches)
  | inr later ↦
      let (before, key, after, e, matches) = run_all-authenticated l ks (run l k c).0 later on in
      (k ∷ before, key, after, ap (λ (xs : List Call). k ∷ xs) e, matches)
]
