-- ===== src/Control/Frozen.antt =====
-- What the bytes of a client can and cannot change in a connection of
-- src/FtlControlConnection.cpp.
use janus_ftl_plugin.Prelude.{
  ℕ, ◌+◌, ◌-◌, ◌%◌, ◌^◌, ◌≡◌, ◌≢◌, ◌⊎◌, ◌↔◌, ◌∙◌, refl, sym, subst, inl, inr, Bool, true, false,
  not, ◌&&◌, ◌||◌, Option, some, none, List, [], ◌∷◌, ◌++◌, arith, ◌==◌, if◌then◌else◌, take, drop,
  length, reverse, sum, sum-append, All, All-append, Bool-cases, Option-cases,
}
use janus_ftl_plugin.Prelude.Text.{Text}
use janus_ftl_plugin.Rtp.Packet.{Bytes}
use janus_ftl_plugin.FtlTypes.{AudioCodecKind, VideoCodecKind, MediaMetadata}
use janus_ftl_plugin.Util.{hex_string_to_byte_array}
use janus_ftl_plugin.Control.{
  Library, Effect, write, request_hmac_key, request_media_port, FtlControlConnection, Result,
  request_stop, process_hmac_command, connect_channel, process_connect_command, process_attribute,
  process_attribute_command, process_dot_command, process_ping_command, process_command,
  scan_character, process_found, scan, on_transport_bytes_received, is_audio_codec, is_video_codec,
  response,
}

-- Metadata that a stream can start with.
abbrev HasAudio : MediaMetadata → Type 0
HasAudio m = (m.audio_payload_type ≢ 0) × (m.audio_ssrc ≢ 0) × (m.audio_codec ≡ AudioCodecKind.opus)

abbrev HasVideo : MediaMetadata → Type 0
HasVideo m = (m.video_payload_type ≢ 0) × (m.video_ssrc ≢ 0) × (m.video_codec ≡ VideoCodecKind.h264)

abbrev IsStartable : MediaMetadata → Type 0
IsStartable m =
    ((m.has_audio ≡ true) ⊎ (m.has_video ≡ true))
    × ((m.has_audio ≡ false) ⊎ HasAudio m)
    × ((m.has_video ≡ false) ⊎ HasVideo m)

-- A media port is asked for only by an authenticated client, with metadata that a stream can
-- start with.
abbrev pub IsAllowed : Bool → Effect → Type 0
IsAllowed authenticated (write text) = Unit {0}
IsAllowed authenticated (request_hmac_key channel) = Unit {0}
IsAllowed authenticated (request_media_port channel m) = (authenticated ≡ true) × IsStartable m

abbrev pub asks_key : Effect → ℕ
asks_key (write text) = 0
asks_key (request_hmac_key channel) = 1
asks_key (request_media_port channel m) = 0

abbrev pub one_if : Bool → ℕ
one_if b = if b then 1 else 0

-- From a connection to a later one, with what it did meanwhile: the client stays as authenticated
-- and as streaming as it was, each request for a key is one for good, and what a request for a
-- port needs holds.
pub record IsBound (c : FtlControlConnection) (r : Result) : Type 0 where
  pub authenticated : r.0.is_authenticated ≡ c.is_authenticated
  pub streaming : r.0.is_streaming ≡ c.is_streaming
  pub metadata :
      (r.0.media_metadata ≡ c.media_metadata)
      ⊎ ((c.is_authenticated ≡ true) × (c.is_streaming ≡ false))
  pub keys : sum asks_key r.1 + one_if c.hmac_requested ≡ one_if r.0.hmac_requested
  pub claim :
      (c.hmac_requested ≡ false)
      ⊎ ((r.0.channel_id ≡ c.channel_id) × (r.0.client_hmac_hash ≡ c.client_hmac_hash))
  pub allowed : All (IsAllowed c.is_authenticated) r.1

request_stop-IsBound : (c : FtlControlConnection) → IsBound c (request_stop c)
unfolding request_stop
request_stop-IsBound c = record {
  authenticated = refl;
  streaming = refl;
  metadata = inl refl;
  keys = omega arith;
  claim = inr (refl, refl);
  allowed = tt;
}

nothing-IsBound : (c : FtlControlConnection) → IsBound c (c, [])
nothing-IsBound c = record {
  authenticated = refl;
  streaming = refl;
  metadata = inl refl;
  keys = omega arith;
  claim = inr (refl, refl);
  allowed = tt;
}

hmac-IsBound : (l : Library) (c : FtlControlConnection) → IsBound c (process_hmac_command l c)
unfolding process_hmac_command
hmac-IsBound l c = record {
  authenticated = refl;
  streaming = refl;
  metadata = inl refl;
  keys = omega arith;
  claim = inr (refl, refl);
  allowed = (tt, tt);
}

ping-IsBound : (l : Library) (c : FtlControlConnection) → IsBound c (process_ping_command l c)
unfolding process_ping_command response
ping-IsBound l c = record {
  authenticated = refl;
  streaming = refl;
  metadata = inl refl;
  keys = omega arith;
  claim = inr (refl, refl);
  allowed = (tt, tt);
}

IsBound-eq : (c : FtlControlConnection) (r r' : Result) → r ≡ r' → IsBound c r' → IsBound c r
IsBound-eq c r r' e = subst (IsBound c) (sym e)

claim-IsBound :
    (id : ℕ) (hash : Text) (c : FtlControlConnection)
    → c.hmac_requested ≡ false
    → IsBound c (connect_channel (some id) hash c)
unfolding connect_channel
claim-IsBound id hash c first =
    IsBound-eq c (connect_channel (some id) hash c)
      (
        record c {
          channel_id = id % 2 ^ 32;
          client_hmac_hash = hex_string_to_byte_array hash;
          hmac_requested = true;
        },
        request_hmac_key (id % 2 ^ 32) ∷ [],
      )
      (rw first refl)
      (record {
        authenticated = refl;
        streaming = refl;
        metadata = inl refl;
        keys = rw first (omega arith);
        claim = inl first;
        allowed = (tt, tt);
      })

channel-IsBound :
    (n : Option ℕ) (hash : Text) (c : FtlControlConnection) → IsBound c (connect_channel n hash c)
unfolding connect_channel
channel-IsBound none hash c = request_stop-IsBound c
channel-IsBound (some id) hash c = elim (Bool-cases c.hmac_requested) [
  | inl before ↦
      IsBound-eq c (connect_channel (some id) hash c) (request_stop c) (rw before refl)
        (request_stop-IsBound c)
  | inr first ↦ claim-IsBound id hash c first
]

connect-IsBound :
    (l : Library) (command : Text) (c : FtlControlConnection)
    → IsBound c (process_connect_command l command c)
unfolding process_connect_command
connect-IsBound l command c = elim (Option-cases (l.connect_groups command)) [
  | inl e ↦ rw (e, process_connect_command) (request_stop-IsBound c)
  | inr ((channel, hash), e) ↦
      rw (e, process_connect_command) (channel-IsBound (l.stoul channel) hash c)
]

process_attribute-IsBound :
    (l : Library) (o : Option (Text × Text)) (c : FtlControlConnection)
    → c.is_authenticated ≡ true
    → c.is_streaming ≡ false
    → IsBound c (process_attribute l o c)
unfolding process_attribute
process_attribute-IsBound l none c authenticated off = nothing-IsBound c
process_attribute-IsBound l (some (key, value)) c authenticated off = record {
  authenticated = refl;
  streaming = refl;
  metadata = inr (authenticated, off);
  keys = omega arith;
  claim = inr (refl, refl);
  allowed = tt;
}

attribute-IsBound :
    (l : Library) (command : Text) (c : FtlControlConnection)
    → IsBound c (process_attribute_command l command c)
unfolding process_attribute_command
attribute-IsBound l command c =
    let r = process_attribute_command l command c in
    elim (Bool-cases c.is_authenticated) [
      | inr out ↦ IsBound-eq c r (request_stop c) (rw out refl) (request_stop-IsBound c)
      | inl authenticated ↦ elim (Bool-cases c.is_streaming) [
        | inl on ↦
            IsBound-eq c r (request_stop c) (rw (authenticated, on) refl) (request_stop-IsBound c)
        | inr off ↦
            IsBound-eq c r (process_attribute l (l.attribute_groups command) c)
              (rw (authenticated, off) refl)
              (process_attribute-IsBound l (l.attribute_groups command) c authenticated off)
      ]
    ]

-- The conditions of the dot command in one test.
can_start : MediaMetadata → Bool
can_start m =
    (m.has_audio || m.has_video)
    && (not m.has_audio
        || not (
            m.audio_payload_type == 0 || (m.audio_ssrc == 0 || not (is_audio_codec m.audio_codec))))
    && (not m.has_video
        || not (
            m.video_payload_type == 0 || (m.video_ssrc == 0 || not (is_video_codec m.video_codec))))

audio_codec-eq : (k : AudioCodecKind) → (is_audio_codec k ≡ true) ↔ (k ≡ AudioCodecKind.opus)
audio_codec-eq AudioCodecKind.opus = (λ h. refl, λ h. refl)
audio_codec-eq AudioCodecKind.unsupported = (λ h. ground arith, λ h. ground arith)

video_codec-eq : (k : VideoCodecKind) → (is_video_codec k ≡ true) ↔ (k ≡ VideoCodecKind.h264)
video_codec-eq VideoCodecKind.h264 = (λ h. refl, λ h. refl)
video_codec-eq VideoCodecKind.unsupported = (λ h. ground arith, λ h. ground arith)

can_start_iff : (m : MediaMetadata) → (can_start m ≡ true) ↔ IsStartable m
unfolding can_start
can_start_iff m =
    let a = audio_codec-eq m.audio_codec in
    let v = video_codec-eq m.video_codec in ground (arith, a.0, a.1, v.0, v.1)

process_dot_command-eq :
    (c : FtlControlConnection)
    → process_dot_command c ≡ (
        if c.is_authenticated && can_start c.media_metadata
        then (c, request_media_port c.channel_id c.media_metadata ∷ [])
        else request_stop c)
unfolding process_dot_command can_start
process_dot_command-eq c = ground arith

-- A dot starts a stream exactly for an authenticated client with metadata for it; otherwise the
-- connection is asked to stop.
process_dot_command_lem :
    (c : FtlControlConnection)
    → ((process_dot_command c ≡ (c, request_media_port c.channel_id c.media_metadata ∷ []))
        × (c.is_authenticated ≡ true)
        × IsStartable c.media_metadata)
      ⊎ ((process_dot_command c ≡ request_stop c)
          × ¬ ((c.is_authenticated ≡ true) × IsStartable c.media_metadata))
process_dot_command_lem c =
    let i = can_start_iff c.media_metadata in
    elim (Bool-cases (c.is_authenticated && can_start c.media_metadata)) [
      | inl able ↦ inl (process_dot_command-eq c ∙ rw able refl, ground arith, i.0 (ground arith))
      | inr unable ↦
          inr (process_dot_command-eq c ∙ rw unable refl, λ h. ground (arith, unable, h.0, i.1 h.1))
    ]

dot-IsBound : (c : FtlControlConnection) → IsBound c (process_dot_command c)
dot-IsBound c = elim (process_dot_command_lem c) [
  | inl (e, authenticated, startable) ↦
      IsBound-eq c (process_dot_command c)
        (c, request_media_port c.channel_id c.media_metadata ∷ []) e
        (record {
          authenticated = refl;
          streaming = refl;
          metadata = inl refl;
          keys = omega arith;
          claim = inr (refl, refl);
          allowed = ((authenticated, startable), tt);
        })
  | inr (e, _) ↦ IsBound-eq c (process_dot_command c) (request_stop c) e (request_stop-IsBound c)
]

IsBound-if :
    (c : FtlControlConnection) (b : Bool) (r r' : Result)
    → IsBound c r
    → IsBound c r'
    → IsBound c (if b then r else r')
IsBound-if c true r r' h h' = h
IsBound-if c false r r' h h' = h'

process_command-IsBound :
    (l : Library) (command : Text) (c : FtlControlConnection)
    → IsBound c (process_command l command c)
unfolding process_command
process_command-IsBound l command c = IsBound-if c _ _ _ (hmac-IsBound l c) (
    IsBound-if c _ _ _ (connect-IsBound l command c) (
      IsBound-if c _ _ _ (attribute-IsBound l command c) (
        IsBound-if c _ _ _ (dot-IsBound c)
          (IsBound-if c _ _ _ (ping-IsBound l c) (nothing-IsBound c)))))

IsBound-then :
    (c c' c'' : FtlControlConnection) (es es' : List Effect)
    → IsBound c (c', es)
    → IsBound c' (c'', es')
    → IsBound c (c'', es ++ es')
IsBound-then c c' c'' es es' h h' = record {
  authenticated = h'.authenticated ∙ h.authenticated;
  streaming = h'.streaming ∙ h.streaming;
  metadata = elim h.metadata [
    | inr free ↦ inr free
    | inl e ↦ elim h'.metadata [
      | inl e' ↦ inl (e' ∙ e)
      | inr (a, off) ↦ inr (sym h.authenticated ∙ a, sym h.streaming ∙ off)
    ]
  ];
  keys = omega (arith, sum-append asks_key es es', h.keys, h'.keys);
  claim = elim h.claim [
    | inl first ↦ inl first
    | inr (channel, hash) ↦ elim (Bool-cases c.hmac_requested) [
      | inr first ↦ inl first
      | inl before ↦ elim h'.claim [
        | inl first ↦ absurd (ground (arith, before, first, h.keys))
        | inr (channel', hash') ↦ inr (channel' ∙ channel, hash' ∙ hash)
      ]
    ]
  ];
  allowed =
      All-append (IsAllowed c.is_authenticated) es es' h.allowed
        (subst (λ (b : Bool). All (IsAllowed b) es') h.authenticated h'.allowed);
}

process_found-IsBound :
    (l : Library) (o : Option Text) (c : FtlControlConnection) → IsBound c (process_found l o c)
unfolding process_found
process_found-IsBound l none c = nothing-IsBound c
process_found-IsBound l (some command) c = process_command-IsBound l command c

scan-IsBound :
    (l : Library) (seen : Text) (n : ℕ) (rest : Text) (c : FtlControlConnection)
    → IsBound c (scan l seen n rest c)
unfolding scan
scan-IsBound l seen n [] c = record {
  authenticated = refl;
  streaming = refl;
  metadata = inl refl;
  keys = omega arith;
  claim = inr (refl, refl);
  allowed = tt;
}
scan-IsBound l seen n (x ∷ rest) c =
    let ((seen', n'), found) = scan_character seen n x in
    let r = process_found l found c in
    let r' = scan l seen' n' rest r.0 in
    IsBound-then c r.0 r'.0 r.1 r'.1 (process_found-IsBound l found c)
      (scan-IsBound l seen' n' rest r.0)

-- Whatever a client sends, in pieces of any size: it stays as authenticated and as streaming as
-- it was; the metadata changes only for an authenticated client that does not stream yet; a key is
-- asked for once for good, and after that the channel and the hash to match do not change; and a
-- media port is asked for only for an authenticated client with metadata that can start a stream.
pub on_transport_bytes_received-IsBound :
    (l : Library) (bytes : Bytes) (c : FtlControlConnection)
    → IsBound c (on_transport_bytes_received l bytes c)
unfolding on_transport_bytes_received
on_transport_bytes_received-IsBound l bytes c =
    let start = length c.command_buffer - 4 in
    scan-IsBound l (reverse (take start c.command_buffer)) 0 (drop start c.command_buffer ++ bytes)
      c
