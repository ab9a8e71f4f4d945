-- ===== src/Decoder/Fragments.antt =====
-- src/VideoDecoders/H264VideoDecoder.cpp against the payload formats of RFC 6184: a NAL unit in a
-- packet of its own, or in fragments (FU-A).
use janus_ftl_plugin.Prelude.{
  ℕ, ◌+◌, ◌*◌, ◌/◌, ◌%◌, ◌<◌, ◌≡◌, ◌≢◌, refl, sym, ◌∙◌, List, [], ◌∷◌, ◌++◌, arith, ◌==◌, All, true,
  false,
}
use mathlib.Core.List.{append_assoc, append-nil}
use janus_ftl_plugin.Rtp.Packet.{Bytes}
use janus_ftl_plugin.Decoder.{append_payload, append_payloads}

-- A NAL unit as its header and its other bytes, at least one; or its header, and the pieces that
-- the other bytes are cut into.
pub data Nal : Type 0 where
  single : (header second : ℕ) (rest : Bytes) → Nal
  fragmented : (header : ℕ) (first : Bytes) (middle : List Bytes) (last : Bytes) → Nal

-- A single unit has not the type of a fragment, 28; a header is a byte.
abbrev IsNal : Nal → Type 0
IsNal (single header second rest) = header % 32 ≢ 28
IsNal (fragmented header first middle last) = header < 256

abbrev indicator : ℕ → ℕ
indicator header = header / 32 * 32 + 28

-- The fragments after the first.
abbrev pub later : ℕ → List Bytes → Bytes → List Bytes
later header [] last = (indicator header ∷ (64 + header % 32) ∷ last) ∷ []
later header (piece ∷ pieces) last =
    (indicator header ∷ (header % 32) ∷ piece) ∷ later header pieces last

-- The payloads of the packets.
abbrev payloads : Nal → List Bytes
payloads (single header second rest) = (header ∷ second ∷ rest) ∷ []
payloads (fragmented header first middle last) =
    (indicator header ∷ (128 + header % 32) ∷ first) ∷ later header middle last

abbrev pub joined : List Bytes → Bytes → Bytes
joined [] last = last
joined (piece ∷ pieces) last = piece ++ joined pieces last

-- The unit with the start code of a byte stream.
abbrev annex_b : Nal → Bytes
annex_b (single header second rest) = 0 ∷ 0 ∷ 1 ∷ header ∷ second ∷ rest
annex_b (fragmented header first middle last) = 0 ∷ 0 ∷ 1 ∷ header ∷ first ++ joined middle last

abbrev pub all_payloads : List Nal → List Bytes
all_payloads [] = []
all_payloads (n ∷ ns) = payloads n ++ all_payloads ns

abbrev pub byte_stream : List Nal → Bytes
byte_stream [] = []
byte_stream (n ∷ ns) = annex_b n ++ byte_stream ns

append_payloads-append :
    (ps qs : List Bytes) → append_payloads (ps ++ qs) ≡ append_payloads ps ++ append_payloads qs
unfolding append_payloads
append_payloads-append [] qs = refl
append_payloads-append (p ∷ ps) qs =
    rw (append_payloads-append ps qs)
      (sym (append_assoc (append_payload p) (append_payloads ps) (append_payloads qs)))

append_first :
    (header : ℕ) (piece : Bytes)
    → header < 256
    → append_payload (indicator header ∷ (128 + header % 32) ∷ piece) ≡ 0 ∷ 0 ∷ 1 ∷ header ∷ piece
unfolding append_payload
append_first header piece byte =
    let kind : (indicator header % 32 == 28) ≡ true = ground arith in
    let starts : ((128 + header % 32) / 128 % 2 == 0) ≡ false = ground arith in
    let whole : indicator header / 32 * 32 + (128 + header % 32) % 32 ≡ header = omega arith in
    rw (kind, starts, whole) refl

append_later :
    (header flag : ℕ) (piece : Bytes)
    → flag < 128
    → append_payload (indicator header ∷ flag ∷ piece) ≡ piece
unfolding append_payload
append_later header flag piece small =
    let kind : (indicator header % 32 == 28) ≡ true = ground arith in
    let goes_on : (flag / 128 % 2 == 0) ≡ true = ground arith in rw (kind, goes_on) refl

append_rest :
    (header : ℕ) (middle : List Bytes) (last : Bytes)
    → append_payloads (later header middle last) ≡ joined middle last
unfolding append_payloads
append_rest header [] last =
    rw (append_later header (64 + header % 32) last (omega arith)) (append-nil last)
append_rest header (piece ∷ pieces) last =
    rw (append_later header (header % 32) piece (omega arith), append_rest header pieces last) refl

append_nal : (n : Nal) → IsNal n → append_payloads (payloads n) ≡ annex_b n
unfolding append_payloads
append_nal (single header second rest) h =
    let other : (header % 32 == 28) ≡ false = ground arith in
    rw other (append-nil (0 ∷ 0 ∷ 1 ∷ header ∷ second ∷ rest))
append_nal (fragmented header first middle last) h =
    rw (append_first header first h, append_rest header middle last) refl

-- NAL units, each in a packet of its own or in fragments, become the byte stream of the units: each
-- with its start code and its header put together again, in order.
pub append_payloads-payloads :
    (ns : List Nal) → All IsNal ns → append_payloads (all_payloads ns) ≡ byte_stream ns
unfolding append_payloads
append_payloads-payloads [] h = refl
append_payloads-payloads (n ∷ ns) h =
    append_payloads-append (payloads n) (all_payloads ns)
    ∙ rw (append_nal n h.0, append_payloads-payloads ns h.1) refl
