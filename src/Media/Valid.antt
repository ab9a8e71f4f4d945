-- ===== src/Media/Valid.antt =====
-- The invariant of a media connection (src/FtlMediaConnection.cpp), over any packets.
use mathlib.Core.List.{reverse-cons}
use native.Mathlib.Nat.{le_trans}
use janus_ftl_plugin.Prelude.{
  ℕ, zero, suc, ◌+◌, ◌^◌, ◌≤◌, ◌<◌, ◌≡◌, refl, ap, Bool, inl, inr, List, [], ◌∷◌, All-reverse,
  arith, length, length-append, reverse, All, Bool-cases, Option-cases,
}
use janus_ftl_plugin.Prelude.OrdMap.{find, Each, Each-find, Each-assign}
use janus_ftl_plugin.Rtp.Counter.{rtp_seq_mod}
use janus_ftl_plugin.Rtp.Packet.{
  Bytes, byte_at, get_rtp_header, get_rtp_sequence, RtpPacket, header,
}
use janus_ftl_plugin.Rtp.Tracker.{
  SequenceTracker, max_outstanding_nacks, track, get_nack_list, mark_nack_sent,
}
use janus_ftl_plugin.FtlTypes.{MediaMetadata}
use janus_ftl_plugin.Rtp.Tracker.Valid
use janus_ftl_plugin.Rtp.Tracker.Valid.{new_tracker-IsValid}
use janus_ftl_plugin.Rtp.Tracker.Disjoint.{track-IsValid, mark_nack_sent-IsValid}
use janus_ftl_plugin.Rtp.Tracker.Asked.{get_nack_list-IsValid}
use janus_ftl_plugin.Rtp.Tracker.Outstanding.{
  outstanding, outstanding-track, outstanding-get_nack_list, outstanding-mark_nack_sent,
}
use janus_ftl_plugin.Media.{
  SsrcData, FtlMediaConnection, nack_all, nack_missing, ask_again, is_speed_test, new_ssrc_data,
  new_connection, start_frame, update_media_packet_stats, capture_video_keyframe,
  capture_h264_video_keyframe, process_packet, handle_media_packet, on_bytes_received,
}
use janus_ftl_plugin.Media.Keyframe.{IsCaptured, capture_video_keyframe-IsCaptured}

nack_all-IsValid :
    (now ssrc : ℕ) (ss : List ℕ) (t : SequenceTracker)
    → Valid.IsValid t
    → All (λ s. s < 2 ^ 32) ss
    → Valid.IsValid (nack_all now ssrc ss t).0
      × (outstanding (nack_all now ssrc ss t).0 ≤ length ss + outstanding t)
unfolding nack_all
nack_all-IsValid now ssrc [] t v h = (v, omega arith)
nack_all-IsValid now ssrc (s ∷ ss) t v h =
    let (v', bound) =
      nack_all-IsValid now ssrc ss (mark_nack_sent s now t) (mark_nack_sent-IsValid s now t v h.0)
        h.1 in
    (v', omega (arith, bound, outstanding-mark_nack_sent s now t))

length-reverse : (ss : List ℕ) → length (reverse ss) ≡ length ss
length-reverse [] = refl
length-reverse (s ∷ ss) = omega (
  arith,
  ap (λ (l : List ℕ). length l) (reverse-cons s ss),
  length-append (reverse ss) (s ∷ []),
  length-reverse ss,
)

-- A round of NACKs keeps the number of outstanding ones within the limit.
nack_missing-IsValid :
    (now ssrc : ℕ) (t : SequenceTracker)
    → Valid.IsValid t
    → outstanding t ≤ max_outstanding_nacks
    → Valid.IsValid (nack_missing now ssrc t).0
      × (outstanding (nack_missing now ssrc t).0 ≤ max_outstanding_nacks)
unfolding nack_missing
nack_missing-IsValid now ssrc t v h =
    let list = (get_nack_list now t).1 in
    let (v', widths) = get_nack_list-IsValid now t v in
    let (v'', bound) =
      nack_all-IsValid now ssrc (reverse list) (get_nack_list now t).0 v'
        (All-reverse (λ s. s < 2 ^ 32) list widths) in
    (v'', omega (arith, bound, outstanding-get_nack_list now t h, length-reverse list))

-- The data of one stream: the tracker's invariant, the limit on NACKs, and the key frames.
pub record IsValid (d : SsrcData) : Type 0 where
  pub tracked : Valid.IsValid d.tracker
  pub limited : outstanding d.tracker ≤ max_outstanding_nacks
  pub captured : IsCaptured d

start_frame-tracker : (timestamp : ℕ) (d : SsrcData) → (start_frame timestamp d).tracker ≡ d.tracker
unfolding start_frame
start_frame-tracker timestamp d = ground arith

capture_h264-tracker :
    (p : RtpPacket) (d : SsrcData) → (capture_h264_video_keyframe p d).tracker ≡ d.tracker
unfolding capture_h264_video_keyframe
capture_h264-tracker p d = ground (arith, start_frame-tracker (header p).timestamp d)

capture-tracker :
    (m : MediaMetadata) (p : RtpPacket) (d : SsrcData)
    → (capture_video_keyframe m p d).tracker ≡ d.tracker
unfolding capture_video_keyframe
capture-tracker m p d = ground (arith, capture_h264-tracker p d)

ask_again-IsValid :
    (c : FtlMediaConnection) (now ssrc : ℕ) (t : SequenceTracker)
    → Valid.IsValid t
    → outstanding t ≤ max_outstanding_nacks
    → Valid.IsValid (ask_again c now ssrc t).0
      × (outstanding (ask_again c now ssrc t).0 ≤ max_outstanding_nacks)
unfolding ask_again
ask_again-IsValid c now ssrc t v h = elim (Bool-cases c.nack_lost_packets) [
  | inl on ↦ rw on (nack_missing-IsValid now ssrc t v h)
  | inr off ↦ rw off (v, h)
]

pub byte_at-lt : (b : Bytes) (i : ℕ) → All (λ x. x < 256) b → byte_at b i < 256
byte_at-lt [] i h = omega arith
byte_at-lt (x ∷ b) zero h = h.0
byte_at-lt (x ∷ b) (suc i) h = byte_at-lt b i h.1

pub get_rtp_sequence-lt : (b : Bytes) → All (λ x. x < 256) b → get_rtp_sequence b < rtp_seq_mod
unfolding get_rtp_sequence get_rtp_header
get_rtp_sequence-lt b h = omega (arith, byte_at-lt b 2 h, byte_at-lt b 3 h)

capture-IsValid :
    (m : MediaMetadata) (avg now : ℕ) (p : RtpPacket) (d : SsrcData) (t : SequenceTracker)
    → Valid.IsValid t
    → outstanding t ≤ max_outstanding_nacks
    → IsCaptured d
    → IsValid (
        capture_video_keyframe m p (update_media_packet_stats avg now p (record d { tracker = t })))
unfolding update_media_packet_stats
capture-IsValid m avg now p d t v h k =
    let counted = update_media_packet_stats avg now p (record d { tracker = t }) in
    record {
      tracked = rw (capture-tracker m p counted) v;
      limited = rw (capture-tracker m p counted) h;
      captured =
          capture_video_keyframe-IsCaptured p counted
            (record { pending = k.pending; current = k.current; complete = k.complete }) m;
    }

-- Whatever a packet holds, its stream's data stays valid.
process_packet-IsValid :
    (c : FtlMediaConnection) (now ssrc : ℕ) (b : Bytes) (d : SsrcData)
    → IsValid d
    → All (λ x. x < 256) b
    → IsValid (process_packet c now ssrc b d).0
unfolding process_packet
process_packet-IsValid c now ssrc b d v h =
    let seq = get_rtp_sequence b in
    let t = (track seq now d.tracker).0 in
    let (tracked, _, _) = track-IsValid seq now d.tracker v.tracked (get_rtp_sequence-lt b h) in
    let bound : outstanding t ≤ max_outstanding_nacks =
      le_trans (outstanding-track seq now d.tracker) v.limited in
    let (asked, limited) = ask_again-IsValid c now ssrc t tracked bound in
    capture-IsValid c.media_metadata c.rolling_size_avg_ms now
      (record { bytes = b; extended_sequence_num = (track seq now d.tracker).1 }) d
      (ask_again c now ssrc t).0 asked limited v.captured

handle_media_packet-Each :
    (now : ℕ) (b : Bytes) (c : FtlMediaConnection)
    → Each IsValid c.ssrc_data
    → All (λ x. x < 256) b
    → Each IsValid (handle_media_packet now b c).0.ssrc_data
unfolding handle_media_packet
handle_media_packet-Each now b c v h =
    let ssrc = (get_rtp_header b).ssrc in
    elim (Option-cases (find ssrc c.ssrc_data)) [
      | inl e ↦ rw (e, handle_media_packet) v
      | inr (d, e) ↦
          rw (e, handle_media_packet)
            (elim (Bool-cases (is_speed_test c ssrc)) [
              | inl test ↦ rw test v
              | inr media ↦ rw media (
                  Each-assign IsValid ssrc (process_packet c now ssrc b d).0 c.ssrc_data v (
                    process_packet-IsValid c now ssrc b d (Each-find IsValid ssrc d c.ssrc_data v e)
                      h))
            ])
    ]

on_bytes_received-Each :
    (now : ℕ) (b : Bytes) (c : FtlMediaConnection)
    → Each IsValid c.ssrc_data
    → All (λ x. x < 256) b
    → Each IsValid (on_bytes_received now b c).0.ssrc_data
unfolding on_bytes_received
on_bytes_received-Each now b c v h = grind (arith, handle_media_packet-Each now b c v h)

-- A sequence of packets, each with the time at which it is read.
pub receive_all : List (ℕ × Bytes) → FtlMediaConnection → FtlMediaConnection
receive_all [] c = c
receive_all ((now, b) ∷ bs) c = receive_all bs (on_bytes_received now b c).0

pub new_ssrc_data-IsValid : IsValid new_ssrc_data
new_ssrc_data-IsValid = record {
  tracked = new_tracker-IsValid;
  limited = omega arith;
  captured = record {
    pending = record { sorted = tt; parts = tt };
    current = record { sorted = tt; parts = tt };
    complete = inl refl;
  };
}

new_connection-Each :
    (m : MediaMetadata) (avg : ℕ) (nack : Bool) → Each IsValid (new_connection m avg nack).ssrc_data
unfolding new_connection
new_connection-Each m avg nack = grind (arith, new_ssrc_data-IsValid)

receive_all-Each :
    (bs : List (ℕ × Bytes)) (c : FtlMediaConnection)
    → Each IsValid c.ssrc_data
    → All (λ p. All (λ x. x < 256) p.1) bs
    → Each IsValid (receive_all bs c).ssrc_data
unfolding receive_all
receive_all-Each [] c v h = v
receive_all-Each ((now, b) ∷ bs) c v h =
    receive_all-Each bs (on_bytes_received now b c).0 (on_bytes_received-Each now b c v h.0) h.1

-- After any packets, of whatever bytes and at whatever times, each stream of a new connection
-- has a tracker that takes no number for both received and missing, at most
-- `max_outstanding_nacks` outstanding NACKs, and a current key frame that is empty or complete.
pub receive_all-IsValid :
    (m : MediaMetadata) (avg : ℕ) (nack : Bool) (bs : List (ℕ × Bytes))
    → All (λ p. All (λ x. x < 256) p.1) bs
    → Each IsValid (receive_all bs (new_connection m avg nack)).ssrc_data
receive_all-IsValid m avg nack bs h =
    receive_all-Each bs (new_connection m avg nack) (new_connection-Each m avg nack) h
