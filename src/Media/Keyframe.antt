-- ===== src/Media/Keyframe.antt =====
-- The key frames that src/FtlMediaConnection.cpp records.
use janus_ftl_plugin.Prelude.{
  ℕ, ◌+◌, ◌≤◌, ◌≡◌, ◌⊎◌, refl, sym, true, inl, inr, List, [], ◌∷◌, arith, ltb, ◌==◌, All,
  Bool-cases,
}
use janus_ftl_plugin.Rtp.Packet.{byte_at, RtpPacket, header, get_rtp_payload}
use janus_ftl_plugin.FtlTypes.{MediaMetadata}
use janus_ftl_plugin.Media.Frames.{
  Frame, is_complete, insert_from_back, insert_packet_in_sequence_order,
}
use janus_ftl_plugin.Media.Frames.Order.{IsSorted, insert_packet-IsSorted}
use janus_ftl_plugin.Media.{
  SsrcData, is_keyframe_part, start_frame, add_to_pending, capture_h264_video_keyframe, captures,
  capture_video_keyframe,
}

-- A packet with part of a key frame, of the given time.
pub record IsPart (timestamp : ℕ) (p : RtpPacket) : Type 0 where
  pub time : (header p).timestamp ≡ timestamp
  pub part :
      is_keyframe_part
        (byte_at p.bytes (get_rtp_payload p.bytes).start)
        (byte_at p.bytes ((get_rtp_payload p.bytes).start + 1))
      ≡ true
  pub size : 2 ≤ (get_rtp_payload p.bytes).count

-- A frame in order, of parts of key frames that all have its time.
pub record IsFrame (f : Frame) : Type 0 where
  pub sorted : IsSorted f.packets
  pub parts : All (IsPart f.timestamp) f.packets

-- Both frames are such, and the current one is empty or complete.
pub record IsCaptured (d : SsrcData) : Type 0 where
  pub pending : IsFrame d.pending_keyframe
  pub current : IsFrame d.current_keyframe
  pub complete : (d.current_keyframe.packets ≡ []) ⊎ (is_complete d.current_keyframe ≡ true)

insert_from_back-All {κ} :
    (P : RtpPacket → Type κ) (p : RtpPacket) (ps : List RtpPacket)
    → P p
    → All P ps
    → All P (insert_from_back p ps)
unfolding insert_from_back
insert_from_back-All P p [] h a = (h, tt)
insert_from_back-All P p (q ∷ qs) h a =
    elim (Bool-cases (ltb q.extended_sequence_num p.extended_sequence_num)) [
      | inl later ↦ rw later (h, a)
      | inr earlier ↦ rw earlier (a.0, insert_from_back-All P p qs h a.1)
    ]

insert_packet-IsFrame :
    (p : RtpPacket) (f : Frame)
    → IsFrame f
    → IsPart f.timestamp p
    → IsFrame (insert_packet_in_sequence_order p f)
unfolding insert_packet_in_sequence_order
insert_packet-IsFrame p f v h = record {
  sorted = (insert_packet-IsSorted p f v.sorted).0;
  parts = insert_from_back-All (IsPart f.timestamp) p f.packets h v.parts;
}

start_frame-IsCaptured :
    (timestamp : ℕ) (d : SsrcData)
    → IsCaptured d
    → IsCaptured (start_frame timestamp d)
      × ((start_frame timestamp d).pending_keyframe.timestamp ≡ timestamp)
unfolding start_frame
start_frame-IsCaptured timestamp d v =
    elim (Bool-cases (timestamp == d.pending_keyframe.timestamp)) [
      | inl same ↦ rw same (v, ground arith)
      | inr other ↦ rw other (elim (Bool-cases (is_complete d.pending_keyframe)) [
        | inl whole ↦ rw whole (
          record {
            pending = record { sorted = tt; parts = tt };
            current = v.pending;
            complete = inr whole;
          },
          refl,
        )
        | inr broken ↦ rw broken (
          record {
            pending = record { sorted = tt; parts = tt };
            current = v.current;
            complete = v.complete;
          },
          refl,
        )
      ])
    ]

add_to_pending-IsCaptured :
    (p : RtpPacket) (d : SsrcData)
    → IsCaptured d
    → IsPart d.pending_keyframe.timestamp p
    → IsCaptured (add_to_pending p d)
unfolding add_to_pending
add_to_pending-IsCaptured p d v h = record {
  pending = insert_packet-IsFrame p d.pending_keyframe v.pending h;
  current = v.current;
  complete = v.complete;
}

module _ (p : RtpPacket) (d : SsrcData) (v : IsCaptured d) where
  capture_part :
      2 ≤ (get_rtp_payload p.bytes).count
      → is_keyframe_part
          (byte_at p.bytes (get_rtp_payload p.bytes).start)
          (byte_at p.bytes ((get_rtp_payload p.bytes).start + 1))
        ≡ true
      → IsCaptured (add_to_pending p (start_frame (header p).timestamp d))
  capture_part big part =
      let (v', same) = start_frame-IsCaptured (header p).timestamp d v in
      add_to_pending-IsCaptured p (start_frame (header p).timestamp d) v'
        (record { time = sym same; part = part; size = big })

  capture_h264-IsCaptured : IsCaptured (capture_h264_video_keyframe p d)
  unfolding capture_h264_video_keyframe
  capture_h264-IsCaptured = elim (Bool-cases (ltb (get_rtp_payload p.bytes).count 2)) [
    | inl small ↦ rw small v
    | inr big ↦
        let part =
          is_keyframe_part (byte_at p.bytes (get_rtp_payload p.bytes).start)
            (byte_at p.bytes ((get_rtp_payload p.bytes).start + 1)) in
        rw big
          (elim (Bool-cases part) [ inl e ↦ rw e (capture_part (ground arith) e) | inr e ↦ rw e v ])
  ]

  -- Capturing keeps both frames in order, made of parts of key frames of one time each, and the
  -- current frame complete (or empty, before there is one).
  pub capture_video_keyframe-IsCaptured :
      (m : MediaMetadata) → IsCaptured (capture_video_keyframe m p d)
  unfolding capture_video_keyframe
  capture_video_keyframe-IsCaptured m = elim (Bool-cases ((header p).ssrc == m.video_ssrc)) [
    | inl video ↦ rw video (elim (Bool-cases (captures m.video_codec)) [
      | inl known ↦ rw known capture_h264-IsCaptured
      | inr other ↦ rw other v
    ])
    | inr audio ↦ rw audio v
  ]
