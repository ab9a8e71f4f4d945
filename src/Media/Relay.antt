-- ===== src/Media/Relay.antt =====
-- What a media connection of src/FtlMediaConnection.cpp writes and hands on for one packet.
use janus_ftl_plugin.Prelude.{
  ℕ, ◌≤◌, ◌<◌, ◌≡◌, ◌≢◌, ◌⊎◌, refl, true, false, inl, inr, some, none, List, [], ◌∷◌, ◌++◌, map, ap,
  arith, length, reverse, take, ◌∙◌, ◌==◌, if◌then◌else◌, All, Bool-cases,
}
use janus_ftl_plugin.Prelude.OrdMap.{find, keys}
use janus_ftl_plugin.Rtp.Packet.{Bytes, byte_at, get_rtp_header, get_rtp_sequence, nack_bytes}
use janus_ftl_plugin.Rtp.Tracker.{
  SequenceTracker, seq16, track, get_nack_list, mark_nack_sent, expire_nacks,
}
use janus_ftl_plugin.Rtp.Tracker.Nacks.{unasked, allowance, get_nack_list_lem}
use janus_ftl_plugin.Rtp.Tracker.Disjoint.{track-IsValid}
use janus_ftl_plugin.Media.{
  SsrcData, FtlMediaConnection, Effect, write, deliver, nack_all, nack_missing, ask_again,
  ftl_payload_type_ping, is_speed_test, process_packet, handle_media_packet, on_bytes_received,
}
use janus_ftl_plugin.Media.Valid.{IsValid, byte_at-lt, get_rtp_sequence-lt}

nack_all-writes :
    (now ssrc : ℕ) (ss : List ℕ) (t : SequenceTracker)
    → (nack_all now ssrc ss t).1 ≡ map (λ s. write (nack_bytes ssrc s 0)) ss
unfolding nack_all
nack_all-writes now ssrc [] t = refl
nack_all-writes now ssrc (s ∷ ss) t =
    ap (λ (l : List Effect). write (nack_bytes ssrc s 0) ∷ l)
      (nack_all-writes now ssrc ss (mark_nack_sent s now t))

-- The numbers that are asked for again with a packet: none with the feature off, and otherwise, of
-- the missing numbers without an outstanding NACK, the newest ones that the limit leaves room for,
-- in the order of the set. The timeouts come first.
abbrev pub asked : FtlMediaConnection → ℕ → SequenceTracker → List ℕ
asked c now t =
    let t' = expire_nacks now t in
    let newest = take (allowance t'.nacks) (unasked t'.nacks (reverse (keys t'.missing))) in
    if c.nack_lost_packets then reverse newest else []

ask_again-writes :
    (c : FtlMediaConnection) (now ssrc : ℕ) (t : SequenceTracker)
    → (ask_again c now ssrc t).1 ≡ map (λ s. write (nack_bytes ssrc s 0)) (asked c now t)
unfolding ask_again nack_missing
ask_again-writes c now ssrc t = elim (Bool-cases c.nack_lost_packets) [
  | inl on ↦ rw on (
      nack_all-writes now ssrc (reverse (get_nack_list now t).1) (get_nack_list now t).0
      ∙ ap (λ (ss : List ℕ). map (λ s. write (nack_bytes ssrc s 0)) (reverse ss))
          (get_nack_list_lem now t).1
      ∙ ap
          (λ (u : SequenceTracker).
            map (λ s. write (nack_bytes ssrc s 0))
              (reverse (take (allowance u.nacks) (unasked u.nacks (reverse (keys u.missing))))))
          (get_nack_list_lem now t).0)
  | inr off ↦ rw off
]

-- A packet, all of bytes below 256, of a stream that the connection knows, with a valid tracker and key
-- frames, that is not audio from before the first video packet: it is handed on once, unchanged, under an extended number
-- that ends in its 16-bit number. Before it go the NACKs, if they are turned on: after the timeouts,
-- for the newest missing numbers without an outstanding NACK, as many as the limit leaves room for,
-- in the ascending order in which the set of the missing numbers keeps them.
pub handle_media_packet_effects :
    (now : ℕ) (b : Bytes) (c : FtlMediaConnection) (d : SsrcData)
    → find (get_rtp_header b).ssrc c.ssrc_data ≡ some d
    → is_speed_test c (get_rtp_header b).ssrc ≡ false
    → IsValid d
    → All (λ x. x < 256) b
    → let ssrc = (get_rtp_header b).ssrc in
      let (t, ext) = track (get_rtp_sequence b) now d.tracker in
      ((handle_media_packet now b c).1
        ≡ map (λ s. write (nack_bytes ssrc s 0)) (asked c now t)
          ++ deliver (record { bytes = b; extended_sequence_num = ext }) ∷ [])
      × (seq16 ext ≡ get_rtp_sequence b)
unfolding handle_media_packet process_packet
handle_media_packet_effects now b c d e media v h =
    let ssrc = (get_rtp_header b).ssrc in
    let t = (track (get_rtp_sequence b) now d.tracker).0 in
    rw (e, handle_media_packet, media)
      (
        ap
            (λ (l : List Effect).
              l
              ++ deliver (record {
                bytes = b;
                extended_sequence_num = (track (get_rtp_sequence b) now d.tracker).1;
              })
                ∷ [])
            (ask_again-writes c now ssrc t),
        (track-IsValid (get_rtp_sequence b) now d.tracker v.tracked (get_rtp_sequence-lt b h)).2,
      )

-- Audio that comes before the first video packet, and packets of unknown streams, change nothing
-- and are not handed on.
handle_media_packet_ignored :
    (now : ℕ) (b : Bytes) (c : FtlMediaConnection)
    → (find (get_rtp_header b).ssrc c.ssrc_data ≡ none)
      ⊎ (is_speed_test c (get_rtp_header b).ssrc ≡ true)
    → handle_media_packet now b c ≡ (c, [])
unfolding handle_media_packet
handle_media_packet_ignored now b c h = grind arith

-- A packet of neither stream changes nothing. It is sent back as it is if its second byte, the
-- marker bit and the type together, is that of a ping; otherwise nothing is sent.
on_bytes_received_other :
    (now : ℕ) (b : Bytes) (c : FtlMediaConnection)
    → All (λ x. x < 256) b
    → 12 ≤ length b
    → (get_rtp_header b).ssrc ≢ c.media_metadata.audio_ssrc
    → (get_rtp_header b).ssrc ≢ c.media_metadata.video_ssrc
    → on_bytes_received now b c
      ≡ (c, if byte_at b 1 == ftl_payload_type_ping then write b ∷ [] else [])
unfolding on_bytes_received get_rtp_header
on_bytes_received_other now b c h big audio video = ground (arith, byte_at-lt b 1 h)
