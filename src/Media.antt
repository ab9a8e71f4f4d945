-- ===== src/Media.antt =====
-- src/FtlMediaConnection.{h,cpp}: what happens to each packet of a media stream. The clock is
-- read once for a packet (`now`, in nanoseconds); what the connection writes and hands on comes
-- back as a list of effects, in order. The locks are left out.
pub mod Frames
pub mod Keyframe
pub mod Valid
pub mod Rolling
pub mod Relay
pub mod Stats
pub mod Thread
pub mod Heard
mod Tests
use janus_ftl_plugin.Prelude.{
  ℕ, ◌+◌, ◌-◌, ◌*◌, ◌/◌, ◌%◌, ◌^◌, Bool, true, false, ◌&&◌, ◌||◌, Option, none, some, List, [], ◌∷◌,
  ◌++◌, reverse, bit_and, ltb, leb, ◌==◌, if◌then◌else◌, length,
}
use janus_ftl_plugin.Prelude.OrdMap.{OrdMap, find, emplace, assign}
use janus_ftl_plugin.Rtp.Packet.{
  Bytes, byte_at, get_rtp_header, get_rtp_sequence, get_rtp_payload, RtpPacket, header, nack_bytes,
}
use janus_ftl_plugin.Rtp.Tracker.{
  SequenceTracker, new_tracker, track, get_nack_list, mark_nack_sent,
}
use janus_ftl_plugin.FtlTypes.{MediaMetadata, VideoCodecKind}
use Frames.{Frame, new_frame, is_complete, insert_packet_in_sequence_order}

pub record SsrcData : Type 0 where
  pub packets_received : ℕ
  pub rolling_bytes_received_by_time : OrdMap ℕ
  pub current_keyframe : Frame
  pub pending_keyframe : Frame
  pub tracker : SequenceTracker

abbrev pub new_ssrc_data : SsrcData
new_ssrc_data = record {
  packets_received = 0;
  rolling_bytes_received_by_time = [];
  current_keyframe = new_frame 0;
  pending_keyframe = new_frame 0;
  tracker = new_tracker;
}

pub record FtlMediaConnection : Type 0 where
  pub media_metadata : MediaMetadata
  pub rolling_size_avg_ms : ℕ
  pub nack_lost_packets : Bool
  pub ssrc_data : OrdMap SsrcData

-- The constructor prepares a store for each stream of the control handshake.
unfoldable pub new_connection : MediaMetadata → ℕ → Bool → FtlMediaConnection
unfolding emplace
new_connection m avg nack = record {
  media_metadata = m;
  rolling_size_avg_ms = avg;
  nack_lost_packets = nack;
  ssrc_data = emplace m.video_ssrc new_ssrc_data (emplace m.audio_ssrc new_ssrc_data []);
}

-- `transport->Write`, and the call of `onRtpPacket`.
pub data Effect : Type 0 where
  write : Bytes → Effect
  deliver : RtpPacket → Effect

abbrev ftl_payload_type_sender_report : ℕ
ftl_payload_type_sender_report = 200

abbrev pub ftl_payload_type_ping : ℕ
ftl_payload_type_ping = 250

-- The bytes of a time are a `uint16_t`.
unfoldable add_bytes : ℕ → ℕ → OrdMap ℕ → OrdMap ℕ
add_bytes now size m = elim (find now m) [
  | none ↦ emplace now (size % 2 ^ 16) m
  | some v ↦ assign now ((v + size) % 2 ^ 16) m
]

-- `msDelta` is a `uint32_t`.
abbrev pub is_too_old : ℕ → ℕ → ℕ → Bool
is_too_old avg now time = ltb avg ((now - time) / 1_000_000 % 2 ^ 32)

pub trim : ℕ → ℕ → OrdMap ℕ → OrdMap ℕ
trim avg now [] = []
trim avg now ((time, bytes) ∷ m) =
    let rest = trim avg now m in if is_too_old avg now time then rest else (time, bytes) ∷ m

pub update_media_packet_stats : ℕ → ℕ → RtpPacket → SsrcData → SsrcData
unfolding add_bytes trim
update_media_packet_stats avg now p data' = record data' {
  packets_received = (data'.packets_received + 1) % 2 ^ 32;
  rolling_bytes_received_by_time =
      trim avg now (add_bytes now (length p.bytes) data'.rolling_bytes_received_by_time);
}

-- From the first two bytes of the payload: a parameter set, an IDR, or a fragment of one.
pub is_keyframe_part : ℕ → ℕ → Bool
is_keyframe_part b0 b1 =
    let nal_type = bit_and b0 31 in
    let fragment_type = bit_and b1 31 in
    if nal_type == 7 || nal_type == 8
    then true
    else if nal_type == 5
    then true
    else if nal_type == 28 || nal_type == 29
    then fragment_type == 7 || fragment_type == 5
    else false

-- A packet of a new time stamp starts a new pending frame; a complete one becomes the current.
pub start_frame : ℕ → SsrcData → SsrcData
start_frame timestamp data' =
    if timestamp == data'.pending_keyframe.timestamp then data' else record data' {
      current_keyframe =
          if is_complete data'.pending_keyframe
          then data'.pending_keyframe
          else data'.current_keyframe;
      pending_keyframe = new_frame timestamp;
    }

pub add_to_pending : RtpPacket → SsrcData → SsrcData
add_to_pending p data' = record data' {
  pending_keyframe = insert_packet_in_sequence_order p data'.pending_keyframe;
}

pub capture_h264_video_keyframe : RtpPacket → SsrcData → SsrcData
unfolding is_keyframe_part start_frame add_to_pending
capture_h264_video_keyframe p data' =
    let payload = get_rtp_payload p.bytes in
    if ltb payload.count 2
    then data'
    else if is_keyframe_part (byte_at p.bytes payload.start) (byte_at p.bytes (payload.start + 1))
    then add_to_pending p (start_frame (header p).timestamp data')
    else data'

abbrev pub captures : VideoCodecKind → Bool
captures VideoCodecKind.h264 = true
captures VideoCodecKind.unsupported = false

pub capture_video_keyframe : MediaMetadata → RtpPacket → SsrcData → SsrcData
capture_video_keyframe m p data' =
    if (header p).ssrc == m.video_ssrc
    then if captures m.video_codec then capture_h264_video_keyframe p data' else data'
    else data'

-- `sendNack` and `MarkNackSent` for each number, in the order given.
pub nack_all : ℕ → ℕ → List ℕ → SequenceTracker → SequenceTracker × List Effect
nack_all now ssrc [] t = (t, [])
nack_all now ssrc (s ∷ ss) t =
    let (t', effects) = nack_all now ssrc ss (mark_nack_sent s now t) in
    (t', write (nack_bytes ssrc s 0) ∷ effects)

-- The loop runs over the list from its end: the oldest missing number first.
pub nack_missing : ℕ → ℕ → SequenceTracker → SequenceTracker × List Effect
unfolding nack_all
nack_missing now ssrc t =
    let (t', missing) = get_nack_list now t in nack_all now ssrc (reverse missing) t'

-- The NACKs are behind a feature toggle.
pub ask_again : FtlMediaConnection → ℕ → ℕ → SequenceTracker → SequenceTracker × List Effect
ask_again c now ssrc t = if c.nack_lost_packets then nack_missing now ssrc t else (t, [])

-- The FTL client may send audio as a speed test before its first video packet.
pub is_speed_test : FtlMediaConnection → ℕ → Bool
is_speed_test c ssrc =
    ssrc == c.media_metadata.audio_ssrc && elim (find c.media_metadata.video_ssrc c.ssrc_data) [
      | none ↦ false
      | some video ↦ video.packets_received == 0
    ]

-- What `handleMediaPacket` does with the data of the packet's stream.
pub process_packet : FtlMediaConnection → ℕ → ℕ → Bytes → SsrcData → SsrcData × List Effect
unfolding ask_again
process_packet c now ssrc bytes data' =
    let (tracked, ext) = track (get_rtp_sequence bytes) now data'.tracker in
    let (t, nacks) = ask_again c now ssrc tracked in
    let packet : RtpPacket = record { bytes = bytes; extended_sequence_num = ext } in
    let counted =
      update_media_packet_stats c.rolling_size_avg_ms now packet (record data' { tracker = t }) in
    (capture_video_keyframe c.media_metadata packet counted, nacks ++ deliver packet ∷ [])

pub handle_media_packet : ℕ → Bytes → FtlMediaConnection → FtlMediaConnection × List Effect
unfolding is_speed_test process_packet
handle_media_packet now bytes c =
    let ssrc = (get_rtp_header bytes).ssrc in
    elim (find ssrc c.ssrc_data) [
      | none ↦ (c, [])
      | some data' ↦
          let (data'', effects) = process_packet c now ssrc bytes data' in
          if is_speed_test c ssrc
          then (c, [])
          else (record c { ssrc_data = assign ssrc data'' c.ssrc_data }, effects)
    ]

unfoldable handle_ping : Bytes → List Effect
handle_ping bytes = write bytes ∷ []

-- `handleSenderReport` only logs.
unfoldable handle_rtp_packet : ℕ → Bytes → FtlMediaConnection → FtlMediaConnection × List Effect
unfolding handle_media_packet handle_ping
handle_rtp_packet now bytes c =
    let h = get_rtp_header bytes in
    let payload_type = h.marker_bit * 128 + h.type in
    if h.ssrc == c.media_metadata.audio_ssrc || h.ssrc == c.media_metadata.video_ssrc
    then handle_media_packet now bytes c
    else if payload_type == ftl_payload_type_ping
    then (c, handle_ping bytes)
    else (c, [])

pub on_bytes_received : ℕ → Bytes → FtlMediaConnection → FtlMediaConnection × List Effect
unfolding handle_rtp_packet
on_bytes_received now bytes c =
    if ltb (length bytes) 12 then (c, []) else handle_rtp_packet now bytes c
