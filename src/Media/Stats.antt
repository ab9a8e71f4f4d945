-- ===== src/Media/Stats.antt =====
-- `GetStats` and `GetKeyframe` of src/FtlMediaConnection.cpp. The average bit rate is a division of
-- floating point numbers: here are the two numbers that are divided.
use janus_ftl_plugin.Prelude.{
  ℕ, ◌+◌, ◌*◌, ◌%◌, ◌^◌, ◌≡◌, refl, Option, none, some, List, map, reverse, sum,
}
use janus_ftl_plugin.Prelude.OrdMap.{OrdMap, find}
use janus_ftl_plugin.Rtp.Packet.{Bytes}
use janus_ftl_plugin.Rtp.Tracker.{
  SequenceTracker, mark_nack_sent, get_received_count, get_nack_count, get_lost_count,
}
use janus_ftl_plugin.FtlTypes.{VideoCodecKind}
use janus_ftl_plugin.Media.{SsrcData, FtlMediaConnection}

pub record FtlStreamStats : Type 0 where
  pub duration_seconds : ℕ
  pub rolling_bits_received : ℕ
  pub rolling_size_avg_ms : ℕ
  pub packets_received : ℕ
  pub packets_nacked : ℕ
  pub packets_lost : ℕ

pub record FtlKeyframe : Type 0 where
  pub codec : VideoCodecKind
  pub packets : List Bytes

-- The counts are added up in 32 bits.
pub total : (SequenceTracker → ℕ) → OrdMap SsrcData → ℕ
total count m = sum (λ (d : ℕ × SsrcData). count (d.1.tracker)) m % 2 ^ 32

unfoldable rolling_bytes_received : OrdMap SsrcData → ℕ
rolling_bytes_received m =
    sum (λ (d : ℕ × SsrcData). sum (λ (t : ℕ × ℕ). t.1) d.1.rolling_bytes_received_by_time) m
    % 2 ^ 32

-- `seconds` is how long the connection has been there.
unfoldable pub get_stats : ℕ → FtlMediaConnection → FtlStreamStats
unfolding total rolling_bytes_received get_received_count get_nack_count get_lost_count
get_stats seconds c = record {
  duration_seconds = seconds % 2 ^ 32;
  rolling_bits_received = rolling_bytes_received c.ssrc_data * 8 % 2 ^ 32;
  rolling_size_avg_ms = c.rolling_size_avg_ms;
  packets_received = total get_received_count c.ssrc_data;
  packets_nacked = total get_nack_count c.ssrc_data;
  packets_lost = total get_lost_count c.ssrc_data;
}

unfoldable keyframe_of : VideoCodecKind → Option SsrcData → Option FtlKeyframe
keyframe_of codec none = none
keyframe_of codec (some d) =
    some
      (record { codec = codec; packets = map (λ p. p.bytes) (reverse d.current_keyframe.packets) })

-- `none` is the error that there is no data for the video stream.
unfoldable pub get_keyframe : FtlMediaConnection → Option FtlKeyframe
unfolding find keyframe_of
get_keyframe c =
    keyframe_of c.media_metadata.video_codec (find c.media_metadata.video_ssrc c.ssrc_data)

-- Sending a NACK never changes what `GetNackCount` returns, although it is counted.
get_nack_count-mark_nack_sent :
    (seq now : ℕ) (t : SequenceTracker)
    → (get_nack_count (mark_nack_sent seq now t) ≡ get_nack_count t)
      × ((mark_nack_sent seq now t).nack_count ≡ (t.nack_count + 1) % 2 ^ 64)
unfolding get_nack_count mark_nack_sent
get_nack_count-mark_nack_sent seq now t = (refl, refl)
