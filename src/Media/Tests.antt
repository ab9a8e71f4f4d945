-- ===== src/Media/Tests.antt =====
-- The theorems about src/FtlMediaConnection.cpp at a concrete connection and concrete packets.
use janus_ftl_plugin.Prelude.{
  sum, List, some, ℕ, ◌<◌, ◌≡◌, ◌≢◌, ◌↔◌, refl, true, false, [], ◌∷◌, ◌++◌, map, arith, length,
  reverse, All,
}
use janus_ftl_plugin.Prelude.OrdMap.{Each, find}
use janus_ftl_plugin.Rtp.Packet.{
  Bytes, get_rtp_header, get_rtp_sequence, RtpPacket, header, nack_bytes,
}
use janus_ftl_plugin.Rtp.Tracker.{seq16, track}
use janus_ftl_plugin.FtlTypes.{VideoCodecKind, MediaMetadata, no_metadata}
use janus_ftl_plugin.Transport.{NetworkSocketConnectionTransport, new_transport, udp, Poll, bytes}
use janus_ftl_plugin.Media.Thread.{Event, turn, stop_request, new_media_thread, steps}
use janus_ftl_plugin.Media.Heard.{
  handled, handle_all, own_effects, closes, notices, one_if_ended, steps-handle_all,
}
use janus_ftl_plugin.Media.{
  new_ssrc_data, FtlMediaConnection, new_connection, write, deliver, is_speed_test,
  handle_media_packet,
}
use janus_ftl_plugin.Media.Frames.{Frame, is_complete}
use janus_ftl_plugin.Media.Frames.Order.{count_from, numbers, is_complete_iff}
use janus_ftl_plugin.Media.Valid.{IsValid, receive_all, receive_all-IsValid, new_ssrc_data-IsValid}
use janus_ftl_plugin.Media.Relay.{asked, handle_media_packet_effects}

abbrev metadata : MediaMetadata
metadata = record no_metadata { video_codec = VideoCodecKind.h264; video_ssrc = 3; audio_ssrc = 2 }

abbrev connection : FtlMediaConnection
connection = record {
  media_metadata = metadata;
  rolling_size_avg_ms = 2000;
  nack_lost_packets = true;
  ssrc_data = (2, new_ssrc_data) ∷ (3, new_ssrc_data) ∷ [];
}

-- A packet of the video stream with part of a key frame, and one of the audio stream.
abbrev video : Bytes
video = 128 ∷ 224 ∷ 0 ∷ 1 ∷ 0 ∷ 0 ∷ 0 ∷ 2 ∷ 0 ∷ 0 ∷ 0 ∷ 3 ∷ 101 ∷ 7 ∷ []

abbrev audio : Bytes
audio = 128 ∷ 97 ∷ 0 ∷ 1 ∷ 0 ∷ 0 ∷ 0 ∷ 2 ∷ 0 ∷ 0 ∷ 0 ∷ 2 ∷ 101 ∷ 7 ∷ []

abbrev numbered : ℕ → RtpPacket
numbered n = record { bytes = video; extended_sequence_num = n }

abbrev frame : Frame
frame = record { packets = numbered 6 ∷ numbered 4 ∷ []; timestamp = 2 }

video-bytes : All (λ x. x < 256) video
video-bytes = (
  omega arith,
  (
    omega arith,
    (
      omega arith,
      (
        omega arith,
        (
          omega arith,
          (
            omega arith,
            (
              omega arith,
              (
                omega arith,
                (
                  omega arith,
                  (omega arith, (omega arith, (omega arith, (omega arith, (omega arith, tt))))),
                ),
              ),
            ),
          ),
        ),
      ),
    ),
  ),
)

is_complete_iff_example :
    (is_complete (record frame { packets = [] }) ≡ false)
    × ((is_complete (record frame { packets = numbered 6 ∷ numbered 5 ∷ [] }) ≡ true) ↔ (
        ((header (numbered 6)).marker_bit ≢ 0)
        × ((first : ℕ) × (numbers (reverse (numbered 6 ∷ numbered 5 ∷ []))
              ≡ count_from first (length (reverse (numbered 6 ∷ numbered 5 ∷ [])))))))
is_complete_iff_example = is_complete_iff frame (numbered 6) (numbered 5 ∷ [])

receive_all-IsValid_example :
    Each IsValid
      (receive_all ((1, video) ∷ (2, video) ∷ []) (new_connection metadata 2000 true)).ssrc_data
receive_all-IsValid_example =
    receive_all-IsValid metadata 2000 true ((1, video) ∷ (2, video) ∷ [])
      (video-bytes, (video-bytes, tt))

handle_media_packet_effects_example :
    let (t, ext) = track (get_rtp_sequence video) 5 new_ssrc_data.tracker in
    ((handle_media_packet 5 video connection).1
      ≡ map (λ s. write (nack_bytes (get_rtp_header video).ssrc s 0)) (asked connection 5 t)
        ++ deliver (record { bytes = video; extended_sequence_num = ext }) ∷ [])
    × (seq16 ext ≡ get_rtp_sequence video)
unfolding find get_rtp_header is_speed_test
handle_media_packet_effects_example =
    handle_media_packet_effects 5 video connection new_ssrc_data refl refl new_ssrc_data-IsValid
      video-bytes

abbrev socket : NetworkSocketConnectionTransport
socket = new_transport udp 4 (some (record { host = 9; port = 8082 }))

abbrev ready : Poll
ready = record { closed = false; readable = true }

-- A datagram of the client and one of another host, and then a stop.
abbrev events : List Event
events =
    turn 1 ready (bytes (record { host = 9; port = 5000 }) video)
    ∷ turn 2 ready (bytes (record { host = 7; port = 5000 }) video)
    ∷ stop_request
    ∷ turn 3 ready (bytes (record { host = 9; port = 5000 }) video)
    ∷ []

steps-handle_all_example :
    let (fs, t) = steps events (new_media_thread metadata 2000 false socket) in
    ((t.connection, own_effects fs)
      ≡ handle_all (handled 9 events) (new_connection metadata 2000 false))
    × (sum closes fs ≡ one_if_ended t)
    × (sum notices fs ≡ one_if_ended t)
steps-handle_all_example =
    steps-handle_all 9 4 2000 false metadata socket events
      ((refl, (record { host = 9; port = 8082 }, refl, refl)), refl, refl) refl
