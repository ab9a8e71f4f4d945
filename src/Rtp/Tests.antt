-- ===== src/Rtp/Tests.antt =====
-- The theorems about src/Rtp at concrete counters, trackers and packets.
use janus_ftl_plugin.Prelude.{
  inl, ℕ, ◌%◌, ◌^◌, ◌<◌, ◌≡◌, refl, true, false, not, ◌&&◌, ◌||◌, [], ◌∷◌, map, arith, ltb, length,
  All,
}
use janus_ftl_plugin.Prelude.OrdMap.{contains}
use janus_ftl_plugin.Rtp.Counter.{rtp_seq_mod, ExtendedSequenceCounter, new_counter}
use janus_ftl_plugin.Rtp.Counter.Follow.{positions, extend_all, extend_all-new_counter}
use janus_ftl_plugin.Rtp.Packet.{Bytes, get_rtp_header, get_rtp_payload}
use janus_ftl_plugin.Rtp.Packet.Payload.{get_rtp_payload_overrun}
use janus_ftl_plugin.Rtp.Tracker.{
  Entry, OutstandingNack, SequenceTracker, new_tracker, seq16, note_received, upper_bound,
  check_for_missing, track, get_nack_list,
}
use janus_ftl_plugin.Rtp.Tracker.Missing.{missing-check_for_missing}
use janus_ftl_plugin.Rtp.Tracker.Valid
use janus_ftl_plugin.Rtp.Tracker.Valid.{new_tracker-IsValid}
use janus_ftl_plugin.Rtp.Tracker.Disjoint.{track-IsValid}
use janus_ftl_plugin.Rtp.Tracker.Asked.{get_nack_list-All}

-- A little after the first wrap.
abbrev wrapped : ExtendedSequenceCounter
wrapped = record {
  max_seq = 5;
  cycles = 65536;
  base_seq = 60000;
  bad_seq = 65537;
  probation = 0;
  received_prior = 0;
  expected_prior = 0;
  initialized = true;
}

extend_all-new_counter_example :
    extend_all new_counter
      (65000 ∷ 65001 ∷ 65002 ∷ map (λ p. p % rtp_seq_mod) (positions 65002 (1 ∷ 2000 ∷ 3 ∷ [])))
    ≡ 65000 ∷ 65001 ∷ 65002 ∷ map (λ p. p % 2 ^ 32) (positions 65002 (1 ∷ 2000 ∷ 3 ∷ []))
extend_all-new_counter_example =
    extend_all-new_counter 65000 (1 ∷ 2000 ∷ 3 ∷ []) (omega arith)
      (omega arith, (omega arith, (omega arith, tt)))

abbrev entry : ℕ → Entry
entry n = record { extended_seq = n; received_at = 7 }

-- The packets 100, 105 and 140 have arrived, and nothing is checked past 100.
abbrev gapped : SequenceTracker
gapped = record new_tracker {
  buffer = (100, entry 100) ∷ (105, entry 105) ∷ (140, entry 140) ∷ [];
  initialized = true;
  highest_received = 140;
  highest_checked = 100;
}

missing-check_for_missing_example : contains 102 (check_for_missing 140 gapped).missing ≡ (
    contains 102 gapped.missing
    || (ltb (note_received 140 gapped).highest_checked 102
        && (ltb 102 (upper_bound (note_received 140 gapped)) && not (contains 102 gapped.buffer))))
unfolding note_received
missing-check_for_missing_example =
    missing-check_for_missing 140 102 gapped
      (record {
        ascends = (omega arith, (omega arith, tt));
        keyed = (refl, omega arith, (refl, omega arith, (refl, omega arith, tt)));
        checked_width = omega arith;
        received_width = omega arith;
      })
      (omega arith) (ground arith)

track-IsValid_example :
    Valid.IsValid (track 65000 7 new_tracker).0
    × ((track 65000 7 new_tracker).1 < 2 ^ 32)
    × (seq16 (track 65000 7 new_tracker).1 ≡ 65000)
track-IsValid_example = track-IsValid 65000 7 new_tracker new_tracker-IsValid (omega arith)

abbrev nack : OutstandingNack
nack = record { extended_seq = 65546; sent_at = 5 }

-- The packets 65,546 and 65,547 are missing, and a NACK is outstanding for the first of them.
abbrev asking : SequenceTracker
asking = record new_tracker {
  missing = (65546, tt) ∷ (65547, tt) ∷ [];
  nacks = (10, nack) ∷ [];
  nack_count = 1;
  lost_count = 2;
}

get_nack_list-All_example :
    let (t', list) = get_nack_list 9 asking in
    All (λ s. (contains s t'.missing ≡ true) × (contains (seq16 s) t'.nacks ≡ false)) list
get_nack_list-All_example = get_nack_list-All 9 asking

-- Version 2, without CSRCs, and two bytes of payload.
abbrev small : Bytes
small = 128 ∷ 96 ∷ 0 ∷ 1 ∷ 0 ∷ 0 ∷ 0 ∷ 2 ∷ 0 ∷ 0 ∷ 0 ∷ 3 ∷ 101 ∷ 7 ∷ []

-- The same header, which claims 15 CSRCs.
abbrev claiming : Bytes
claiming = 143 ∷ 96 ∷ 0 ∷ 1 ∷ 0 ∷ 0 ∷ 0 ∷ 2 ∷ 0 ∷ 0 ∷ 0 ∷ 3 ∷ 101 ∷ 7 ∷ []

claiming-bytes : All (λ x. x < 256) claiming
claiming-bytes = grind arith

get_rtp_payload_overrun_example :
    (length claiming < (get_rtp_payload claiming).start)
    × (2 ^ 63 < (get_rtp_payload claiming).count)
unfolding get_rtp_header
get_rtp_payload_overrun_example =
    get_rtp_payload_overrun claiming claiming-bytes (omega arith) (omega arith) refl
      (inl (omega arith))
