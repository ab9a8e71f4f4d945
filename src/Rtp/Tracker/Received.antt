-- ===== src/Rtp/Tracker/Received.antt =====
-- What `Track` of src/Rtp/SequenceTracker.cpp does with the packet that it is given.
use janus_ftl_plugin.Prelude.{
  ℕ, ◌+◌, ◌-◌, ◌%◌, ◌^◌, ◌<◌, ◌≡◌, refl, true, false, inl, inr, some, [], ◌∷◌, arith, leb, length,
  Bool-cases, Option-cases,
}
use janus_ftl_plugin.Prelude.OrdMap.{
  OrdMap, contains, find, erase, contains-emplace, contains-erase,
}
use janus_ftl_plugin.Rtp.Counter.{rtp_seq_mod}
use janus_ftl_plugin.Rtp.Tracker.{
  Entry, OutstandingNack, SequenceTracker, buffer_size, seq16, drop_oldest, make_room, insert,
  upper_bound, note_received, check_for_missing, extend_tracked, track_retransmit, track_new_packet,
  track,
}
use janus_ftl_plugin.Rtp.Tracker.Valid.{IsValid, check_up_to-Checked}
use janus_ftl_plugin.Rtp.Tracker.Disjoint.{track-IsValid}

contains-insert :
    (ext now : ℕ) (t : SequenceTracker) → contains ext (insert ext now t).buffer ≡ true
unfolding insert
contains-insert ext now t = ground (
  arith,
  contains-emplace ext ext (record { extended_seq = ext; received_at = now }) (make_room t).buffer,
)

check_for_missing-buffer :
    (ext : ℕ) (t : SequenceTracker) → (check_for_missing ext t).buffer ≡ t.buffer
unfolding check_for_missing
check_for_missing-buffer ext t =
    (check_up_to-Checked (upper_bound (note_received ext t)) (note_received ext t)).buffer

track_received :
    (seq now : ℕ) (t : SequenceTracker)
    → contains (track seq now t).1 (track seq now t).0.buffer ≡ true
unfolding track track_retransmit track_new_packet
track_received seq now t = elim (Option-cases (find seq t.nacks)) [
  | inl e ↦
      let r = extend_tracked seq t in
      rw (e, track)
        (rw (check_for_missing-buffer r.1 (insert r.1 now r.0)) (contains-insert r.1 now r.0))
  | inr (n, e) ↦ rw (e, track) (contains-insert n.extended_seq now _)
]

-- After `Track`, the number that it returns is in the buffer and is not missing.
track-Received :
    (seq now : ℕ) (t : SequenceTracker)
    → IsValid t
    → seq < rtp_seq_mod
    → (contains (track seq now t).1 (track seq now t).0.buffer ≡ true)
      × (contains (track seq now t).1 (track seq now t).0.missing ≡ false)
track-Received seq now t v h = (
  track_received seq now t,
  (track-IsValid seq now t v h).0.disjoint _ (track_received seq now t),
)

-- What an insertion leaves alone: the counters of losses, the sequence counter, and the absence
-- of a NACK.
record Inserted (t u : SequenceTracker) : Type 0 where
  lost_count : u.lost_count ≡ t.lost_count
  counter : u.counter ≡ t.counter
  nacks : (k : ℕ) → contains k t.nacks ≡ false → contains k u.nacks ≡ false

drop_oldest-Inserted : (m : OrdMap Entry) (t : SequenceTracker) → Inserted t (drop_oldest m t)
unfolding drop_oldest
drop_oldest-Inserted [] t = record { lost_count = refl; counter = refl; nacks = λ k h. h }
drop_oldest-Inserted ((j, e) ∷ m) t = record {
  lost_count = refl;
  counter = refl;
  nacks = λ k h. ground (arith, contains-erase (seq16 e.extended_seq) k t.nacks);
}

make_room-Inserted : (t : SequenceTracker) → Inserted t (make_room t)
unfolding make_room
make_room-Inserted t = elim (Bool-cases (leb buffer_size (length t.buffer))) [
  | inl full ↦ rw full (drop_oldest-Inserted t.buffer t)
  | inr free ↦ rw free (record { lost_count = refl; counter = refl; nacks = λ k h. h })
]

insert-Inserted : (ext now : ℕ) (t : SequenceTracker) → Inserted t (insert ext now t)
unfolding insert
insert-Inserted ext now t = elim (Bool-cases (contains ext t.buffer)) [
  | inl old ↦ rw old (record { lost_count = refl; counter = refl; nacks = λ k h. h })
  | inr new ↦
      let i : Inserted t (make_room t) = make_room-Inserted t in
      rw new (record {
        lost_count = i.lost_count;
        counter = i.counter;
        nacks =
            λ k h. ground (arith, i.nacks k h, contains-erase (seq16 ext) k (make_room t).nacks);
      })
]

-- A packet that was asked for again is taken for the one that was asked for, without a step of
-- the counter: its NACK is no longer outstanding, and the count of lost packets goes down by one
-- (modulo 2 ^ 64).
track_retransmit_lem :
    (seq now : ℕ) (n : OutstandingNack) (t : SequenceTracker)
    → find seq t.nacks ≡ some n
    → ((track seq now t).1 ≡ n.extended_seq)
      × (contains seq (track seq now t).0.nacks ≡ false)
      × ((track seq now t).0.lost_count ≡ (t.lost_count + 2 ^ 64 - 1) % 2 ^ 64)
      × ((track seq now t).0.counter ≡ t.counter)
unfolding track track_retransmit
track_retransmit_lem seq now n t e =
    let i =
      insert-Inserted n.extended_seq now (record t {
        nacks = erase seq t.nacks;
        lost_count = (t.lost_count + 2 ^ 64 - 1) % 2 ^ 64;
      }) in
    rw (e, track)
      (refl, i.nacks seq (ground (arith, contains-erase seq seq t.nacks)), i.lost_count, i.counter)
