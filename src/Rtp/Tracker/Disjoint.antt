-- ===== src/Rtp/Tracker/Disjoint.antt =====
-- The invariant of src/Rtp/SequenceTracker.cpp is kept by every packet: the buffer stays ordered
-- and bounded, and no number is both received and missing.
use janus_ftl_plugin.Prelude.{
  ℕ, ◌^◌, ◌≤◌, ◌<◌, ◌≡◌, refl, true, false, inl, inr, [], ◌∷◌, arith, leb, length, Bool-cases,
  Option-cases,
}
use janus_ftl_plugin.Prelude.OrdMap.{
  OrdMap, OrdSet, contains, find, erase, Ascends, Above-Ascends, contains-emplace, contains-erase,
  emplace-Ascends, length-emplace,
}
use janus_ftl_plugin.Rtp.Counter.{rtp_seq_mod, extend}
use janus_ftl_plugin.Rtp.Counter.Wrap
use janus_ftl_plugin.Rtp.Tracker.{
  Entry, OutstandingNack, SequenceTracker, buffer_size, seq16, drop_oldest, make_room, add_entry,
  insert, resync, extend_tracked, track_retransmit, track_new_packet, track, mark_nack_sent,
}
use janus_ftl_plugin.Rtp.Tracker.Gaps.{Keyed}
use janus_ftl_plugin.Rtp.Tracker.Valid.{
  IsValid, emplace-Keyed, erase-Widths, emplace-Widths, find-Widths, check_for_missing-IsValid,
}

contains_of_erase : (k x : ℕ) (m : OrdSet) → contains x (erase k m) ≡ true → contains x m ≡ true
contains_of_erase k x m h = grind (arith, contains-erase k x m)

drop_disjoint :
    (k : ℕ) (e : Entry) (rest : OrdMap Entry) (t : SequenceTracker) (y : ℕ)
    → ((x : ℕ) → contains x ((k, e) ∷ rest) ≡ true → contains x t.missing ≡ false)
    → contains y rest ≡ true
    → contains y (erase e.extended_seq t.missing) ≡ false
unfolding contains
drop_disjoint k e rest t y held h =
    ground (arith, held y, contains-erase e.extended_seq y t.missing)

drop_oldest-IsValid :
    (m : OrdMap Entry) (t : SequenceTracker)
    → t.buffer ≡ m
    → IsValid t
    → leb buffer_size (length m) ≡ true
    → IsValid (drop_oldest m t) × (length (drop_oldest m t).buffer < buffer_size)
unfolding drop_oldest
drop_oldest-IsValid [] t e v full = absurd (grind arith)
drop_oldest-IsValid ((k, x) ∷ rest) t e v full =
    let ascends : Ascends ((k, x) ∷ rest) = rw e at v.ordered.ascends in
    let keyed : Keyed ((k, x) ∷ rest) = rw e at v.ordered.keyed in
    let room : length ((k, x) ∷ rest) ≤ buffer_size = rw e at v.room in
    let held : (y : ℕ) → contains y ((k, x) ∷ rest) ≡ true → contains y t.missing ≡ false =
      rw e at v.disjoint in
    (
      record {
        ordered = record {
          ascends = Above-Ascends k rest ascends;
          keyed = keyed.2;
          checked_width = v.ordered.checked_width;
          received_width = v.ordered.received_width;
        };
        disjoint = λ y h. drop_disjoint k x rest t y held h;
        missing_width = λ y h. v.missing_width y (contains_of_erase x.extended_seq y t.missing h);
        room = omega arith;
        widths = erase-Widths (seq16 x.extended_seq) t.nacks v.widths;
        counts = v.counts;
      },
      omega arith,
    )

-- With room made, one entry more fits.
make_room-IsValid :
    (t : SequenceTracker)
    → IsValid t
    → IsValid (make_room t) × (length (make_room t).buffer < buffer_size)
unfolding make_room
make_room-IsValid t v = elim (Bool-cases (leb buffer_size (length t.buffer))) [
  | inl full ↦ rw full (drop_oldest-IsValid t.buffer t refl v full)
  | inr free ↦ rw free (v, ground arith)
]

add_entry-IsValid :
    (ext now : ℕ) (t : SequenceTracker)
    → IsValid t
    → ext < 2 ^ 32
    → length t.buffer < buffer_size
    → IsValid (add_entry ext now t)
unfolding add_entry
add_entry-IsValid ext now t v w free = record {
  ordered = record {
    ascends = emplace-Ascends ext _ t.buffer v.ordered.ascends;
    keyed = emplace-Keyed ext _ t.buffer refl w v.ordered.keyed;
    checked_width = v.ordered.checked_width;
    received_width = v.ordered.received_width;
  };
  disjoint = λ x h. ground (
    arith,
    contains-emplace ext x (record { extended_seq = ext; received_at = now }) t.buffer,
    contains-erase ext x t.missing,
    v.disjoint x,
  );
  missing_width = λ x h. v.missing_width x (contains_of_erase ext x t.missing h);
  room =
      omega (arith, length-emplace ext (record { extended_seq = ext; received_at = now }) t.buffer);
  widths = erase-Widths (seq16 ext) t.nacks v.widths;
  counts = v.counts;
}

insert-IsValid :
    (ext now : ℕ) (t : SequenceTracker) → IsValid t → ext < 2 ^ 32 → IsValid (insert ext now t)
unfolding insert
insert-IsValid ext now t v w = elim (Bool-cases (contains ext t.buffer)) [
  | inl old ↦ rw old v
  | inr new ↦
      rw new (
        let (v', free) = make_room-IsValid t v in add_entry-IsValid ext now (make_room t) v' w free)
]

resync-IsValid : (t : SequenceTracker) → IsValid t → IsValid (resync t)
unfolding resync contains
resync-IsValid t v = record {
  ordered = omega arith;
  disjoint = λ x h. refl;
  missing_width = λ x h. absurd (grind arith);
  room = omega arith;
  widths = tt;
  counts = v.counts;
}

extend_tracked-IsValid :
    (seq : ℕ) (t : SequenceTracker)
    → IsValid t
    → seq < rtp_seq_mod
    → IsValid (extend_tracked seq t).0
      × ((extend_tracked seq t).1 < 2 ^ 32)
      × (seq16 (extend_tracked seq t).1 ≡ seq)
unfolding extend_tracked
extend_tracked-IsValid seq t v h =
    let (counts, low, width) = Wrap.extend-IsValid t.counter seq v.counts h in
    let t' : SequenceTracker = record t { counter = (extend t.counter seq).0 } in
    let v' : IsValid t' = record {
      ordered = record {
        ascends = v.ordered.ascends;
        keyed = v.ordered.keyed;
        checked_width = v.ordered.checked_width;
        received_width = v.ordered.received_width;
      };
      disjoint = v.disjoint;
      missing_width = v.missing_width;
      room = v.room;
      widths = v.widths;
      counts = counts;
    } in
    elim (Bool-cases (extend t.counter seq).1.resync) [
      | inl e ↦ rw e (resync-IsValid t' v', width, low)
      | inr e ↦ rw e (v', width, low)
    ]

track_retransmit-IsValid :
    (seq now : ℕ) (n : OutstandingNack) (t : SequenceTracker)
    → IsValid t
    → n.extended_seq < 2 ^ 32
    → IsValid (track_retransmit n now (record t { nacks = erase seq t.nacks }))
unfolding track_retransmit
track_retransmit-IsValid seq now n t v w =
    insert-IsValid n.extended_seq now _
      (record {
        ordered = record {
          ascends = v.ordered.ascends;
          keyed = v.ordered.keyed;
          checked_width = v.ordered.checked_width;
          received_width = v.ordered.received_width;
        };
        disjoint = v.disjoint;
        missing_width = v.missing_width;
        room = v.room;
        widths = erase-Widths seq t.nacks v.widths;
        counts = v.counts;
      })
      w

track_new_packet-IsValid :
    (seq now : ℕ) (t : SequenceTracker)
    → IsValid t
    → seq < rtp_seq_mod
    → IsValid (track_new_packet seq now t).0
      × ((track_new_packet seq now t).1 < 2 ^ 32)
      × (seq16 (track_new_packet seq now t).1 ≡ seq)
unfolding track_new_packet
track_new_packet-IsValid seq now t v h =
    let (v', w, low) = extend_tracked-IsValid seq t v h in
    (check_for_missing-IsValid _ _ (insert-IsValid _ now _ v' w) w, w, low)

-- `Track` keeps the buffer ordered and within `buffer_size`, and no number is ever both in the
-- buffer and missing; the extended number that it returns fits in 32 bits and ends in the 16 bits
-- of the packet's number.
pub track-IsValid :
    (seq now : ℕ) (t : SequenceTracker)
    → IsValid t
    → seq < rtp_seq_mod
    → IsValid (track seq now t).0
      × ((track seq now t).1 < 2 ^ 32)
      × (seq16 (track seq now t).1 ≡ seq)
unfolding track
track-IsValid seq now t v h = elim (Option-cases (find seq t.nacks)) [
  | inl e ↦ rw (e, track) (track_new_packet-IsValid seq now t v h)
  | inr (n, e) ↦
      let w = find-Widths seq n t.nacks v.widths e in
      rw (e, track) (track_retransmit-IsValid seq now n t v w.0, w.0, w.1)
]

-- Asking for a number again keeps the invariant.
pub mark_nack_sent-IsValid :
    (ext now : ℕ) (t : SequenceTracker)
    → IsValid t
    → ext < 2 ^ 32
    → IsValid (mark_nack_sent ext now t)
unfolding mark_nack_sent
mark_nack_sent-IsValid ext now t v w = record {
  ordered = record {
    ascends = v.ordered.ascends;
    keyed = v.ordered.keyed;
    checked_width = v.ordered.checked_width;
    received_width = v.ordered.received_width;
  };
  disjoint = v.disjoint;
  missing_width = v.missing_width;
  room = v.room;
  widths = emplace-Widths (seq16 ext) _ t.nacks w refl v.widths;
  counts = v.counts;
}
