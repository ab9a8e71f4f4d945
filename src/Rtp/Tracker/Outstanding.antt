-- ===== src/Rtp/Tracker/Outstanding.antt =====
-- How many NACKs of src/Rtp/SequenceTracker.cpp are outstanding at once.
use native.Mathlib.Nat.{le_trans}
use janus_ftl_plugin.Prelude.{
  ℕ, zero, suc, ◌+◌, ◌-◌, ◌≤◌, ap, inl, inr, List, [], ◌∷◌, reverse, arith, leb, length, take,
  Bool-cases, Option-cases,
}
use janus_ftl_plugin.Prelude.OrdMap.{
  OrdMap, OrdSet, keys, find, erase, length-emplace, length-erase,
}
use janus_ftl_plugin.Rtp.Tracker.{
  Entry, OutstandingNack, SequenceTracker, max_outstanding_nacks, nack_timeout, seq16, drop_oldest,
  make_room, insert, upper_bound, note_received, check_for_missing, extend_tracked,
  track_retransmit, track_new_packet, track, mark_nack_sent, expire, expire_nacks, get_nack_list,
}
use janus_ftl_plugin.Rtp.Tracker.Valid.{check_up_to-Checked}
use janus_ftl_plugin.Rtp.Tracker.Nacks.{unasked, allowance, get_nack_list_lem}

abbrev pub outstanding : SequenceTracker → ℕ
outstanding t = length t.nacks

outstanding-drop_oldest :
    (m : OrdMap Entry) (t : SequenceTracker) → outstanding (drop_oldest m t) ≤ outstanding t
unfolding drop_oldest
outstanding-drop_oldest [] t = omega arith
outstanding-drop_oldest ((k, e) ∷ m) t = length-erase (seq16 e.extended_seq) t.nacks

outstanding-make_room : (t : SequenceTracker) → outstanding (make_room t) ≤ outstanding t
unfolding make_room
outstanding-make_room t = ground (arith, outstanding-drop_oldest t.buffer t)

outstanding-insert :
    (ext now : ℕ) (t : SequenceTracker) → outstanding (insert ext now t) ≤ outstanding t
unfolding insert
outstanding-insert ext now t =
    ground (arith, outstanding-make_room t, length-erase (seq16 ext) (make_room t).nacks)

outstanding-check_for_missing :
    (ext : ℕ) (t : SequenceTracker) → outstanding (check_for_missing ext t) ≤ outstanding t
unfolding check_for_missing note_received
outstanding-check_for_missing ext t = omega (
  arith,
  ap (λ (m : OrdMap OutstandingNack). length m)
      (check_up_to-Checked (upper_bound (note_received ext t)) (note_received ext t)).nacks,
)

outstanding-extend_tracked :
    (seq : ℕ) (t : SequenceTracker) → outstanding (extend_tracked seq t).0 ≤ outstanding t
unfolding extend_tracked
outstanding-extend_tracked seq t = ground arith

-- Receiving a packet adds no outstanding NACK.
pub outstanding-track :
    (seq now : ℕ) (t : SequenceTracker) → outstanding (track seq now t).0 ≤ outstanding t
unfolding track track_retransmit track_new_packet
outstanding-track seq now t = elim (Option-cases (find seq t.nacks)) [
  | inl e ↦
      let r = extend_tracked seq t in
      rw (e, track)
        (omega (
          arith,
          outstanding-check_for_missing r.1 (insert r.1 now r.0),
          outstanding-insert r.1 now r.0,
          outstanding-extend_tracked seq t,
        ))
  | inr (n, e) ↦
      rw (e, track) (le_trans (outstanding-insert n.extended_seq now _) (length-erase seq t.nacks))
]

length-expire :
    (now : ℕ) (ns : OrdMap OutstandingNack) (missing : OrdSet)
    → length (expire now ns missing).0 ≤ length ns
unfolding expire
length-expire now [] missing = omega arith
length-expire now ((k, n) ∷ ns) missing = elim (Bool-cases (leb nack_timeout (now - n.sent_at))) [
  | inl old ↦ rw old (omega (arith, length-expire now ns (erase k missing)))
  | inr young ↦ rw young (omega (arith, length-expire now ns missing))
]

outstanding-expire_nacks :
    (now : ℕ) (t : SequenceTracker) → outstanding (expire_nacks now t) ≤ outstanding t
unfolding expire_nacks
outstanding-expire_nacks now t = ground (arith, length-expire now t.nacks t.missing)

length-take-le {ℓ} : {A : Type ℓ} (n : ℕ) (xs : List A) → length (take n xs) ≤ n
length-take-le zero xs = omega arith
length-take-le (suc n) [] = omega arith
length-take-le (suc n) (x ∷ xs) = omega (arith, length-take-le n xs)

-- The numbers to ask for and the NACKs that are outstanding are within the limit together.
pub outstanding-get_nack_list :
    (now : ℕ) (t : SequenceTracker)
    → outstanding t ≤ max_outstanding_nacks
    → length (get_nack_list now t).1 + outstanding (get_nack_list now t).0 ≤ max_outstanding_nacks
outstanding-get_nack_list now t h =
    let (same, list) = get_nack_list_lem now t in
    let t' = (get_nack_list now t).0 in
    rw list (
      omega (
        arith,
        length-take-le (allowance t'.nacks) (unasked t'.nacks (reverse (keys t'.missing))),
        ap outstanding same,
        outstanding-expire_nacks now t,
      ))

pub outstanding-mark_nack_sent :
    (ext now : ℕ) (t : SequenceTracker)
    → outstanding (mark_nack_sent ext now t) ≤ suc (outstanding t)
unfolding mark_nack_sent
outstanding-mark_nack_sent ext now t = length-emplace (seq16 ext) _ t.nacks
