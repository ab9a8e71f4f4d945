-- ===== src/Rtp/Tracker/Missing.antt =====
-- Which numbers `checkForMissing` of src/Rtp/SequenceTracker.cpp takes for missing.
use janus_ftl_plugin.Prelude.{
  ℕ, suc, ◌+◌, ◌%◌, ◌^◌, ◌≤◌, ◌<◌, ◌≡◌, true, not, ◌&&◌, ◌||◌, arith, ltb,
}
use janus_ftl_plugin.Prelude.OrdMap.{
  OrdMap, contains, range, Above, Ascends, contains-range, range-Above_lower,
}
use janus_ftl_plugin.Rtp.Counter
use janus_ftl_plugin.Rtp.Tracker.{
  Entry, SequenceTracker, note_received, upper_bound, check_up_to, check_for_missing,
}
use janus_ftl_plugin.Rtp.Tracker.Gaps.{
  Keyed, range-Keyed, in_gap, Within, range-Within, contains-check_gaps, in_gap_below, in_gap_above,
  in_gap_received, in_gap_small,
}

-- The buffer is ordered, its entries carry their keys, and the marks have the width of extended
-- numbers.
pub record IsOrdered (t : SequenceTracker) : Type 0 where
  pub ascends : Ascends t.buffer
  pub keyed : Keyed t.buffer
  pub checked_width : t.highest_checked < 2 ^ 32
  pub received_width : t.highest_received < 2 ^ 32

-- The entries that the loop walks over.
abbrev pub window : ℕ → SequenceTracker → OrdMap Entry
window upper t = range (suc t.highest_checked) upper t.buffer

module _ (upper : ℕ) (t : SequenceTracker) (v : IsOrdered t) (w : upper < 2 ^ 32) where
  lower_bound_lem : (t.highest_checked + 1) % 2 ^ 64 ≡ suc t.highest_checked
  lower_bound_lem = omega (arith, v.checked_width)

  window-Above : Above t.highest_checked (window upper t)
  window-Above = range-Above_lower t.highest_checked upper t.buffer v.ascends

  window-Within : Within upper (window upper t)
  window-Within = range-Within (suc t.highest_checked) upper t.buffer

  pub missing-check_up_to :
      (x : ℕ)
      → contains x (check_up_to upper t).missing ≡ (
          contains x t.missing
          || (ltb (suc t.highest_checked) upper
              && in_gap (window upper t) t.highest_checked upper x))
  unfolding check_up_to
  missing-check_up_to x = rw lower_bound_lem (
      ground (
        arith,
        contains-check_gaps (window upper t) t.highest_checked upper x t window-Above
            (range-Keyed (suc t.highest_checked) upper t.buffer v.keyed) window-Within,
      ))

  pub missing-check_up_to_received :
      (x : ℕ)
      → contains x t.buffer ≡ true
      → contains x (check_up_to upper t).missing ≡ contains x t.missing
  missing-check_up_to_received x h = ground (
    arith,
    missing-check_up_to x,
    contains-range (suc t.highest_checked) upper x t.buffer,
    in_gap_below (window upper t) t.highest_checked upper x window-Above,
    in_gap_above (window upper t) t.highest_checked upper x window-Within,
    in_gap_received (window upper t) t.highest_checked upper x window-Above,
  )

  pub missing-check_up_to_small :
      (x : ℕ)
      → upper ≤ t.highest_checked + Counter.max_dropout
      → contains x (check_up_to upper t).missing ≡ (
          contains x t.missing
          || (ltb t.highest_checked x && (ltb x upper && not (contains x t.buffer))))
  missing-check_up_to_small x small = ground (
    arith,
    missing-check_up_to x,
    contains-range (suc t.highest_checked) upper x t.buffer,
    in_gap_small (window upper t) t.highest_checked upper x window-Above window-Within small,
  )

pub note_received-IsOrdered :
    (ext : ℕ) (t : SequenceTracker) → IsOrdered t → ext < 2 ^ 32 → IsOrdered (note_received ext t)
unfolding note_received
note_received-IsOrdered ext t v h = ground (arith, v.ascends, v.keyed)

pub upper_bound-lt : (t : SequenceTracker) → IsOrdered t → upper_bound t < 2 ^ 32
upper_bound-lt t v = ground (arith, v.received_width)

-- With an ordered tracker, a packet `ext` below 2 ^ 32, and a range to check that is at most
-- `max_dropout` long, `checkForMissing` leaves as missing the numbers from before and exactly those
-- strictly between the number checked so far and the start of the reorder window that are not in the
-- buffer.
pub missing-check_for_missing :
    (ext x : ℕ) (t : SequenceTracker)
    → IsOrdered t
    → ext < 2 ^ 32
    → upper_bound (note_received ext t)
      ≤ (note_received ext t).highest_checked + Counter.max_dropout
    → contains x (check_for_missing ext t).missing ≡ (
        contains x t.missing
        || (ltb (note_received ext t).highest_checked x
            && (ltb x (upper_bound (note_received ext t)) && not (contains x t.buffer))))
unfolding check_for_missing
missing-check_for_missing ext x t v h small =
    let v' : IsOrdered (note_received ext t) = note_received-IsOrdered ext t v h in
    missing-check_up_to_small (upper_bound (note_received ext t)) (note_received ext t) v'
      (upper_bound-lt (note_received ext t) v') x small
