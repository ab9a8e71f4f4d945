-- ===== src/Rtp/Tracker/Valid.antt =====
-- The invariant of src/Rtp/SequenceTracker.cpp: the buffer is ordered and bounded, and no number
-- is both received and missing. Here: what it says, and the check for missing numbers.
use janus_ftl_plugin.Prelude.{
  ℕ, suc, ◌+◌, ◌-◌, ◌%◌, ◌^◌, ◌≤◌, ◌<◌, ◌≡◌, refl, true, false, ◌⊎◌, some, [], ◌∷◌, ◌∙◌, arith,
  length,
}
use janus_ftl_plugin.Prelude.OrdMap.{OrdMap, contains, find, emplace, erase, range}
use janus_ftl_plugin.Rtp.Counter.Wrap
use janus_ftl_plugin.Rtp.Tracker.{
  Entry, OutstandingNack, SequenceTracker, new_tracker, buffer_size, seq16, upper_bound,
  note_received, check_up_to, check_for_missing,
}
use janus_ftl_plugin.Rtp.Tracker.Gaps.{Keyed, check_gaps-Kept, in_gap_above, range-Within}
use janus_ftl_plugin.Rtp.Tracker.Missing.{
  IsOrdered, window, missing-check_up_to, note_received-IsOrdered, missing-check_up_to_received,
  upper_bound-lt,
}

-- The numbers of outstanding NACKs have the width of extended numbers, and their low 16 bits are
-- the keys.
abbrev pub Widths : OrdMap OutstandingNack → Type 0
Widths [] = Unit {0}
Widths ((k, n) ∷ ns) = (n.extended_seq < 2 ^ 32) × (seq16 n.extended_seq ≡ k) × Widths ns

pub record IsValid (t : SequenceTracker) : Type 0 where
  pub ordered : IsOrdered t
  pub disjoint : (x : ℕ) → contains x t.buffer ≡ true → contains x t.missing ≡ false
  pub missing_width : (x : ℕ) → contains x t.missing ≡ true → x < 2 ^ 32
  pub room : length t.buffer ≤ buffer_size
  pub widths : Widths t.nacks
  pub counts : Wrap.IsValid t.counter

pub new_tracker-IsValid : IsValid new_tracker
unfolding contains
new_tracker-IsValid = record {
  ordered = omega arith;
  disjoint = λ x h. refl;
  missing_width = λ x h. absurd (grind arith);
  room = omega arith;
  widths = tt;
  counts = omega arith;
}

pub emplace-Keyed :
    (k : ℕ) (e : Entry) (m : OrdMap Entry)
    → e.extended_seq ≡ k
    → k < 2 ^ 32
    → Keyed m
    → Keyed (emplace k e m)
unfolding emplace
emplace-Keyed k e [] p w h = (p, w, tt)
emplace-Keyed k e ((j, f) ∷ m) p w h = ground (arith, emplace-Keyed k e m p w h.2)

pub erase-Widths : (k : ℕ) (ns : OrdMap OutstandingNack) → Widths ns → Widths (erase k ns)
unfolding erase
erase-Widths k [] h = tt
erase-Widths k ((j, n) ∷ ns) h = ground (arith, erase-Widths k ns h.2)

pub emplace-Widths :
    (k : ℕ) (n : OutstandingNack) (ns : OrdMap OutstandingNack)
    → n.extended_seq < 2 ^ 32
    → seq16 n.extended_seq ≡ k
    → Widths ns
    → Widths (emplace k n ns)
unfolding emplace
emplace-Widths k n [] w e h = (w, e, tt)
emplace-Widths k n ((j, o) ∷ ns) w e h = ground (arith, emplace-Widths k n ns w e h.2)

pub find-Widths :
    (k : ℕ) (n : OutstandingNack) (ns : OrdMap OutstandingNack)
    → Widths ns
    → find k ns ≡ some n
    → (n.extended_seq < 2 ^ 32) × (seq16 n.extended_seq ≡ k)
unfolding find
find-Widths k n [] h e = ground arith
find-Widths k n ((j, o) ∷ ns) h e = ground (arith, find-Widths k n ns h.2)

note_received-IsValid :
    (ext : ℕ) (t : SequenceTracker) → IsValid t → ext < 2 ^ 32 → IsValid (note_received ext t)
unfolding note_received
note_received-IsValid ext t v h = record {
  ordered = note_received-IsOrdered ext t v.ordered h;
  disjoint = v.disjoint;
  missing_width = v.missing_width;
  room = v.room;
  widths = v.widths;
  counts = v.counts;
}

-- What the check for missing numbers leaves alone, and how far it then has checked.
pub record Checked (upper : ℕ) (t u : SequenceTracker) : Type 0 where
  pub buffer : u.buffer ≡ t.buffer
  pub nacks : u.nacks ≡ t.nacks
  pub counter : u.counter ≡ t.counter
  pub highest_received : u.highest_received ≡ t.highest_received
  pub highest_checked : (u.highest_checked ≡ t.highest_checked) ⊎ (u.highest_checked ≡ upper - 1)

pub check_up_to-Checked : (upper : ℕ) (t : SequenceTracker) → Checked upper t (check_up_to upper t)
unfolding check_up_to
check_up_to-Checked upper t = ground (
  arith,
  check_gaps-Kept (range ((t.highest_checked + 1) % 2 ^ 64) upper t.buffer) t.highest_checked upper
      t,
)

missing_width-check_up_to :
    (upper : ℕ) (t : SequenceTracker) (x : ℕ)
    → IsValid t
    → upper < 2 ^ 32
    → contains x (check_up_to upper t).missing ≡ true
    → x < 2 ^ 32
missing_width-check_up_to upper t x v w h = grind (
  arith,
  missing-check_up_to upper t v.ordered w x,
  in_gap_above (window upper t) t.highest_checked upper x
      (range-Within (suc t.highest_checked) upper t.buffer),
  v.missing_width x,
)

check_up_to-IsValid :
    (upper : ℕ) (t : SequenceTracker) → IsValid t → upper < 2 ^ 32 → IsValid (check_up_to upper t)
check_up_to-IsValid upper t v w =
    let k : Checked upper t (check_up_to upper t) = check_up_to-Checked upper t in
    record {
      ordered = record {
        ascends = rw k.buffer v.ordered.ascends;
        keyed = rw k.buffer v.ordered.keyed;
        checked_width = omega (arith, v.ordered.checked_width);
        received_width = omega (arith, v.ordered.received_width);
      };
      disjoint = λ x h.
          let h' : contains x t.buffer ≡ true = rw k.buffer at h in
          missing-check_up_to_received upper t v.ordered w x h' ∙ v.disjoint x h';
      missing_width = λ x h. missing_width-check_up_to upper t x v w h;
      room = rw k.buffer v.room;
      widths = rw k.nacks v.widths;
      counts = rw k.counter v.counts;
    }

pub check_for_missing-IsValid :
    (ext : ℕ) (t : SequenceTracker) → IsValid t → ext < 2 ^ 32 → IsValid (check_for_missing ext t)
unfolding check_for_missing
check_for_missing-IsValid ext t v h =
    let v' : IsValid (note_received ext t) = note_received-IsValid ext t v h in
    check_up_to-IsValid (upper_bound (note_received ext t)) (note_received ext t) v'
      (upper_bound-lt (note_received ext t) v'.ordered)
