-- ===== src/Rtp/Tracker/Gaps.antt =====
-- What `check_for_missing` of src/Rtp/SequenceTracker.cpp adds to the missing numbers.
use janus_ftl_plugin.Prelude.{
  ℕ, zero, suc, ◌+◌, ◌-◌, ◌%◌, ◌^◌, ◌≤◌, ◌<◌, ◌≡◌, refl, Bool, true, false, not, ◌&&◌, ◌||◌, [],
  ◌∷◌, arith, ltb, leb,
}
use janus_ftl_plugin.Prelude.OrdMap.{
  OrdMap, contains, range, Above, Above-contains, contains-emplace,
}
use janus_ftl_plugin.Rtp.Counter
use janus_ftl_plugin.Rtp.Tracker.{
  Entry, SequenceTracker, missed_packet, missed_packets, check_gap, check_gaps,
}

-- Every entry carries its key, and the keys have the width of extended numbers.
abbrev pub Keyed : OrdMap Entry → Type 0
Keyed [] = Unit {0}
Keyed ((k, e) ∷ es) = (e.extended_seq ≡ k) × (k < 2 ^ 32) × Keyed es

pub range-Keyed : (lo hi : ℕ) (m : OrdMap Entry) → Keyed m → Keyed (range lo hi m)
unfolding range
range-Keyed lo hi [] k = tt
range-Keyed lo hi ((j, e) ∷ m) k = ground (arith, range-Keyed lo hi m k.2)

-- What a gap check leaves alone.
pub record Kept (t u : SequenceTracker) : Type 0 where
  pub buffer : u.buffer ≡ t.buffer
  pub nacks : u.nacks ≡ t.nacks
  pub counter : u.counter ≡ t.counter
  pub initialized : u.initialized ≡ t.initialized
  pub highest_received : u.highest_received ≡ t.highest_received
  pub highest_checked : u.highest_checked ≡ t.highest_checked
  pub received_count : u.received_count ≡ t.received_count

missed_packets-Kept : (n s : ℕ) (t : SequenceTracker) → Kept t (missed_packets n s t)
unfolding missed_packets missed_packet
missed_packets-Kept zero s t = record {
  buffer = refl;
  nacks = refl;
  counter = refl;
  initialized = refl;
  highest_received = refl;
  highest_checked = refl;
  received_count = refl;
}
missed_packets-Kept (suc n) s t =
    let k = missed_packets-Kept n (s + 1) (missed_packet s t) in
    record {
      buffer = k.buffer;
      nacks = k.nacks;
      counter = k.counter;
      initialized = k.initialized;
      highest_received = k.highest_received;
      highest_checked = k.highest_checked;
      received_count = k.received_count;
    }

check_gap-Kept : (begin end : ℕ) (t : SequenceTracker) → Kept t (check_gap begin end t)
unfolding check_gap
check_gap-Kept begin end t =
    ground (arith, missed_packets-Kept (end - (begin + 1) % 2 ^ 64) ((begin + 1) % 2 ^ 64) t)

pub check_gaps-Kept :
    (es : OrdMap Entry) (last upper : ℕ) (t : SequenceTracker) → Kept t (check_gaps es last upper t)
unfolding check_gaps
check_gaps-Kept [] last upper t = check_gap-Kept last upper t
check_gaps-Kept ((k, e) ∷ es) last upper t = ground (
  arith,
  check_gap-Kept last e.extended_seq t,
  check_gaps-Kept es e.extended_seq upper (check_gap last e.extended_seq t),
)

contains-missed_packets :
    (n s x : ℕ) (t : SequenceTracker)
    → contains x (missed_packets n s t).missing
      ≡ (contains x t.missing || (leb s x && ltb x (s + n)))
unfolding missed_packets missed_packet
contains-missed_packets zero s x t = ground arith
contains-missed_packets (suc n) s x t = ground (
  arith,
  contains-missed_packets n (s + 1) x (missed_packet s t),
  contains-emplace s x tt t.missing,
)

contains-check_gap :
    (begin end x : ℕ) (t : SequenceTracker)
    → begin ≤ end
    → end < 2 ^ 32
    → contains x (check_gap begin end t).missing ≡ (
        contains x t.missing
        || (ltb begin x && (ltb x end && leb (end - begin) Counter.max_dropout)))
unfolding check_gap
contains-check_gap begin end x t h w =
    ground (arith, contains-missed_packets (end - (begin + 1) % 2 ^ 64) ((begin + 1) % 2 ^ 64) x t)

-- `x` lies strictly inside one of the gaps, and that gap is small enough to be asked for again.
pub in_gap : OrdMap Entry → ℕ → ℕ → ℕ → Bool
in_gap [] last upper x = ltb last x && (ltb x upper && leb (upper - last) Counter.max_dropout)
in_gap ((k, _) ∷ es) last upper x =
    (ltb last x && (ltb x k && leb (k - last) Counter.max_dropout)) || in_gap es k upper x

abbrev pub Within : ℕ → OrdMap Entry → Type 0
Within upper [] = Unit {0}
Within upper ((k, _) ∷ es) = (k ≤ upper) × Within upper es

pub range-Within : (lo hi : ℕ) (m : OrdMap Entry) → Within hi (range lo hi m)
unfolding range
range-Within lo hi [] = tt
range-Within lo hi ((j, e) ∷ m) = ground (arith, range-Within lo hi m)

pub contains-check_gaps :
    (es : OrdMap Entry) (last upper x : ℕ) (t : SequenceTracker)
    → Above last es
    → Keyed es
    → Within upper es
    → last ≤ upper
    → upper < 2 ^ 32
    → contains x (check_gaps es last upper t).missing
      ≡ (contains x t.missing || in_gap es last upper x)
unfolding check_gaps in_gap
contains-check_gaps [] last upper x t a k w h u =
    ground (arith, contains-check_gap last upper x t h u)
contains-check_gaps ((j, e) ∷ es) last upper x t a k w h u = ground (
  arith,
  contains-check_gap last e.extended_seq x t,
  contains-check_gaps es e.extended_seq upper x (check_gap last e.extended_seq t),
)

pub in_gap_below :
    (es : OrdMap Entry) (last upper x : ℕ)
    → Above last es
    → x ≤ last
    → in_gap es last upper x ≡ false
unfolding in_gap
in_gap_below [] last upper x a h = ground arith
in_gap_below ((j, e) ∷ es) last upper x a h = ground (arith, in_gap_below es j upper x a.1)

pub in_gap_above :
    (es : OrdMap Entry) (last upper x : ℕ)
    → Within upper es
    → upper ≤ x
    → in_gap es last upper x ≡ false
unfolding in_gap
in_gap_above [] last upper x w h = ground arith
in_gap_above ((j, e) ∷ es) last upper x w h = ground (arith, in_gap_above es j upper x w.1 h)

pub in_gap_received :
    (es : OrdMap Entry) (last upper x : ℕ)
    → Above last es
    → contains x es ≡ true
    → in_gap es last upper x ≡ false
unfolding in_gap contains
in_gap_received [] last upper x a h = ground arith
in_gap_received ((j, e) ∷ es) last upper x a h = ground (
  arith,
  in_gap_below es j upper x a.1,
  in_gap_received es j upper x a.1,
  Above-contains j x es a.1,
)

-- Where all of the range is small, the gaps are what was not received.
pub in_gap_small :
    (es : OrdMap Entry) (last upper x : ℕ)
    → Above last es
    → Within upper es
    → upper ≤ last + Counter.max_dropout
    → in_gap es last upper x ≡ (ltb last x && (ltb x upper && not (contains x es)))
unfolding in_gap contains
in_gap_small [] last upper x a w h = ground arith
in_gap_small ((j, e) ∷ es) last upper x a w h =
    ground (arith, in_gap_small es j upper x a.1 w.1, Above-contains j x es a.1)
