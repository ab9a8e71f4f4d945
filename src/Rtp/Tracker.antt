-- ===== src/Rtp/Tracker.antt =====
-- src/Rtp/SequenceTracker.{h,cpp}: which packets have arrived, which are missing and which were
-- asked for again. `std::map` and `std::set` are `OrdMap` and `OrdSet`; the time that
-- `steady_clock::now()` returns is the argument `now`, in nanoseconds.
pub mod Gaps
pub mod Missing
pub mod Valid
pub mod Disjoint
pub mod Received
pub mod Nacks
pub mod Asked
pub mod Outstanding
use janus_ftl_plugin.Prelude.{
  ℕ, zero, suc, ◌+◌, ◌-◌, ◌%◌, ◌^◌, Bool, true, false, Option, none, some, List, [], ◌∷◌, reverse,
  ltb, leb, ◌==◌, if◌then◌else◌, length,
}
use janus_ftl_plugin.Prelude.OrdMap.{OrdMap, OrdSet, keys, contains, find, emplace, erase, range}
use janus_ftl_plugin.Rtp.Counter
use janus_ftl_plugin.Rtp.Counter.{ExtendedSequenceCounter, new_counter, extend}

abbrev pub buffer_size : ℕ
buffer_size = 2048

abbrev reorder_delta : ℕ
reorder_delta = 16

abbrev pub max_outstanding_nacks : ℕ
max_outstanding_nacks = 64

-- Two seconds.
abbrev pub nack_timeout : ℕ
nack_timeout = 2_000_000_000

-- `static_cast<rtp_sequence_num_t>`, also where a key of `nacks` is converted without a cast.
abbrev pub seq16 : ℕ → ℕ
seq16 n = n % 2 ^ 16

pub record Entry : Type 0 where
  pub extended_seq : ℕ
  pub received_at : ℕ

pub record OutstandingNack : Type 0 where
  pub extended_seq : ℕ
  pub sent_at : ℕ

pub record SequenceTracker : Type 0 where
  pub buffer : OrdMap Entry
  pub missing : OrdSet
  pub nacks : OrdMap OutstandingNack
  pub counter : ExtendedSequenceCounter
  pub initialized : Bool
  pub highest_received : ℕ
  pub highest_checked : ℕ
  pub received_count : ℕ
  pub missed_count : ℕ
  pub since_last_missed : ℕ
  pub nack_count : ℕ
  pub lost_count : ℕ

-- The member initializers.
abbrev pub new_tracker : SequenceTracker
new_tracker = record {
  buffer = [];
  missing = [];
  nacks = [];
  counter = new_counter;
  initialized = false;
  highest_received = 0;
  highest_checked = 0;
  received_count = 0;
  missed_count = 0;
  since_last_missed = 0;
  nack_count = 0;
  lost_count = 0;
}

pub missed_packet : ℕ → SequenceTracker → SequenceTracker
missed_packet s t = record t {
  missing = emplace s tt t.missing;
  missed_count = (t.missed_count + 1) % 2 ^ 64;
  lost_count = (t.lost_count + 1) % 2 ^ 64;
  since_last_missed = 0;
}

-- `for (s = …; s < end; ++s)` with `n` rounds left.
pub missed_packets : ℕ → ℕ → SequenceTracker → SequenceTracker
missed_packets zero s t = t
missed_packets (suc n) s t = missed_packets n (s + 1) (missed_packet s t)

-- `delta` is `end - begin` as a `uint64_t`; it is negative as an `int64_t` from 2 ^ 63 on.
pub check_gap : ℕ → ℕ → SequenceTracker → SequenceTracker
unfolding missed_packets missed_packet
check_gap begin end t =
    let delta = (end + 2 ^ 64 - begin) % 2 ^ 64 in
    if delta == 1
    then record t { since_last_missed = (t.since_last_missed + 1) % 2 ^ 64 }
    else if leb (2 ^ 63) delta
    then t
    else if ltb Counter.max_dropout delta
    then t
    else missed_packets (end - (begin + 1) % 2 ^ 64) ((begin + 1) % 2 ^ 64) t

-- The loop over the entries that came out of the reorder window, and the final gap check.
pub check_gaps : OrdMap Entry → ℕ → ℕ → SequenceTracker → SequenceTracker
check_gaps [] last upper t = check_gap last upper t
check_gaps ((_, e) ∷ es) last upper t =
    check_gaps es e.extended_seq upper (check_gap last e.extended_seq t)

-- The first two tests of `checkForMissing`.
unfoldable pub note_received : ℕ → SequenceTracker → SequenceTracker
note_received ext t = record t {
  highest_checked = if t.initialized then t.highest_checked else ext;
  initialized = true;
  highest_received = if ltb t.highest_received ext then ext else t.highest_received;
}

abbrev pub upper_bound : SequenceTracker → ℕ
upper_bound t =
    if ltb reorder_delta t.highest_received then t.highest_received - reorder_delta else 0

-- The rest of it.
pub check_up_to : ℕ → SequenceTracker → SequenceTracker
unfolding check_gaps check_gap
check_up_to upper t =
    let lower = (t.highest_checked + 1) % 2 ^ 64 in
    let checked = check_gaps (range lower upper t.buffer) t.highest_checked upper t in
    if leb upper lower then t else record checked { highest_checked = upper - 1 }

pub check_for_missing : ℕ → SequenceTracker → SequenceTracker
unfolding note_received check_up_to
check_for_missing ext t = let t' = note_received ext t in check_up_to (upper_bound t') t'

-- `buffer.begin()` is dropped, with what is noted of its number.
pub drop_oldest : OrdMap Entry → SequenceTracker → SequenceTracker
drop_oldest [] t = t
drop_oldest ((_, e) ∷ rest) t = record t {
  buffer = rest;
  missing = erase e.extended_seq t.missing;
  nacks = erase (seq16 e.extended_seq) t.nacks;
}

pub make_room : SequenceTracker → SequenceTracker
unfolding drop_oldest
make_room t = if leb buffer_size (length t.buffer) then drop_oldest t.buffer t else t

pub add_entry : ℕ → ℕ → SequenceTracker → SequenceTracker
add_entry ext now t = record t {
  missing = erase ext t.missing;
  nacks = erase (seq16 ext) t.nacks;
  buffer = emplace ext (record { extended_seq = ext; received_at = now }) t.buffer;
  received_count = (t.received_count + 1) % 2 ^ 64;
}

pub insert : ℕ → ℕ → SequenceTracker → SequenceTracker
unfolding make_room add_entry
insert ext now t = if contains ext t.buffer then t else add_entry ext now (make_room t)

pub resync : SequenceTracker → SequenceTracker
resync t = record t {
  initialized = false;
  buffer = [];
  missing = [];
  nacks = [];
  highest_received = 0;
  highest_checked = 0;
  since_last_missed = 0;
}

pub track_retransmit : OutstandingNack → ℕ → SequenceTracker → SequenceTracker
unfolding insert
track_retransmit nack now t =
    insert nack.extended_seq now (record t { lost_count = (t.lost_count + 2 ^ 64 - 1) % 2 ^ 64 })

-- The counter's step, and the resync that it may ask for.
pub extend_tracked : ℕ → SequenceTracker → SequenceTracker × ℕ
unfolding resync
extend_tracked seq t =
    let (c, r) = extend t.counter seq in
    let t' = record t { counter = c } in (if r.resync then resync t' else t', r.extended_seq)

pub track_new_packet : ℕ → ℕ → SequenceTracker → SequenceTracker × ℕ
unfolding extend_tracked insert check_for_missing
track_new_packet seq now t =
    let (t', ext) = extend_tracked seq t in (check_for_missing ext (insert ext now t'), ext)

-- The new state, and the extended number that `Track` returns.
pub track : ℕ → ℕ → SequenceTracker → SequenceTracker × ℕ
unfolding track_retransmit track_new_packet
track seq now t = elim (find seq t.nacks) [
  | none ↦ track_new_packet seq now t
  | some nack ↦
      (track_retransmit nack now (record t { nacks = erase seq t.nacks }), nack.extended_seq)
]

unfoldable pub mark_nack_sent : ℕ → ℕ → SequenceTracker → SequenceTracker
mark_nack_sent ext now t = record t {
  nack_count = (t.nack_count + 1) % 2 ^ 64;
  nacks = emplace (seq16 ext) (record { extended_seq = ext; sent_at = now }) t.nacks;
}

-- The loop that times out old NACKs: what is left of `nacks`, and of `missing`. The number erased
-- from `missing` is the key `it->first`.
pub expire : ℕ → OrdMap OutstandingNack → OrdSet → OrdMap OutstandingNack × OrdSet
expire now [] missing = ([], missing)
expire now ((k, n) ∷ ns) missing =
    let (ns', missing') =
      expire now ns (if leb nack_timeout (now - n.sent_at) then erase k missing else missing) in
    (if leb nack_timeout (now - n.sent_at) then ns' else (k, n) ∷ ns', missing')

pub expire_nacks : ℕ → SequenceTracker → SequenceTracker
unfolding expire
expire_nacks now t =
    if leb max_outstanding_nacks (length t.missing + length t.nacks)
    then (let (nacks, missing) = expire now t.nacks t.missing in
        record t { nacks = nacks; missing = missing })
    else t

-- The loop over `missing` from its last number, where `n` numbers are already in the result.
pub collect : List ℕ → OrdMap OutstandingNack → ℕ → List ℕ
collect [] nacks n = []
collect (s ∷ ss) nacks n =
    let known = contains (seq16 s) nacks in
    let rest = collect ss nacks (if known then n else n + 1) in
    if ltb (n + length nacks) max_outstanding_nacks then if known then rest else s ∷ rest else []

pub get_nack_list : ℕ → SequenceTracker → SequenceTracker × List ℕ
unfolding expire_nacks collect
get_nack_list now t =
    let t' = expire_nacks now t in (t', collect (reverse (keys t'.missing)) t'.nacks 0)

unfoldable pub get_received_count : SequenceTracker → ℕ
get_received_count t = t.received_count

get_missed_count : SequenceTracker → ℕ
get_missed_count t = t.missed_count

-- As the source has it: the count of missed packets.
unfoldable pub get_nack_count : SequenceTracker → ℕ
get_nack_count t = t.missed_count

unfoldable pub get_lost_count : SequenceTracker → ℕ
get_lost_count t = t.lost_count
