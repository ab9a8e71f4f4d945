-- ===== src/Rtp/Counter.antt =====
-- src/Rtp/ExtendedSequenceCounter.{h,cpp} and RTP_SEQ_MOD of src/Rtp/Types.h: the extension of
-- 16-bit RTP sequence numbers. Each field is a number below its C++ width, and each operation
-- that can wrap is reduced to that width.
pub mod Follow
pub mod Wrap
use janus_ftl_plugin.Prelude.{
  ℕ, ◌+◌, ◌-◌, ◌%◌, ◌^◌, Bool, true, false, bit_and, bit_or, ltb, leb, ◌==◌, if◌then◌else◌,
}

abbrev pub rtp_seq_mod : ℕ
rtp_seq_mod = 65536

abbrev pub max_dropout : ℕ
max_dropout = 3000

abbrev pub max_misorder : ℕ
max_misorder = 100

abbrev min_sequential : ℕ
min_sequential = 2

pub record ExtendResult : Type 0 where
  pub extended_seq : ℕ
  pub valid : Bool
  pub resync : Bool
  pub stable : Bool

pub record ExtendedSequenceCounter : Type 0 where
  pub max_seq : ℕ
  pub cycles : ℕ
  pub base_seq : ℕ
  pub bad_seq : ℕ
  pub probation : ℕ
  pub received_prior : ℕ
  pub expected_prior : ℕ
  pub initialized : Bool

-- The member initializers.
abbrev pub new_counter : ExtendedSequenceCounter
new_counter = record {
  max_seq = 0;
  cycles = 0;
  base_seq = 0;
  bad_seq = rtp_seq_mod + 1;
  probation = min_sequential;
  received_prior = 0;
  expected_prior = 0;
  initialized = false;
}

unfoldable reset : ExtendedSequenceCounter → ℕ → ExtendedSequenceCounter
reset c seq = record c {
  base_seq = seq;
  max_seq = seq;
  bad_seq = rtp_seq_mod + 1;
  cycles = 0;
  received_prior = 0;
  expected_prior = 0;
}

-- `extendedSeq = cycles | seq` with the flags of the branch.
abbrev pub result : ExtendedSequenceCounter → ℕ → Bool → Bool → Bool → ExtendResult
result c seq valid resync stable = record {
  extended_seq = bit_or c.cycles seq;
  valid = valid;
  resync = resync;
  stable = stable;
}

-- The branch for `probation > 0`; `seq == maxSeq + 1` is compared as `int`, without a wrap.
unfoldable extend_probation : ExtendedSequenceCounter → ℕ → ExtendedSequenceCounter × ExtendResult
unfolding reset
extend_probation c seq =
    if seq == c.max_seq + 1
    then (let c' = record c { probation = c.probation - 1; max_seq = seq } in
        if c'.probation == 0
        then (reset c' seq, result (reset c' seq) seq true false false)
        else (c', result c' seq true false true))
    else (let c' = record c { probation = min_sequential - 1; max_seq = seq } in
        (c', result c' seq true false true))

-- The branch for a permissible gap; `cycles` is a `uint32_t`.
unfoldable extend_in_order : ExtendedSequenceCounter → ℕ → ExtendedSequenceCounter × ExtendResult
extend_in_order c seq =
    let c' = record c {
      cycles = if ltb seq c.max_seq then (c.cycles + rtp_seq_mod) % 2 ^ 32 else c.cycles;
      max_seq = seq;
    } in
    (c', result c' seq true false true)

-- The branch for a very large jump.
unfoldable extend_jump : ExtendedSequenceCounter → ℕ → ExtendedSequenceCounter × ExtendResult
unfolding reset
extend_jump c seq =
    if seq == c.bad_seq
    then (reset c seq, result (reset c seq) seq false true false)
    else (let c' = record c { bad_seq = bit_and (seq + 1) (rtp_seq_mod - 1) } in
        (c', result c' seq false false true))

pub extend : ExtendedSequenceCounter → ℕ → ExtendedSequenceCounter × ExtendResult
unfolding reset extend_probation extend_in_order extend_jump
extend c seq =
    let udelta = (seq + rtp_seq_mod - c.max_seq) % rtp_seq_mod in
    if c.initialized
    then if ltb 0 c.probation
      then extend_probation c seq
      else if leb udelta max_dropout
      then extend_in_order c seq
      else if leb udelta (rtp_seq_mod - max_misorder)
      then extend_jump c seq
      else (c, result c seq true false true)
    else (let c' = record (reset c seq) { initialized = true } in
        (c', result c' seq true false false))

-- `initialize`, which nothing calls: `maxSeq = seq - 1` is a `uint16_t`.
unfoldable initialize : ExtendedSequenceCounter → ℕ → ExtendedSequenceCounter
unfolding reset
initialize c seq = record (reset c seq) {
  base_seq = seq;
  max_seq = (seq + rtp_seq_mod - 1) % rtp_seq_mod;
  initialized = true;
}
