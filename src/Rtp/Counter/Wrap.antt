-- ===== src/Rtp/Counter/Wrap.antt =====
-- The counter (src/Rtp/ExtendedSequenceCounter.cpp) outside the in-order path: packets that
-- arrive late, jumps, and what holds in every state.
use janus_ftl_plugin.Prelude.{ℕ, ◌+◌, ◌-◌, ◌%◌, ◌^◌, ◌≤◌, ◌<◌, ◌≡◌, ◌≢◌, ◌↔◌, true, false, arith}
use janus_ftl_plugin.Prelude.Bits.{bit_or-low16, bit_and-low16}
use janus_ftl_plugin.Rtp.Counter.{
  rtp_seq_mod, max_dropout, max_misorder, ExtendedSequenceCounter, extend,
}
use janus_ftl_plugin.Rtp.Counter.Follow.{Follows}

-- The ranges that the fields keep: whole cycles, and 16-bit numbers.
pub record IsValid (c : ExtendedSequenceCounter) : Type 0 where
  pub whole_cycles : c.cycles % rtp_seq_mod ≡ 0
  pub cycles_width : c.cycles < 2 ^ 32
  pub max_seq_width : c.max_seq < rtp_seq_mod

-- In every state, on every branch, the low 16 bits of the extended number are the packet's
-- number, the extended number fits in 32 bits, and the ranges are kept.
pub extend-IsValid :
    (c : ExtendedSequenceCounter) (seq : ℕ)
    → IsValid c
    → seq < rtp_seq_mod
    → let (c', r) = extend c seq in
      IsValid c' × (r.extended_seq % rtp_seq_mod ≡ seq) × (r.extended_seq < 2 ^ 32)
unfolding extend
extend-IsValid c seq v h = ground (
  arith,
  bit_or-low16 0 seq,
  bit_or-low16 c.cycles seq,
  bit_or-low16 ((c.cycles + rtp_seq_mod) % 2 ^ 32) seq,
)

-- A packet up to 99 places late is extended to its position when the numbers did not wrap in
-- between, and the counter stays as it is.
extend_late :
    (c : ExtendedSequenceCounter) (n k : ℕ)
    → Follows c n
    → 0 < k
    → k < max_misorder
    → k ≤ n % rtp_seq_mod
    → let (c', r) = extend c ((n - k) % rtp_seq_mod) in
      (c' ≡ c) × (r.extended_seq ≡ (n - k) % 2 ^ 32) × (r.resync ≡ false)
unfolding extend
extend_late c n k f lo hi near = ground (arith, bit_or-low16 c.cycles ((n - k) % rtp_seq_mod))

-- The distance of a packet ahead of the newest one, modulo 2 ^ 16, when it is a very large jump.
abbrev IsJump : ExtendedSequenceCounter → ℕ → Type 0
IsJump c seq =
    (max_dropout < (seq + rtp_seq_mod - c.max_seq) % rtp_seq_mod)
    × ((seq + rtp_seq_mod - c.max_seq) % rtp_seq_mod ≤ rtp_seq_mod - max_misorder)

-- The counter asks for a resync exactly when a started counter past probation sees a very large
-- jump to the number that it noted down as bad.
extend-resync_iff :
    (c : ExtendedSequenceCounter) (seq : ℕ)
    → ((extend c seq).1.resync ≡ true)
      ↔ ((c.initialized ≡ true) × (c.probation ≡ 0) × IsJump c seq × (seq ≡ c.bad_seq))
unfolding extend
extend-resync_iff c seq = ground arith

-- One stray packet after a jump is reported as not valid and leaves the position as it was.
extend_stray :
    (c : ExtendedSequenceCounter) (n seq : ℕ)
    → Follows c n
    → IsJump c seq
    → seq ≢ c.bad_seq
    → let (c', r) = extend c seq in Follows c' n × (r.valid ≡ false) × (r.resync ≡ false)
unfolding extend
extend_stray c n seq f j fresh = ground arith

-- Two consecutive packets after a jump restart the counter: the second is extended to itself,
-- asks for a resync, and is the new position.
extend_restart :
    (c : ExtendedSequenceCounter) (n seq : ℕ)
    → Follows c n
    → IsJump c seq
    → IsJump c (seq + 1)
    → seq ≢ c.bad_seq
    → seq + 1 < rtp_seq_mod
    → let (c', r) = extend c seq in
      let (c'', r') = extend c' (seq + 1) in
      Follows c'' (seq + 1) × (r.resync ≡ false) × (r'.resync ≡ true) × (r'.extended_seq ≡ seq + 1)
unfolding extend
extend_restart c n seq f j j' fresh h =
    ground (arith, bit_and-low16 (seq + 1), bit_or-low16 0 (seq + 1))
