-- ===== src/Rtp/Counter/Follow.antt =====
-- The counter (src/Rtp/ExtendedSequenceCounter.cpp) against the unbounded sequence that it
-- extends: `Follows c n` says that the newest packet has position `n`.
use janus_ftl_plugin.Prelude.{
  ℕ, ◌+◌, ◌%◌, ◌^◌, ◌≤◌, ◌<◌, ◌≡◌, refl, true, false, List, [], ◌∷◌, map, arith, All,
}
use janus_ftl_plugin.Prelude.Bits.{bit_or-low16}
use janus_ftl_plugin.Rtp.Counter.{
  rtp_seq_mod, max_dropout, ExtendedSequenceCounter, new_counter, extend,
}

-- Past probation, and `cycles | maxSeq` is the position up to the width of `cycles`.
pub record Follows (c : ExtendedSequenceCounter) (n : ℕ) : Type 0 where
  pub started : c.initialized ≡ true
  pub proven : c.probation ≡ 0
  pub newest : c.max_seq ≡ n % rtp_seq_mod
  pub unwrapped : c.cycles + c.max_seq ≡ n % 2 ^ 32

-- A packet at most `max_dropout` past the newest one is extended to its position.
extend-Follows :
    (c : ExtendedSequenceCounter) (n d : ℕ)
    → Follows c n
    → d ≤ max_dropout
    → let (c', r) = extend c ((n + d) % rtp_seq_mod) in
      Follows c' (n + d)
      × (r.extended_seq ≡ (n + d) % 2 ^ 32)
      × (r.valid ≡ true)
      × (r.resync ≡ false)
      × (r.stable ≡ true)
unfolding extend
extend-Follows c n d f h = ground (
  arith,
  bit_or-low16 c.cycles ((n + d) % rtp_seq_mod),
  bit_or-low16 ((c.cycles + rtp_seq_mod) % 2 ^ 32) ((n + d) % rtp_seq_mod),
)

-- The positions of packets that follow position `n` by the given steps.
abbrev pub positions : ℕ → List ℕ → List ℕ
positions n [] = []
positions n (d ∷ ds) = (n + d) ∷ positions (n + d) ds

-- The extended numbers of a run of packets.
pub extend_all : ExtendedSequenceCounter → List ℕ → List ℕ
extend_all c [] = []
extend_all c (s ∷ ss) = let (c', r) = extend c s in r.extended_seq ∷ extend_all c' ss

-- A stream in order, however long and however often its numbers wrap, is extended to its
-- positions (modulo 2 ^ 32) as long as each gap is at most `max_dropout`.
extend_all-positions :
    (c : ExtendedSequenceCounter) (n : ℕ) (ds : List ℕ)
    → Follows c n
    → All (λ d. d ≤ max_dropout) ds
    → extend_all c (map (λ p. p % rtp_seq_mod) (positions n ds))
      ≡ map (λ p. p % 2 ^ 32) (positions n ds)
unfolding extend_all
extend_all-positions c n [] f h = refl
extend_all-positions c n (d ∷ ds) f h =
    let (follows, e, _, _, _) = extend-Follows c n d f h.0 in
    rw (e, extend_all-positions (extend c ((n + d) % rtp_seq_mod)).0 (n + d) ds follows h.1)

-- Three consecutive packets without a wrap take a new counter out of probation, and each is
-- extended to itself.
startup-Follows :
    (n : ℕ)
    → n + 2 < rtp_seq_mod
    → let (c, r) = extend new_counter n in
      let (c', r') = extend c (n + 1) in
      let (c'', r'') = extend c' (n + 2) in
      Follows c'' (n + 2)
      × (r.extended_seq ≡ n)
      × (r'.extended_seq ≡ n + 1)
      × (r''.extended_seq ≡ n + 2)
unfolding extend
startup-Follows n h =
    ground (arith, bit_or-low16 0 n, bit_or-low16 0 (n + 1), bit_or-low16 0 (n + 2))

-- A stream from a new counter whose first three packets are consecutive and do not wrap, followed by
-- gaps of at most `max_dropout`: every packet is extended to its position modulo 2 ^ 32, through any
-- number of wraps after those three.
pub extend_all-new_counter :
    (n : ℕ) (ds : List ℕ)
    → n + 2 < rtp_seq_mod
    → All (λ d. d ≤ max_dropout) ds
    → extend_all new_counter
        (n ∷ (n + 1) ∷ (n + 2) ∷ map (λ p. p % rtp_seq_mod) (positions (n + 2) ds))
      ≡ n ∷ (n + 1) ∷ (n + 2) ∷ map (λ p. p % 2 ^ 32) (positions (n + 2) ds)
unfolding extend_all
extend_all-new_counter n ds h gaps =
    let (follows, e, e', e'') = startup-Follows n h in
    rw (e, e', e'', extend_all-positions _ (n + 2) ds follows gaps)
