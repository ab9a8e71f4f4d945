-- ===== src/Rtp/Tracker/Nacks.antt =====
-- `GetNackList` of src/Rtp/SequenceTracker.cpp: which numbers are asked for, and what times out.
use janus_ftl_plugin.Prelude.{
  ℕ, zero, suc, ◌+◌, ◌-◌, ◌^◌, ◌≤◌, ◌<◌, ◌≡◌, refl, Bool, true, false, inl, inr, List, [], ◌∷◌,
  reverse, arith, leb, ◌==◌, if◌then◌else◌, length, take, Bool-cases,
}
use janus_ftl_plugin.Prelude.OrdMap.{OrdMap, OrdSet, keys, contains, erase, contains-erase}
use janus_ftl_plugin.Rtp.Tracker.{
  OutstandingNack, SequenceTracker, max_outstanding_nacks, nack_timeout, seq16, expire,
  expire_nacks, collect, get_nack_list,
}

-- The numbers that no NACK is outstanding for.
abbrev pub unasked : OrdMap OutstandingNack → List ℕ → List ℕ
unasked ns [] = []
unasked ns (s ∷ ss) = if contains (seq16 s) ns then unasked ns ss else s ∷ unasked ns ss

-- How many more NACKs may be sent.
abbrev pub allowance : OrdMap OutstandingNack → ℕ
allowance ns = max_outstanding_nacks - length ns

collect-take :
    (ss : List ℕ) (ns : OrdMap OutstandingNack) (n k : ℕ)
    → k ≡ max_outstanding_nacks - (n + length ns)
    → collect ss ns n ≡ take k (unasked ns ss)
unfolding collect
collect-take [] ns n zero e = refl
collect-take [] ns n (suc k) e = refl
collect-take (s ∷ ss) ns n zero e = ground arith
collect-take (s ∷ ss) ns n (suc k) e = elim (Bool-cases (contains (seq16 s) ns)) [
  | inl known ↦ rw known (ground (arith, collect-take ss ns n (suc k) e))
  | inr new ↦ rw new (ground (arith, collect-take ss ns (n + 1) k))
]

-- The result is the newest missing numbers that no NACK is outstanding for, newest first, as
-- many as the limit of outstanding NACKs leaves room for; all of it after the timeouts.
pub get_nack_list_lem :
    (now : ℕ) (t : SequenceTracker)
    → let (t', list) = get_nack_list now t in
      (t' ≡ expire_nacks now t)
      × (list ≡ take (allowance t'.nacks) (unasked t'.nacks (reverse (keys t'.missing))))
unfolding get_nack_list
get_nack_list_lem now t =
    let ns = (expire_nacks now t).nacks in (refl, collect-take _ ns 0 (allowance ns) (omega arith))

-- The NACKs that have not timed out.
abbrev pub pending : ℕ → OrdMap OutstandingNack → OrdMap OutstandingNack
pending now [] = []
pending now ((k, n) ∷ ns) =
    if leb nack_timeout (now - n.sent_at) then pending now ns else (k, n) ∷ pending now ns

-- The keys of the NACKs that have.
abbrev timed_out : ℕ → OrdMap OutstandingNack → List ℕ
timed_out now [] = []
timed_out now ((k, n) ∷ ns) =
    if leb nack_timeout (now - n.sent_at) then k ∷ timed_out now ns else timed_out now ns

abbrev elem : ℕ → List ℕ → Bool
elem x [] = false
elem x (k ∷ ks) = if x == k then true else elem x ks

-- The loop removes exactly the NACKs that have timed out, and from the missing numbers exactly
-- the 16-bit keys of those.
pub expire_lem :
    (now x : ℕ) (ns : OrdMap OutstandingNack) (missing : OrdSet)
    → ((expire now ns missing).0 ≡ pending now ns)
      × (contains x (expire now ns missing).1
          ≡ (if elem x (timed_out now ns) then false else contains x missing))
unfolding expire
expire_lem now x [] missing = (refl, refl)
expire_lem now x ((k, n) ∷ ns) missing = elim (Bool-cases (leb nack_timeout (now - n.sent_at))) [
  | inl old ↦
      rw old (ground (arith, expire_lem now x ns (erase k missing), contains-erase k x missing))
  | inr young ↦ rw young (ground (arith, expire_lem now x ns missing))
]

abbrev Keys16 : OrdMap OutstandingNack → Type 0
Keys16 [] = Unit {0}
Keys16 ((k, n) ∷ ns) = (k < 2 ^ 16) × Keys16 ns

timed_out_wrapped :
    (now x : ℕ) (ns : OrdMap OutstandingNack)
    → Keys16 ns
    → 2 ^ 16 ≤ x
    → elem x (timed_out now ns) ≡ false
timed_out_wrapped now x [] w h = refl
timed_out_wrapped now x ((k, n) ∷ ns) w h = ground (arith, timed_out_wrapped now x ns w.1 h)

-- A missing number from 2 ^ 16 on stays missing when its NACK times out: what the timeout erases
-- from the missing numbers is the 16-bit key.
expire_nacks_wrapped :
    (now x : ℕ) (t : SequenceTracker)
    → Keys16 t.nacks
    → 2 ^ 16 ≤ x
    → contains x (expire_nacks now t).missing ≡ contains x t.missing
unfolding expire_nacks
expire_nacks_wrapped now x t w h =
    ground (arith, expire_lem now x t.nacks t.missing, timed_out_wrapped now x t.nacks w h)
