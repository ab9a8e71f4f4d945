-- ===== src/Rtp/Tracker/Asked.antt =====
-- The numbers that `GetNackList` of src/Rtp/SequenceTracker.cpp returns are missing, and nobody
-- has asked for them; the call keeps the tracker's invariant.
use janus_ftl_plugin.Prelude.{
  ℕ, ◌+◌, ◌^◌, ◌<◌, ◌≡◌, true, false, List, [], ◌∷◌, inl, inr, arith, leb, length, All, All-reverse,
  All-take, All-map, Bool-cases,
}
use janus_ftl_plugin.Prelude.OrdMap.{OrdMap, OrdSet, keys, contains}
use janus_ftl_plugin.Rtp.Tracker.{
  OutstandingNack, SequenceTracker, max_outstanding_nacks, seq16, expire, expire_nacks,
  get_nack_list,
}
use janus_ftl_plugin.Rtp.Tracker.Valid.{IsValid, Widths}
use janus_ftl_plugin.Rtp.Tracker.Nacks.{unasked, allowance, get_nack_list_lem, pending, expire_lem}

All-keys {κ} :
    (P : ℕ → Type κ) (m : OrdSet) → ((x : ℕ) → contains x m ≡ true → P x) → All P (keys m)
unfolding contains
All-keys P [] f = tt
All-keys P ((j, v) ∷ m) f = (f j (ground arith), All-keys P m (λ x h. f x (ground arith)))

All-unasked {κ} :
    (P : ℕ → Type κ) (ns : OrdMap OutstandingNack) (ss : List ℕ)
    → All P ss
    → All (λ s. P s × (contains (seq16 s) ns ≡ false)) (unasked ns ss)
All-unasked P ns [] h = tt
All-unasked P ns (s ∷ ss) h = elim (Bool-cases (contains (seq16 s) ns)) [
  | inl known ↦ rw known (All-unasked P ns ss h.1)
  | inr new ↦ rw new ((h.0, new), All-unasked P ns ss h.1)
]

-- Every number in the result is missing, and no NACK is outstanding for it.
pub get_nack_list-All :
    (now : ℕ) (t : SequenceTracker)
    → let (t', list) = get_nack_list now t in
      All (λ s. (contains s t'.missing ≡ true) × (contains (seq16 s) t'.nacks ≡ false)) list
get_nack_list-All now t =
    let t' = (get_nack_list now t).0 in
    let P : ℕ → Type 0 = λ s. contains s t'.missing ≡ true in
    rw (get_nack_list_lem now t).1 (
      All-take (λ s. P s × (contains (seq16 s) t'.nacks ≡ false)) (allowance t'.nacks) _
        (All-unasked P t'.nacks _ (All-reverse P _ (All-keys P t'.missing (λ x h. h)))))

pending-Widths : (now : ℕ) (ns : OrdMap OutstandingNack) → Widths ns → Widths (pending now ns)
pending-Widths now [] h = tt
pending-Widths now ((k, n) ∷ ns) h = ground (arith, pending-Widths now ns h.2)

expire-missing :
    (now x : ℕ) (ns : OrdMap OutstandingNack) (missing : OrdSet)
    → contains x (expire now ns missing).1 ≡ true
    → contains x missing ≡ true
expire-missing now x ns missing h = grind (arith, (expire_lem now x ns missing).1)

expired-IsValid :
    (now : ℕ) (t : SequenceTracker)
    → IsValid t
    → IsValid (record t {
      nacks = (expire now t.nacks t.missing).0;
      missing = (expire now t.nacks t.missing).1;
    })
expired-IsValid now t v = record {
  ordered = record {
    ascends = v.ordered.ascends;
    keyed = v.ordered.keyed;
    checked_width = v.ordered.checked_width;
    received_width = v.ordered.received_width;
  };
  disjoint = λ x h. grind (arith, (expire_lem now x t.nacks t.missing).1, v.disjoint x h);
  missing_width = λ x h. v.missing_width x (expire-missing now x t.nacks t.missing h);
  room = v.room;
  widths = rw (expire_lem now 0 t.nacks t.missing).0 (pending-Widths now t.nacks v.widths);
  counts = v.counts;
}

expire_nacks-IsValid : (now : ℕ) (t : SequenceTracker) → IsValid t → IsValid (expire_nacks now t)
unfolding expire_nacks
expire_nacks-IsValid now t v =
    elim (Bool-cases (leb max_outstanding_nacks (length t.missing + length t.nacks))) [
      | inl full ↦ rw full (expired-IsValid now t v)
      | inr free ↦ rw free v
    ]

-- Listing the numbers to ask for keeps the invariant, and they have the width of extended
-- numbers.
pub get_nack_list-IsValid :
    (now : ℕ) (t : SequenceTracker)
    → IsValid t
    → IsValid (get_nack_list now t).0 × All (λ s. s < 2 ^ 32) (get_nack_list now t).1
get_nack_list-IsValid now t v =
    let t' = (get_nack_list now t).0 in
    let v' : IsValid t' = rw (get_nack_list_lem now t).0 (expire_nacks-IsValid now t v) in
    (
      v',
      All-map (λ s. (contains s t'.missing ≡ true) × (contains (seq16 s) t'.nacks ≡ false))
          (λ s. s < 2 ^ 32) (get_nack_list now t).1 (λ s h. v'.missing_width s h.0)
          (get_nack_list-All now t),
    )
