-- ===== src/Media/Rolling.antt =====
-- The rolling byte counts of src/FtlMediaConnection.cpp.
use janus_ftl_plugin.Prelude.{
  ℕ, ◌-◌, ◌/◌, ◌^◌, ◌≤◌, ◌<◌, ◌≡◌, refl, ap, sym, false, inl, inr, [], ◌∷◌, arith, if◌then◌else◌,
  Bool-cases,
}
use janus_ftl_plugin.Prelude.OrdMap.{OrdMap, Above, Ascends, Above-Ascends}
use janus_ftl_plugin.Media.{is_too_old, trim}

-- The counts of the times that are not too old.
abbrev recent : ℕ → ℕ → OrdMap ℕ → OrdMap ℕ
recent avg now [] = []
recent avg now ((time, bytes) ∷ m) =
    if is_too_old avg now time then recent avg now m else (time, bytes) ∷ recent avg now m

-- The times lie before `now`, by less than 2 ^ 32 milliseconds.
abbrev Past : ℕ → OrdMap ℕ → Type 0
Past now [] = Unit {0}
Past now ((time, _) ∷ m) = (time ≤ now) × ((now - time) / 1_000_000 < 2 ^ 32) × Past now m

recent-Above :
    (avg now first : ℕ) (m : OrdMap ℕ)
    → (now - first) / 1_000_000 < 2 ^ 32
    → Above first m
    → Past now m
    → is_too_old avg now first ≡ false
    → recent avg now m ≡ m
recent-Above avg now first [] w a p young = refl
recent-Above avg now first ((time, bytes) ∷ m) w a p young =
    let young' : is_too_old avg now time ≡ false = ground arith in
    rw young'
      (ap (λ (l : OrdMap ℕ). (time, bytes) ∷ l) (recent-Above avg now time m p.1 a.1 p.2 young'))

-- The loop stops at the first time that is recent enough, and yet leaves exactly the recent ones:
-- the times ascend.
trim-recent :
    (avg now : ℕ) (m : OrdMap ℕ) → Ascends m → Past now m → trim avg now m ≡ recent avg now m
unfolding trim
trim-recent avg now [] a p = refl
trim-recent avg now ((time, bytes) ∷ m) a p = elim (Bool-cases (is_too_old avg now time)) [
  | inl old ↦ rw old (trim-recent avg now m (Above-Ascends time m a) p.2)
  | inr young ↦
      rw young (
        ap (λ (l : OrdMap ℕ). (time, bytes) ∷ l)
          (sym (recent-Above avg now time m p.1 a p.2 young)))
]
