-- ===== src/Server/Ports.antt =====
-- `reserveMediaPort` of src/FtlServer.cpp: which port it takes.
use janus_ftl_plugin.Prelude.{
  ℕ, zero, suc, ◌+◌, ◌-◌, ◌%◌, ◌^◌, ◌≤◌, ◌<◌, ◌≡◌, refl, ◌⊎◌, true, false, Option, none, some, inl,
  inr, arith, leb, ◌==◌, Bool-cases,
}
use janus_ftl_plugin.Prelude.OrdMap.{OrdSet, contains}
use janus_ftl_plugin.Server.{FtlServer, find_media_port, reserve_media_port}

-- The loop ends with the least free number from `i` up to `max`, or with an error when there is
-- none.
abbrev pub IsLeastFree : ℕ → ℕ → OrdSet → Option (Option ℕ) → Type 0
IsLeastFree i max used r =
    ((r ≡ some none) × ((q : ℕ) → i ≤ q → q ≤ max → contains q used ≡ true))
    ⊎ ((p : ℕ) × (r ≡ some (some p))
        × (i ≤ p)
        × (p ≤ max)
        × (contains p used ≡ false)
        × ((q : ℕ) → i ≤ q → q < p → contains q used ≡ true))

used_from :
    (i q : ℕ) (used : OrdSet)
    → contains i used ≡ true
    → i ≤ q
    → (suc i ≤ q → contains q used ≡ true)
    → contains q used ≡ true
used_from i q used here le above = grind arith

IsLeastFree-suc :
    (i max : ℕ) (used : OrdSet) (r : Option (Option ℕ))
    → contains i used ≡ true
    → i ≤ max
    → IsLeastFree (suc i) max used r
    → IsLeastFree i max used r
IsLeastFree-suc i max used r here le (inl (e, all)) =
    inl (e, λ q ge top. used_from i q used here ge (λ h. all q h top))
IsLeastFree-suc i max used r here le (inr (p, e, ge, top, free, all)) =
    inr
      (p, e, omega arith, top, free, λ q h lt. used_from i q used here h (λ above. all q above lt))

next_port : (i max : ℕ) → max < 2 ^ 16 - 1 → i ≤ max → (i + 1) % 2 ^ 16 ≡ suc i
next_port i max small le = omega arith

find_media_port-IsLeastFree :
    (fuel i max : ℕ) (used : OrdSet)
    → max < 2 ^ 16 - 1
    → max + 1 < i + fuel
    → i ≤ max + 1
    → IsLeastFree i max used (find_media_port fuel i max used)
unfolding find_media_port
find_media_port-IsLeastFree zero i max used small enough start = absurd (omega arith)
find_media_port-IsLeastFree (suc fuel) i max used small enough start =
    elim (Bool-cases (leb i max)) [
      | inr above ↦ rw above (inl (refl, λ q ge le. absurd (ground arith)))
      | inl le ↦ elim (Bool-cases (contains i used)) [
        | inl taken ↦
            rw (le, taken, next_port i max small (ground arith))
              (IsLeastFree-suc i max used (find_media_port fuel (suc i) max used) taken
                (ground arith)
                (find_media_port-IsLeastFree fuel (suc i) max used small (omega arith)
                  (ground arith)))
        | inr free ↦
            rw (le, free)
              (inr (i, refl, omega arith, ground arith, free, λ q ge lt. absurd (omega arith)))
      ]
    ]

-- With a highest port below 65,535 and a lowest that is not above it, the search ends: with the
-- least port of the range that is not in use, or with an error when all of the range is.
pub reserve_media_port-IsLeastFree :
    (s : FtlServer)
    → s.max_media_port < 2 ^ 16 - 1
    → s.min_media_port ≤ s.max_media_port
    → IsLeastFree s.min_media_port s.max_media_port s.used_media_ports (reserve_media_port s)
unfolding reserve_media_port
reserve_media_port-IsLeastFree s small le =
    find_media_port-IsLeastFree (2 ^ 16) s.min_media_port s.max_media_port s.used_media_ports small
      (omega arith) (omega arith)

find_media_port_first :
    (fuel : ℕ) (used : OrdSet)
    → 0 < fuel
    → contains 0 used ≡ false
    → find_media_port fuel 0 (2 ^ 16 - 1) used ≡ some (some 0)
unfolding find_media_port
find_media_port_first zero used h free = absurd (omega arith)
find_media_port_first (suc fuel) used h free = ground arith

find_media_port_wraps :
    (fuel i : ℕ) (used : OrdSet)
    → i < 2 ^ 16
    → 2 ^ 16 < i + fuel
    → ((q : ℕ) → i ≤ q → q < 2 ^ 16 → contains q used ≡ true)
    → contains 0 used ≡ false
    → find_media_port fuel i (2 ^ 16 - 1) used ≡ some (some 0)
unfolding find_media_port
find_media_port_wraps zero i used bound enough taken free = absurd (omega arith)
find_media_port_wraps (suc fuel) i used bound enough taken free =
    elim (Bool-cases (i == 2 ^ 16 - 1)) [
      | inl last ↦ ground (arith, taken i, find_media_port_first fuel used (ground arith) free)
      | inr more ↦ ground (
        arith,
        taken i,
        find_media_port_wraps fuel (suc i) used (ground arith) (ground arith)
            (λ q ge. taken q (omega arith)) free,
      )
    ]

-- With 65,535 as the highest port the loop's index wraps: when the lowest port is above 0, the ports
-- of the range are all in use, and port 0 is not, port 0 is reserved, which is below the range.
pub reserve_media_port_wraps :
    (s : FtlServer)
    → s.max_media_port ≡ 2 ^ 16 - 1
    → 0 < s.min_media_port
    → s.min_media_port < 2 ^ 16
    → ((q : ℕ) → s.min_media_port ≤ q → q < 2 ^ 16 → contains q s.used_media_ports ≡ true)
    → contains 0 s.used_media_ports ≡ false
    → reserve_media_port s ≡ some (some 0)
unfolding reserve_media_port
reserve_media_port_wraps s max above min taken free = rw max (
    find_media_port_wraps (2 ^ 16) s.min_media_port s.used_media_ports min (omega arith) taken free)
