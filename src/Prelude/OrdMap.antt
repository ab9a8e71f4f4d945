-- ===== src/Prelude/OrdMap.antt =====
-- `std::map` with integer keys, as its entries in ascending order of key; `std::set` is a map to
-- `Unit`. The laws are stated for every list of entries; order is the predicate `Above`.
pub mod Update
use Prim.Native.Nat.{ℕ, suc, ◌≤◌, ◌<◌}
use mathlib.Core.Path.{◌≡◌, subst}
use mathlib.Core.Logic.{inl, inr}
use mathlib.Core.Bool.{Bool, true, false}
use mathlib.Core.Option.{Option, none, some}
use mathlib.Core.List.{List, [], ◌∷◌, map}
use native.Mathlib.Omega.{arith}
use janus_ftl_plugin.Prelude.Tests.{ltb, leb, ◌==◌, if◌then◌else◌, Bool-cases}
use janus_ftl_plugin.Prelude.Lists.{length}

abbrev pub OrdMap {ℓ} : Type ℓ → Type ℓ
OrdMap V = List (ℕ × V)

abbrev pub OrdSet : Type 0
OrdSet = OrdMap (Unit {0})

module _ {ℓ} {V : Type ℓ} where
  abbrev pub keys : OrdMap V → List ℕ
  keys = map (λ e. e.0)

  unfoldable pub contains : ℕ → OrdMap V → Bool
  contains k [] = false
  contains k ((j, v) ∷ m) = if k == j then true else contains k m

  unfoldable pub find : ℕ → OrdMap V → Option V
  find k [] = none
  find k ((j, v) ∷ m) = if k == j then some v else find k m

  -- An entry that is there already is left as it is.
  unfoldable pub emplace : ℕ → V → OrdMap V → OrdMap V
  emplace k v [] = (k, v) ∷ []
  emplace k v ((j, w) ∷ m) =
      let rest = emplace k v m in
      if ltb k j then (k, v) ∷ (j, w) ∷ m else if k == j then (j, w) ∷ m else (j, w) ∷ rest

  -- A write through a reference to the value at a key; nothing changes where there is none.
  unfoldable pub assign : ℕ → V → OrdMap V → OrdMap V
  assign k v [] = []
  assign k v ((j, w) ∷ m) = if k == j then (j, v) ∷ m else (j, w) ∷ assign k v m

  unfoldable pub erase : ℕ → OrdMap V → OrdMap V
  erase k [] = []
  erase k ((j, v) ∷ m) = let rest = erase k m in if k == j then rest else (j, v) ∷ rest

  -- The entries from `lower_bound(lo)` up to `upper_bound(hi)`.
  unfoldable pub range : ℕ → ℕ → OrdMap V → OrdMap V
  range lo hi [] = []
  range lo hi ((j, v) ∷ m) =
      let rest = range lo hi m in
      if ltb j lo then rest else if leb j hi then (j, v) ∷ rest else rest

  -- The keys ascend strictly, and all are above `lo`.
  abbrev pub Above : ℕ → OrdMap V → Type 0
  Above lo [] = Unit {0}
  Above lo ((j, v) ∷ m) = (lo < j) × Above j m

  -- The keys ascend strictly.
  abbrev pub Ascends : OrdMap V → Type 0
  Ascends [] = Unit {0}
  Ascends ((j, v) ∷ m) = Above j m

  pub Above-weaken : {a b : ℕ} (m : OrdMap V) → a ≤ b → Above b m → Above a m
  Above-weaken [] h u = tt
  Above-weaken ((j, v) ∷ m) h u = (omega arith, u.1)

  pub Above-Ascends : (a : ℕ) (m : OrdMap V) → Above a m → Ascends m
  Above-Ascends a [] u = tt
  Above-Ascends a ((j, v) ∷ m) u = u.1

  pub Above-contains : (a k : ℕ) (m : OrdMap V) → Above a m → contains k m ≡ true → a < k
  unfolding contains
  Above-contains a k [] u h = absurd (grind arith)
  Above-contains a k ((j, v) ∷ m) u h = ground (arith, Above-contains j k m u.1)

  pub contains-emplace :
      (k j : ℕ) (v : V) (m : OrdMap V)
      → contains j (emplace k v m) ≡ (if j == k then true else contains j m)
  unfolding contains emplace
  contains-emplace k j v [] = ground arith
  contains-emplace k j v ((i, w) ∷ m) = ground (arith, contains-emplace k j v m)

  pub contains-erase :
      (k j : ℕ) (m : OrdMap V) → contains j (erase k m) ≡ (if j == k then false else contains j m)
  unfolding contains erase
  contains-erase k j [] = ground arith
  contains-erase k j ((i, w) ∷ m) = ground (arith, contains-erase k j m)

  pub contains-range :
      (lo hi k : ℕ) (m : OrdMap V)
      → contains k (range lo hi m)
        ≡ (if ltb k lo then false else if leb k hi then contains k m else false)
  unfolding contains range
  contains-range lo hi k [] = ground arith
  contains-range lo hi k ((i, w) ∷ m) = ground (arith, contains-range lo hi k m)

  pub find-contains : (k : ℕ) (v : V) (m : OrdMap V) → find k m ≡ some v → contains k m ≡ true
  unfolding find contains
  find-contains k v [] e = ground arith
  find-contains k v ((j, w) ∷ m) e = ground (arith, find-contains k v m)

  pub length-emplace : (k : ℕ) (v : V) (m : OrdMap V) → length (emplace k v m) ≤ suc (length m)
  unfolding emplace
  length-emplace k v [] = omega arith
  length-emplace k v ((i, w) ∷ m) = ground (arith, length-emplace k v m)

  pub length-erase : (k : ℕ) (m : OrdMap V) → length (erase k m) ≤ length m
  unfolding erase
  length-erase k [] = omega arith
  length-erase k ((i, w) ∷ m) = ground (arith, length-erase k m)

  pub length-erase_mem :
      (k : ℕ) (m : OrdMap V) → contains k m ≡ true → suc (length (erase k m)) ≤ length m
  unfolding contains erase
  length-erase_mem k [] h = ground arith
  length-erase_mem k ((i, w) ∷ m) h = ground (arith, length-erase k m, length-erase_mem k m)

  emplace-Above : (a k : ℕ) (v : V) (m : OrdMap V) → a < k → Above a m → Above a (emplace k v m)
  unfolding emplace
  emplace-Above a k v [] h u = (h, tt)
  emplace-Above a k v ((i, w) ∷ m) h u = ground (arith, emplace-Above i k v m)

  pub emplace-Ascends : (k : ℕ) (v : V) (m : OrdMap V) → Ascends m → Ascends (emplace k v m)
  unfolding emplace
  emplace-Ascends k v [] u = tt
  emplace-Ascends k v ((i, w) ∷ m) u = ground (arith, emplace-Above i k v m)

  pub erase-Above : (a k : ℕ) (m : OrdMap V) → Above a m → Above a (erase k m)
  unfolding erase
  erase-Above a k [] u = tt
  erase-Above a k ((i, w) ∷ m) u =
      ground (arith, erase-Above i k m u.1, Above-weaken {a = a} {b = i} (erase k m))

  pub erase-Ascends : (k : ℕ) (m : OrdMap V) → Ascends m → Ascends (erase k m)
  unfolding erase
  erase-Ascends k [] u = tt
  erase-Ascends k ((i, w) ∷ m) u = ground (arith, erase-Above i k m u, Above-Ascends i (erase k m))

  range-Above : (a lo hi : ℕ) (m : OrdMap V) → Above a m → Above a (range lo hi m)
  unfolding range
  range-Above a lo hi [] u = tt
  range-Above a lo hi ((i, w) ∷ m) u =
      ground (arith, range-Above i lo hi m u.1, Above-weaken {a = a} {b = i} (range lo hi m))

  -- What a range starts from lies below all of it.
  pub range-Above_lower :
      (last hi : ℕ) (m : OrdMap V) → Ascends m → Above last (range (suc last) hi m)
  unfolding range
  range-Above_lower last hi [] u = tt
  range-Above_lower last hi ((i, w) ∷ m) u =
      ground
        (arith, range-Above i (suc last) hi m u, range-Above_lower last hi m (Above-Ascends i m u))

  pub find-assign :
      (k j : ℕ) (v : V) (m : OrdMap V)
      → find j (assign k v m)
        ≡ (if k == j then (if contains j m then some v else none) else find j m)
  unfolding find contains assign
  find-assign k j v [] = ground arith
  find-assign k j v ((i, w) ∷ m) = ground (arith, find-assign k j v m)

  -- Every value has the property.
  abbrev pub Each {κ} : (V → Type κ) → OrdMap V → Type κ
  Each P [] = Unit
  Each P ((_, v) ∷ m) = P v × Each P m

  pub Each-find {κ} :
      (P : V → Type κ) (k : ℕ) (v : V) (m : OrdMap V) → Each P m → find k m ≡ some v → P v
  unfolding find
  Each-find P k v [] h e = absurd (grind arith)
  Each-find P k v ((j, w) ∷ m) h e = elim (Bool-cases (k == j)) [
    | inl here ↦ let same : w ≡ v = ground arith in subst P same h.0
    | inr there ↦ Each-find P k v m h.1 (ground arith)
  ]

  pub Each-assign {κ} :
      (P : V → Type κ) (k : ℕ) (v : V) (m : OrdMap V) → Each P m → P v → Each P (assign k v m)
  unfolding assign
  Each-assign P k v [] h p = tt
  Each-assign P k v ((j, w) ∷ m) h p = elim (Bool-cases (k == j)) [
    | inl here ↦ rw here (p, h.1)
    | inr there ↦ rw there (h.0, Each-assign P k v m h.1 p)
  ]
