-- ===== src/Prelude/OrdMap/Update.antt =====
-- Lookups after a write, and the union of two sets.
use Prim.Native.Nat.{ℕ}
use mathlib.Core.Path.{◌≡◌, refl}
use mathlib.Core.Bool.{Bool, true, false, ◌||◌}
use mathlib.Core.Option.{Option, none, some}
use mathlib.Core.List.{[], ◌∷◌}
use native.Mathlib.Omega.{arith}
use janus_ftl_plugin.Prelude.Tests.{◌==◌, if◌then◌else◌}
use janus_ftl_plugin.Prelude.OrdMap.{
  OrdMap, OrdSet, contains, find, emplace, assign, erase, contains-emplace, find-assign,
}

abbrev pub is_some {ℓ} : {A : Type ℓ} → Option A → Bool
is_some none = false
is_some (some a) = true

-- Every element of `xs` is inserted into `ys`.
unfoldable pub union : OrdSet → OrdSet → OrdSet
union [] ys = ys
union ((k, u) ∷ xs) ys = union xs (emplace k tt ys)

pub contains-union :
    (k : ℕ) (xs ys : OrdSet) → contains k (union xs ys) ≡ (contains k xs || contains k ys)
unfolding contains union
contains-union k [] ys = refl
contains-union k ((j, u) ∷ xs) ys =
    ground (arith, contains-union k xs (emplace j tt ys), contains-emplace j k tt ys)

module _ {ℓ} {V : Type ℓ} where
  -- `m[k] = v`.
  unfoldable pub insert_or_assign : ℕ → V → OrdMap V → OrdMap V
  insert_or_assign k v m = if contains k m then assign k v m else emplace k v m

  pub contains-find : (k : ℕ) (m : OrdMap V) → contains k m ≡ is_some (find k m)
  unfolding contains find
  contains-find k [] = refl
  contains-find k ((j, v) ∷ m) = ground (arith, contains-find k m)

  pub find-erase :
      (k j : ℕ) (m : OrdMap V) → find j (erase k m) ≡ (if j == k then none else find j m)
  unfolding find erase
  find-erase k j [] = ground arith
  find-erase k j ((i, v) ∷ m) = ground (arith, find-erase k j m)

  find-emplace :
      (k j : ℕ) (v : V) (m : OrdMap V)
      → contains k m ≡ false
      → find j (emplace k v m) ≡ (if j == k then some v else find j m)
  unfolding find contains emplace
  find-emplace k j v [] h = ground arith
  find-emplace k j v ((i, w) ∷ m) h = ground (arith, find-emplace k j v m)

  pub find-insert_or_assign :
      (k j : ℕ) (v : V) (m : OrdMap V)
      → find j (insert_or_assign k v m) ≡ (if j == k then some v else find j m)
  unfolding insert_or_assign
  find-insert_or_assign k j v m = ground (arith, find-emplace k j v m, find-assign k j v m)

  pub contains-assign : (k j : ℕ) (v : V) (m : OrdMap V) → contains j (assign k v m) ≡ contains j m
  unfolding contains assign
  contains-assign k j v [] = refl
  contains-assign k j v ((i, w) ∷ m) = ground (arith, contains-assign k j v m)

  pub contains-insert_or_assign :
      (k j : ℕ) (v : V) (m : OrdMap V)
      → contains j (insert_or_assign k v m) ≡ (if j == k then true else contains j m)
  unfolding insert_or_assign
  contains-insert_or_assign k j v m =
      ground (arith, contains-emplace k j v m, contains-assign k j v m)
