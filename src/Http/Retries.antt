-- ===== src/Http/Retries.antt =====
-- The retries that src/ServiceConnections/RestServiceConnection.cpp and
-- GlimeshServiceConnection.cpp share.
use janus_ftl_plugin.Prelude.{
  ℕ, zero, suc, ◌+◌, ◌==◌, ◌≤◌, ◌<◌, ◌≡◌, ◌⊎◌, refl, Bool, true, false, Option, none, List, length,
  arith, Bool-cases, inl, inr, All,
}
use janus_ftl_plugin.Http.{HttpResponse, Attempts, run_attempts}

module _ (is_answer : Option HttpResponse → Bool) where
  -- One attempt more that has failed.
  failed-before :
      (n m : ℕ) (answers : Attempts)
      → is_answer (answers n) ≡ false
      → ((j : ℕ) → suc n ≤ j → j < m → is_answer (answers j) ≡ false)
      → (j : ℕ) → n ≤ j
      → j < m
      → is_answer (answers j) ≡ false
  failed-before n m answers bad later j low high = elim (Bool-cases (j == n)) [
    | inl same ↦ let here : j ≡ n = ground arith in rw here bad
    | inr other ↦ later j (ground arith) high
  ]

module _ {ℓ} {Request : Type ℓ} (is_answer : Option HttpResponse → Bool) where
  -- The attempts from `n` on end with the first that is answered, or all fail.
  abbrev IsTried : ℕ → ℕ → Attempts → List Request → Option HttpResponse → Type 0
  IsTried retries n answers rs result =
      ((k : ℕ) × (n ≤ k)
        × (k ≤ n + retries)
        × (is_answer (answers k) ≡ true)
        × ((j : ℕ) → n ≤ j → j < k → is_answer (answers j) ≡ false)
        × (result ≡ answers k)
        × (length rs + n ≡ k + 1))
      ⊎ ((result ≡ none)
          × (length rs ≡ retries + 1)
          × ((j : ℕ) → n ≤ j → j ≤ n + retries → is_answer (answers j) ≡ false))

  run_attempts-IsTried :
      (retries n : ℕ) (request : Request) (answers : Attempts)
      → let (rs, result) = run_attempts is_answer retries n request answers in
        IsTried retries n answers rs result
  unfolding run_attempts
  run_attempts-IsTried zero n request answers = elim (Bool-cases (is_answer (answers n))) [
    | inl good ↦ rw good (
        inl (
          n,
          omega arith,
          omega arith,
          good,
          λ j h k. absurd (omega (arith, h, k)),
          refl,
          omega arith,
        ))
    | inr bad ↦ rw bad (
        inr (
          refl,
          refl,
          λ j h k.
              failed-before is_answer n (suc n) answers bad (λ i h k. absurd (omega (arith, h, k)))
                j h (omega (arith, k)),
        ))
  ]
  run_attempts-IsTried (suc retries) n request answers = elim (Bool-cases (is_answer (answers n))) [
    | inl good ↦ rw good (
        inl (
          n,
          omega arith,
          omega arith,
          good,
          λ j h k. absurd (omega (arith, h, k)),
          refl,
          omega arith,
        ))
    | inr bad ↦ rw bad (elim (run_attempts-IsTried retries (suc n) request answers) [
      | inl (k, low, few, answered, before, same, count) ↦ inl (
        k,
        omega (arith, low),
        omega (arith, few),
        answered,
        failed-before is_answer n k answers bad before,
        same,
        omega (arith, count),
      )
      | inr (failed, count, all) ↦ inr (
        failed,
        omega (arith, count),
        λ j h k.
            failed-before is_answer n (n + suc retries + 1) answers bad
              (λ i h k. all i h (omega (arith, k))) j h (omega (arith, k)),
      )
    ])
  ]

  -- A request's attempts: the first one that will do is the result and the last one, or there is
  -- none among as many as there may be.
  abbrev pub IsFirst : ℕ → Attempts → List Request × Option HttpResponse → Type 0
  IsFirst retries answers r =
      ((k : ℕ) × (k ≤ retries)
        × (is_answer (answers k) ≡ true)
        × ((j : ℕ) → j < k → is_answer (answers j) ≡ false)
        × (r.1 ≡ answers k)
        × (length r.0 ≡ k + 1))
      ⊎ ((r.1 ≡ none)
          × (length r.0 ≡ retries + 1)
          × ((j : ℕ) → j ≤ retries → is_answer (answers j) ≡ false))

  pub run_attempts-IsFirst :
      (retries : ℕ) (request : Request) (answers : Attempts)
      → IsFirst retries answers (run_attempts is_answer retries 0 request answers)
  run_attempts-IsFirst retries request answers =
      elim (run_attempts-IsTried retries 0 request answers) [
        | inl (k, low, few, answered, before, same, count) ↦ inl (
          k,
          omega (arith, few),
          answered,
          λ j h. before j (omega arith) h,
          same,
          omega (arith, count),
        )
        | inr (failed, count, all) ↦
            inr (failed, count, λ j h. all j (omega arith) (omega (arith, h)))
      ]

-- Every attempt makes the same request.
pub run_attempts-All {ℓ} :
    {Request : Type ℓ} (is_answer : Option HttpResponse → Bool) (retries n : ℕ) (request : Request)
    (answers : Attempts)
    → All (λ r. r ≡ request) (run_attempts is_answer retries n request answers).0
unfolding run_attempts
run_attempts-All is_answer zero n request answers = (refl, tt)
run_attempts-All is_answer (suc retries) n request answers =
    elim (Bool-cases (is_answer (answers n))) [
      | inl good ↦ rw good (refl, tt)
      | inr bad ↦ rw bad (refl, run_attempts-All is_answer retries (suc n) request answers)
    ]
