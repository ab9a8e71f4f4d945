-- ===== src/Http.antt =====
-- What src/ServiceConnections/RestServiceConnection.cpp and GlimeshServiceConnection.cpp share: a
-- request of httplib that is made again until it is answered. The waiting in between is left out.
pub mod Retries
use janus_ftl_plugin.Prelude.{ℕ, zero, suc, Bool, Option, none, List, [], ◌∷◌, if◌then◌else◌}
use janus_ftl_plugin.Prelude.Text.{Text}

pub record HttpResponse : Type 0 where
  pub status : ℕ
  pub body : Text

-- What each attempt is answered with; `none` is what httplib returns where there is no response.
abbrev pub Attempts : Type 0
Attempts = ℕ → Option HttpResponse

-- The attempts from the `n`-th on, with so many retries left: the requests, and the first answer that
-- will do, if any.
unfoldable pub run_attempts {ℓ} :
    {Request : Type ℓ}
    → (Option HttpResponse → Bool)
    → ℕ
    → ℕ
    → Request
    → Attempts
    → List Request × Option HttpResponse
run_attempts is_answer zero n request answers =
    (request ∷ [], if is_answer (answers n) then answers n else none)
run_attempts is_answer (suc retries) n request answers =
    let (rs, result) = run_attempts is_answer retries (suc n) request answers in
    if is_answer (answers n) then (request ∷ [], answers n) else (request ∷ rs, result)
