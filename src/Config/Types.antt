-- ===== src/Config/Types.antt =====
-- The numbers that `Load` of src/Configuration.cpp stores.
use Prim.Native.String.{String}
use janus_ftl_plugin.Prelude.{
  ℕ, ◌%◌, ◌^◌, ◌≤◌, ◌<◌, Bool, false, Option, none, some, arith, leb, ltb, if-both, if-cases, ◌≡◌,
  refl,
}
use janus_ftl_plugin.Prelude.Text.{Text}
use janus_ftl_plugin.Config.{
  Environment, Configuration, ◌>>=◌, number_or, flag_or, new_playout_delay, parse_playout_delay,
  load_playout_delay, load,
}

-- What holds of a result, if there is one.
abbrev pub WhenSome {ℓ κ} : {A : Type ℓ} → (A → Type κ) → Option A → Type κ
WhenSome P none = Unit
WhenSome P (some a) = P a

bind-WhenSome {ℓ κ μ ν} :
    {A : Type ℓ} {B : Type κ} (Q : A → Type μ) (P : B → Type ν) (o : Option A) (f : A → Option B)
    → WhenSome Q o
    → ((a : A) → Q a → WhenSome P (f a))
    → WhenSome P (o >>= f)
bind-WhenSome Q P none f h k = tt
bind-WhenSome Q P (some a) f h k = k a h

any-WhenSome {ℓ} : {A : Type ℓ} (o : Option A) → WhenSome (λ a. Unit {0}) o
any-WhenSome none = tt
any-WhenSome (some a) = tt

abbrev pub IsDelay : Option (ℕ × ℕ) → Type 0
IsDelay none = Unit {0}
IsDelay (some (min, max)) = (min ≤ max) × (max < 2 ^ 12)

-- Each number fits its field, and the ends of the delay the header extension.
pub record IsTyped (c : Configuration) : Type 0 where
  pub orchestrator_port : c.orchestrator_port < 2 ^ 16
  pub interval : c.metadata_report_interval_ms < 2 ^ 64
  pub max_bits : c.max_allowed_bits_per_second < 2 ^ 32
  pub rolling : c.rolling_size_avg_ms < 2 ^ 32
  pub delay : IsDelay c.playout_delay
  pub glimesh_port : c.glimesh_service_port < 2 ^ 16
  pub rest_port : c.rest_service_port < 2 ^ 16

number_or-WhenSome :
    (e : Environment) (v : Option Text) (width default bound : ℕ)
    → 2 ^ width ≡ bound
    → 0 < bound
    → default < bound
    → WhenSome (λ n. n < bound) (number_or e v width default)
unfolding number_or
number_or-WhenSome e none width default bound size positive fits = fits
number_or-WhenSome e (some v) width default bound size positive fits =
    bind-WhenSome (λ n. Unit {0}) (λ n. n < bound) (e.stoul v) (λ n. some (n % 2 ^ width))
      (any-WhenSome (e.stoul v)) (λ n h. rw size (omega arith))

new_playout_delay-WhenSome :
    (min max : ℕ) → WhenSome (λ d. IsDelay (some d)) (new_playout_delay min max)
unfolding new_playout_delay
new_playout_delay-WhenSome min max =
    let P : Option (ℕ × ℕ) → Type 0 = WhenSome (λ (d : ℕ × ℕ). IsDelay (some d)) in
    if-both P (leb (2 ^ 63) min) tt (
      if-both P (ltb 40950 min) tt (
        if-both P (leb (2 ^ 63) max) tt (
          if-cases P (ltb 40950 max) (λ h. tt)
            (λ small.
              if-cases P (ltb max min) (λ h. tt) (λ ordered. (ground arith, ground arith))))))

load_playout_delay-WhenSome :
    (e : Environment) (min max : Option Text) → WhenSome IsDelay (load_playout_delay e min max)
unfolding load_playout_delay parse_playout_delay
load_playout_delay-WhenSome e none none = tt
load_playout_delay-WhenSome e (some min) none =
    if-both (WhenSome IsDelay) e.playout_delay_support tt tt
load_playout_delay-WhenSome e none (some max) =
    if-both (WhenSome IsDelay) e.playout_delay_support tt tt
load_playout_delay-WhenSome e (some min) (some max) =
    if-both (WhenSome IsDelay) e.playout_delay_support
      (bind-WhenSome (λ n. Unit {0}) IsDelay (e.stoul min) _ (any-WhenSome (e.stoul min))
        (λ min_ms h.
          bind-WhenSome (λ n. Unit {0}) IsDelay (e.stoul max) _ (any-WhenSome (e.stoul max))
            (λ max_ms k.
              bind-WhenSome (λ d. IsDelay (some d)) IsDelay (new_playout_delay min_ms max_ms) _
                (new_playout_delay-WhenSome min_ms max_ms) (λ d ok. ok))))
      tt

some-WhenSome :
    (c : Configuration)
    → c.orchestrator_port < 2 ^ 16
    → c.metadata_report_interval_ms < 2 ^ 64
    → c.max_allowed_bits_per_second < 2 ^ 32
    → c.rolling_size_avg_ms < 2 ^ 32
    → IsDelay c.playout_delay
    → c.glimesh_service_port < 2 ^ 16
    → c.rest_service_port < 2 ^ 16
    → WhenSome IsTyped (some c)
some-WhenSome c h1 h2 h3 h4 h5 h6 h7 = record {
  orchestrator_port = h1;
  interval = h2;
  max_bits = h3;
  rolling = h4;
  delay = h5;
  glimesh_port = h6;
  rest_port = h7;
}

bind-number :
    (e : Environment) (name : String) (width default bound : ℕ) (f : ℕ → Option Configuration)
    → 2 ^ width ≡ bound
    → 0 < bound
    → default < bound
    → ((n : ℕ) → n < bound → WhenSome IsTyped (f n))
    → WhenSome IsTyped (number_or e (e.getenv name) width default >>= f)
bind-number e name width default bound f size positive fits =
    bind-WhenSome (λ n. n < bound) IsTyped (number_or e (e.getenv name) width default) f
      (number_or-WhenSome e (e.getenv name) width default bound size positive fits)

bind-flag :
    (e : Environment) (name : String) (f : Bool → Option Configuration)
    → ((b : Bool) → WhenSome IsTyped (f b))
    → WhenSome IsTyped (flag_or e (e.getenv name) false >>= f)
bind-flag e name f k =
    bind-WhenSome (λ b. Unit {0}) IsTyped (flag_or e (e.getenv name) false) f
      (any-WhenSome (flag_or e (e.getenv name) false)) (λ b h. k b)

-- Whatever the environment holds, the configuration that `Load` yields, if it yields one, has each
-- number within the width of its field, and a playout delay whose ends are in order and fit the 12
-- bits of the header extension.
pub load-IsTyped : (e : Environment) → WhenSome IsTyped (load e)
unfolding load
load-IsTyped e =
    bind-number e "FTL_ORCHESTRATOR_PORT" 16 8085 65536 _ refl (omega arith) (omega arith)
      (λ port h1.
        bind-number e "FTL_SERVICE_METADATAREPORTINTERVALMS" 64 4000 (2 ^ 64) _ refl (omega arith)
          (omega arith)
          (λ interval h2.
            bind-number e "FTL_MAX_ALLOWED_BITS_PER_SECOND" 32 0 (2 ^ 32) _ refl (omega arith)
              (omega arith)
              (λ bits h3.
                bind-number e "FTL_ROLLING_SIZE_AVG_MS" 32 2000 (2 ^ 32) _ refl (omega arith)
                  (omega arith)
                  (λ rolling h4. bind-flag e "FTL_NACK_LOST_PACKETS" _ (λ nack.
                    bind-WhenSome IsDelay IsTyped
                      (load_playout_delay e (e.getenv "FTL_PLAYOUT_DELAY_MIN_MS")
                        (e.getenv "FTL_PLAYOUT_DELAY_MAX_MS"))
                      _
                      (load_playout_delay-WhenSome e (e.getenv "FTL_PLAYOUT_DELAY_MIN_MS")
                        (e.getenv "FTL_PLAYOUT_DELAY_MAX_MS"))
                      (λ delay h5.
                        bind-number e "FTL_SERVICE_GLIMESH_PORT" 16 4000 65536 _ refl (omega arith)
                          (omega arith)
                          (λ glimesh h6. bind-flag e "FTL_SERVICE_GLIMESH_HTTPS" _ (λ https.
                            bind-number e "FTL_SERVICE_REST_PORT" 16 4000 65536 _ refl (omega arith)
                              (omega arith)
                              (λ rest h7.
                                bind-flag e "FTL_SERVICE_REST_HTTPS" _
                                  (λ rest_https. some-WhenSome _ h1 h2 h3 h4 h5 h6 h7))))))))))
