-- ===== src/Config/Loading.antt =====
-- When `Load` of src/Configuration.cpp succeeds.
use Prim.Native.String.{String}
use janus_ftl_plugin.Prelude.{
  ℕ, ◌≡◌, refl, Bool, true, false, ◌&&◌, Option, none, some, arith, not, ◌||◌, ◌%◌, ◌^◌, ◌∙◌, sym,
  leb, ◌==◌, Bool-cases, inl, inr,
}
use janus_ftl_plugin.Prelude.OrdMap.Update.{is_some}
use janus_ftl_plugin.Prelude.Text.{Text}
use janus_ftl_plugin.Config.{
  ◌>>=◌, Environment, number_or, flag_or, load_playout_delay, parse_playout_delay,
  new_playout_delay, load,
}

-- A variable that is not set, or is a number.
abbrev pub is_number : Environment → Option Text → Bool
is_number e none = true
is_number e (some v) = is_some (e.stoul v)

is_some-bind {ℓ κ} :
    {A : Type ℓ} {B : Type κ} {b c : Bool} (o : Option A) (f : A → Option B)
    → is_some o ≡ c
    → ((a : A) → is_some (f a) ≡ b)
    → is_some (o >>= f) ≡ (c && b)
is_some-bind none f e h = rw (sym e) refl
is_some-bind (some a) f e h = rw (sym e) (h a)

is_some-map {ℓ κ} :
    {A : Type ℓ} {B : Type κ} (o : Option A) (f : A → B)
    → is_some (o >>= λ a. some (f a)) ≡ is_some o
is_some-map none f = refl
is_some-map (some a) f = refl

number_or-is_number :
    (e : Environment) (o : Option Text) (width default : ℕ)
    → is_some (number_or e o width default) ≡ is_number e o
unfolding number_or
number_or-is_number e none width default = refl
number_or-is_number e (some v) width default = is_some-map (e.stoul v) (λ n. n % 2 ^ width)

flag_or-is_number :
    (e : Environment) (o : Option Text) (default : Bool)
    → is_some (flag_or e o default) ≡ is_number e o
unfolding flag_or
flag_or-is_number e none default = refl
flag_or-is_number e (some v) default = is_some-map (e.stoul v) (λ n. not (n == 0))

-- Two numbers in order, of at most 40,950.
abbrev is_delay : Option ℕ → Option ℕ → Bool
is_delay none max = false
is_delay (some min) none = false
is_delay (some min) (some max) = leb min max && leb max 40950

-- The variables of the delay: without support anything goes.
abbrev pub is_delay_set : Environment → Option Text → Option Text → Bool
is_delay_set e none none = true
is_delay_set e (some min) none = not e.playout_delay_support
is_delay_set e none (some max) = not e.playout_delay_support
is_delay_set e (some min) (some max) =
    not e.playout_delay_support || is_delay (e.stoul min) (e.stoul max)

new_playout_delay-is_delay :
    (min max : ℕ) → is_some (new_playout_delay min max) ≡ (leb min max && leb max 40950)
unfolding new_playout_delay
new_playout_delay-is_delay min max = ground arith

parse_playout_delay-is_delay :
    (e : Environment) (o p : Option ℕ)
    → is_some (o >>= λ min. p >>= λ max. new_playout_delay min max >>= λ delay. some (some delay))
      ≡ is_delay o p
parse_playout_delay-is_delay e none p = refl
parse_playout_delay-is_delay e (some min) none = refl
parse_playout_delay-is_delay e (some min) (some max) =
    is_some-map (new_playout_delay min max) (λ d. some d) ∙ new_playout_delay-is_delay min max

load_playout_delay-is_delay_set :
    (e : Environment) (o p : Option Text) → is_some (load_playout_delay e o p) ≡ is_delay_set e o p
unfolding load_playout_delay parse_playout_delay
load_playout_delay-is_delay_set e none none = refl
load_playout_delay-is_delay_set e (some min) none = ground arith
load_playout_delay-is_delay_set e none (some max) = ground arith
load_playout_delay-is_delay_set e (some min) (some max) =
    elim (Bool-cases e.playout_delay_support) [
      | inl on ↦ rw on (parse_playout_delay-is_delay e (e.stoul min) (e.stoul max))
      | inr off ↦ rw off refl
    ]

bind-number {ℓ} :
    {B : Type ℓ} {b : Bool} (e : Environment) (name : String) (width default : ℕ) (f : ℕ → Option B)
    → ((n : ℕ) → is_some (f n) ≡ b)
    → is_some (number_or e (e.getenv name) width default >>= f) ≡ (is_number e (e.getenv name) && b)
bind-number e name width default f =
    is_some-bind (number_or e (e.getenv name) width default) f
      (number_or-is_number e (e.getenv name) width default)

bind-flag {ℓ} :
    {B : Type ℓ} {b : Bool} (e : Environment) (name : String) (default : Bool) (f : Bool → Option B)
    → ((n : Bool) → is_some (f n) ≡ b)
    → is_some (flag_or e (e.getenv name) default >>= f) ≡ (is_number e (e.getenv name) && b)
bind-flag e name default f =
    is_some-bind (flag_or e (e.getenv name) default) f (flag_or-is_number e (e.getenv name) default)

-- `Load` succeeds exactly if every variable that is to be a number is not set or is one, and the
-- playout delay is not set, or is ignored, or has both its ends, in order and within the limit.
pub load-is_some :
    (e : Environment)
    → let is_set : String → Bool = λ name. is_number e (e.getenv name) in
      is_some (load e) ≡ (
        is_set "FTL_ORCHESTRATOR_PORT"
        && (is_set "FTL_SERVICE_METADATAREPORTINTERVALMS"
            && (is_set "FTL_MAX_ALLOWED_BITS_PER_SECOND"
                && (is_set "FTL_ROLLING_SIZE_AVG_MS"
                    && (is_set "FTL_NACK_LOST_PACKETS"
                        && (is_delay_set e
                              (e.getenv "FTL_PLAYOUT_DELAY_MIN_MS")
                              (e.getenv "FTL_PLAYOUT_DELAY_MAX_MS")
                            && (is_set "FTL_SERVICE_GLIMESH_PORT"
                                && (is_set "FTL_SERVICE_GLIMESH_HTTPS"
                                    && (is_set "FTL_SERVICE_REST_PORT"
                                        && is_set "FTL_SERVICE_REST_HTTPS")))))))))
unfolding load
load-is_some e = bind-number e "FTL_ORCHESTRATOR_PORT" 16 8085 _ (λ _.
    bind-number e "FTL_SERVICE_METADATAREPORTINTERVALMS" 64 4000 _ (λ _.
      bind-number e "FTL_MAX_ALLOWED_BITS_PER_SECOND" 32 0 _ (λ _.
        bind-number e "FTL_ROLLING_SIZE_AVG_MS" 32 2000 _ (λ _.
          bind-flag e "FTL_NACK_LOST_PACKETS" false _ (λ _.
            is_some-bind
              (load_playout_delay e (e.getenv "FTL_PLAYOUT_DELAY_MIN_MS")
                (e.getenv "FTL_PLAYOUT_DELAY_MAX_MS"))
              _
              (load_playout_delay-is_delay_set e (e.getenv "FTL_PLAYOUT_DELAY_MIN_MS")
                (e.getenv "FTL_PLAYOUT_DELAY_MAX_MS"))
              (λ _. bind-number e "FTL_SERVICE_GLIMESH_PORT" 16 4000 _ (λ _.
                bind-flag e "FTL_SERVICE_GLIMESH_HTTPS" false _ (λ _.
                  bind-number e "FTL_SERVICE_REST_PORT" 16 4000 _ (λ _.
                    is_some-map (flag_or e (e.getenv "FTL_SERVICE_REST_HTTPS") false) _
                    ∙ flag_or-is_number e (e.getenv "FTL_SERVICE_REST_HTTPS") false)))))))))
