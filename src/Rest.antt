-- ===== src/Rest.antt =====
-- src/ServiceConnections/RestServiceConnection.{h,cpp}: the service that a REST API provides. What
-- the server answers to each attempt of a request, what jansson finds in a body, and `std::stoi` are
-- parameters. The waiting between attempts is left out.
pub mod Retries
mod Tests
use janus_ftl_plugin.Prelude.{
  ℕ, zero, suc, ◌+◌, ◌%◌, ◌^◌, Bool, true, false, Option, none, some, List, [], ◌∷◌, ◌++◌, ltb, leb,
  ◌==◌, if◌then◌else◌,
}
use janus_ftl_plugin.Http.{HttpResponse, Attempts, run_attempts}
use janus_ftl_plugin.Prelude.Text.{Text, codes}
use janus_ftl_plugin.Rtp.Packet.{Bytes}
use janus_ftl_plugin.Janus.Sdp.{to_decimal}
use janus_ftl_plugin.Janus.Report.{StreamMetadata}

abbrev max_retries : ℕ
max_retries = 5

pub record Library : Type 0 where
  -- `none` where the body is not JSON, and inside of it `none` where the member is not there or is
  -- not a string.
  pub json_string : Text → Text → Option (Option Text)
  -- `none` for what it throws.
  pub stoi : Text → Option ℕ

pub data Request : Type 0 where
  get : (path : Text) → Request
  post : (path : Text) → Request
  post_metadata : (path : Text) (metadata : StreamMetadata) → Request
  post_file : (path : Text) (file : Bytes) → Request

-- A `Result`, or an exception.
pub data Answer {ℓ} (A : Type ℓ) : Type ℓ where
  value : A → Answer A
  error : Answer A
  thrown : Answer A

pub record RestServiceConnection : Type 0 where
  pub path_base : Text

pub first_is_slash : Text → Bool
first_is_slash [] = false
first_is_slash (c ∷ cs) = c == b'/'

pub last_is_slash : Text → Bool
last_is_slash [] = false
last_is_slash (c ∷ []) = c == b'/'
last_is_slash (c ∷ d ∷ cs) = last_is_slash (d ∷ cs)

pub with_last_slash : Text → Text
unfolding last_is_slash
with_last_slash base = if last_is_slash base then base else base ++ b'/' ∷ []

pub with_slashes : Text → Text
unfolding first_is_slash with_last_slash
with_slashes [] = []
with_slashes (c ∷ cs) = with_last_slash (if first_is_slash (c ∷ cs) then c ∷ cs else b'/' ∷ c ∷ cs)

pub new_rest_connection : Text → RestServiceConnection
unfolding with_slashes
new_rest_connection base = record { path_base = with_slashes base }

abbrev relative_to_absolute_path : Text → RestServiceConnection → Text
relative_to_absolute_path path c = c.path_base ++ path

pub is_answer : Option HttpResponse → Bool
is_answer none = false
is_answer (some r) = ltb r.status 500

-- `runGetRequest` and `runPostRequest`.
pub run_request : Request → Attempts → List Request × Option HttpResponse
unfolding run_attempts is_answer
run_request request answers = run_attempts is_answer max_retries 0 request answers

abbrev found_string {ℓ} : {A : Type ℓ} → (Text → Answer A) → Option (Option Text) → Answer A
found_string f none = thrown
found_string f (some none) = error
found_string f (some (some text)) = f text

-- A string member of the response. Between 300 and 399 there is nothing to look it up in.
pub string_of {ℓ} :
    {A : Type ℓ} → Library → Text → (Text → Answer A) → Option HttpResponse → Answer A
string_of l name f none = thrown
string_of l name f (some r) =
    if leb 400 r.status
    then error
    else if leb r.status 299
    then found_string f (l.json_string r.body name)
    else error

unfoldable pub get_hmac_key :
    Library → ℕ → Attempts → RestServiceConnection → List Request × Answer Bytes
unfolding run_request string_of to_decimal
get_hmac_key l channel answers c =
    let (rs, response) =
      run_request (get (relative_to_absolute_path (codes "hmac/" ++ to_decimal channel) c))
        answers in
    (rs, string_of l (codes "hmacKey") value response)

abbrev stream_id_of : Option ℕ → Answer ℕ
stream_id_of none = thrown
stream_id_of (some n) = value (n % 2 ^ 32)

unfoldable pub start_stream :
    Library → ℕ → Attempts → RestServiceConnection → List Request × Answer ℕ
unfolding run_request string_of to_decimal
start_stream l channel answers c =
    let (rs, response) =
      run_request (post (relative_to_absolute_path (codes "start/" ++ to_decimal channel) c))
        answers in
    (rs, string_of l (codes "streamId") (λ text. stream_id_of (l.stoi text)) response)

-- Any answer at all is a success.
abbrev done : Option HttpResponse → Answer (Unit {0})
done none = thrown
done (some r) = value tt

unfoldable pub update_stream_metadata :
    ℕ → StreamMetadata → Attempts → RestServiceConnection → List Request × Answer (Unit {0})
unfolding run_request to_decimal
update_stream_metadata stream metadata answers c =
    let path = relative_to_absolute_path (codes "metadata/" ++ to_decimal stream) c in
    let (rs, response) = run_request (post_metadata path metadata) answers in (rs, done response)

unfoldable pub end_service_stream :
    ℕ → Attempts → RestServiceConnection → List Request × Answer (Unit {0})
unfolding run_request to_decimal
end_service_stream stream answers c =
    let path = relative_to_absolute_path (codes "end/" ++ to_decimal stream) c in
    let (rs, response) = run_request (post path) answers in (rs, done response)

unfoldable send_jpeg_preview_image :
    ℕ → Bytes → Attempts → RestServiceConnection → List Request × Answer (Unit {0})
unfolding run_request to_decimal
send_jpeg_preview_image stream jpeg answers c =
    let path = relative_to_absolute_path (codes "preview/" ++ to_decimal stream) c in
    let (rs, response) = run_request (post_file path jpeg) answers in (rs, done response)
