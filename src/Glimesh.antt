-- ===== src/Glimesh.antt =====
-- src/ServiceConnections/GlimeshServiceConnection.{h,cpp}: the service that Glimesh's API provides.
-- What the server answers, the clock in seconds, the parsing of JSON and of dates, `mktime` and
-- `std::stoi` are parameters. What is only logged is left out.
pub mod Auth
pub mod Queries
pub mod Operations
mod Tests
use janus_ftl_plugin.Prelude.{
  ℕ, ◌+◌, ◌-◌, ◌%◌, ◌^◌, Bool, true, false, not, ◌&&◌, Option, none, some, List, [], ◌∷◌, ◌++◌, ltb,
  ◌==◌, if◌then◌else◌, length,
}
use janus_ftl_plugin.Prelude.Text.{Text, codes, same}
use janus_ftl_plugin.Rtp.Packet.{Bytes}
use janus_ftl_plugin.Http.{HttpResponse, Attempts, run_attempts}
use janus_ftl_plugin.Janus.Sdp.{to_decimal}
use janus_ftl_plugin.Janus.Report.{StreamMetadata, ServiceResponse, ok, end_stream_requested}

-- What jansson makes of a text; an array's elements are only logged.
mutual
  pub data Json : Type 0 where
    text : Text → Json
    integer : ℕ → Json
    array : Json
    object : Members → Json
    other : Json

  pub data Members : Type 0 where
    end : Members
    member : (name : Text) → Json → Members → Members

-- The numbers of a date.
pub record Date : Type 0 where
  pub year : ℕ
  pub month : ℕ
  pub day : ℕ
  pub hour : ℕ
  pub minute : ℕ
  pub second : ℕ

pub record Library : Type 0 where
  pub json_loads : Text → Option Json
  -- The numbers of a date as the format has them; `none` where `sscanf` finds fewer.
  pub sscanf : Text → Option Date
  -- The time of a `tm`, which counts years from 1900 and months from 0.
  pub mktime : Date → ℕ
  -- `none` for what it throws.
  pub stoi : Text → Option ℕ

pub record GlimeshServiceConnection : Type 0 where
  pub client_id : Text
  pub client_secret : Text
  pub access_token : Text
  pub access_token_expiration_time : ℕ

abbrev pub new_glimesh_connection : Text → Text → GlimeshServiceConnection
new_glimesh_connection id secret = record {
  client_id = id;
  client_secret = secret;
  access_token = [];
  access_token_expiration_time = 0;
}

-- A query goes out with the access token, and a file goes along with it.
pub data Request : Type 0 where
  token : (client_id client_secret : Text) → Request
  query : (access_token query_text : Text) (variables : Option (ℕ × StreamMetadata)) → Request
  upload : (access_token query_text : Text) (file : Bytes) → Request

-- A result, an error, an exception, or what C++ does not define: a string of a null pointer, and a
-- number that has not been read.
pub data Outcome {ℓ} (A : Type ℓ) : Type ℓ where
  value : A → Outcome A
  error thrown undefined : Outcome A

-- `json_object_get`, which finds nothing in what is no object.
pub find_member : Text → Members → Option Json
unfolding same
find_member name end = none
find_member name (member other_name j ms) =
    let rest = find_member name ms in if same other_name name then some j else rest

pub json_object_get : Option Json → Text → Option Json
unfolding find_member
json_object_get (some (object ms)) name = find_member name ms
json_object_get j name = none

abbrev json_string_value : Option Json → Option Text
json_string_value (some (text t)) = some t
json_string_value j = none

abbrev json_integer_value : Option Json → ℕ
json_integer_value (some (integer n)) = n
json_integer_value j = 0

-- The numbers that `mktime` gets; a date from 1900 on with a month from 1 on.
abbrev pub parse_iso8601_date_time : Library → Text → Option Date
parse_iso8601_date_time l t = elim (l.sscanf t) [
  | none ↦ none
  | some d ↦ some (record d { year = d.year - 1900; month = d.month - 1 })
]

abbrev pub Authorized : Type 0
Authorized = Outcome Text × GlimeshServiceConnection

pub expires_from : Library → Option Date → ℕ → GlimeshServiceConnection → Authorized
expires_from l none expires_in s = (undefined, s)
expires_from l (some date) expires_in s =
    (value s.access_token, record s { access_token_expiration_time = l.mktime date + expires_in })

pub created_at : Library → Option Text → ℕ → GlimeshServiceConnection → Authorized
unfolding expires_from
created_at l none expires_in s = (undefined, s)
created_at l (some at) expires_in s = expires_from l (parse_iso8601_date_time l at) expires_in s

-- `expires_in` is kept in 32 bits.
pub bearer_of : Library → Json → Option Text → GlimeshServiceConnection → Authorized
unfolding json_object_get created_at
bearer_of l j none s = (undefined, s)
bearer_of l j (some bearer) s =
    created_at l (json_string_value (json_object_get (some j) (codes "created_at")))
      (json_integer_value (json_object_get (some j) (codes "expires_in")) % 2 ^ 32)
      (record s { access_token = bearer })

pub token_of : Library → Option Json → GlimeshServiceConnection → Authorized
unfolding json_object_get bearer_of
token_of l none s = (thrown, s)
token_of l (some j) s =
    bearer_of l j (json_string_value (json_object_get (some j) (codes "access_token"))) s

pub fetch_token : Library → Option HttpResponse → GlimeshServiceConnection → Authorized
unfolding token_of
fetch_token l none s = (thrown, s)
fetch_token l (some r) s =
    if r.status == 200 then token_of l (l.json_loads r.body) s else (thrown, s)

pub ensure_auth :
    Library → ℕ → Option HttpResponse → GlimeshServiceConnection → List Request × Authorized
unfolding fetch_token
ensure_auth l now response s =
    if ltb 0 (length s.access_token) && ltb now s.access_token_expiration_time
    then ([], (value s.access_token, s))
    else (token s.client_id s.client_secret ∷ [], fetch_token l response s)

abbrev pub max_retries : ℕ
max_retries = 10

-- `processGraphQlResponse`: another status is tried again, and a body that is not JSON is not.
unfoldable pub is_answer : Option HttpResponse → Bool
is_answer none = false
is_answer (some r) = r.status == 200

pub loaded : Option Json → Outcome Json
loaded none = thrown
loaded (some j) = value j

pub process_graphql_response : Library → Option HttpResponse → Outcome Json
unfolding loaded
process_graphql_response l none = thrown
process_graphql_response l (some r) = loaded (l.json_loads r.body)

-- What the server answers: to the request for a token, at a time, and to each attempt.
pub record Answers : Type 0 where
  pub now : ℕ
  pub token_response : Option HttpResponse
  pub attempts : Attempts

abbrev Queried : Type 0
Queried = List Request × Outcome Json × GlimeshServiceConnection

pub query_with :
    Library
    → Answers
    → (Text → Request)
    → List Request
    → Outcome Text
    → GlimeshServiceConnection
    → Queried
unfolding run_attempts is_answer process_graphql_response
query_with l answers request requests (value bearer) s =
    let (rs, response) = run_attempts is_answer max_retries 0 (request bearer) answers.attempts in
    (requests ++ rs, process_graphql_response l response, s)
query_with l answers request requests error s = (requests, error, s)
query_with l answers request requests thrown s = (requests, thrown, s)
query_with l answers request requests undefined s = (requests, undefined, s)

pub run_graphql_query : Library → Answers → (Text → Request) → GlimeshServiceConnection → Queried
unfolding ensure_auth query_with
run_graphql_query l answers request s =
    let (requests, (bearer, s')) = ensure_auth l answers.now answers.token_response s in
    query_with l answers request requests bearer s'
