-- ===== src/Glimesh/Tests.antt =====
-- The theorems about src/ServiceConnections/GlimeshServiceConnection.cpp at concrete answers.
use janus_ftl_plugin.Prelude.{List, ◌++◌, ◌≡◌, refl, none, some, ◌==◌, if◌then◌else◌, length}
use janus_ftl_plugin.Prelude.Text.{Text, codes, same}
use janus_ftl_plugin.Http.{HttpResponse, run_attempts}
use janus_ftl_plugin.Glimesh.Operations.{data_member, start_stream}
use janus_ftl_plugin.Glimesh.{
  Json, text, integer, object, end, member, Library, Request, query, value,
  GlimeshServiceConnection, new_glimesh_connection, Answers, find_member, json_object_get,
  expires_from, created_at, bearer_of, token_of, fetch_token, ensure_auth, is_answer, loaded,
  process_graphql_response, query_with, run_graphql_query,
}
use janus_ftl_plugin.Glimesh.Queries.{IsQueried, run_graphql_query-IsQueried}

-- A body "1" is a token that is valid for 7,200 seconds, and another one a stream.
abbrev token_json : Json
token_json = object (
    member (codes "access_token") (text (codes "secret")) (
      member (codes "expires_in") (integer 7200)
        (member (codes "created_at") (text (codes "2021-01-01T00:00:00Z")) end)))

abbrev stream_json : Json
stream_json = object (
    member (codes "data")
      (object
        (member (codes "startStream") (object (member (codes "id") (text (codes "17")) end)) end))
      end)

abbrev library : Library
library = record {
  json_loads = λ body. if length body == 1 then some token_json else some stream_json;
  sscanf =
      λ date. some (record { year = 2021; month = 1; day = 1; hour = 0; minute = 0; second = 0 });
  mktime = λ date. 1000;
  stoi = λ digits_text. some 17;
}

abbrev answered : Text → HttpResponse
answered body = record { status = 200; body = body }

abbrev fresh : GlimeshServiceConnection
fresh = new_glimesh_connection (codes "id") (codes "key")

-- The third attempt is answered.
abbrev answers : Answers
answers = record {
  now = 2000;
  token_response = some (answered (codes "1"));
  attempts = λ n. if n == 2 then some (answered (codes "{}")) else none;
}

abbrev request : Text → Request
request bearer = query bearer (codes "query { }") none

run_graphql_query-IsQueried_example :
    let (requests, (bearer, authorized)) =
      ensure_auth library answers.now answers.token_response fresh in
    let (rs, result, s') = run_graphql_query library answers request fresh in
    ((qs : List Request) × (rs ≡ requests ++ qs)
      × IsQueried library answers request bearer qs result)
    × (s' ≡ authorized)
run_graphql_query-IsQueried_example = run_graphql_query-IsQueried library answers request fresh

stream_started :
    let (rs, result, _) = start_stream library answers 7 fresh in
    (length rs ≡ 4) × (result ≡ value 17)
unfolding start_stream run_graphql_query query_with run_attempts is_answer process_graphql_response
    loaded data_member ensure_auth fetch_token token_of bearer_of created_at expires_from
    json_object_get find_member same
stream_started = (refl, refl)
