-- ===== src/Rest/Tests.antt =====
-- The theorems about src/ServiceConnections/RestServiceConnection.cpp at concrete answers.
use janus_ftl_plugin.Prelude.{◌≡◌, refl, none, some, ◌==◌, length, if◌then◌else◌}
use janus_ftl_plugin.Prelude.Text.{codes}
use janus_ftl_plugin.Http.{Attempts, run_attempts}
use janus_ftl_plugin.Rest.{
  Request, get, Library, value, is_answer, run_request, new_rest_connection, with_slashes,
  with_last_slash, first_is_slash, last_is_slash, string_of,
}
use janus_ftl_plugin.Rest.{get_hmac_key, start_stream}

-- The third attempt is answered.
abbrev answers : Attempts
answers n = if n == 2 then some (record { status = 200; body = codes "{}" }) else none

abbrev library : Library
library = record { json_string = λ body name. some (some (codes "17")); stoi = λ text. some 17 }

abbrev request : Request
request = get (codes "/hmac/7")

three_attempts : length (run_request request answers).0 ≡ 3
unfolding run_request run_attempts is_answer
three_attempts = refl

slashes_added : (new_rest_connection (codes "api/v1")).path_base ≡ codes "/api/v1/"
unfolding new_rest_connection with_slashes with_last_slash first_is_slash last_is_slash
slashes_added = refl

stream_id_read : (start_stream library 7 answers (new_rest_connection (codes "/"))).1 ≡ value 17
unfolding start_stream run_request run_attempts is_answer string_of
stream_id_read = refl

key_read : (get_hmac_key library 7 answers (new_rest_connection (codes "/"))).1 ≡ value (codes "17")
unfolding get_hmac_key run_request run_attempts is_answer string_of
key_read = refl
