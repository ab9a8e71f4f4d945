-- ===== src/Glimesh/Operations.antt =====
-- The operations of the service in src/ServiceConnections/GlimeshServiceConnection.cpp: each is a
-- query, and what is read from the JSON that it yields.
use janus_ftl_plugin.Prelude.{ℕ, ◌%◌, ◌^◌, Option, none, some, List, ◌++◌}
use janus_ftl_plugin.Prelude.Text.{Text, codes}
use janus_ftl_plugin.Rtp.Packet.{Bytes}
use janus_ftl_plugin.Janus.Sdp.{to_decimal}
use janus_ftl_plugin.Janus.Report.{StreamMetadata, ServiceResponse, ok, end_stream_requested}
use janus_ftl_plugin.Glimesh.{
  Json, array, Library, GlimeshServiceConnection, Request, query, upload, Outcome, value, error,
  thrown, undefined, json_object_get, json_string_value, Answers, run_graphql_query,
}

-- The member of a member of "data".
unfoldable pub data_member : Json → Text → Text → Option Json
unfolding json_object_get
data_member j outer inner =
    json_object_get (json_object_get (json_object_get (some j) (codes "data")) outer) inner

abbrev then_answer {ℓ κ} : {A : Type ℓ} {B : Type κ} → Outcome A → (A → Outcome B) → Outcome B
then_answer (value a) f = f a
then_answer error f = error
then_answer thrown f = thrown
then_answer undefined f = undefined

abbrev key_of : Option Text → Outcome Bytes
key_of none = error
key_of (some key) = value key

unfoldable pub get_hmac_key :
    Library
    → Answers
    → ℕ
    → GlimeshServiceConnection
    → List Request × Outcome Bytes × GlimeshServiceConnection
unfolding run_graphql_query data_member to_decimal
get_hmac_key l answers channel s =
    let q = codes "query { channel(id: \"" ++ to_decimal channel ++ codes "\") { hmacKey } }" in
    let (rs, result, s') = run_graphql_query l answers (λ bearer. query bearer q none) s in
    (
      rs,
      then_answer result
          (λ j. key_of (json_string_value (data_member j (codes "channel") (codes "hmacKey")))),
      s',
    )

abbrev id_of : Library → Option Text → Outcome ℕ
id_of l none = error
id_of l (some id) = elim (l.stoi id) [ none ↦ thrown | some n ↦ value (n % 2 ^ 32) ]

unfoldable pub start_stream :
    Library
    → Answers
    → ℕ
    → GlimeshServiceConnection
    → List Request × Outcome ℕ × GlimeshServiceConnection
unfolding run_graphql_query data_member to_decimal
start_stream l answers channel s =
    let q =
      codes "mutation { startStream(channelId: " ++ to_decimal channel ++ codes ") { id } }" in
    let (rs, result, s') = run_graphql_query l answers (λ bearer. query bearer q none) s in
    (
      rs,
      then_answer result
          (λ j. id_of l (json_string_value (data_member j (codes "startStream") (codes "id")))),
      s',
    )

found_or_error {ℓ κ} : {A : Type ℓ} {B : Type κ} → B → Option A → Outcome B
found_or_error b none = error
found_or_error b (some a) = value b

-- An array of errors is taken for the end of the stream.
updated : Json → Option Json → Outcome ServiceResponse
unfolding data_member found_or_error
updated j none = found_or_error ok (data_member j (codes "logStreamMetadata") (codes "id"))
updated j (some array) = value end_stream_requested
updated j (some errors) = error

unfoldable pub update_stream_metadata :
    Library
    → Answers
    → ℕ
    → StreamMetadata
    → GlimeshServiceConnection
    → List Request × Outcome ServiceResponse × GlimeshServiceConnection
unfolding run_graphql_query json_object_get updated
update_stream_metadata l answers stream metadata s =
    let q =
      codes "mutation($streamId: ID!, $streamMetadata: StreamMetadataInput!) "
      ++ codes "{ logStreamMetadata(streamId: $streamId, metadata: $streamMetadata) { id } }" in
    let (rs, result, s') =
      run_graphql_query l answers (λ bearer. query bearer q (some (stream, metadata))) s in
    (rs, then_answer result (λ j. updated j (json_object_get (some j) (codes "errors"))), s')

unfoldable end_glimesh_stream :
    Library
    → Answers
    → ℕ
    → GlimeshServiceConnection
    → List Request × Outcome (Unit {0}) × GlimeshServiceConnection
unfolding run_graphql_query data_member found_or_error to_decimal
end_glimesh_stream l answers stream s =
    let q = codes "mutation { endStream(streamId: " ++ to_decimal stream ++ codes ") { id } }" in
    let (rs, result, s') = run_graphql_query l answers (λ bearer. query bearer q none) s in
    (
      rs,
      then_answer result (λ j. found_or_error tt (data_member j (codes "endStream") (codes "id"))),
      s',
    )

unfoldable pub send_jpeg_preview_image :
    Library
    → Answers
    → ℕ
    → Bytes
    → GlimeshServiceConnection
    → List Request × Outcome (Unit {0}) × GlimeshServiceConnection
unfolding run_graphql_query to_decimal
send_jpeg_preview_image l answers stream jpeg s =
    let q =
      codes "mutation { uploadStreamThumbnail(streamId: "
      ++ to_decimal stream
      ++ codes ", thumbnail: \"thumbdata\") { id } }" in
    let (rs, result, s') = run_graphql_query l answers (λ bearer. upload bearer q jpeg) s in
    (rs, then_answer result (λ j. value tt), s')
