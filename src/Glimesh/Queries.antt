-- ===== src/Glimesh/Queries.antt =====
-- A query of src/ServiceConnections/GlimeshServiceConnection.cpp.
use mathlib.Core.List.{append-nil}
use janus_ftl_plugin.Prelude.{
  ◌+◌, ◌≢◌, ◌⊎◌, ◌++◌, [], All, sym, ℕ, ◌≤◌, ◌<◌, ◌≡◌, refl, true, false, Option, none, some, List,
  length, arith, inl, inr,
}
use janus_ftl_plugin.Prelude.Text.{Text}
use janus_ftl_plugin.Http.{HttpResponse, run_attempts}
use janus_ftl_plugin.Http.Retries.{run_attempts-IsFirst, run_attempts-All, IsFirst}
use janus_ftl_plugin.Glimesh.{
  Json, Library, GlimeshServiceConnection, Request, value, error, thrown, undefined, Outcome,
  Answers, ensure_auth, is_answer, process_graphql_response, query_with, run_graphql_query,
  max_retries, loaded,
}

-- An attempt without a response, or with another status than 200.
abbrev pub Fails : Option HttpResponse → Type 0
Fails none = Unit {0}
Fails (some r) = r.status ≢ 200

-- What is to be made of a body.
abbrev pub parsed : Option Json → Outcome Json
parsed none = thrown
parsed (some j) = value j

-- What a query with a token does: the requests, all of them this one, end with the first attempt that
-- is answered with status 200, whose body is the result if it is JSON; or all eleven attempts fail.
abbrev pub IsAnswered : Library → Answers → Request → List Request → Outcome Json → Type 0
IsAnswered l a request rs result =
    All (λ r. r ≡ request) rs
    × (((k : ℕ) × (r : HttpResponse) × (k ≤ 10)
          × (a.attempts k ≡ some r)
          × (r.status ≡ 200)
          × ((i : ℕ) → i < k → Fails (a.attempts i))
          × (length rs ≡ k + 1)
          × (result ≡ parsed (l.json_loads r.body)))
        ⊎ (((i : ℕ) → i ≤ 10 → Fails (a.attempts i)) × (length rs ≡ 11) × (result ≡ thrown)))

-- A query after `ensureAuth`: without a token it ends as that did.
abbrev pub IsQueried :
    Library → Answers → (Text → Request) → Outcome Text → List Request → Outcome Json → Type 0
IsQueried l a request (value bearer) rs result = IsAnswered l a (request bearer) rs result
IsQueried l a request error rs result = (rs ≡ []) × (result ≡ error)
IsQueried l a request thrown rs result = (rs ≡ []) × (result ≡ thrown)
IsQueried l a request undefined rs result = (rs ≡ []) × (result ≡ undefined)

is_answer-status :
    (o : Option HttpResponse)
    → is_answer o ≡ true
    → (r : HttpResponse) × (o ≡ some r) × (r.status ≡ 200)
unfolding is_answer
is_answer-status none e = absurd (ground arith)
is_answer-status (some r) e = (r, refl, ground arith)

is_answer-Fails : (o : Option HttpResponse) → is_answer o ≡ false → Fails o
unfolding is_answer
is_answer-Fails none e = tt
is_answer-Fails (some r) e = λ same. absurd (ground arith)

loaded-parsed : (o : Option Json) → loaded o ≡ parsed o
unfolding loaded
loaded-parsed none = refl
loaded-parsed (some j) = refl

process-IsAnswered :
    (l : Library) (a : Answers) (request : Request) (rs : List Request)
    (response : Option HttpResponse)
    → All (λ r. r ≡ request) rs
    → IsFirst is_answer 10 a.attempts (rs, response)
    → IsAnswered l a request rs (process_graphql_response l response)
unfolding process_graphql_response
process-IsAnswered l a request rs response all (inr (failed, count, bad)) =
    (all, inr (λ i h. is_answer-Fails (a.attempts i) (bad i h), count, rw failed refl))
process-IsAnswered l a request rs response all (inl (k, few, good, before, same, count)) =
    let (r, found, ok) = is_answer-status (a.attempts k) good in
    (
      all,
      inl (
        k,
        r,
        few,
        found,
        ok,
        λ i h. is_answer-Fails (a.attempts i) (before i h),
        count,
        rw (same, found) (loaded-parsed (l.json_loads r.body)),
      ),
    )

query_with-IsQueried :
    (l : Library) (a : Answers) (request : Text → Request) (requests : List Request)
    (bearer : Outcome Text) (s : GlimeshServiceConnection)
    → let (rs, result, s') = query_with l a request requests bearer s in
      ((qs : List Request) × (rs ≡ requests ++ qs) × IsQueried l a request bearer qs result)
      × (s' ≡ s)
unfolding query_with
query_with-IsQueried l a request requests (value bearer) s =
    let made = run_attempts is_answer max_retries 0 (request bearer) a.attempts in
    (
      (
        made.0,
        refl,
        process-IsAnswered l a (request bearer) made.0 made.1
            (run_attempts-All is_answer 10 0 (request bearer) a.attempts)
            (run_attempts-IsFirst is_answer 10 (request bearer) a.attempts),
      ),
      refl,
    )
query_with-IsQueried l a request requests error s =
    (([], sym (append-nil requests), (refl, refl)), refl)
query_with-IsQueried l a request requests thrown s =
    (([], sym (append-nil requests), (refl, refl)), refl)
query_with-IsQueried l a request requests undefined s =
    (([], sym (append-nil requests), (refl, refl)), refl)

-- A query begins as `ensureAuth` does, and leaves the state that this leaves. If there is a token then,
-- the query is made with it again and again until the first attempt that is answered with status 200,
-- whose body is the result, or an exception if it is not JSON; if none of eleven attempts is answered
-- so, they are all made, and the result is an exception. Without a token nothing is asked for, and
-- the result is what `ensureAuth` ended with.
pub run_graphql_query-IsQueried :
    (l : Library) (a : Answers) (request : Text → Request) (s : GlimeshServiceConnection)
    → let (requests, (bearer, authorized)) = ensure_auth l a.now a.token_response s in
      let (rs, result, s') = run_graphql_query l a request s in
      ((qs : List Request) × (rs ≡ requests ++ qs) × IsQueried l a request bearer qs result)
      × (s' ≡ authorized)
unfolding run_graphql_query
run_graphql_query-IsQueried l a request s =
    let (requests, (bearer, authorized)) = ensure_auth l a.now a.token_response s in
    query_with-IsQueried l a request requests bearer authorized
