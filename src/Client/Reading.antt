-- ===== src/Client/Reading.antt =====
-- The connection thread of src/FtlClient.cpp: lines cut into any reads.
use janus_ftl_plugin.Prelude.{
  ◌≡◌, ◌≢◌, refl, ap, ◌∙◌, Bool, true, false, none, some, List, [], ◌∷◌, ◌++◌, arith, ◌==◌,
  if◌then◌else◌, All, map,
}
use mathlib.Core.List.{append_assoc, append-nil}
use janus_ftl_plugin.Prelude.Text.{Text}
use janus_ftl_plugin.Client.{
  Library, FtlClient, FtlResponse, split_line, parse_response, receive_response, receive_line,
  on_read,
}

-- No newline.
abbrev pub IsPiece : Text → Type 0
IsPiece text = All (λ x. x ≢ 10) text

-- The reads of the connection thread, up to one that ends it.
pub read_all : Library → List Text → FtlClient → Bool × FtlClient
unfolding on_read
read_all l [] c = (true, c)
read_all l (bytes ∷ reads) c =
    let (goes_on, c') = on_read l bytes c in
    let rest = read_all l reads c' in if goes_on then rest else (false, c')

split_line-piece : (text : Text) → IsPiece text → split_line text ≡ none
unfolding split_line
split_line-piece [] h = refl
split_line-piece (x ∷ xs) h =
    let other : (x == 10) ≡ false = ground arith in rw (other, split_line-piece xs h.1) refl

split_line-line :
    (text after : Text) → IsPiece text → split_line (text ++ 10 ∷ after) ≡ some (text, after)
unfolding split_line
split_line-line [] after h = refl
split_line-line (x ∷ xs) after h =
    let other : (x == 10) ≡ false = ground arith in rw (other, split_line-line xs after h.1) refl

on_read-piece :
    (l : Library) (text : Text) (c : FtlClient)
    → IsPiece text
    → on_read l text c ≡ (true, record c { received_bytes = c.received_bytes ++ text })
unfolding on_read receive_line
on_read-piece l text c h = rw (split_line-piece text h) refl

pub on_read-line :
    (l : Library) (text after : Text) (c : FtlClient)
    → IsPiece text
    → on_read l (text ++ 10 ∷ after) c
      ≡ receive_response
          (parse_response l (c.received_bytes ++ text))
          (record c { received_bytes = after })
unfolding on_read receive_line
on_read-line l text after c h = rw (split_line-line text after h) refl

-- A line as it arrives: in pieces, the last of which ends with the newline.
abbrev pub Line : Type 0
Line = List Text × Text

abbrev reads : Line → List Text
reads (pieces, last) = pieces ++ (last ++ 10 ∷ []) ∷ []

abbrev pub joined : List Text → Text → Text
joined [] last = last
joined (piece ∷ pieces) last = piece ++ joined pieces last

-- A line that is a response.
abbrev pub IsResponse : Library → Line → FtlResponse → Type 0
IsResponse l (pieces, last) r =
    All IsPiece pieces × IsPiece last × (parse_response l (joined pieces last) ≡ some r)

abbrev pub all_reads : List (Line × FtlResponse) → List Text
all_reads [] = []
all_reads ((line, r) ∷ lines) = reads line ++ all_reads lines

abbrev pub responses : List (Line × FtlResponse) → List FtlResponse
responses lines = map (λ (x : Line × FtlResponse). x.1) lines

read_line :
    (l : Library) (pieces : List Text) (last : Text) (rest : List Text) (r : FtlResponse)
    (c : FtlClient)
    → All IsPiece pieces
    → IsPiece last
    → parse_response l (c.received_bytes ++ joined pieces last) ≡ some r
    → read_all l (pieces ++ (last ++ 10 ∷ []) ∷ [] ++ rest) c
      ≡ read_all l rest
          (record c { received_bytes = []; received_responses = c.received_responses ++ r ∷ [] })
unfolding read_all receive_response
read_line l [] last rest r c h k e = rw (on_read-line l last [] c k, e) refl
read_line l (piece ∷ pieces) last rest r c h k e =
    let c' = record c { received_bytes = c.received_bytes ++ piece } in
    rw (on_read-piece l piece c h.0) (
      read_line l pieces last rest r c' h.1 k
        (rw (append_assoc c.received_bytes piece (joined pieces last)) e))

-- Lines that are responses, each cut into any reads of which the last ends with the newline, are
-- received as the responses that they are, in their order, and the thread goes on with nothing left.
pub read_all-lines :
    (l : Library) (lines : List (Line × FtlResponse)) (c : FtlClient)
    → All (λ (x : Line × FtlResponse). IsResponse l x.0 x.1) lines
    → c.received_bytes ≡ []
    → read_all l (all_reads lines) c ≡ (
      true,
      record c {
        received_bytes = [];
        received_responses = c.received_responses ++ responses lines;
      },
    )
unfolding read_all
read_all-lines l [] c h empty =
    rw (append-nil c.received_responses)
      (ap (λ (b : Text). (true, record c { received_bytes = b })) empty)
read_all-lines l (((pieces, last), r) ∷ lines) c h empty =
    let c' = record c {
      received_bytes = [];
      received_responses = c.received_responses ++ r ∷ [];
    } in
    read_line l pieces last (all_reads lines) r c h.0.0 h.0.1 (rw empty h.0.2)
    ∙ read_all-lines l lines c' h.1 refl
    ∙ rw (append_assoc c.received_responses (r ∷ []) (responses lines)) refl

-- Two lines that arrive in one read: the second one stays in the buffer, and is taken as one line
-- with the next that arrives, the newline between them included.
on_read_merged :
    (l : Library) (first second third : Text) (r : FtlResponse) (c : FtlClient)
    → IsPiece first
    → IsPiece second
    → IsPiece third
    → parse_response l (c.received_bytes ++ first) ≡ some r
    → let c' = (on_read l (first ++ 10 ∷ (second ++ 10 ∷ [])) c).1 in
      (c'.received_responses ≡ c.received_responses ++ r ∷ [])
      × (on_read l (third ++ 10 ∷ []) c'
          ≡ receive_response
              (parse_response l ((second ++ 10 ∷ []) ++ third))
              (record c' { received_bytes = [] }))
unfolding receive_response
on_read_merged l first second third r c h k j e =
    let c' = record c {
      received_bytes = second ++ 10 ∷ [];
      received_responses = c.received_responses ++ r ∷ [];
    } in
    rw (on_read-line l first (second ++ 10 ∷ []) c h, e) (refl, on_read-line l third [] c' j)
