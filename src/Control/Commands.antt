-- ===== src/Control/Commands.antt =====
-- How `onTransportBytesReceived` of src/FtlControlConnection.cpp cuts the bytes into commands.
use mathlib.Core.List.{reverse_aux, reverse-reverse}
use janus_ftl_plugin.Prelude.{
  ◌-◌, sym, subst, take, drop, length, ◌≡◌, ◌≢◌, ◌∙◌, refl, ap, List, [], ◌∷◌, ◌++◌, arith, reverse,
  All, ◌==◌, Bool-cases, inl, inr,
}
use janus_ftl_plugin.Prelude.Text.{Text}
use janus_ftl_plugin.Control.{
  Library, FtlControlConnection, Result, process_command, process_found, scan_character, scan,
  delimiter, on_transport_bytes_received,
}

-- The commands as a client sends them, each with its delimiter.
abbrev encode : List Text → Text
encode [] = []
encode (command ∷ commands) = command ++ 13 ∷ 10 ∷ 13 ∷ 10 ∷ encode commands

-- The commands one after the other.
process_all : Library → List Text → FtlControlConnection → Result
unfolding process_command
process_all l [] c = (record c { command_buffer = [] }, [])
process_all l (command ∷ commands) c =
    let (c', es) = process_command l command c in
    let (c'', es') = process_all l commands c' in (c'', es ++ es')

scan_text :
    (l : Library) (seen text rest : Text) (c : FtlControlConnection)
    → All (λ x. x ≢ 13) text
    → scan l seen 0 (text ++ rest) c ≡ scan l (reverse_aux text seen) 0 rest c
unfolding scan scan_character delimiter process_found
scan_text l seen [] rest c h = refl
scan_text l seen (x ∷ text) rest c h = elim (Bool-cases (x == 13)) [
  | inl return ↦ absurd (ground (arith, h.0, return))
  | inr other ↦ rw other (scan_text l (x ∷ seen) text rest c h.1)
]

scan_delimiter :
    (l : Library) (seen rest : Text) (c : FtlControlConnection)
    → let r = process_command l (reverse seen) c in
      let r' = scan l [] 0 rest r.0 in
      scan l seen 0 (13 ∷ 10 ∷ 13 ∷ 10 ∷ rest) c ≡ (r'.0, r.1 ++ r'.1)
unfolding scan scan_character delimiter process_found
scan_delimiter l seen rest c = refl

scan-encode :
    (l : Library) (commands : List Text) (c : FtlControlConnection)
    → All (All (λ x. x ≢ 13)) commands
    → scan l [] 0 (encode commands) c ≡ process_all l commands c
unfolding scan process_all
scan-encode l [] c h = refl
scan-encode l (command ∷ commands) c h =
    let rest = 13 ∷ 10 ∷ 13 ∷ 10 ∷ encode commands in
    let r = process_command l command c in
    let next : Text → Result = λ text.
      let q = process_command l text c in
      let q' = scan l [] 0 (encode commands) q.0 in (q'.0, q.1 ++ q'.1) in
    scan_text l [] command rest c h.0
    ∙ scan_delimiter l (reverse_aux command []) (encode commands) c
    ∙ ap next (reverse-reverse command)
    ∙ ap (λ (r' : Result). (r'.0, r.1 ++ r'.1)) (scan-encode l commands r.0 h.1)

-- Commands without a carriage return that arrive together, at a connection with nothing left in
-- its buffer, are processed one by one in their order, and nothing is left in the buffer.
on_transport_bytes_received-encode :
    (l : Library) (commands : List Text) (c : FtlControlConnection)
    → c.command_buffer ≡ []
    → All (All (λ x. x ≢ 13)) commands
    → on_transport_bytes_received l (encode commands) c ≡ process_all l commands c
unfolding on_transport_bytes_received
on_transport_bytes_received-encode l commands c empty h =
    subst
      (λ (b : Text).
        scan l (reverse (take (length b - 4) b)) 0 (drop (length b - 4) b ++ encode commands) c
        ≡ scan l [] 0 (encode commands) c)
      (sym empty) refl
    ∙ scan-encode l commands c h
