-- ===== src/Server/Held.antt =====
-- Who holds each media port of src/FtlServer.cpp: an active stream, a stream that is about to
-- start, or an event that brings word of one.
use mathlib.Core.Option.{some-injective}
use janus_ftl_plugin.Prelude.{
  ℕ, ◌+◌, ◌≡◌, refl, sym, ap, subst, inl, inr, ==_iff, false, some, [], ◌∷◌, arith, ◌==◌, sum, ◌&&◌,
  Bool-cases,
}
use janus_ftl_plugin.Prelude.OrdMap.{
  OrdMap, contains, find, emplace, erase, Above, Ascends, Above-contains, Above-Ascends,
  find-contains,
}
use janus_ftl_plugin.Server.{
  FtlStreamRecord, FtlServer, FtlServerEvent, stream_started, stream_start_failed, Task,
  start_stream, find_stream,
}
use janus_ftl_plugin.Server.Steps.{one_if}

abbrev pub port_of_event : ℕ → FtlServerEvent → ℕ
port_of_event q (stream_started p channel stream port) = one_if (q == port)
port_of_event q (stream_start_failed channel stream port) = one_if (q == port)
port_of_event q e = 0

abbrev pub port_of_task : ℕ → Task → ℕ
port_of_task q (start_stream c channel stream port m) = one_if (q == port)
port_of_task q t = 0

abbrev pub active_ports : ℕ → OrdMap FtlStreamRecord → ℕ
active_ports q [] = 0
active_ports q ((p, r) ∷ m) = one_if (q == r.media_port) + active_ports q m

-- How many streams hold a port.
abbrev pub held : ℕ → FtlServer → ℕ
held q s =
    active_ports q s.active_streams
    + sum (port_of_event q) s.event_queue
    + sum (port_of_task q) s.async_tasks

abbrev pub in_use : ℕ → FtlServer → ℕ
in_use q s = one_if (contains q s.used_media_ports)

pub active_ports-emplace :
    (q p : ℕ) (r : FtlStreamRecord) (m : OrdMap FtlStreamRecord)
    → contains p m ≡ false
    → active_ports q (emplace p r m) ≡ one_if (q == r.media_port) + active_ports q m
unfolding contains emplace
active_ports-emplace q p r [] h = omega arith
active_ports-emplace q p r ((i, w) ∷ m) h = ground (arith, active_ports-emplace q p r m)

erase_none : (p : ℕ) (m : OrdMap FtlStreamRecord) → contains p m ≡ false → erase p m ≡ m
unfolding contains erase
erase_none p [] h = refl
erase_none p ((i, w) ∷ m) h = ground (arith, erase_none p m)

Above-absent : (p : ℕ) (m : OrdMap FtlStreamRecord) → Above p m → contains p m ≡ false
Above-absent p m u = elim (Bool-cases (contains p m)) [
  | inl there ↦ absurd (omega (arith, Above-contains p p m u there))
  | inr absent ↦ absent
]

pub active_ports-erase :
    (q p : ℕ) (r : FtlStreamRecord) (m : OrdMap FtlStreamRecord)
    → Ascends m
    → find p m ≡ some r
    → active_ports q m ≡ one_if (q == r.media_port) + active_ports q (erase p m)
unfolding find erase
active_ports-erase q p r [] u e = absurd (ground arith)
active_ports-erase q p r ((i, w) ∷ m) u e = elim (Bool-cases (p == i)) [
  | inl same ↦
      let h : p ≡ i = (==_iff p i).0 same in
      ground (arith, erase_none p m (Above-absent p m (subst (λ (x : ℕ). Above x m) (sym h) u)))
  | inr other ↦ ground (arith, active_ports-erase q p r m (Above-Ascends i m u))
]

pub find_stream-find :
    (channel stream p : ℕ) (r : FtlStreamRecord) (m : OrdMap FtlStreamRecord)
    → Ascends m
    → find_stream channel stream m ≡ some (p, r)
    → find p m ≡ some r
unfolding find_stream find
find_stream-find channel stream p r [] u e = absurd (ground arith)
find_stream-find channel stream p r ((i, w) ∷ m) u e =
    elim (Bool-cases (w.channel_id == channel && w.stream_id == stream)) [
      | inl found ↦
          let hit : some (i, w) ≡ some (p, r) = rw found at e in
          let both : (i, w) ≡ (p, r) = some-injective (i, w) (p, r) hit in
          let same : i ≡ p = ap (λ (x : ℕ × FtlStreamRecord). x.0) both in
          let record_eq : w ≡ r = ap (λ (x : ℕ × FtlStreamRecord). x.1) both in
          ground (arith, same, record_eq)
      | inr further ↦ ground (
        arith,
        find_stream-find channel stream p r m (Above-Ascends i m u),
        find-contains p r m,
        Above-contains i p m u,
      )
    ]
