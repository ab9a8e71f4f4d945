-- ===== src/Control/Ended.antt =====
-- The whole life of a control connection's thread (src/FtlControlConnection.cpp).
use janus_ftl_plugin.Prelude.{
  ℕ, ◌+◌, ◌≡◌, ◌⊎◌, ◌∙◌, refl, sym, ap, Bool, true, false, Option, none, some, List, [], ◌∷◌, ◌++◌,
  map, arith, if◌then◌else◌, length, ◌==◌, sum, sum-append, inl, inr, if-both, if-cases,
}
use mathlib.Core.List.{append_assoc, append-nil}
use janus_ftl_plugin.Rtp.Packet.{Bytes}
use janus_ftl_plugin.Control.{Library, Effect, FtlControlConnection, new_control_connection, Result}
use janus_ftl_plugin.Control.Session.{Call, receive, run, run_all}
use janus_ftl_plugin.Control.Thread.{
  Thread, new_thread, ThreadEffect, own, stop_transport, notify_stream, notify_manager, Event, turn,
  call, set_ftl_stream, notice_of, end_thread, with_result, read_turn, step, steps,
}

-- What the connection itself does.
abbrev pub own_effects : List ThreadEffect → List Effect
own_effects [] = []
own_effects (own e ∷ fs) = e ∷ own_effects fs
own_effects (stop_transport ∷ fs) = own_effects fs
own_effects (notify_stream ∷ fs) = own_effects fs
own_effects (notify_manager ∷ fs) = own_effects fs

abbrev pub stops : ThreadEffect → ℕ
stops stop_transport = 1
stops f = 0

abbrev pub notices : ThreadEffect → ℕ
notices notify_stream = 1
notices notify_manager = 1
notices f = 0

abbrev pub one_if_ended : Thread → ℕ
one_if_ended t = if t.has_ended then 1 else 0

own_effects-append :
    (xs ys : List ThreadEffect) → own_effects (xs ++ ys) ≡ own_effects xs ++ own_effects ys
own_effects-append [] ys = refl
own_effects-append (own e ∷ xs) ys = ap (λ (zs : List Effect). e ∷ zs) (own_effects-append xs ys)
own_effects-append (stop_transport ∷ xs) ys = own_effects-append xs ys
own_effects-append (notify_stream ∷ xs) ys = own_effects-append xs ys
own_effects-append (notify_manager ∷ xs) ys = own_effects-append xs ys

own_effects-map : (es : List Effect) → own_effects (map own es) ≡ es
own_effects-map [] = refl
own_effects-map (e ∷ es) = ap (λ (zs : List Effect). e ∷ zs) (own_effects-map es)

own-quiet : (es : List Effect) → (sum stops (map own es) ≡ 0) × (sum notices (map own es) ≡ 0)
own-quiet [] = (refl, refl)
own-quiet (e ∷ es) = let (a, b) = own-quiet es in (omega (arith, a), omega (arith, b))

-- What a step does: it is a few calls of a session, and counts the end of the thread.
record IsStep (l : Library) (t : Thread) (r : List ThreadEffect × Thread) : Type 0 where
  calls : List Call
  session : run_all l calls t.connection ≡ (r.1.connection, own_effects r.0)
  stopped : sum stops r.0 + one_if_ended t ≡ one_if_ended r.1
  manager : r.1.has_manager ≡ t.has_manager
  noticed : t.has_manager ≡ true → sum notices r.0 + one_if_ended t ≡ one_if_ended r.1

IsStep-quiet : (l : Library) (t : Thread) → IsStep l t ([], t)
unfolding run_all
IsStep-quiet l t = record {
  calls = [];
  session = refl;
  stopped = omega arith;
  manager = refl;
  noticed = λ h. omega arith;
}

-- One call of a session.
IsStep-call :
    (l : Library) (t : Thread) (k : Call) → IsStep l t (with_result t (run l k t.connection))
unfolding run_all
IsStep-call l t k =
    let es = (run l k t.connection).1 in
    record {
      calls = k ∷ [];
      session =
          ap (λ (xs : List Effect). ((run l k t.connection).0, xs))
            (append-nil es ∙ sym (own_effects-map es));
      stopped = omega (arith, own-quiet es);
      manager = refl;
      noticed = λ h. omega (arith, own-quiet es);
    }

notice_of-notices :
    (stream manager : Bool)
    → (own_effects (notice_of stream manager) ≡ [])
      × (sum stops (notice_of stream manager) ≡ 0)
      × (manager ≡ true → sum notices (notice_of stream manager) ≡ 1)
notice_of-notices true manager = (refl, refl, λ h. refl)
notice_of-notices false true = (refl, refl, λ h. refl)
notice_of-notices false false = (refl, refl, λ h. absurd (ground arith))

end_thread-IsStep : (l : Library) (t : Thread) → t.has_ended ≡ false → IsStep l t (end_thread t)
unfolding end_thread run_all
end_thread-IsStep l t running =
    let (none_own, no_stop, one_notice) = notice_of-notices t.has_stream t.has_manager in
    let before : one_if_ended t ≡ 0 = rw running refl in
    record {
      calls = [];
      session = ap (λ (xs : List Effect). (t.connection, xs)) (sym none_own);
      stopped = omega (arith, no_stop, before);
      manager = refl;
      noticed = λ h. omega (arith, one_notice h, before);
    }

read_turn-IsStep :
    (l : Library) (bytes : Option Bytes) (t : Thread)
    → t.has_ended ≡ false
    → IsStep l t (read_turn l bytes t)
unfolding read_turn run
read_turn-IsStep l none t running = end_thread-IsStep l t running
read_turn-IsStep l (some bytes) t running =
    if-both (IsStep l t) (length bytes == 0) (IsStep-quiet l t) (IsStep-call l t (receive bytes))

step-IsStep : (l : Library) (e : Event) (t : Thread) → IsStep l t (step l e t)
unfolding step run_all
step-IsStep l (turn bytes) t =
    if-cases (IsStep l t) t.has_ended (λ ended. IsStep-quiet l t)
      (λ running.
        if-both (IsStep l t) t.connection.stop_requested (end_thread-IsStep l t running)
          (read_turn-IsStep l bytes t running))
step-IsStep l (call k) t = IsStep-call l t k
step-IsStep l set_ftl_stream t = record {
  calls = [];
  session = refl;
  stopped = omega arith;
  manager = refl;
  noticed = λ h. omega arith;
}

run_all-append :
    (l : Library) (ks ks' : List Call) (c : FtlControlConnection)
    → let (c', es) = run_all l ks c in
      let (c'', es') = run_all l ks' c' in run_all l (ks ++ ks') c ≡ (c'', es ++ es')
unfolding run_all
run_all-append l [] ks' c = refl
run_all-append l (k ∷ ks) ks' c =
    let r = run l k c in
    let tail = run_all l ks r.0 in
    let last = run_all l ks' tail.0 in
    ap (λ (p : Result). (p.0, r.1 ++ p.1)) (run_all-append l ks ks' r.0)
    ∙ ap (λ (es : List Effect). (last.0, es)) (sym (append_assoc r.1 tail.1 last.1))

run_all-both :
    (l : Library) (ks ks' : List Call) (c : FtlControlConnection) (r r' : Result)
    → run_all l ks c ≡ r
    → run_all l ks' r.0 ≡ r'
    → run_all l (ks ++ ks') c ≡ (r'.0, r.1 ++ r'.1)
run_all-both l ks ks' c r r' e e' =
    run_all-append l ks ks' c
    ∙ ap (λ (p : Result). ((run_all l ks' p.0).0, p.1 ++ (run_all l ks' p.0).1)) e
    ∙ ap (λ (q : Result). (q.0, r.1 ++ q.1)) e'

steps-IsStep : (l : Library) (es : List Event) (t : Thread) → IsStep l t (steps l es t)
unfolding steps
steps-IsStep l [] t = IsStep-quiet l t
steps-IsStep l (e ∷ es) t =
    let r = step l e t in
    let r' = steps l es r.1 in
    let first = step-IsStep l e t in
    let later = steps-IsStep l es r.1 in
    record {
      calls = first.calls ++ later.calls;
      session =
          run_all-both l first.calls later.calls t.connection (r.1.connection, own_effects r.0)
            (r'.1.connection, own_effects r'.0) first.session later.session
          ∙ ap (λ (fs : List Effect). (r'.1.connection, fs)) (sym (own_effects-append r.0 r'.0));
      stopped = omega (arith, first.stopped, later.stopped, sum-append stops r.0 r'.0);
      manager = later.manager ∙ first.manager;
      noticed = λ h.
          omega (
            arith,
            first.noticed h,
            later.noticed (first.manager ∙ h),
            sum-append notices r.0 r'.0,
          );
    }

-- Over any reads of the thread and calls of the server, in any order, what a connection with a
-- manager does to its client and asks of the server is a session; and when the thread has ended, and
-- only then, the transport has been stopped, once, and the stream or the manager told, once.
pub steps-session :
    (l : Library) (es : List Event)
    → let (fs, t) = steps l es (new_thread true) in
      ((ks : List Call) × (run_all l ks new_control_connection ≡ (t.connection, own_effects fs)))
      × (sum stops fs ≡ one_if_ended t)
      × (sum notices fs ≡ one_if_ended t)
steps-session l es =
    let s = steps-IsStep l es (new_thread true) in
    ((s.calls, s.session), omega (arith, s.stopped), omega (arith, s.noticed refl))

step-has_ended :
    (l : Library) (e : Event) (t : Thread) → t.has_ended ≡ true → (step l e t).1.has_ended ≡ true
unfolding step
step-has_ended l (turn bytes) t ended = rw ended refl
step-has_ended l (call k) t ended = ended
step-has_ended l set_ftl_stream t ended = ended

kept_ended :
    (l : Library) (es : List Event) (t : Thread)
    → t.has_ended ≡ true
    → (steps l es t).1.has_ended ≡ true
unfolding steps
kept_ended l [] t ended = ended
kept_ended l (e ∷ es) t ended = kept_ended l es (step l e t).1 (step-has_ended l e t ended)

turn-has_ended :
    (l : Library) (bytes : Option Bytes) (t : Thread)
    → (t.connection.stop_requested ≡ true) ⊎ (bytes ≡ none)
    → (step l (turn bytes) t).1.has_ended ≡ true
unfolding step read_turn end_thread
turn-has_ended l bytes t cause =
    let P = λ (r : List ThreadEffect × Thread). r.1.has_ended ≡ true in
    if-cases P t.has_ended (λ ended. ended)
      (λ running. if-cases P t.connection.stop_requested (λ asked. refl) (λ quiet. now cause quiet))
  where
    now :
        (t.connection.stop_requested ≡ true) ⊎ (bytes ≡ none)
        → t.connection.stop_requested ≡ false
        → (read_turn l bytes t).1.has_ended ≡ true
    now (inl asked) quiet = absurd (ground arith)
    now (inr failed) quiet = rw failed refl

-- A turn of the thread that finds a stop requested, or that cannot read, ends the thread for good.
steps-has_ended :
    (l : Library) (bytes : Option Bytes) (es : List Event) (t : Thread)
    → (t.connection.stop_requested ≡ true) ⊎ (bytes ≡ none)
    → (steps l (turn bytes ∷ es) t).1.has_ended ≡ true
unfolding steps
steps-has_ended l bytes es t cause =
    kept_ended l es (step l (turn bytes) t).1 (turn-has_ended l bytes t cause)
