-- ===== src/Transport/Sending.antt =====
-- `Write` of src/ConnectionTransports/NetworkSocketConnectionTransport.cpp.
use janus_ftl_plugin.Prelude.{
  ℕ, zero, suc, ◌+◌, ◌-◌, ◌^◌, ◌≤◌, ◌<◌, ◌≡◌, ◌⊎◌, refl, Bool, true, false, none, some, [], ◌∷◌,
  ltb, length, arith, inl, inr, if◌then◌else◌,
}
use janus_ftl_plugin.Rtp.Packet.{Bytes}
use janus_ftl_plugin.Transport.{
  NetworkSocketConnectionTransport, sent, error, Sendings, write_result, send_rest, send_data,
  write, send_to, target_of, turn, more, finished,
}

-- The documented answers of `sendto` where nothing fails: at most as many bytes as it is asked for.
abbrev pub IsWriting : Sendings → Type 0
IsWriting answers = (n asked : ℕ) → (k : ℕ) × (answers n asked ≡ sent k) × (k ≤ asked)

turn-sent : (k size : ℕ) → turn (sent k) size ≡ (if ltb k size then more k else finished true)
unfolding turn write_result
turn-sent k size = ground arith

-- An error is the greatest number, which is not below anything.
turn-error : (retry : Bool) (size : ℕ) → size < 2 ^ 64 → turn (error retry) size ≡ finished true
unfolding turn write_result
turn-error retry size fits = ground arith

-- Once something is written and not everything, no call is answered with the size of everything.
send_rest-stuck :
    (fuel n : ℕ) (answers : Sendings) (bs : Bytes) (written : ℕ)
    (t : NetworkSocketConnectionTransport)
    → IsWriting answers
    → 0 < written
    → written ≤ length bs
    → (send_rest fuel n answers bs written t).1 ≡ none
unfolding send_rest
send_rest-stuck zero n answers bs written t h positive within = refl
send_rest-stuck (suc fuel) n answers bs written t h positive within =
    let (k, e, few) = h n (length bs - written) in
    let next : turn (answers n (length bs - written)) (length bs) ≡ more k =
      rw e (ground (arith, turn-sent k (length bs))) in
    rw (next, send_rest)
      (send_rest-stuck fuel (suc n) answers bs (written + k) t h (omega arith) (omega arith))

-- After a first call that writes some bytes but not all, `Write` never ends, whatever the fuel, as
-- long as no call fails: what a call writes is compared with the size of everything and not with
-- what is left.
pub write_partial :
    (fuel k : ℕ) (answers : Sendings) (bs : Bytes) (t : NetworkSocketConnectionTransport)
    → IsWriting answers
    → t.is_stopped ≡ false
    → answers 0 (length bs) ≡ sent k
    → 0 < k
    → k < length bs
    → (write fuel answers bs t).1 ≡ none
unfolding write send_data send_rest
write_partial zero k answers bs t h running first positive partial = rw running refl
write_partial (suc fuel) k answers bs t h running first positive partial =
    let whole : length bs - 0 ≡ length bs = omega arith in
    let next : turn (answers 0 (length bs - 0)) (length bs) ≡ more k =
      rw (whole, first) (ground (arith, turn-sent k (length bs))) in
    rw (running, send_rest, next)
      (send_rest-stuck fuel 1 answers bs (0 + k) t h (omega arith) (omega arith))

-- `Write` on a transport that is not stopped calls `sendto` with all of the bytes first, and reports
-- success after this one call if it has taken them all, and likewise if it has failed.
pub write_first :
    (fuel : ℕ) (answers : Sendings) (bs : Bytes) (t : NetworkSocketConnectionTransport)
    → t.is_stopped ≡ false
    → length bs < 2 ^ 64
    → ((retry : Bool) × (answers 0 (length bs) ≡ error retry))
      ⊎ (answers 0 (length bs) ≡ sent (length bs))
    → write (suc fuel) answers bs t ≡ (send_to t.socket_handle (target_of t) bs ∷ [], some true)
unfolding write send_data send_rest
write_first fuel answers bs t running fits (inl (retry, e)) =
    let whole : length bs - 0 ≡ length bs = omega arith in
    let next : turn (answers 0 (length bs - 0)) (length bs) ≡ finished true =
      rw (whole, e) (turn-error retry (length bs) fits) in
    rw (running, send_rest, next) refl
write_first fuel answers bs t running fits (inr e) =
    let whole : length bs - 0 ≡ length bs = omega arith in
    let next : turn (answers 0 (length bs - 0)) (length bs) ≡ finished true =
      rw (whole, e) (ground (arith, turn-sent (length bs) (length bs))) in
    rw (running, send_rest, next) refl
