-- ===== src/Janus/Reported.antt =====
-- What a pass of `serviceReportThreadBody` of src/JanusFtl.cpp leaves.
use janus_ftl_plugin.Prelude.{
  ℕ, ◌≡◌, refl, ◌∙◌, Bool, true, false, not, ◌&&◌, ◌||◌, Option, none, some, List, [], ◌∷◌, ltb,
  ◌==◌, arith, inl, inr, if-cases,
}
use janus_ftl_plugin.Prelude.OrdMap.{find}
use janus_ftl_plugin.Prelude.OrdMap.Update.{find-erase}
use janus_ftl_plugin.Janus.{JanusStream, JanusFtl}
use janus_ftl_plugin.Janus.Plugin.{end_stream, retire_stream}
use janus_ftl_plugin.Janus.Attached.{
  attached, end_stream-attached, end_stream-cases, is_live, is_stream,
}
use janus_ftl_plugin.Janus.Valid.{IsValid, end_stream-IsValid}
use janus_ftl_plugin.Janus.Report.{
  Service, StreamInfo, ServiceResponse, ok, end_stream_requested, failed, ReportEffect, exceeds,
  after_update, report_known, report_stream, report_streams, stream_metadata, end_streams,
  report_pass,
}

-- The service neither fails nor asks for the end.
abbrev pub is_accepted : ServiceResponse → Bool
is_accepted ok = true
is_accepted end_stream_requested = false
is_accepted failed = false

abbrev pub is_refused : Service → StreamInfo → Option JanusStream → Bool
is_refused l i none = false
is_refused l i (some st) =
    not (is_accepted (l.update_stream_metadata i.stream_id (stream_metadata l i st)))

-- There is a limit and the stream is over it; or the plugin knows the channel and the service does not
-- accept what it is told of the stream.
abbrev pub is_to_stop : Service → StreamInfo → JanusFtl → Bool
is_to_stop l i s =
    ltb 0 l.max_allowed_bits_per_second
      && ltb l.max_allowed_bits_per_second i.rolling_average_bitrate_bps
    || is_refused l i (find i.channel_id s.streams)

abbrev pub has_ids : ℕ → ℕ → StreamInfo → Bool
has_ids c stream i = i.channel_id == c && i.stream_id == stream

-- One of the streams that are to be stopped has these ids.
abbrev pub is_to_end : Service → ℕ → ℕ → List StreamInfo → JanusFtl → Bool
is_to_end l c stream [] s = false
is_to_end l c stream (i ∷ is) s =
    (is_to_stop l i s && has_ids c stream i) || is_to_end l c stream is s

abbrev is_named : ℕ → ℕ → List StreamInfo → Bool
is_named c stream [] = false
is_named c stream (i ∷ is) = has_ids c stream i || is_named c stream is

after_update-is_accepted :
    (l : Service) (i : StreamInfo) (r : ServiceResponse)
    → (after_update l i r).1 ≡ not (is_accepted r)
unfolding after_update
after_update-is_accepted l i ok = refl
after_update-is_accepted l i end_stream_requested = refl
after_update-is_accepted l i failed = refl

report_known-is_refused :
    (l : Service) (i : StreamInfo) (o : Option JanusStream)
    → (report_known l i o).1 ≡ is_refused l i o
unfolding report_known
report_known-is_refused l i none = refl
report_known-is_refused l i (some st) =
    after_update-is_accepted l i (l.update_stream_metadata i.stream_id (stream_metadata l i st))

report_stream-is_to_stop :
    (l : Service) (i : StreamInfo) (s : JanusFtl) → (report_stream l i s).1 ≡ is_to_stop l i s
unfolding report_stream exceeds
report_stream-is_to_stop l i s =
    let P = λ (r : List ReportEffect × Bool). r.1 ≡ is_to_stop l i s in
    if-cases P (exceeds l i) (λ over. rw over refl)
      (λ under. rw under (report_known-is_refused l i (find i.channel_id s.streams)))

report_streams-is_named :
    (l : Service) (c stream : ℕ) (is : List StreamInfo) (s : JanusFtl)
    → is_named c stream (report_streams l is s).1 ≡ is_to_end l c stream is s
unfolding report_streams
report_streams-is_named l c stream [] s = refl
report_streams-is_named l c stream (i ∷ is) s =
    ground (arith, report_stream-is_to_stop l i s, report_streams-is_named l c stream is s)

end_stream-is_live :
    (c stream d other : ℕ) (s : JanusFtl)
    → is_live c stream (end_stream d other s).1
      ≡ (is_live c stream s && not (d == c && other == stream))
unfolding is_live is_stream retire_stream
end_stream-is_live c stream d other s = elim (end_stream-cases d other s) [
  | inl (dead, e) ↦ rw e (ground arith)
  | inr (st, found, live, e) ↦ rw e (ground (arith, find-erase d c s.streams))
]

end_streams-is_live :
    (c stream : ℕ) (is : List StreamInfo) (s : JanusFtl)
    → is_live c stream (end_streams is s).1 ≡ (is_live c stream s && not (is_named c stream is))
unfolding end_streams
end_streams-is_live c stream [] s = ground arith
end_streams-is_live c stream (i ∷ is) s =
    let s' = (end_stream i.channel_id i.stream_id s).1 in
    ground (
      arith,
      end_streams-is_live c stream is s',
      end_stream-is_live c stream i.channel_id i.stream_id s,
    )

end_streams-kept :
    (is : List StreamInfo) (s : JanusFtl)
    → IsValid s
    → let s' = (end_streams is s).1 in ((h d : ℕ) → attached h d s' ≡ attached h d s) × IsValid s'
unfolding end_streams
end_streams-kept [] s v = (λ h d. refl, v)
end_streams-kept (i ∷ is) s v =
    let s' = (end_stream i.channel_id i.stream_id s).1 in
    let (same, valid) = end_streams-kept is s' (end_stream-IsValid i.channel_id i.stream_id s v) in
    (λ h d. same h d ∙ end_stream-attached i.channel_id i.stream_id s h d, valid)

-- A pass that finds one state at first, and a consistent one when it ends the streams: a stream is live
-- after it exactly if it was then, and is not one that was reported and is to be stopped, since it is
-- over the limit, if there is one, or since its channel was known at first and the service failed or
-- asked for its end. Every session views or waits for the channel that it did when the streams ended,
-- and the state is still consistent.
pub report_pass-is_live :
    (l : Service) (is : List StreamInfo) (s later : JanusFtl)
    → IsValid later
    → let (_, _, s') = report_pass l is s later in
      ((c stream : ℕ)
        → is_live c stream s' ≡ (is_live c stream later && not (is_to_end l c stream is s)))
      × ((h d : ℕ) → attached h d s' ≡ attached h d later)
      × IsValid s'
unfolding report_pass
report_pass-is_live l is s later v =
    let stopped = (report_streams l is s).1 in
    let (same, valid) = end_streams-kept stopped later v in
    (
      λ c stream.
          rw⁻¹ (report_streams-is_named l c stream is s)
            (end_streams-is_live c stream stopped later),
      same,
      valid,
    )
