-- ===== src/Telemetry/Tests.antt =====
-- internal/telemetry/recorder.go: the accounts of a recorder in a concrete run.
use jetkvm_mcp.Base.{true, false, some, List, [], ◌∷◌, ◌≡◌, refl}
use jetkvm_mcp.Base.Integers.{negsuc, pos}
use jetkvm_mcp.Telemetry.Names.{
  Span, line_of_span, valid_event_code, valid_event_outcome, valid_operation, valid_stage,
  valid_transport,
}
use jetkvm_mcp.Telemetry.Recorder.{
  RecorderStep, Summary, closes, new_recorder, omit, pick, pushes, recorder_step, recorder_steps,
  records, sends_flush, starts, writes_event,
}
use jetkvm_mcp.Telemetry.Accounts.{Accounts}

abbrev some_span : Span
some_span = record {
  correlation = 1;
  transport = "stdio";
  operation = "power";
  device_ref = [];
  session_ref = [];
}

-- Two lines, of which the writer takes the first and not the second; a line with an unknown stage; and
-- the shutdown.
abbrev some_recording : List RecorderStep
some_recording =
    starts "stdio"
    ∷ records some_span "tool" "success" "succeeded" (pos 70000)
    ∷ pushes 0
    ∷ records some_span "rpc" "timeout" "failed" (negsuc 3)
    ∷ records some_span "other" "success" "succeeded" (pos 1)
    ∷ closes
    ∷ sends_flush
    ∷ pushes 0
    ∷ writes_event true
    ∷ writes_event true
    ∷ writes_event true
    ∷ writes_event false
    ∷ writes_event true
    ∷ writes_event true
    ∷ writes_event true
    ∷ []

abbrev some_summary : Summary
some_summary = record {
  succeeded = false;
  dropped_events = 0;
  writer_failed = true;
  was_written = true;
}

some_recording-summary : (recorder_steps some_recording new_recorder).summary ≡ some some_summary
unfolding recorder_steps recorder_step pick omit line_of_span valid_transport valid_operation
    valid_stage valid_event_code valid_event_outcome
some_recording-summary = refl
