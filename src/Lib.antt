-- ===== src/Lib.antt =====
-- Verification library of jetkvm-mcp, an MCP server that drives JetKVM remote consoles.
--
-- The server keeps at most one session per device. internal/jetkvm/device_owner.go holds it: one
-- goroutine, `loop`, reads commands and keeps the workers, the queue, the connection attempt, the
-- session (a generation) and its cleanup. Errors reach a tool's caller through the classifier of
-- internal/jetkvm/errors.go. A session's video arrives as RTP packets, and internal/jetkvm/video.go
-- makes of them the access unit that a capture returns.
--
-- Base: shared names, Boolean tests and list functions over the native numbers.
-- Errors: internal/jetkvm/errors.go, internal/toolresult/taxonomy.go. An error is a chain of
--   wrappers (`wrap` for fmt.Errorf with %w, `operation` for OperationError) over a sentinel.
-- Owner.State: the variables of `loop` as one record, the commands, and the effects (replies,
--   goroutines started, cancellations, timers, telemetry), newest first. Owner.Closures: publish,
--   failQueued, startAttempt, startNext, scheduleIdle, startCleanup, completeValidationLoss.
--   Owner.Handlers, Owner.Attempt, Owner.Lifecycle, Owner.Step: the commands, finishIfStopped, and
--   the loop. What a command reads outside the loop (contexts, signals of sessions, permits, the
--   demand counter) is a record, read once per command; a worker's context and channel go by its
--   number. Owner.Terminal: classifyTerminalCompletion. Left out: the callers' side of the commands,
--   the goroutines that answer the loop, context values and the times that telemetry measures.
-- H264: internal/jetkvm/video.go. Bytes are numbers below 256, 16-bit sequence numbers wrap by
--   `% 65536`, a Go map is an association list, nil is `none`, and a time is a number of nanoseconds
--   with 0 for the zero time. H264.Nal checks payloads, H264.Sequence orders packets,
--   H264.AccessUnit takes a unit apart, H264.Parameters keeps the parameter sets, H264.State,
--   H264.Drain, H264.Ending, H264.Process and H264.Events are the stream: a unit that is pending or
--   draining, the anchor, and the units that are done. pion/rtp is the parameter `Codec`: Marshal,
--   and Unmarshal as a function of the payloads that the depacketizer took before. Loops over a
--   payload have its length as fuel, and the loop of the reorder window one round more than the
--   packets there are. Where the source slices a payload whose sizes it has checked, the model's
--   loop stops. `process` takes its recursive call as an argument.
-- Receiver: internal/jetkvm/video_receiver.go. A call of Capture goes by its number; what its channel
--   takes, which calls began to wait, and which left, are kept as lists.
-- Gate: fairGate of internal/jetkvm/scheduling.go. Each stretch under its mutex is one step, and any
--   caller may step at any time; a caller whose channel `release` closes is `handed` the gate until
--   it runs. That `release` closes the channel after it has unlocked the mutex makes no difference:
--   until it is closed the caller cannot run, and nobody else has the gate.
--   Gate.Scheduled: run, Call, Upload and CaptureH264 of a scheduled session, as sequences of what is
--   acquired, called and released; the calls of an operation are any list.
-- Hid: internal/jetkvm/hid.go and the HID part of internal/jetkvm/scheduling.go. A text is its bytes;
--   the device's answers are a list with one entry for each call. Left out: key names, modifiers and
--   coordinates, and the context of a call.
-- Manager: internal/jetkvm/manager.go. Manager.Limits: the limits, over Go's int as `pos` and `negsuc`.
--   Manager.Admission: withScheduledOperation, runOperation and runLifecycleOperation, each stretch
--   under a device's mutex one step, which any call may take at any time; permits of the channels are
--   counted. The deferred releases of a call are one step, and the decrement of `ordinary` the next.
--   Manager.Admission.Spec: the same decisions by counting the calls that run.
-- Rpc: internal/jetkvm/rpc_codec.go and rpc_session.go. Rpc.Codec decodes a frame, given as its size
--   and the JSON value that its text is, a tree; a text that is no single JSON value is `none`.
--   Rpc.Session: a call of Call by the id of its request, and each stretch between two points where
--   others may run as one step: the deletion of an entry and the filling of its channel are two. Request
--   ids wrap at 2^64, which is why a run has fewer steps. Left out: encoding a request, the text itself.
-- Telemetry: internal/telemetry/recorder.go. Telemetry.Names: the closed sets, references as bytes, and
--   the lines, as the fields that depend on the call. Telemetry.Recorder: the two queues, the
--   goroutine `writeEvents` by where it stands, Close, and whether the writer takes a line as part of
--   a step. Between its checks and its queue a line is in `ready`. Left out: encoding, clock, random
--   ids, and the recorder that has no writer, which records nothing.
-- Media: internal/jetkvm/virtual_media.go. Media.Upload: the calls of uploadLocalMedia as a trace with their
--   answers, newest first; what the device answers is a record with one answer for each call that
--   an upload can make once, and one for all clean-up calls, which the code ignores. Media.Files: what
--   the file system answers to verifyMediaFileUnchanged. Media.Modes: the other operations, where a
--   text comes without the space around it. Left out: paths, hashing, and the origins of a URL.
-- Manager.Capture: internal/jetkvm/capture.go. What the session, the decoder and the PNG package answer,
--   and the context at each look at it, are a record. Manager.Status: Status and Power of
--   internal/jetkvm/manager.go, in the same way.
-- Tools: internal/mcpserver. Tools.Failure: errors.go, where an `operation` stands for every error with the
--   methods of classifiedToolError. Tools.Bearer: parseBearerCredential of transport.go, over bytes.
pub mod Base
pub mod Errors
pub mod Gate
pub mod H264
pub mod Hid
pub mod Manager
pub mod Media
pub mod Owner
pub mod Receiver
pub mod Rpc
pub mod Telemetry
pub mod Tools
