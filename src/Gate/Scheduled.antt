-- ===== src/Gate/Scheduled.antt =====
-- internal/jetkvm/scheduling.go: the gates that an operation holds (generationScheduler.run, and Call,
-- Upload and CaptureH264 of a scheduled session). Which calls an operation makes is a list, with
-- what `acquire` and the session answer to each.
use jetkvm_mcp.Base.{
  ℕ, Bool, true, false, not, ◌||◌, Option, none, some, List, [], ◌∷◌, ◌++◌, ◌≡◌, refl, ◌∙◌, arith,
  ◌==◌, ltb, inl, inr, if◌then◌else◌, Option-cases,
}
use jetkvm_mcp.Errors.{Error, invalid_response, sentinel}

pub data GateName : Type 0 where
  session_gate rpc_gate capture_gate : GateName

pub data GateEvent : Type 0 where
  acquires releases : GateName → GateEvent
  calls uploads captures finishes_hid : GateEvent

pub data CallKind : Type 0 where
  rpc_call upload_call capture_call : CallKind

-- A call of an operation, and the error of the gate that it would acquire.
pub record Request : Type 0 where
  pub kind : CallKind
  pub refused : Option Error

abbrev pub under : GateName → Option Error → GateEvent → List GateEvent
under g (some e) event = []
under g none event = acquires g ∷ event ∷ releases g ∷ []

-- `Call`, `Upload` and `CaptureH264`, given whether a gate is held for the whole operation.
unfoldable pub scheduled_call : Bool → CallKind → Option Error → List GateEvent
scheduled_call held rpc_call refused = if held then calls ∷ [] else under rpc_gate refused calls
scheduled_call held upload_call refused = uploads ∷ []
scheduled_call held capture_call refused = under capture_gate refused captures

unfoldable pub scheduled_calls : Bool → List Request → List GateEvent
scheduled_calls held [] = []
scheduled_calls held (r ∷ rs) = scheduled_call held r.kind r.refused ++ scheduled_calls held rs

-- A frame of `CaptureH264`: its size, whether it has a time, and the error.
abbrev pub max_annex_b_bytes : ℕ
max_annex_b_bytes = 4194304

unfoldable pub capture_error : ℕ → Bool → Option Error → Option Error
capture_error size dated (some e) = some e
capture_error size dated none =
    if size == 0 || ltb max_annex_b_bytes size || not dated
    then some (sentinel invalid_response)
    else none

-- The part of `run` behind the gate of the session, for an operation of class HID or not.
abbrev pub run_rpc : Bool → Bool → Option Error → List Request → List GateEvent
run_rpc whole false refused rs = scheduled_calls whole rs
run_rpc whole true (some e) rs = []
run_rpc whole true none rs =
    (acquires rpc_gate ∷ []) ++ (scheduled_calls true rs ++ (finishes_hid ∷ releases rpc_gate ∷ []))

abbrev pub run_session : Bool → Option Error → Option Error → List Request → List GateEvent
run_session hid (some e) refused rs = []
run_session hid none refused rs =
    (acquires session_gate ∷ []) ++ (run_rpc true hid refused rs ++ (releases session_gate ∷ []))

-- `run`: whether the profile holds the whole session, whether the class is HID, and the errors of the
-- gates of the session and of the RPC channel.
unfoldable pub run_scheduled :
    Bool → Bool → Option Error → Option Error → List Request → List GateEvent
run_scheduled session_wide hid session_refused rpc_refused rs =
    if session_wide
    then run_session hid session_refused rpc_refused rs
    else run_rpc false hid rpc_refused rs

-- The gates that are held, the last one first.
abbrev same_gate : GateName → GateName → Bool
same_gate session_gate session_gate = true
same_gate rpc_gate rpc_gate = true
same_gate capture_gate capture_gate = true
same_gate _ _ = false

abbrev holds : GateName → List GateName → Bool
holds g [] = false
holds g (h ∷ held) = same_gate g h || holds g held

abbrev pop : GateName → List GateName → Option (List GateName)
pop g [] = none
pop g (h ∷ held) = if same_gate g h then some held else none

abbrev allow : Bool → List GateName → Option (List GateName)
allow b held = if b then some held else none

-- A gate is acquired where it is not held; released where it is the one acquired last; calls and the
-- release of keys go under a gate that excludes other calls, captures under their own.
abbrev observe : GateEvent → List GateName → Option (List GateName)
observe (acquires g) held = if holds g held then none else some (g ∷ held)
observe (releases g) held = pop g held
observe calls held = allow (holds rpc_gate held || holds session_gate held) held
observe uploads held = some held
observe captures held = allow (holds capture_gate held) held
observe finishes_hid held = allow (holds rpc_gate held) held

abbrev and_observe :
    (List GateName → Option (List GateName)) → Option (List GateName) → Option (List GateName)
and_observe f none = none
and_observe f (some held) = f held

-- What is held behind a sequence of events, if each of them is in order.
unfoldable pub observed_gates : List GateEvent → List GateName → Option (List GateName)
observed_gates [] held = some held
observed_gates (e ∷ es) held = and_observe (observed_gates es) (observe e held)

observed_gates-append :
    (xs ys : List GateEvent) (held between : List GateName)
    → observed_gates xs held ≡ some between
    → observed_gates (xs ++ ys) held ≡ observed_gates ys between
unfolding observed_gates
observed_gates-append [] ys held between h = ground arith
observed_gates-append (x ∷ xs) ys held between h = elim (Option-cases (observe x held)) [
  | inl q ↦ ground arith
  | inr (now, q) ↦ ground (arith, observed_gates-append xs ys now between)
]

-- A call acquires what it needs, and gives it back.
scheduled_call-observed :
    (held : Bool) (kind : CallKind) (refused : Option Error) (gates : List GateName)
    → holds capture_gate gates ≡ false
    → (holds rpc_gate gates || holds session_gate gates) ≡ held
    → observed_gates (scheduled_call held kind refused) gates ≡ some gates
unfolding observed_gates scheduled_call
scheduled_call-observed held rpc_call none gates c h = ground arith
scheduled_call-observed held rpc_call (some e) gates c h = ground arith
scheduled_call-observed held upload_call refused gates c h = ground arith
scheduled_call-observed held capture_call none gates c h = ground arith
scheduled_call-observed held capture_call (some e) gates c h = ground arith

scheduled_calls-observed :
    (held : Bool) (rs : List Request) (gates : List GateName)
    → holds capture_gate gates ≡ false
    → (holds rpc_gate gates || holds session_gate gates) ≡ held
    → observed_gates (scheduled_calls held rs) gates ≡ some gates
unfolding scheduled_calls observed_gates
scheduled_calls-observed held [] gates c h = refl
scheduled_calls-observed held (r ∷ rs) gates c h =
    observed_gates-append (scheduled_call held r.kind r.refused) (scheduled_calls held rs) gates
      gates (scheduled_call-observed held r.kind r.refused gates c h)
    ∙ scheduled_calls-observed held rs gates c h

run_rpc-observed :
    (whole hid : Bool) (refused : Option Error) (rs : List Request) (gates : List GateName)
    → gates ≡ (if whole then session_gate ∷ [] else [])
    → observed_gates (run_rpc whole hid refused rs) gates ≡ some gates
unfolding observed_gates
run_rpc-observed whole false refused rs gates q =
    scheduled_calls-observed whole rs gates (ground arith) (ground arith)
run_rpc-observed whole true (some e) rs gates q = refl
run_rpc-observed whole true none rs gates q = ground (
  arith,
  observed_gates-append (scheduled_calls true rs) (finishes_hid ∷ releases rpc_gate ∷ [])
      (rpc_gate ∷ gates) (rpc_gate ∷ gates)
      (scheduled_calls-observed true rs (rpc_gate ∷ gates) (ground arith) refl),
)

run_session-observed :
    (hid : Bool) (session_refused refused : Option Error) (rs : List Request)
    → observed_gates (run_session hid session_refused refused rs) [] ≡ some []
unfolding observed_gates
run_session-observed hid (some e) refused rs = refl
run_session-observed hid none refused rs =
    observed_gates-append (run_rpc true hid refused rs) (releases session_gate ∷ [])
      (session_gate ∷ []) (session_gate ∷ [])
      (run_rpc-observed true hid refused rs (session_gate ∷ []) refl)

-- Whatever calls an operation makes, and whichever gates refuse it: every RPC call goes under the gate of
-- the RPC channel or of the whole session, and every capture under the gate of captures; what is
-- still pressed is released under the gate of the RPC channel; no gate is acquired twice; and every gate
-- that was acquired is released, the last one first.
pub run_scheduled-observed :
    (session_wide hid : Bool) (session_refused rpc_refused : Option Error) (rs : List Request)
    → observed_gates (run_scheduled session_wide hid session_refused rpc_refused rs) [] ≡ some []
unfolding run_scheduled
run_scheduled-observed true hid session_refused rpc_refused rs =
    run_session-observed hid session_refused rpc_refused rs
run_scheduled-observed false hid session_refused rpc_refused rs =
    run_rpc-observed false hid rpc_refused rs [] refl
