-- ===== src/Rpc/Session/Sound.antt =====
-- internal/jetkvm/rpc_session.go: the invariant of a session, as seen from one request.
use jetkvm_mcp.Base.{
  ℕ, ◌+◌, ◌^◌, Bool, true, false, not, ◌&&◌, Option, none, some, List, [], ◌∷◌, ◌≡◌, ◌≤◌, ◌<◌, inl,
  inr, refl, arith, ◌==◌, leb, length, is_some, Option-cases, String, str_eq,
}
use jetkvm_mcp.Base.Counting.{
  count, count-append, count-remove_id, is_id, length-remove_id_le, one_if,
}
use jetkvm_mcp.Errors.{
  Error, tool_error_outcome, tool_outcome_not_sent, classify, device_unreachable, invalid_response,
  sentinel, tool_outcome_failed, wrap, tool_outcome_unknown,
}
use jetkvm_mcp.Rpc.Codec.{Decoded}
use jetkvm_mcp.Rpc.Session.{
  CallStage, RpcOutcome, RpcSession, rpc_answer, begin_call, close_rpc, deliver_of, drop_flight,
  failure_error, find_flight, expire_call, handle_message, holding, marshal_of, set_at, receive_of,
  recheck, registered, returned, send_text, sending, sent, take_gate, tell_all, unbegun, waiting,
}

abbrev pub of_call {ℓ} : {A : Type ℓ} → ℕ → ℕ × A → Bool
of_call k (j, _) = j == k

-- A returned error that says that the request was not sent.
abbrev pub says_not_sent : Option Error → Bool
says_not_sent none = false
says_not_sent (some e) = elim (tool_error_outcome e) [
  | some outcome ↦ str_eq outcome tool_outcome_not_sent
  | none ↦ false
]

abbrev pub not_sent_of : ℕ → ℕ × Option Error → Bool
not_sent_of k (j, e) = j == k && says_not_sent e

abbrev pub success_of : ℕ → ℕ × Option Error → Bool
success_of k (j, e) = j == k && not (is_some e)

-- An outcome that is no error.
abbrev pub result_of : ℕ → ℕ × RpcOutcome → Bool
result_of k (j, o) = j == k && not (is_some o.err)

abbrev pub is_unbegun : CallStage → Bool
is_unbegun unbegun = true
is_unbegun _ = false

abbrev pub is_returned : CallStage → Bool
is_returned returned = true
is_returned _ = false

abbrev pub has_gate : CallStage → Bool
has_gate holding = true
has_gate sending = true
has_gate _ = false

abbrev pub is_unsent : CallStage → Bool
is_unsent sent = false
is_unsent returned = false
is_unsent _ = true

abbrev pub in_progress : CallStage → Bool
in_progress unbegun = false
in_progress returned = false
in_progress _ = true

abbrev pub gate_is : ℕ → Option ℕ → Bool
gate_is k none = false
gate_is k (some j) = j == k

abbrev pub has_result : Option RpcOutcome → Bool
has_result none = false
has_result (some o) = not (is_some o.err)

abbrev pub has_begun : ℕ → ℕ → Bool
has_begun k next_id = leb 1 k && leb k next_id

pub record IsSound (k : ℕ) (s : RpcSession) : Type 0 where
  -- the ids that were given out, and one return for each call
  pub begun : one_if (is_unbegun (s.stages k)) + one_if (has_begun k s.next_id) ≡ 1
  pub once : count (of_call k) s.returns ≡ one_if (is_returned (s.stages k))
  -- at most one outcome, which is neither lost nor without a place
  pub outcomes :
      count (is_id k) s.pending
        + count (of_call k) s.in_flight
        + count (of_call k) s.delivered
        + one_if (is_unbegun (s.stages k))
      ≤ 1
  pub kept :
      one_if (in_progress (s.stages k))
      ≤ count (is_id k) s.pending + count (of_call k) s.in_flight + one_if (is_some (s.waiters k))
  pub forgotten : count (is_id k) s.pending + one_if (is_returned (s.stages k)) ≤ 1
  pub waiter : one_if (is_some (s.waiters k)) ≤ count (of_call k) s.delivered
  pub none_dropped : count (of_call k) s.dropped ≡ 0
  -- one text at a time
  pub gate : one_if (gate_is k s.gate) ≡ one_if (has_gate (s.stages k))
  -- at most one text, and none if the call says so
  pub text : count (is_id k) s.texts + one_if (is_unsent (s.stages k)) ≤ 1
  pub not_sent : count (is_id k) s.texts + count (not_sent_of k) s.returns ≤ 1
  -- a success is the result of a message
  pub result : one_if (has_result (s.waiters k)) ≤ count (result_of k) s.delivered
  pub success : count (success_of k) s.returns ≤ count (result_of k) s.delivered
  pub successes : count (success_of k) s.returns ≤ count (of_call k) s.returns
  pub refusals : count (not_sent_of k) s.returns ≤ count (of_call k) s.returns
  pub bound : length s.pending ≤ 64

classify-says :
    (e : Error) (outcome : String)
    → says_not_sent (some (classify e outcome)) ≡ str_eq outcome tool_outcome_not_sent
unfolding classify
classify-says e outcome = refl

rpc_answer-says :
    (wants decodes : Bool) (o : RpcOutcome) → says_not_sent (rpc_answer wants decodes o) ≡ false
unfolding rpc_answer
rpc_answer-says wants decodes o = elim (Option-cases o.err) [
  | inl e ↦ ground (arith, classify-says (sentinel invalid_response) tool_outcome_unknown)
  | inr (f, e) ↦ ground (
    arith,
    classify-says (failure_error f) tool_outcome_unknown,
    classify-says (failure_error f) tool_outcome_failed,
  )
]

rpc_answer-failure :
    (wants decodes : Bool) (o : RpcOutcome)
    → is_some o.err ≡ true
    → is_some (rpc_answer wants decodes o) ≡ true
unfolding rpc_answer
rpc_answer-failure wants decodes o h = ground arith

count-drop_flight :
    (j k : ℕ) (o : RpcOutcome) (fs : List (ℕ × RpcOutcome))
    → find_flight j fs ≡ some o
    → count (of_call k) (drop_flight j fs) + one_if (j == k) ≡ count (of_call k) fs
unfolding count find_flight drop_flight
count-drop_flight j k o [] h = absurd (cc)
count-drop_flight j k o ((i, q) ∷ fs) h = ground (arith, count-drop_flight j k o fs)

count-tell_all : (k : ℕ) (ks : List ℕ) → count (of_call k) (tell_all ks) ≡ count (is_id k) ks
unfolding count tell_all
count-tell_all k [] = refl
count-tell_all k (j ∷ ks) = ground (arith, count-tell_all k ks)

module _ (k : ℕ) (s : RpcSession) where
  pub begin_call-IsSound : s.next_id + 1 < 2 ^ 64 → IsSound k s → IsSound k (begin_call s)
  unfolding begin_call set_at count
  begin_call-IsSound small i = ground arith

  pub marshal_of-IsSound :
      (j : ℕ) (e : Option Error)
      → s.stages j ≡ registered
      → IsSound k s
      → IsSound k (marshal_of j e s)
  unfolding set_at count
  marshal_of-IsSound j e h i =
      ground (arith, count-remove_id j k s.pending, length-remove_id_le j s.pending)

  pub expire_call-IsSound : (j : ℕ) (e : Error) → IsSound k s → IsSound k (expire_call j e s)
  unfolding set_at count
  expire_call-IsSound j e i = ground (
    arith,
    count-remove_id j k s.pending,
    length-remove_id_le j s.pending,
    classify-says e tool_outcome_unknown,
  )

  pub take_gate-IsSound : (j : ℕ) → s.stages j ≡ waiting → IsSound k s → IsSound k (take_gate j s)
  unfolding set_at count
  take_gate-IsSound j h i = ground arith

  pub recheck-IsSound :
      (j : ℕ) (e : Option Error)
      → s.stages j ≡ holding
      → s.gate ≡ some j
      → IsSound k s
      → IsSound k (recheck j e s)
  unfolding set_at count
  recheck-IsSound j e h g i =
      ground (arith, count-remove_id j k s.pending, length-remove_id_le j s.pending)

  pub send_text-IsSound :
      (j : ℕ) (ok : Bool)
      → s.stages j ≡ sending
      → s.gate ≡ some j
      → IsSound k s
      → IsSound k (send_text j ok s)
  unfolding set_at count
  send_text-IsSound j ok h g i = ground (
    arith,
    count-remove_id j k s.pending,
    length-remove_id_le j s.pending,
    classify-says (wrap (sentinel device_unreachable)) tool_outcome_unknown,
  )

  pub receive_of-IsSound :
      (j : ℕ) (wants decodes : Bool)
      → s.stages j ≡ sent
      → IsSound k s
      → IsSound k (receive_of j wants decodes (s.waiters j) s)
  unfolding set_at count
  receive_of-IsSound j wants decodes h i = elim (Option-cases (s.waiters j)) [
    | inl e ↦ ground arith
    | inr (o, e) ↦
        ground (arith, rpc_answer-says wants decodes o, rpc_answer-failure wants decodes o)
  ]

  pub handle_message-IsSound : (d : Decoded) → IsSound k s → IsSound k (handle_message d s)
  unfolding handle_message count
  handle_message-IsSound d i = ground (
    arith,
    count-remove_id d.response.id k s.pending,
    length-remove_id_le d.response.id s.pending,
  )

  pub deliver_of-IsSound :
      (j : ℕ) → IsSound k s → IsSound k (deliver_of j (find_flight j s.in_flight) s)
  unfolding set_at count
  deliver_of-IsSound j i = elim (Option-cases (find_flight j s.in_flight)) [
    | inl e ↦ ground arith
    | inr (o, e) ↦ ground (arith, count-drop_flight j k o s.in_flight)
  ]

  pub close_rpc-IsSound : IsSound k s → IsSound k (close_rpc s)
  unfolding close_rpc count
  close_rpc-IsSound i =
      ground (
        arith,
        count-tell_all k s.pending,
        count-append (of_call k) s.in_flight (tell_all s.pending),
      )

  pub ended-IsSound : IsSound k s → IsSound k (record s { ended = true })
  ended-IsSound i = ground arith
