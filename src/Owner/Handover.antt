-- ===== src/Owner/Handover.antt =====
-- internal/jetkvm/device_owner.go: a release and a takeover, from the request to the reply.
use jetkvm_mcp.Base.{ℕ, false, Option, none, some, List, [], ◌∷◌, ◌≡◌, ◌==◌, if◌then◌else◌}
use jetkvm_mcp.Errors.{Error, classify, sentinel, ownership_uncertain, tool_outcome_failed}
use jetkvm_mcp.Owner.State.{
  Attempt, Effect, Owner, AttemptResult, Generation, Cleanup, released, reply,
}

-- No caller is in the owner, and it does not stop.
pub record IsQuiet (o : Owner) : Type 0 where
  pub no_workers : o.workers ≡ []
  pub no_queue : o.queue ≡ []
  pub not_stopping : o.stopping ≡ false

-- What a release of the session `g` leaves while the cleanup runs.
record Releasing (chan : ℕ) (g : Generation) (o : Owner) : Type 0 where
  quiet : IsQuiet o
  vacant : (o.attempt ≡ none) × (o.generation ≡ none)
  cleaning :
      o.cleanup
      ≡ some (record {
        generation = g;
        target = released;
        err = none;
        reply = some chan;
        takeover_reply = none;
      })

-- The answers on a reply channel, newest first.
abbrev pub replies : ℕ → List Effect → List (Option Error)
replies chan [] = []
replies chan (reply k e ∷ es) = if k == chan then e ∷ replies chan es else replies chan es
replies chan (_ ∷ es) = replies chan es

abbrev pub uncertain_failure : Error
uncertain_failure = classify (sentinel ownership_uncertain) tool_outcome_failed

-- What a failed cleanup leaves of the session.
abbrev pub unclean_session : Generation → Error → Cleanup
unclean_session g e = record {
  generation = g;
  target = released;
  err = some e;
  reply = none;
  takeover_reply = none;
}

-- What a takeover leaves while its attempt runs.
record TakingOver (chan : ℕ) (o : Owner) : Type 0 where
  quiet : IsQuiet o
  vacant : (o.generation ≡ none) × (o.cleanup ≡ none)
  attempting :
      o.attempt ≡ some (record { generation = o.next_generation; takeover_reply = some chan })

-- A connection that came up.
pub record Connected (c : AttemptResult) (session : ℕ) : Type 0 where
  pub no_error : c.err ≡ none
  pub no_panic : c.panic ≡ false
  pub has_session : c.session ≡ some session
