-- ===== src/Telemetry/Steps.antt =====
-- internal/telemetry/recorder.go: the accounts of a recorder over its steps.
use jetkvm_mcp.Base.{
  ℕ, zero, suc, ◌+◌, ◌^◌, Bool, true, false, not, some, List, [], ◌∷◌, ◌++◌, ◌≡◌, ◌<◌, ◌⊎◌, inl,
  inr, refl, sym, arith, String, length, Option-cases, length-append,
}
use mathlib.Core.Path.{subst}
use jetkvm_mcp.Base.Counting.{count, count-append, one_if}
use jetkvm_mcp.Telemetry.Names.{Line}
use jetkvm_mcp.Telemetry.Recorder.{
  Queued, Recorder, accept_line, blocking, draining_events, draining_terminal, new_recorder, omit,
  pick, polling, push_line, push_picked, queued_flush, queued_line, send_flush, take_event,
  take_terminal_event, handle_queued, move, write_and_move, start_transport, summarizing,
  write_events, write_shutdown_summary, write_terminal,
}
use jetkvm_mcp.Telemetry.Accounts.{
  Accounts, is_early, is_flush, is_known, is_line, is_unknown, late_behind, late_behind-append,
  late_behind-append_line, past_flush, unknown_ready,
}

pub new_recorder-Accounts : Accounts new_recorder
unfolding count late_behind
new_recorder-Accounts = ground arith

count-omit :
    (p : Bool × Line → Bool) (n : ℕ) (xs : List (Bool × Line)) (x : Bool × Line)
    → pick n xs ≡ some x
    → count p (omit n xs) + one_if (p x) ≡ count p xs
unfolding count pick omit
count-omit p n [] x h = absurd (cc)
count-omit p zero (y ∷ xs) x h = ground arith
count-omit p (suc n) (y ∷ xs) x h = ground (arith, count-omit p n xs x h)

length-omit :
    (n : ℕ) (xs : List (Bool × Line)) (x : Bool × Line)
    → pick n xs ≡ some x
    → length (omit n xs) + 1 ≡ length xs
unfolding pick omit
length-omit n [] x h = absurd (cc)
length-omit zero (y ∷ xs) x h = ground arith
length-omit (suc n) (y ∷ xs) x h = ground (arith, length-omit n xs x h)

late_behind-none_early : (qs : List Queued) → count is_early qs ≡ 0 → late_behind qs ≡ true
unfolding count late_behind
late_behind-none_early [] h = refl
late_behind-none_early (queued_line early l ∷ qs) h = late_behind-none_early qs (ground arith)
late_behind-none_early (queued_flush ∷ qs) h = ground arith

late_behind-queue :
    (flush_sent : Bool) (qs : List Queued) (l : Line)
    → late_behind qs ≡ true
    → (flush_sent ≡ true) ⊎ (count is_flush qs ≡ 0)
    → late_behind (qs ++ (queued_line (not flush_sent) l ∷ [])) ≡ true
late_behind-queue f qs l h (inl e) = late_behind-append qs (queued_line (not f) l) (ground arith) h
late_behind-queue f qs l h (inr e) = late_behind-append_line qs (not f) l e

module _ (r : Recorder) where
  pub start_transport-Accounts : (t : String) → Accounts r → Accounts (start_transport t r)
  start_transport-Accounts t i = ground arith

  pub accept_line-Accounts :
      (tool : Bool) (line : Line)
      → is_known line ≡ true
      → Accounts r
      → Accounts (accept_line tool (some line) r)
  unfolding count
  accept_line-Accounts tool line k i = ground arith

  pub send_flush-Accounts : Accounts r → Accounts (send_flush r)
  unfolding count
  send_flush-Accounts i = ground (
    arith,
    late_behind-append r.events queued_flush,
    count-append is_early r.events (queued_flush ∷ []),
    count-append is_line r.events (queued_flush ∷ []),
    count-append is_flush r.events (queued_flush ∷ []),
    count-append is_unknown r.events (queued_flush ∷ []),
    length-append r.events (queued_flush ∷ []),
  )

  pub push_line-Accounts :
      (tool : Bool) (line : Line)
      → is_known line ≡ true
      → r.dropped_events + 1 < 2 ^ 64
      → Accounts (record r { ready = (tool, line) ∷ r.ready })
      → Accounts (push_line tool line r)
  unfolding count
  push_line-Accounts tool line k small i =
      let q = queued_line (not r.flush_sent) line in
      ground (
        arith,
        late_behind-queue r.flush_sent r.events line,
        count-append is_early r.events (q ∷ []),
        count-append is_line r.events (q ∷ []),
        count-append is_flush r.events (q ∷ []),
        count-append is_unknown r.events (q ∷ []),
        length-append r.events (q ∷ []),
        count-append is_early r.terminal (q ∷ []),
        count-append is_line r.terminal (q ∷ []),
        count-append is_unknown r.terminal (q ∷ []),
        length-append r.terminal (q ∷ []),
      )

  pub picked-Accounts :
      (n : ℕ) (tool : Bool) (line : Line)
      → pick n r.ready ≡ some (tool, line)
      → Accounts r
      → (is_known line ≡ true) × Accounts (record r { ready = (tool, line) ∷ omit n r.ready })
  unfolding count
  picked-Accounts n tool line h i = ground (
    arith,
    count-omit unknown_ready n r.ready (tool, line) h,
    length-omit n r.ready (tool, line) h,
  )

  pub handle-Accounts :
      (ok : Bool) (qs : List Queued)
      → r.events ≡ qs
      → past_flush r.position ≡ false
      → Accounts r
      → Accounts (take_event (handle_queued ok) (move blocking) qs r)
  unfolding count late_behind
  handle-Accounts ok [] e h i = ground arith
  handle-Accounts ok (queued_line early l ∷ qs) e h i = ground arith
  handle-Accounts ok (queued_flush ∷ qs) e h i = ground (arith, late_behind-none_early qs)

  pub drain_events-Accounts :
      (ok : Bool) (qs : List Queued)
      → r.events ≡ qs
      → r.position ≡ draining_events
      → Accounts r
      → Accounts (take_event (write_and_move ok draining_terminal) (move summarizing) qs r)
  unfolding count late_behind
  drain_events-Accounts ok [] e h i = ground arith
  drain_events-Accounts ok (queued_line early l ∷ qs) e h i = ground arith
  drain_events-Accounts ok (queued_flush ∷ qs) e h i = ground arith

  pub drain_terminal-Accounts :
      (ok : Bool) (qs : List Queued)
      → r.terminal ≡ qs
      → r.position ≡ draining_terminal
      → Accounts r
      → Accounts
          (take_terminal_event (write_and_move ok draining_terminal) (move draining_events) qs r)
  unfolding count
  drain_terminal-Accounts ok [] e h i = ground arith
  drain_terminal-Accounts ok (queued_line early l ∷ qs) e h i = ground arith
  drain_terminal-Accounts ok (queued_flush ∷ qs) e h i = ground arith

  pub blocked_terminal-Accounts :
      (ok : Bool) (qs : List Queued)
      → r.terminal ≡ qs
      → r.position ≡ blocking
      → Accounts r
      → Accounts (take_terminal_event (write_and_move ok polling) (move blocking) qs r)
  unfolding count
  blocked_terminal-Accounts ok [] e h i = ground arith
  blocked_terminal-Accounts ok (queued_line early l ∷ qs) e h i = ground arith
  blocked_terminal-Accounts ok (queued_flush ∷ qs) e h i = ground arith

  pub write_shutdown_summary-Accounts :
      (ok : Bool) → r.position ≡ summarizing → Accounts r → Accounts (write_shutdown_summary ok r)
  write_shutdown_summary-Accounts ok h i = ground arith

  pub write_events-Accounts : (ok : Bool) → Accounts r → Accounts (write_events ok r)
  write_events-Accounts ok i = ground (
    arith,
    handle-Accounts ok r.events refl,
    drain_events-Accounts ok r.events refl,
    drain_terminal-Accounts ok r.terminal refl,
    write_shutdown_summary-Accounts ok,
  )

  pub write_terminal-Accounts : (ok : Bool) → Accounts r → Accounts (write_terminal ok r)
  write_terminal-Accounts ok i = ground (arith, blocked_terminal-Accounts ok r.terminal refl)

pub push_picked-Accounts :
    (r : Recorder) (n : ℕ)
    → r.dropped_events + 1 < 2 ^ 64
    → Accounts r
    → Accounts (push_picked n (pick n r.ready) r)
push_picked-Accounts r n small i = elim (Option-cases (pick n r.ready)) [
  | inl e ↦ subst (λ o. Accounts (push_picked n o r)) (sym e) i
  | inr ((tool, line), e) ↦
      let p = picked-Accounts r n tool line e i in
      subst (λ o. Accounts (push_picked n o r)) (sym e)
        (push_line-Accounts (record r { ready = omit n r.ready }) tool line p.0 small p.1)
]
