-- ===== src/Manager/Admission/Counts.antt =====
-- Counting the running calls at stages.
use jetkvm_mcp.Base.{
  ℕ, ◌+◌, Bool, true, false, ◌&&◌, Option, none, some, List, [], ◌∷◌, ◌≡◌, ap, ◌∙◌, ◌==◌, arith,
}
pub use jetkvm_mcp.Base.Counting.{one_if}
use jetkvm_mcp.Manager.Admission.{
  Call, Stage, admitted, capturing, changed, changing, drop_call, find_call, preparing, released,
  set_stage,
}

unfoldable pub count_calls : (Call → Bool) → List Call → ℕ
count_calls p [] = 0
count_calls p (c ∷ cs) = one_if (p c) + count_calls p cs

-- A call holds a permit of `operations`; of `captures`; of its device; counts as an ordinary operation
-- of its device; or is a lifecycle change of it.
abbrev pub holds_operation : Call → Bool
holds_operation c = elim c.stage [
  | admitted ↦ true
  | capturing ↦ true
  | changing ↦ true
  | other ↦ false
]

abbrev pub holds_capture : Call → Bool
holds_capture c = elim c.stage [ capturing ↦ true | other ↦ false ]

abbrev pub holds_device : ℕ → Call → Bool
holds_device d c =
    c.device == d && elim c.stage [ admitted ↦ true | capturing ↦ true | other ↦ false ]

abbrev pub is_ordinary : ℕ → Call → Bool
is_ordinary d c =
    c.device == d
    && elim c.stage [ admitted ↦ true | capturing ↦ true | released ↦ true | other ↦ false ]

abbrev pub is_change : ℕ → Call → Bool
is_change d c =
    c.device == d
    && elim c.stage [ preparing ↦ true | changing ↦ true | changed ↦ true | other ↦ false ]

abbrev pub at : Stage → Call → Call
at stage c = record c { stage = stage }

module _ (p : Call → Bool) where
  pub count_calls-set_stage :
      (k : ℕ) (stage : Stage) (cs : List Call) (c : Call)
      → find_call k cs ≡ some c
      → count_calls p (set_stage k stage cs) + one_if (p c)
        ≡ count_calls p cs + one_if (p (at stage c))
  unfolding count_calls set_stage find_call
  count_calls-set_stage k stage [] c h = absurd (cc)
  count_calls-set_stage k stage (x ∷ cs) c h = ground (arith, count_calls-set_stage k stage cs c)

  pub count_calls-drop_call :
      (k : ℕ) (cs : List Call) (c : Call)
      → find_call k cs ≡ some c
      → count_calls p (drop_call k cs) + one_if (p c) ≡ count_calls p cs
  unfolding count_calls drop_call find_call
  count_calls-drop_call k [] c h = absurd (cc)
  count_calls-drop_call k (x ∷ cs) c h = ground (arith, count_calls-drop_call k cs c)

find_call-eq : (k : ℕ) (cs : List Call) (c : Call) → find_call k cs ≡ some c → c.number ≡ k
unfolding find_call
find_call-eq k [] c h = absurd (cc)
find_call-eq k (x ∷ cs) c h = ground (arith, find_call-eq k cs c)

pub find_call-number :
    (k : ℕ) (cs : List Call) (c : Call) → find_call k cs ≡ some c → find_call c.number cs ≡ some c
find_call-number k cs c h = ap (λ j. find_call j cs) (find_call-eq k cs c h) ∙ h

-- How the five counts change from one list of calls to another, in which a call that counted as `c`
-- counts as `c'`.
abbrev one_if_some : (Call → Bool) → Option Call → ℕ
one_if_some p none = 0
one_if_some p (some c) = one_if (p c)

pub record AreMoved (d : ℕ) (c : Call) (now : Option Call) (cs cs' : List Call) : Type 0 where
  pub operation :
      count_calls holds_operation cs' + one_if (holds_operation c)
      ≡ count_calls holds_operation cs + one_if_some holds_operation now
  pub capture :
      count_calls holds_capture cs' + one_if (holds_capture c)
      ≡ count_calls holds_capture cs + one_if_some holds_capture now
  pub device :
      count_calls (holds_device d) cs' + one_if (holds_device d c)
      ≡ count_calls (holds_device d) cs + one_if_some (holds_device d) now
  pub ordinary :
      count_calls (is_ordinary d) cs' + one_if (is_ordinary d c)
      ≡ count_calls (is_ordinary d) cs + one_if_some (is_ordinary d) now
  pub change :
      count_calls (is_change d) cs' + one_if (is_change d c)
      ≡ count_calls (is_change d) cs + one_if_some (is_change d) now

pub set_stage-AreMoved :
    (d : ℕ) (stage : Stage) (c : Call) (cs : List Call)
    → find_call c.number cs ≡ some c
    → AreMoved d c (some (at stage c)) cs (set_stage c.number stage cs)
set_stage-AreMoved d stage c cs h = record {
  operation = count_calls-set_stage holds_operation c.number stage cs c h;
  capture = count_calls-set_stage holds_capture c.number stage cs c h;
  device = count_calls-set_stage (holds_device d) c.number stage cs c h;
  ordinary = count_calls-set_stage (is_ordinary d) c.number stage cs c h;
  change = count_calls-set_stage (is_change d) c.number stage cs c h;
}

pub drop_call-AreMoved :
    (d : ℕ) (c : Call) (cs : List Call)
    → find_call c.number cs ≡ some c
    → AreMoved d c none cs (drop_call c.number cs)
drop_call-AreMoved d c cs h = record {
  operation = omega (arith, count_calls-drop_call holds_operation c.number cs c h);
  capture = omega (arith, count_calls-drop_call holds_capture c.number cs c h);
  device = omega (arith, count_calls-drop_call (holds_device d) c.number cs c h);
  ordinary = omega (arith, count_calls-drop_call (is_ordinary d) c.number cs c h);
  change = omega (arith, count_calls-drop_call (is_change d) c.number cs c h);
}
