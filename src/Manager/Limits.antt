-- ===== src/Manager/Limits.antt =====
-- internal/jetkvm/manager.go: the limits of a manager (Limits, normalized, ValidateLimits). Durations
-- are nanoseconds.
use jetkvm_mcp.Base.{ℕ, Bool, not, ◌&&◌, ◌||◌, ◌≡◌, ◌≤◌, refl, sym, ap, ◌∙◌, if◌then◌else◌, arith}
use mathlib.Core.Path.{subst}
use jetkvm_mcp.Base.Integers.{ℤ, pos, amount, exceeds, is_zero, within}

pub record Limits : Type 0 where
  pub max_operations : ℤ
  pub max_operations_per_device : ℤ
  pub max_connection_attempts : ℤ
  pub max_captures : ℤ
  pub max_decoders : ℤ
  pub session_idle_timeout : ℤ

abbrev pub max_admission_limit : ℕ
max_admission_limit = 1024

abbrev pub max_connection_attempts_limit : ℕ
max_connection_attempts_limit = 64

-- 10 seconds and an hour
abbrev pub min_session_idle_timeout : ℕ
min_session_idle_timeout = 10000000000

abbrev pub max_session_idle_timeout : ℕ
max_session_idle_timeout = 3600000000000

abbrev pub default_limits : Limits
default_limits = record {
  max_operations = pos 16;
  max_operations_per_device = pos 4;
  max_connection_attempts = pos 8;
  max_captures = pos 2;
  max_decoders = pos 2;
  session_idle_timeout = pos 60000000000;
}

-- The three errors, by what they are about.
pub data LimitsError : Type 0 where
  admission_range connection_range timeout_range parent_capacity : LimitsError

pub data LimitsResult : Type 0 where
  refused : LimitsError → LimitsResult
  accepted : Limits → LimitsResult

abbrev or_default : ℤ → ℤ → ℤ
or_default value default = if is_zero value then default else value

unfoldable pub with_defaults : Limits → Limits
with_defaults l = record {
  max_operations = or_default l.max_operations default_limits.max_operations;
  max_operations_per_device =
      or_default l.max_operations_per_device default_limits.max_operations_per_device;
  max_connection_attempts =
      or_default l.max_connection_attempts default_limits.max_connection_attempts;
  max_captures = or_default l.max_captures default_limits.max_captures;
  max_decoders = or_default l.max_decoders default_limits.max_decoders;
  session_idle_timeout = or_default l.session_idle_timeout default_limits.session_idle_timeout;
}

-- The loop over the four admission limits.
abbrev admission_ranges : Limits → Bool
admission_ranges l =
    within 1 max_admission_limit l.max_operations
    && within 1 max_admission_limit l.max_operations_per_device
    && within 1 max_admission_limit l.max_captures
    && within 1 max_admission_limit l.max_decoders

abbrev over_parent : Limits → Bool
over_parent l =
    exceeds l.max_operations_per_device l.max_operations
    || exceeds l.max_connection_attempts l.max_operations
    || exceeds l.max_captures l.max_operations

unfoldable pub validate_limits : Limits → LimitsResult
validate_limits l =
    if not (admission_ranges l)
    then refused admission_range
    else if not (within 1 max_connection_attempts_limit l.max_connection_attempts)
    then refused connection_range
    else if not (within min_session_idle_timeout max_session_idle_timeout l.session_idle_timeout)
    then refused timeout_range
    else if over_parent l
    then refused parent_capacity
    else accepted l

-- `normalized` checks, behind the defaults, what `ValidateLimits` checks.
unfoldable pub normalized : Limits → LimitsResult
unfolding with_defaults validate_limits
normalized l = validate_limits (with_defaults l)

-- The value that was asked for, and the default where it was 0.
abbrev pub IsAsked : ℤ → ℤ → ℤ → Type 0
IsAsked asked default got = got ≡ (if is_zero asked then default else asked)

-- What the rest of the program relies on: every capacity is positive and bounded, none exceeds the
-- operations that it is a part of, and nothing that was asked for is changed.
pub record IsAdmissible (asked got : Limits) : Type 0 where
  pub operations : (1 ≤ amount got.max_operations) × (amount got.max_operations ≤ 1024)
  pub per_device :
      (1 ≤ amount got.max_operations_per_device)
      × (amount got.max_operations_per_device ≤ amount got.max_operations)
  pub attempts :
      (1 ≤ amount got.max_connection_attempts)
      × (amount got.max_connection_attempts ≤ 64)
      × (amount got.max_connection_attempts ≤ amount got.max_operations)
  pub captures :
      (1 ≤ amount got.max_captures) × (amount got.max_captures ≤ amount got.max_operations)
  pub decoders : (1 ≤ amount got.max_decoders) × (amount got.max_decoders ≤ 1024)
  pub timeout :
      (10000000000 ≤ amount got.session_idle_timeout)
      × (amount got.session_idle_timeout ≤ 3600000000000)
  pub asked_operations :
      IsAsked asked.max_operations default_limits.max_operations got.max_operations
  pub asked_per_device :
      IsAsked asked.max_operations_per_device default_limits.max_operations_per_device
        got.max_operations_per_device
  pub asked_attempts :
      IsAsked asked.max_connection_attempts default_limits.max_connection_attempts
        got.max_connection_attempts
  pub asked_captures : IsAsked asked.max_captures default_limits.max_captures got.max_captures
  pub asked_decoders : IsAsked asked.max_decoders default_limits.max_decoders got.max_decoders
  pub asked_timeout :
      IsAsked asked.session_idle_timeout default_limits.session_idle_timeout
        got.session_idle_timeout

validate_limits-accepts : (l m : Limits) → validate_limits l ≡ accepted m → m ≡ l
unfolding validate_limits
validate_limits-accepts l m h = ground arith

with_defaults-IsAdmissible :
    (l : Limits)
    → validate_limits (with_defaults l) ≡ accepted (with_defaults l)
    → IsAdmissible l (with_defaults l)
unfolding validate_limits with_defaults
with_defaults-IsAdmissible l h = ground arith

with_defaults-fixed : (m : Limits) → validate_limits m ≡ accepted m → with_defaults m ≡ m
unfolding validate_limits with_defaults
with_defaults-fixed m h = ground arith

normalized_lem : (l : Limits) → normalized l ≡ validate_limits (with_defaults l)
unfolding normalized
normalized_lem l = refl

-- Limits that are accepted are positive and bounded, none exceeds the operations that it is a part of,
-- each is the one that was asked for, or the default where that was 0; and they are accepted again,
-- unchanged, with defaults and without.
pub normalized-IsAdmissible :
    (l m : Limits)
    → normalized l ≡ accepted m
    → IsAdmissible l m × (normalized m ≡ accepted m) × (validate_limits m ≡ accepted m)
normalized-IsAdmissible l m h =
    let e = sym (normalized_lem l) ∙ h in
    let q = validate_limits-accepts (with_defaults l) m e in
    let v : validate_limits m ≡ accepted m = ap validate_limits q ∙ e in
    (
      subst (IsAdmissible l) (sym q) (with_defaults-IsAdmissible l (e ∙ ap accepted q)),
      normalized_lem m ∙ ap validate_limits (with_defaults-fixed m v) ∙ v,
      v,
    )
