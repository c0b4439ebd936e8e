-- ===== src/Owner/Invariant/Lifecycle.antt =====
-- internal/jetkvm/device_owner.go: a release, a takeover and a validation keep the invariant.
use jetkvm_mcp.Base.{ℕ, false, Option, none, some, ◌≡◌, refl, arith, is_some, inl, inr, Bool-cases}
use jetkvm_mcp.Errors.{Error}
use jetkvm_mcp.Owner.State.{Validation, uncertain, Owner, Env, Generation, Cleanup}
use jetkvm_mcp.Owner.Closures.{stop_idle, complete_validation_loss}
use jetkvm_mcp.Owner.Lifecycle.{on_release_session}
use jetkvm_mcp.Owner.Step.{
  join_cleanup, take_over_vacant, take_over_resident, validated, settle_validation,
  on_complete_validation_of, on_take_over_session,
}
use jetkvm_mcp.Owner.Invariant.Defs.{
  Inv, start_attempt-Inv, start_cleanup-Inv, publish-Inv, schedule_idle-Inv, emit-Inv,
}
use jetkvm_mcp.Owner.Invariant.Endings.{release_resident-Inv}

pub on_release_session-Inv :
    (env : Env) (chan : ℕ) (o : Owner) → Inv o → Inv (on_release_session env chan o)
unfolding on_release_session
on_release_session-Inv env chan o v = elim (Bool-cases (is_some o.attempt)) [
  | inl a ↦ publish-Inv _ (ground arith)
  | inr a ↦
      publish-Inv _
        (ground (arith, release_resident-Inv chan o.generation o.cleanup o a refl refl v))
]

pub join_cleanup-Inv :
    (chan : ℕ) (c : Option Cleanup) (o : Owner)
    → o.cleanup ≡ c
    → Inv o
    → Inv (join_cleanup chan c o)
join_cleanup-Inv chan none o p v = v
join_cleanup-Inv chan (some c) o p v = ground arith

pub take_over_vacant-Inv :
    (env : Env) (chan : ℕ) (o : Owner) → Inv o → Inv (take_over_vacant env chan o)
take_over_vacant-Inv env chan o v = ground (arith, start_attempt-Inv env.permit (some chan) o v)

pub take_over_resident-Inv :
    (env : Env) (chan : ℕ) (g : Option Generation) (c : Option Cleanup) (o : Owner)
    → is_some o.attempt ≡ false
    → o.generation ≡ g
    → o.cleanup ≡ c
    → Inv o
    → Inv (take_over_resident env chan g c o)
unfolding stop_idle
take_over_resident-Inv env chan none none o a e p v = take_over_vacant-Inv env chan o v
take_over_resident-Inv env chan none (some c) o a e p v = ground arith
take_over_resident-Inv env chan (some g) none o a e p v = ground arith
take_over_resident-Inv env chan (some g) (some c) o a e p v = absurd (ground arith)

pub on_take_over_session-Inv :
    (env : Env) (chan : ℕ) (o : Owner) → Inv o → Inv (on_take_over_session env chan o)
unfolding on_take_over_session
on_take_over_session-Inv env chan o v = elim (Bool-cases (is_some o.attempt)) [
  | inl a ↦ publish-Inv _ (ground arith)
  | inr a ↦ publish-Inv _ (
      ground (
        arith,
        join_cleanup-Inv chan o.cleanup o refl v,
        take_over_resident-Inv env chan o.generation o.cleanup o a refl refl v,
      ))
]

pub complete_validation_loss-Inv :
    (g : Generation) (r : ℕ) (o : Owner)
    → o.generation ≡ some g
    → Inv o
    → Inv (complete_validation_loss g r o)
unfolding complete_validation_loss
complete_validation_loss-Inv g r o e v =
    emit-Inv _ _
      (emit-Inv _ _ (start_cleanup-Inv g uncertain none _ refl (ground arith) e (ground arith)))

pub validated-Inv :
    (env : Env) (w : Validation) (g : Generation) (e : Option Error) (o : Owner)
    → Inv o
    → Inv (validated env w g e o)
validated-Inv env w g none o v = schedule_idle-Inv env _ (ground arith)
validated-Inv env w g (some e) o v = ground arith

pub settle_validation-Inv :
    (env : Env) (id : ℕ) (e : Option Error) (w : Validation) (g : Option Generation) (o : Owner)
    → o.generation ≡ g
    → Inv o
    → Inv (settle_validation env id e w g o)
settle_validation-Inv env id e w none o p v = ground arith
settle_validation-Inv env id e w (some g) o p v = ground (
  arith,
  emit-Inv _ o v,
  complete_validation_loss-Inv g w.reply o p v,
  validated-Inv env w g e o v,
)

pub on_complete_validation_of-Inv :
    (env : Env) (id : ℕ) (e : Option Error) (w : Option Validation) (o : Owner)
    → Inv o
    → Inv (on_complete_validation_of env id e w o)
on_complete_validation_of-Inv env id e none o v = v
on_complete_validation_of-Inv env id e (some w) o v = ground (
  arith,
  publish-Inv _ (
      settle_validation-Inv env id e w o.generation (record o { validation = none }) refl
        (ground arith)),
)
