-- ===== src/Owner/Invariant/Stop.antt =====
-- internal/jetkvm/device_owner.go: the stop of the owner keeps the invariant.
use jetkvm_mcp.Base.{ℕ, true, Option, none, some, ◌≡◌, refl, arith}
use jetkvm_mcp.Owner.State.{stopped, Owner, Generation}
use jetkvm_mcp.Owner.Closures.{stop_idle}
use jetkvm_mcp.Owner.Step.{stop_queue, stop_generation, cancel_active, begin_stop, on_stop}
use jetkvm_mcp.Owner.Frame.{
  stop_idle-Frame, stop_queue-Frame, Frame-trans, Frame, cancel_active-Frame,
}
use jetkvm_mcp.Owner.Invariant.Defs.{Inv, start_cleanup-Inv, publish-Inv}

pub stop_generation-Inv :
    (o p : Owner) (g : Option Generation)
    → Frame (record o { stopping = true }) p
    → p.generation ≡ g
    → Inv o
    → Inv (stop_generation g p)
stop_generation-Inv o p none f e v = ground arith
stop_generation-Inv o p (some g) f e v =
    start_cleanup-Inv g stopped none p refl (ground arith) e (ground arith)

pub begin_stop-Inv : (o : Owner) → Inv o → Inv (begin_stop o)
unfolding begin_stop
begin_stop-Inv o v =
    let p = record o { stopping = true } in
    let queued = stop_queue o.attempt (stop_idle p) in
    let f =
      Frame-trans p (stop_idle p) queued (stop_idle-Frame p)
        (stop_queue-Frame o.attempt (stop_idle p)) in
    stop_generation-Inv o (cancel_active queued.workers queued) _
      (Frame-trans p queued _ f (cancel_active-Frame queued.workers queued)) refl v

pub on_stop-Inv : (chan : ℕ) (o : Owner) → Inv o → Inv (on_stop chan o)
unfolding on_stop
on_stop-Inv chan o v = publish-Inv _ (ground (arith, begin_stop-Inv o v))
