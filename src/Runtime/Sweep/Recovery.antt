-- ===== src/Runtime/Sweep/Recovery.antt =====
-- What the sweep of src/thorn/runtime/_sweep.py makes of a transition that a crash cut short.
use thorn.Prelude.{
  Text, ap, arith, false, list_eq, nat_eq, option_eq, refl, sym, true, ◌==◌, ◌∙◌, ◌≡◌,
}
use thorn.Errors.{Result, err, ok}
use thorn.Runtime.Address.Book.{AddressBook}
use thorn.Runtime.Notification.{
  Notification, Status, in_progress, is_prompt_ready, is_terminal, status_beq, status_eq,
  with_updates,
}
use thorn.Runtime.World.{World}
use thorn.Runtime.Queue.{DurableQueue, get, update_status}
use thorn.Runtime.Queue.View.{IsNamed}
use thorn.Runtime.Dispatch.{
  Arguments, apply_handling_transition, dispatch_step_two, is_consistent, update_fields,
}
use thorn.Runtime.Dispatch.Transition.{closed, returning, terminal_eq}
use thorn.Runtime.Sweep.{SweepReport, sweep_session_item}

returning-world : (u : Notification) (r : Result (Unit {0}) × World) → (returning u r).1 ≡ r.1
returning-world u (ok x, w) = refl
returning-world u (err e, w) = refl

terminal-ne-in_progress : (s : Status) → is_terminal s ≡ true → (s == in_progress) ≡ false
unfolding is_terminal status_beq
terminal-ne-in_progress s h = ground (arith, h)

sweep-terminal :
    (book : AddressBook DurableQueue) (inbox : DurableQueue) (u : Notification)
    (report : SweepReport) (w : World)
    → is_terminal u.status ≡ true
    → (sweep_session_item book inbox u report w).1 ≡ (dispatch_step_two book inbox u w).1
unfolding sweep_session_item
sweep-terminal book inbox u report w terminal =
    rw (sweep_session_item, terminal-ne-in_progress u.status terminal, terminal) refl

closed-terminal :
    (n : Notification) (status : Status) (a : Arguments)
    → is_terminal status ≡ true
    → is_terminal (closed n status a).status ≡ true
unfolding with_updates
closed-terminal n status a h = h

-- Where a transition closes an item that is found open, in an inbox whose files are named for the
-- notifications in them, and the process stops after the first step, sweeping the item leaves the
-- world that the whole transition would have left, whichever way its second step goes.
pub sweep_session_item-recovers :
    (book : AddressBook DurableQueue) (inbox : DurableQueue) (id : Text) (status : Status)
    (a : Arguments) (w : World) (n : Notification) (report : SweepReport)
    → IsNamed inbox w
    → (get inbox id w).0 ≡ ok n
    → is_prompt_ready n.status ≡ true
    → is_consistent status a ≡ true
    → is_terminal status ≡ true
    → let stopped = (update_status inbox id status (update_fields status a) w).1 in
      (sweep_session_item book inbox (closed n status a) report stopped).1
      ≡ (apply_handling_transition book inbox id status a w).1
sweep_session_item-recovers book inbox id status a w n report named there live good terminal =
    let u = closed n status a in
    let stopped = (update_status inbox id status (update_fields status a) w).1 in
    let whole = terminal_eq book inbox id status a w n named there live good terminal in
    let u_terminal : is_terminal u.status ≡ true = closed-terminal n status a terminal in
    sweep-terminal book inbox u report stopped u_terminal
    ∙ sym (ap (λ x. x.1) whole ∙ returning-world u (dispatch_step_two book inbox u stopped))
