-- ===== src/Runtime/Sweep.antt =====
-- src/thorn/runtime/_sweep.py: the repair of what a crash left in the queues.
pub mod Recovery
use thorn.Prelude.Dict
use thorn.Prelude.{
  Bool, List, Text, [], if◌then◌else◌, list_eq, nat_eq, none, option_eq, some, ℕ, ◌++◌, ◌+◌, ◌==◌,
  ◌∷◌,
}
use thorn.Errors.{Result, dispatch_error, err, ok}
use thorn.Runtime.Address.{Address, address_eq, service_address, session_address}
use thorn.Runtime.Address.Book.{AddressBook}
use thorn.Runtime.Notification.{
  Notification, confirmed, handled, in_progress, is_terminal, no_updates, pending, status_eq,
}
use thorn.Runtime.World.{Exec, FilePath, lift, pure, ◌>>=◌, ◌>>◌}
use thorn.Runtime.Queue.{
  DurableQueue, cleanup_temp_files, delete, list, notification_queue, session_inbox, update_status,
}
use thorn.Runtime.Dispatch.{dispatch_step_two}

pub record SweepReport : Type 0 where
  pub temp_files_removed : ℕ
  pub session_handled_dispatched : ℕ
  pub session_errored_dispatched : ℕ
  pub session_confirmed_cleaned : ℕ
  pub service_in_progress_reverted : ℕ
  pub service_confirmed_cleaned : ℕ
  pub service_misplaced : ℕ
  pub dispatch_skipped_unresolved : List Text

abbrev pub clean_report : SweepReport
clean_report = record {
  temp_files_removed = 0;
  session_handled_dispatched = 0;
  session_errored_dispatched = 0;
  session_confirmed_cleaned = 0;
  service_in_progress_reverted = 0;
  service_confirmed_cleaned = 0;
  service_misplaced = 0;
  dispatch_skipped_unresolved = [];
}

-- `except DispatchError`: any other exception goes on.
unfoldable pub dispatched : Notification → SweepReport → Result (Unit {0}) → Result SweepReport
dispatched n report (err dispatch_error) = ok (record report {
  dispatch_skipped_unresolved = report.dispatch_skipped_unresolved ++ (n.id ∷ []);
})
dispatched n report (err e) = err e
dispatched n report (ok u) = ok (
    if n.status == handled
    then record report { session_handled_dispatched = report.session_handled_dispatched + 1 }
    else record report { session_errored_dispatched = report.session_errored_dispatched + 1 })

module _ (book : AddressBook DurableQueue) where
  -- The body of the loop over an inbox's notifications.
  unfoldable pub sweep_session_item : DurableQueue → Notification → SweepReport → Exec SweepReport
  unfolding dispatched is_terminal
  sweep_session_item inbox n report =
      if n.status == in_progress
      then pure report
      else if is_terminal n.status
      then (λ w. let (r, w') = dispatch_step_two book inbox n w in (dispatched n report r, w'))
      else if n.status == confirmed
      then (do
        delete inbox n.id
        pure (record report { session_confirmed_cleaned = report.session_confirmed_cleaned + 1 }))
      else pure report

  unfoldable pub sweep_session_items :
      DurableQueue → List Notification → SweepReport → Exec SweepReport
  sweep_session_items inbox [] report = pure report
  sweep_session_items inbox (n ∷ ns) report = do
    report' ← sweep_session_item inbox n report
    sweep_session_items inbox ns report'

  unfoldable pub sweep_inbox : DurableQueue → SweepReport → Exec SweepReport
  unfolding sweep_session_items
  sweep_inbox inbox report = do
    removed ← cleanup_temp_files inbox
    notifications ← list inbox none
    sweep_session_items inbox notifications
        (record report { temp_files_removed = report.temp_files_removed + removed })

  -- `locations`: what paths.iter_session_inbox_locations() yields
  unfoldable pub sweep_session_inboxes :
      Bool → List (Text × Text × FilePath) → SweepReport → Exec SweepReport
  unfolding sweep_inbox
  sweep_session_inboxes indexed [] report = pure report
  sweep_session_inboxes indexed ((agent_id, session_key, inbox_dir) ∷ locations) report = do
    address ← lift (session_address agent_id session_key)
    report' ←
        sweep_inbox (record { class = session_inbox; root = inbox_dir; indexed = indexed }) report
    sweep_session_inboxes indexed locations report'

  unfoldable pub sweep_service_item : DurableQueue → Notification → SweepReport → Exec SweepReport
  unfolding is_terminal
  sweep_service_item queue n report =
      if n.status == in_progress
      then (do
        reverted ← update_status queue n.id pending no_updates
        pure (record report {
          service_in_progress_reverted = report.service_in_progress_reverted + 1;
        }))
      else if n.status == confirmed
      then (do
        delete queue n.id
        pure (record report { service_confirmed_cleaned = report.service_confirmed_cleaned + 1 }))
      else if is_terminal n.status
      then pure (record report { service_misplaced = report.service_misplaced + 1 })
      else pure report

  unfoldable pub sweep_service_items :
      DurableQueue → List Notification → SweepReport → Exec SweepReport
  sweep_service_items queue [] report = pure report
  sweep_service_items queue (n ∷ ns) report = do
    report' ← sweep_service_item queue n report
    sweep_service_items queue ns report'

  -- The registered queue, if it is a NotificationQueue, or an ephemeral one.
  unfoldable pub service_queue : Bool → Address → FilePath → DurableQueue
  service_queue indexed address queue_dir =
      let ephemeral : DurableQueue = record {
        class = notification_queue;
        root = queue_dir;
        indexed = indexed;
      } in
      elim (Dict.get book address) [
        | none ↦ ephemeral
        | some q ↦ elim q.class [ notification_queue ↦ q | other ↦ ephemeral ]
      ]

  -- `locations`: what paths.iter_service_queue_locations() yields
  unfoldable pub sweep_service_queues :
      Bool → List (Text × FilePath) → SweepReport → Exec SweepReport
  unfolding service_queue sweep_service_items
  sweep_service_queues indexed [] report = pure report
  sweep_service_queues indexed ((name, queue_dir) ∷ locations) report = do
    address ← lift (service_address name)
    let queue = service_queue indexed address queue_dir
    removed ← cleanup_temp_files queue
    notifications ← list queue none
    report' ←
        sweep_service_items queue notifications
          (record report { temp_files_removed = report.temp_files_removed + removed })
    sweep_service_queues indexed locations report'

  unfoldable pub run_startup_sweep :
      Bool → List (Text × Text × FilePath) → List (Text × FilePath) → Exec SweepReport
  unfolding sweep_session_inboxes sweep_service_queues
  run_startup_sweep indexed inboxes services = do
    report ← sweep_session_inboxes indexed inboxes clean_report
    sweep_service_queues indexed services report
