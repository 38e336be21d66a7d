-- ===== src/Transfer/Settles.antt =====
-- No transfer waits for ever: lib/transfer-orchestrator.ts, transferPlatform and
-- scheduleValidationTimeout.
use clusterio_surface_export.Prelude.{
  ℕ, String, some, ◌≡◌, ◌≤◌, sym, subst, ap, ◌∙◌, if◌then◌else◌, string_eq, ◌∷◌,
}
use clusterio_surface_export.JsMap.{get, KeysOnce}
use clusterio_surface_export.Transfer.{ActiveTransfer, awaiting_validation}
use clusterio_surface_export.Transfer.World.{World, Env, log, validation_timeout}
use clusterio_surface_export.Transfer.Verdict.{is_awaiting_validation, handle_transfer_validation}
use clusterio_surface_export.Transfer.Verdict.Retained.{started_since}
use clusterio_surface_export.Transfer.Verdict.Once.{IsSettled, handle_transfer_validation-IsSettled}
use clusterio_surface_export.Transfer.Start.{launch}
use clusterio_surface_export.Transfer.Start.Commands.{import_command, import_trace}
use clusterio_surface_export.Transfer.Start.Retry.{armed_timers, MayHoldCopy, launch-Awaits}
use clusterio_surface_export.Transfer.Timeout.{fire, timeout_verdict, on_validation_timeout}

-- The timer of a transfer that awaits its verdict settles it.
pub on_validation_timeout-IsSettled :
    (v : Env) (id : String) (ms : ℕ) (t : ActiveTransfer) (w : World)
    → get id w.transfers ≡ some t
    → t.transfer_id ≡ id
    → t.status ≡ awaiting_validation
    → KeysOnce w.transfers
    → started_since t.started_at w.transfers ≤ 100
    → IsSettled id (on_validation_timeout v id ms w)
unfolding on_validation_timeout
on_validation_timeout-IsSettled v id ms t w found own waits once few =
    let ev = timeout_verdict v.number id ms in
    let u = log id validation_timeout w in
    let path : fire v id ms (get id w.transfers) w ≡ handle_transfer_validation v ev u =
      ap (λ o. fire v id ms o w) found
      ∙ ap (λ s. if is_awaiting_validation s then handle_transfer_validation v ev u else w) waits in
    subst (IsSettled id) (sym path) (
      subst (λ i. IsSettled i (handle_transfer_validation v ev u)) own
        (handle_transfer_validation-IsSettled v ev t u (ap (λ i. get i w.transfers) own ∙ found)
          (sym own) waits once few))

-- Where the destination may hold a copy after the import was sent, the launch arms one timer for the
-- transfer, of 5 to 120 seconds, and keeps its time in the record; and if no verdict comes, that timer
-- settles the transfer when it fires. The conditions, once the launch is done: ids are keys of one record
-- each, and of all records at most a hundred, the transfer's among them, started when it did or later.
pub launch-on_validation_timeout :
    (v v' : Env) (t : ActiveTransfer) (export_id : String) (w : World)
    → MayHoldCopy (v.reply (import_trace t w) t.target_instance_id (import_command export_id t).1)
    → KeysOnce (launch v t export_id w).1.transfers
    → started_since t.started_at (launch v t export_id w).1.transfers ≤ 100
    → let w' = (launch v t export_id w).1 in
      (ms : ℕ) × (t' : ActiveTransfer) × (armed_timers w'.trace
        ≡ (t.transfer_id, ms) ∷ armed_timers w.trace)
      × (5000 ≤ ms)
      × (ms ≤ 120000)
      × (get t.transfer_id w'.transfers ≡ some t')
      × (t'.validation_timeout ≡ some ms)
      × IsSettled t.transfer_id (on_validation_timeout v' t.transfer_id ms w')
launch-on_validation_timeout v v' t export_id w held once few =
    let (t', i, ms, found, waits, timer, armed, low, high, kept, own, start) =
      launch-Awaits v t export_id w held in
    let w' = (launch v t export_id w).1 in
    (
      ms,
      t',
      armed,
      low,
      high,
      found,
      timer,
      on_validation_timeout-IsSettled v' t.transfer_id ms t' w' found own waits once
          (subst (λ n. started_since n w'.transfers ≤ 100) (sym start) few),
    )
