-- ===== src/Transfer/Verdict/Settle.antt =====
-- A verdict for a transfer that awaits one is settled: lib/transfer-orchestrator.ts,
-- handleTransferValidation.
use clusterio_surface_export.Prelude.{
  true, false, none, some, ◌≡◌, if◌then◌else◌, string_eq, ap, ◌∙◌,
}
use clusterio_surface_export.JsMap.{get}
use clusterio_surface_export.Transfer.{ActiveTransfer, ValidationEvent, awaiting_validation}
use clusterio_surface_export.Transfer.World.{World, Env, validation_received, end_phase, log, store}
use clusterio_surface_export.Transfer.Verdict.{
  is_awaiting_validation, receive, late_verdict, validation_success, validation_failure, settle,
  handle_transfer_validation, stage_of,
}

-- The record as `settle` hands it to the two outcomes.
abbrev pub judged : Env → ValidationEvent → ActiveTransfer → World → ActiveTransfer
judged v ev t w = record (end_phase "validation" (v.clock w.trace) t) {
  validation_result = ev.validation;
  failed_stage = stage_of ev.validation;
  validation_timeout = none;
}

abbrev pub judged_world : Env → ValidationEvent → ActiveTransfer → World → World
judged_world v ev t w = store (judged v ev t w) (log ev.transfer_id validation_received w)

-- A verdict for a transfer that awaits one is settled.
pub handle-settle :
    (v : Env) (ev : ValidationEvent) (t : ActiveTransfer) (w : World)
    → get ev.transfer_id w.transfers ≡ some t
    → t.status ≡ awaiting_validation
    → handle_transfer_validation v ev w ≡ settle v ev t w
unfolding handle_transfer_validation
handle-settle v ev t w found waits =
    ap (λ o. receive v ev o w) found
    ∙ ap (λ s. if is_awaiting_validation s then settle v ev t w else late_verdict ev t w) waits

pub settle_success :
    (v : Env) (ev : ValidationEvent) (t : ActiveTransfer) (w : World)
    → ev.success ≡ true
    → settle v ev t w ≡ validation_success v (judged v ev t w) (judged_world v ev t w)
unfolding settle
settle_success v ev t w good =
    ap
      (λ b.
        if b
        then validation_success v (judged v ev t w) (judged_world v ev t w)
        else validation_failure v ev.validation (judged v ev t w) (judged_world v ev t w))
      good

pub settle_failure :
    (v : Env) (ev : ValidationEvent) (t : ActiveTransfer) (w : World)
    → ev.success ≡ false
    → settle v ev t w ≡ validation_failure v ev.validation (judged v ev t w) (judged_world v ev t w)
unfolding settle
settle_failure v ev t w bad =
    ap
      (λ b.
        if b
        then validation_success v (judged v ev t w) (judged_world v ev t w)
        else validation_failure v ev.validation (judged v ev t w) (judged_world v ev t w))
      bad
