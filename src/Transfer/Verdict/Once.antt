-- ===== src/Transfer/Verdict/Once.antt =====
-- Two verdicts for one transfer: lib/transfer-orchestrator.ts, handleTransferValidation.
use clusterio_surface_export.Prelude.{
  String, false, Option, none, some, [], ◌∷◌, ◌++◌, ◌≡◌, ◌≤◌, refl, ap, ◌∙◌, if◌then◌else◌,
  string_eq, Bool-cases, inl, inr,
}
use clusterio_surface_export.JsMap.{KeysOnce, get}
use clusterio_surface_export.Transfer.{ActiveTransfer, ValidationEvent, awaiting_validation}
use clusterio_surface_export.Transfer.World.{
  World, Env, Reply, accepted, rejected, session_lost, send_failed,
}
use clusterio_surface_export.Transfer.Verdict.{
  is_awaiting_validation, failed_status, destination_cleanup_error, handle_transfer_validation,
}
use clusterio_surface_export.Transfer.Verdict.Commands.{
  commands, delete_command, unlock_command, verdict_commands, commands-handle_transfer_validation,
}
use clusterio_surface_export.Transfer.World.{end_phase}
use clusterio_surface_export.Transfer.Verdict.Retained.{started_since}
use clusterio_surface_export.Transfer.Verdict.Outcome.{delete_status, delete_trace, success_outcome}
use clusterio_surface_export.Transfer.Verdict.Failure.{failure_outcome}

abbrev pub IsSettled : String → World → Type 0
IsSettled id w =
    (t : ActiveTransfer) × (get id w.transfers ≡ some t) × (is_awaiting_validation t.status ≡ false)

pub delete_status-settled : (r : Reply) → is_awaiting_validation (delete_status r) ≡ false
delete_status-settled (accepted e) = refl
delete_status-settled (rejected e) = refl
delete_status-settled (session_lost e) = refl
delete_status-settled (send_failed e) = refl

pub failed_status-settled : (o : Option String) → is_awaiting_validation (failed_status o) ≡ false
failed_status-settled none = refl
failed_status-settled (some e) = refl

-- A verdict settles the transfer that awaits it, whatever the source answers, if of all records at most a
-- hundred, itself among them, started when it did or later.
pub handle_transfer_validation-IsSettled :
    (v : Env) (ev : ValidationEvent) (t : ActiveTransfer) (w : World)
    → get t.transfer_id w.transfers ≡ some t
    → ev.transfer_id ≡ t.transfer_id
    → t.status ≡ awaiting_validation
    → KeysOnce w.transfers
    → started_since t.started_at w.transfers ≤ 100
    → IsSettled t.transfer_id (handle_transfer_validation v ev w)
unfolding end_phase
handle_transfer_validation-IsSettled v ev t w found same waits once few =
    let key = t.transfer_id in
    elim (Bool-cases ev.success) [
      | inl good ↦
          let r = v.reply (delete_trace ev t w) t.source_instance_id (delete_command t).1 in
          let o = success_outcome v ev t w good found same waits once few in
          (o.0, o.1, ap is_awaiting_validation o.3 ∙ delete_status-settled r)
      | inr bad ↦
          let o = failure_outcome v ev t w bad found same waits once few in
          (
            o.0,
            o.1,
            ap is_awaiting_validation o.3
                ∙ failed_status-settled (destination_cleanup_error ev.validation),
          )
    ]

settled-commands :
    (v : Env) (ev : ValidationEvent) (id : String) (w : World)
    → ev.transfer_id ≡ id
    → IsSettled id w
    → commands (handle_transfer_validation v ev w).trace ≡ commands w.trace
settled-commands v ev id w same (t, found, settled) =
    commands-handle_transfer_validation v ev w
    ∙ ap (λ o. verdict_commands ev o ++ commands w.trace) (ap (λ k. get k w.transfers) same ∙ found)
    ∙ ap
        (λ b.
          (if b then if ev.success then delete_command t ∷ [] else unlock_command t ∷ [] else [])
          ++ commands w.trace)
        settled

-- Of two verdicts in a row for a transfer that awaits one, the first sends its one command, the
-- deletion or the unlock of the source, and the second none, whichever they are. The record stands under
-- its own id, and of all records at most a hundred, itself among them, started when it did or later.
pub second_verdict_silent :
    (v v' : Env) (ev ev' : ValidationEvent) (t : ActiveTransfer) (w : World)
    → get t.transfer_id w.transfers ≡ some t
    → ev.transfer_id ≡ t.transfer_id
    → ev'.transfer_id ≡ t.transfer_id
    → t.status ≡ awaiting_validation
    → KeysOnce w.transfers
    → started_since t.started_at w.transfers ≤ 100
    → commands (handle_transfer_validation v' ev' (handle_transfer_validation v ev w)).trace
      ≡ (if ev.success then delete_command t ∷ [] else unlock_command t ∷ []) ++ commands w.trace
second_verdict_silent v v' ev ev' t w found same same' waits once few =
    let w' = handle_transfer_validation v ev w in
    settled-commands v' ev' t.transfer_id w' same'
      (handle_transfer_validation-IsSettled v ev t w found same waits once few)
    ∙ commands-handle_transfer_validation v ev w
    ∙ ap (λ o. verdict_commands ev o ++ commands w.trace) (ap (λ k. get k w.transfers) same ∙ found)
    ∙ ap
        (λ s.
          (if is_awaiting_validation s
            then if ev.success then delete_command t ∷ [] else unlock_command t ∷ []
            else [])
          ++ commands w.trace)
        waits
