-- ===== src/Transfer/Timeout.antt =====
-- lib/transfer-orchestrator.ts: the callback that scheduleValidationTimeout sets.
use clusterio_surface_export.Prelude.{
  ℕ, String, ◌/◌, false, Option, none, some, List, [], ◌∷◌, ◌++◌, ◌≡◌, refl, arith, ap, ◌∙◌,
  if◌then◌else◌, string_eq, concat,
}
use clusterio_surface_export.Prelude.Int.{ℤ}
use clusterio_surface_export.JsMap.{get}
use clusterio_surface_export.CanonicalId.{NumberText}
use clusterio_surface_export.Transfer.{ActiveTransfer, ValidationEvent}
use clusterio_surface_export.Transfer.World.{World, Env, Message, log, validation_timeout}
use clusterio_surface_export.Transfer.Verdict.{is_awaiting_validation, handle_transfer_validation}
use clusterio_surface_export.Transfer.Verdict.Commands.{
  commands, unlock_command, verdict_commands, commands-handle_transfer_validation,
}

-- The verdict that stands in for the one that did not come.
abbrev pub timeout_verdict : NumberText → String → ℕ → ValidationEvent
timeout_verdict n id ms = record {
  transfer_id = id;
  success = false;
  validation = some (record {
    mismatch_details = some (
        concat "Validation timeout - no response received within "
          (concat (n.write (ms / 1000)) "s"));
    cleanup_has_failed = false;
    cleanup_error = none;
    destination_preserved = false;
    failed_stage = none;
  });
}

abbrev pub fire : Env → String → ℕ → Option ActiveTransfer → World → World
fire v id ms none w = w
fire v id ms (some t) w =
    if is_awaiting_validation t.status
    then handle_transfer_validation v (timeout_verdict v.number id ms) (log id validation_timeout w)
    else w

-- The callback, `ms` milliseconds after the timer was armed.
unfoldable pub on_validation_timeout : Env → String → ℕ → World → World
on_validation_timeout v id ms w = fire v id ms (get id w.transfers) w

abbrev pub timeout_commands : Option ActiveTransfer → List (ℤ × Message)
timeout_commands none = []
timeout_commands (some t) = if is_awaiting_validation t.status then unlock_command t ∷ [] else []

commands-fire :
    (v : Env) (id : String) (ms : ℕ) (w : World) (o : Option ActiveTransfer)
    → get id w.transfers ≡ o
    → commands (fire v id ms o w).trace ≡ timeout_commands o ++ commands w.trace
commands-fire v id ms w none found = refl
commands-fire v id ms w (some t) found =
    let ev = timeout_verdict v.number id ms in
    let u = log id validation_timeout w in
    ground (
      arith,
      commands-handle_transfer_validation v ev u
          ∙ ap (λ o. verdict_commands ev o ++ commands w.trace) found,
    )

-- When the timer fires, the source of a transfer that still awaits its verdict is unlocked once; for
-- any other transfer, or an unknown one, no command is sent.
pub commands-on_validation_timeout :
    (v : Env) (id : String) (ms : ℕ) (w : World)
    → commands (on_validation_timeout v id ms w).trace
      ≡ timeout_commands (get id w.transfers) ++ commands w.trace
unfolding on_validation_timeout
commands-on_validation_timeout v id ms w = commands-fire v id ms w (get id w.transfers) refl
