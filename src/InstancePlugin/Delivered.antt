-- ===== src/InstancePlugin/Delivered.antt =====
-- From the game's report to the source's end: instance.ts, handleImportCompleteValidation, and
-- lib/transfer-orchestrator.ts, handleTransferValidation.
use clusterio_surface_export.Prelude.{
  String, Bool, true, false, ◌&&◌, Option, none, some, List, [], ◌∷◌, ◌++◌, ◌≡◌, refl, ap, ◌∙◌,
  is_some, if◌then◌else◌, string_eq, Bool-cases, inl, inr,
}
use clusterio_surface_export.Prelude.Int.{ℤ}
use clusterio_surface_export.JsMap.{get}
use clusterio_surface_export.Transfer.{ActiveTransfer, ValidationEvent}
use clusterio_surface_export.Transfer.World.{World, Env, Message}
use clusterio_surface_export.Transfer.Verdict.{is_awaiting_validation, handle_transfer_validation}
use clusterio_surface_export.Transfer.Verdict.Commands.{
  commands, delete_command, unlock_command, verdict_commands, commands-handle_transfer_validation,
}
use clusterio_surface_export.InstancePlugin.{
  transfer_validation, ControllerReply, succeeded, declined, unreachable, PluginEffect, reported,
  PluginState, Surroundings, report,
}
use clusterio_surface_export.InstancePlugin.Verdict.{
  ImportReport, is_true, counts_match, verdict_of, failure_verdict, after_verdict, by_transfer,
  transfer_of, handle_import_complete_validation,
}

abbrev pub has_arrived : ControllerReply → Bool
has_arrived (unreachable why) = false
has_arrived succeeded = true
has_arrived (declined e safe) = true

-- The newest verdict among what the plugin did, if the controller got it: a send that throws does not
-- arrive. No older one is looked for, since the plugin sends another only where that one threw.
abbrev pub arrived_verdict : Surroundings → List PluginEffect → Option ValidationEvent
arrived_verdict v [] = none
arrived_verdict v (reported (transfer_validation ev) ∷ es) =
    if has_arrived (v.controller es (transfer_validation ev)) then some ev else none
arrived_verdict v (_ ∷ es) = arrived_verdict v es

abbrev pub deliver : Env → Option ValidationEvent → World → World
deliver c none w = w
deliver c (some ev) w = handle_transfer_validation c ev w

-- The report says that the import succeeded, and both its counts match.
abbrev pub is_validated : ImportReport → Bool
is_validated x = is_some x.validation && (is_true x.success && counts_match x.validation)

-- What the controller is told, by the reply to the plugin's verdict and, where that throws, by the reply
-- to the failure that is sent in its place: success or failure, or nothing where both throw.
abbrev pub told : ControllerReply → (String → ControllerReply) → Bool → Option Bool
told succeeded second good = some good
told (declined e safe) second good = some good
told (unreachable why) second good = if has_arrived (second why) then some false else none

abbrev pub decided : Bool → Option ActiveTransfer → List (ℤ × Message)
decided good none = []
decided good (some t) =
    if is_awaiting_validation t.status
    then if good then delete_command t ∷ [] else unlock_command t ∷ []
    else []

-- Nothing is decided where the controller is told nothing.
abbrev pub decided_by : Option Bool → Option ActiveTransfer → List (ℤ × Message)
decided_by none o = []
decided_by (some good) o = decided good o

verdict_commands-decided :
    (ev : ValidationEvent) (o : Option ActiveTransfer)
    → verdict_commands ev o ≡ decided ev.success o
verdict_commands-decided ev none = refl
verdict_commands-decided ev (some t) = refl

handled :
    (c : Env) (ev : ValidationEvent) (w : World)
    → commands (handle_transfer_validation c ev w).trace
      ≡ decided ev.success (get ev.transfer_id w.transfers) ++ commands w.trace
handled c ev w =
    commands-handle_transfer_validation c ev w
    ∙ ap (λ l. l ++ commands w.trace) (verdict_commands-decided ev (get ev.transfer_id w.transfers))

delivered_verdict :
    (v : Surroundings) (c : Env) (id : String) (x : ImportReport) (r : ControllerReply)
    (s : PluginState) (w : World)
    → let m = transfer_validation (verdict_of id x) in
      let second : String → ControllerReply =
        λ why. v.controller (reported m ∷ s.trace) (transfer_validation (failure_verdict id why)) in
      v.controller s.trace m ≡ r
      → commands (deliver c (arrived_verdict v (after_verdict id r (report m s)).trace) w).trace
        ≡ decided_by (told r second (is_validated x)) (get id w.transfers) ++ commands w.trace
delivered_verdict v c id x succeeded s w replied = rw replied (handled c (verdict_of id x) w)
delivered_verdict v c id x (declined e safe) s w replied =
    rw replied (handled c (verdict_of id x) w)
delivered_verdict v c id x (unreachable why) s w replied =
    let es = reported (transfer_validation (verdict_of id x)) ∷ s.trace in
    elim (Bool-cases
      (has_arrived (v.controller es (transfer_validation (failure_verdict id why))))) [
        | inl second ↦ rw second (handled c (failure_verdict id why) w)
        | inr lost ↦ rw lost refl
      ]

pub commands-handle_import_complete_validation :
    (v : Surroundings) (c : Env) (x : ImportReport) (id : String) (s : PluginState) (w : World)
    → transfer_of x ≡ some id
    → let m = transfer_validation (verdict_of id x) in
      let second : String → ControllerReply =
        λ why. v.controller (reported m ∷ s.trace) (transfer_validation (failure_verdict id why)) in
      commands
        (deliver c (arrived_verdict v (handle_import_complete_validation v x s).trace) w).trace
      ≡ decided_by (told (v.controller s.trace m) second (is_validated x)) (get id w.transfers)
        ++ commands w.trace
unfolding handle_import_complete_validation
commands-handle_import_complete_validation v c x id s w named =
    ap (λ o. commands (deliver c (arrived_verdict v (by_transfer v x o s).trace) w).trace) named
    ∙ delivered_verdict v c id x (v.controller s.trace (transfer_validation (verdict_of id x))) s w
        refl
