-- ===== src/InstancePlugin/Unlocks.antt =====
-- A refused transfer and the source's lock: instance.ts, startControllerTransfer, against
-- lib/transfer-orchestrator.ts, handleTransferPlatformRequest.
use clusterio_surface_export.Prelude.{
  ◌++◌, String, true, false, Option, none, some, List, [], ◌∷◌, ◌≡◌, refl, ap, ◌∙◌,
}
use clusterio_surface_export.Prelude.Int.{ℤ}
use clusterio_surface_export.CanonicalId.{make_canonical_transfer_id}
use clusterio_surface_export.Transfer.World.{World, Env}
use clusterio_surface_export.Transfer.Start.{
  Refusal, Result, started, already_active, delivery_uncertain, refused,
}
use clusterio_surface_export.Transfer.Request.{TransferRequest, handle_transfer_platform_request}
use clusterio_surface_export.Transfer.Request.Rollback.{
  UnlocksOrRefuses, handle_transfer_platform_request-UnlocksOrRefuses,
}
use clusterio_surface_export.InstancePlugin.{
  unlock_platform, RconReply, printed, rcon_threw, transfer_platform_request, ControllerReply,
  succeeded, declined, unreachable, PluginEffect, called, PluginState, Surroundings, report,
}
use clusterio_surface_export.InstancePlugin.Transfers.{
  after_unlock, after_request, request_transfer, start_controller_transfer, after_catch,
}

-- The platforms that the plugin asks the game to unlock, by index and name.
abbrev pub game_unlocks : List PluginEffect → List (ℤ × Option String)
game_unlocks [] = []
game_unlocks (called (unlock_platform i n) ∷ es) = (i, n) ∷ game_unlocks es
game_unlocks (_ ∷ es) = game_unlocks es

-- The controller's answer on the wire: an uncertain delivery counts as started.
abbrev pub wire_reply : (Refusal → String) → Option Result → ControllerReply
wire_reply wording none = unreachable "the id is invalid"
wire_reply wording (some (started id)) = succeeded
wire_reply wording (some (already_active id)) = succeeded
wire_reply wording (some (delivery_uncertain id)) = succeeded
wire_reply wording (some (refused x safe)) = declined (some (wording x)) safe

after_unlock-game_unlocks :
    (r : RconReply) (e : Option String) (s : PluginState)
    → game_unlocks (after_catch (after_unlock r e s)).trace ≡ game_unlocks s.trace
after_unlock-game_unlocks (printed text) e s = refl
after_unlock-game_unlocks (rcon_threw why) e s = refl

abbrev asked_by_plugin : ControllerReply → Option ℤ → List (ℤ × Option String)
asked_by_plugin (declined e true) (some index) = (index, none) ∷ []
asked_by_plugin _ _ = []

game_unlocks-after_request :
    (v : Surroundings) (index : Option ℤ) (r : ControllerReply) (s : PluginState)
    → game_unlocks (after_catch (after_request v index r s)).trace
      ≡ asked_by_plugin r index ++ game_unlocks s.trace
game_unlocks-after_request v index succeeded s = refl
game_unlocks-after_request v none (declined e true) s = refl
game_unlocks-after_request v (some i) (declined e true) s =
    after_unlock-game_unlocks (v.rcon s.trace (unlock_platform i none)) e _
game_unlocks-after_request v index (declined e false) s = refl
game_unlocks-after_request v index (unreachable why) s = refl

-- What the plugin has to unlock: the platform of the index that it was given, where the controller refused
-- before the transfer began.
abbrev pub plugin_owes : Option Result → Option ℤ → List (ℤ × Option String)
plugin_owes (some (refused x true)) (some index) = (index, none) ∷ []
plugin_owes _ _ = []

asked-plugin_owes :
    (wording : Refusal → String) (o : Option Result) (index : Option ℤ)
    → asked_by_plugin (wire_reply wording o) index ≡ plugin_owes o index
asked-plugin_owes wording none index = refl
asked-plugin_owes wording (some (started id)) index = refl
asked-plugin_owes wording (some (already_active id)) index = refl
asked-plugin_owes wording (some (delivery_uncertain id)) index = refl
asked-plugin_owes wording (some (refused x true)) none = refl
asked-plugin_owes wording (some (refused x true)) (some i) = refl
asked-plugin_owes wording (some (refused x false)) index = refl

pub start_controller_transfer-game_unlocks :
    (v : Surroundings) (c : Env) (wording : Refusal → String) (id canonical : String) (target : ℤ)
    (index : Option ℤ) (s : PluginState) (w : World)
    → make_canonical_transfer_id v.number v.id id ≡ some canonical
    → let q : TransferRequest = record {
      export_id = canonical;
      target_instance_id = target;
      source_instance_id = some v.id;
      source_export_id = some id;
    } in
      let answer = handle_transfer_platform_request c q w in
      v.controller s.trace (transfer_platform_request canonical target id)
        ≡ wire_reply wording answer.0
      → (game_unlocks (after_catch (start_controller_transfer v id target index s)).trace
          ≡ plugin_owes answer.0 index ++ game_unlocks s.trace)
        × UnlocksOrRefuses answer w
unfolding start_controller_transfer
start_controller_transfer-game_unlocks v c wording id canonical target index s w made asked =
    let q : TransferRequest = record {
      export_id = canonical;
      target_instance_id = target;
      source_instance_id = some v.id;
      source_export_id = some id;
    } in
    let answer = handle_transfer_platform_request c q w in
    let m = transfer_platform_request canonical target id in
    (
      ap (λ o. game_unlocks (after_catch (request_transfer v id target index s o)).trace) made
          ∙ game_unlocks-after_request v index (v.controller s.trace m) (report m s)
          ∙ ap (λ r. asked_by_plugin r index ++ game_unlocks s.trace) asked
          ∙ ap (λ l. l ++ game_unlocks s.trace) (asked-plugin_owes wording answer.0 index),
      handle_transfer_platform_request-UnlocksOrRefuses c q w,
    )
