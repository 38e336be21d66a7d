-- ===== src/Transfer/Request.antt =====
-- lib/transfer-orchestrator.ts: handleStartPlatformTransferRequest and
-- handleTransferPlatformRequest. Ids and indices of a request are integers, by its schema.
pub mod Rollback
use clusterio_surface_export.Prelude.{
  ℕ, String, Bool, true, false, not, ◌&&◌, ◌||◌, Option, none, some, List, [], ◌∷◌, or_else,
  given_or, is_empty, is_some, ltb, ◌==◌, if◌then◌else◌, string_eq, eqb,
}
use clusterio_surface_export.Prelude.Int.{ℤ, pos, negsuc, int_eq}
use clusterio_surface_export.JsMap.{JsMap, get}
use clusterio_surface_export.CanonicalId.{make_canonical_transfer_id}
use clusterio_surface_export.Cluster.{
  Cluster, Instance, is_instance_online, resolve_target_instance,
}
use clusterio_surface_export.Transfer.{StoredExport}
use clusterio_surface_export.Transfer.World.{
  World, Env, Reply, accepted, rejected, session_lost, send_failed, export_platform, send, answer,
  now,
}
use clusterio_surface_export.Transfer.Unlock.{send_unlock_request}
use clusterio_surface_export.Transfer.Start.{
  Refusal, unknown_instance, with_rollback_error, Result, refused, started, already_active,
  delivery_uncertain, transfer_platform,
}

pub record StartRequest : Type 0 where
  pub source_instance_id : ℤ
  pub source_platform_index : ℤ
  pub target_instance_id : ℤ
  pub force_name : Option String

-- How the request ends.
pub data StartResult : Type 0 where
  unknown_source unknown_target same_instance invalid_index offline_target : StartResult
  export_failed : Option String → StartResult
  export_threw : String → StartResult
  id_invalid : StartResult
  export_not_stored : String → StartResult
  rollback_error : StartResult → String → StartResult
  transferred : Result → StartResult

abbrev is_known : Option Instance → Bool
is_known none = false
is_known (some i) = not i.is_deleted

abbrev positive : ℤ → Option ℕ
positive (negsuc n) = none
positive (pos n) = if eqb n 0 then none else some n

-- The `catch`: the source is unlocked, and a failure to do so is added to the error.
abbrev with_unlock : StartResult → Option String × World → StartResult × World
with_unlock r (none, w) = (r, w)
with_unlock r (some e, w) = (rollback_error r e, w)

pub caught : Env → ℤ → ℕ → String → StartResult → World → StartResult × World
caught v source index force r w = with_unlock r (send_unlock_request v source index force none w)

abbrev refusal_with_unlock : Refusal → Option String × World → StartResult × World
refusal_with_unlock x (none, w) = (transferred (refused x true), w)
refusal_with_unlock x (some e, w) = (transferred (refused (with_rollback_error x e) true), w)

-- The source is unlocked after a refusal that leaves it to the caller.
pub after_transfer : Env → ℤ → ℕ → String → Result × World → StartResult × World
after_transfer v source index force (refused x true, w) =
    refusal_with_unlock x (send_unlock_request v source index force none w)
after_transfer v source index force (refused x false, w) = (transferred (refused x false), w)
after_transfer v source index force (started id, w) = (transferred (started id), w)
after_transfer v source index force (already_active id, w) = (transferred (already_active id), w)
after_transfer v source index force (delivery_uncertain id, w) =
    (transferred (delivery_uncertain id), w)

-- waitForStoredExport, and the transfer of what it found
abbrev after_wait :
    Env → ℤ → ℕ → ℤ → String → ℕ → String → World → Option StoredExport → StartResult × World
after_wait v source index target force at id w none =
    caught v source index force (export_not_stored id) w
after_wait v source index target force at id w (some e) =
    after_transfer v source index force (transfer_platform v id target (some at) w)

abbrev after_id : Env → ℤ → ℕ → ℤ → String → ℕ → World → Option String → StartResult × World
after_id v source index target force at w none = caught v source index force id_invalid w
after_id v source index target force at w (some id) =
    let w' = record w { storage = v.during_wait w.trace w.storage } in
    after_wait v source index target force at id w' (get id w'.storage)

-- The rest of the `try` behind the answer to the export request.
pub after_export : Env → ℤ → ℕ → ℤ → String → ℕ → Reply → World → StartResult × World
after_export v source index target force at (accepted none) w = (export_failed none, w)
after_export v source index target force at (accepted (some job)) w =
    if is_empty job
    then (export_failed none, w)
    else after_id v source index target force at w (make_canonical_transfer_id v.number source job)
after_export v source index target force at (rejected e) w = (export_failed e, w)
after_export v source index target force at (session_lost e) w =
    caught v source index force (export_threw e) w
after_export v source index target force at (send_failed e) w =
    caught v source index force (export_threw e) w

abbrev export_and_transfer : Env → ℤ → ℕ → ℤ → String → World → StartResult × World
export_and_transfer v source index target force w =
    let m = export_platform index force target in
    after_export v source index target force (now v w) (answer v w source m) (send source m w)

abbrev with_index : Env → StartRequest → ℤ → World → Option ℕ → StartResult × World
with_index v q target w none = (invalid_index, w)
with_index v q target w (some index) =
    if is_instance_online v.cluster target
    then export_and_transfer v q.source_instance_id index target (given_or q.force_name "player") w
    else (offline_target, w)

abbrev with_target : Env → StartRequest → World → Option ℤ → StartResult × World
with_target v q w none = (unknown_target, w)
with_target v q w (some target) =
    if target == q.source_instance_id
    then (same_instance, w)
    else with_index v q target w (positive q.source_platform_index)

-- handleStartPlatformTransferRequest
pub handle_start_platform_transfer_request : Env → StartRequest → World → StartResult × World
handle_start_platform_transfer_request v q w =
    if is_known (get q.source_instance_id v.cluster.instances)
    then with_target v q w (resolve_target_instance v.cluster q.target_instance_id)
    else (unknown_source, w)

pub record TransferRequest : Type 0 where
  pub export_id : String
  pub target_instance_id : ℤ
  pub source_instance_id : Option ℤ
  pub source_export_id : Option String

-- `a && b ? makeCanonicalTransferId(a, b) : exportId`; the inner `none` is its error.
abbrev canonical_or : Env → String → Option ℤ → Option String → Option String
canonical_or v id none job = some id
canonical_or v id (some i) none = some id
canonical_or v id (some i) (some job) =
    if i == pos 0 || is_empty job then some id else make_canonical_transfer_id v.number i job

abbrev transfer_if : Env → ℤ → World → Option String → Option Result × World
transfer_if v target w none = (none, w)
transfer_if v target w (some id) =
    let (r, w') = transfer_platform v id target none w in (some r, w')

abbrev to_target : Env → TransferRequest → World → Option ℤ → Option Result × World
to_target v q w none = (some (refused (unknown_instance q.target_instance_id) true), w)
to_target v q w (some target) = transfer_if v target w (
    if is_some (get q.export_id w.storage)
    then some q.export_id
    else canonical_or v q.export_id q.source_instance_id q.source_export_id)

-- handleTransferPlatformRequest. Only the id can throw; its handler makes the same id again, so the
-- error leaves the handler: `none`.
pub handle_transfer_platform_request : Env → TransferRequest → World → Option Result × World
handle_transfer_platform_request v q w =
    to_target v q w (resolve_target_instance v.cluster q.target_instance_id)
