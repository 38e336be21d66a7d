-- ===== src/Transfer/Request/Rollback.antt =====
-- A start request that fails gives its source back once: lib/transfer-orchestrator.ts,
-- handleStartPlatformTransferRequest.
use clusterio_surface_export.Prelude.{
  ℕ, String, true, false, Option, none, some, List, ◌∷◌, ◌++◌, ◌≡◌, refl, arith, ap, sym, subst,
  Bool-cases, inl, inr, given_or, is_empty, string_eq, ◌==◌,
}
use clusterio_surface_export.Prelude.Int.{ℤ, pos, negsuc, int_eq}
use clusterio_surface_export.JsMap.{get}
use clusterio_surface_export.CanonicalId.{make_canonical_transfer_id}
use clusterio_surface_export.Cluster.{is_instance_online, resolve_target_instance}
use clusterio_surface_export.Transfer.{StoredExport}
use clusterio_surface_export.Transfer.World.{
  World, Env, Effect, Message, unlock_source, Reply, accepted, rejected, session_lost, send_failed,
}
use clusterio_surface_export.Transfer.Unlock.{send_unlock_request}
use clusterio_surface_export.Transfer.Verdict.Commands.{commands}
use clusterio_surface_export.Transfer.Start.{
  Refusal, unknown_instance, Result, started, already_active, delivery_uncertain, refused,
  transfer_platform,
}
use clusterio_surface_export.Transfer.Start.Unlocks.{
  unlocks, unlock_origin, given_back, Unlocks, transfer_platform-Unlocks,
}
use clusterio_surface_export.Transfer.Request.{
  TransferRequest, transfer_if, to_target, handle_transfer_platform_request, StartRequest,
  StartResult, export_threw, id_invalid, export_not_stored, rollback_error, transferred,
  unknown_source, unknown_target, same_instance, invalid_index, offline_target, export_failed,
  is_known, positive, export_and_transfer, with_unlock, caught, refusal_with_unlock, after_transfer,
  after_wait, after_id, after_export, with_index, positive, with_target,
  handle_start_platform_transfer_request,
}

abbrev asked_index : ℤ → ℕ
asked_index (pos n) = n
asked_index (negsuc n) = 0

-- The unlock of the platform that the request names.
abbrev pub start_unlock : StartRequest → ℤ × Message
start_unlock q = (
  q.source_instance_id,
  unlock_source (asked_index q.source_platform_index) none (given_or q.force_name "player"),
)

-- The unlocks `us` after the request, by its end, where `before` were those before it and c is the unlock
-- of its platform. A transfer that failed after it began unlocks the platform that the stored export
-- names, which stood in the storage once the wait for it was over.
abbrev pub Returns :
    Env → World → ℤ × Message → List (ℤ × Message) → StartResult → List (ℤ × Message) → Type 0
Returns v w c before (export_threw e) us = us ≡ c ∷ before
Returns v w c before id_invalid us = us ≡ c ∷ before
Returns v w c before (export_not_stored id) us = us ≡ c ∷ before
Returns v w c before (rollback_error r e) us = us ≡ c ∷ before
Returns v w c before (transferred (refused x true)) us = us ≡ c ∷ before
Returns v w c before (transferred (refused x false)) us =
    (id : String) × (e : StoredExport) × (trace : List Effect) × (get id
        (v.during_wait trace w.storage)
      ≡ some e)
    × (us ≡ unlock_origin e ∷ before)
Returns v w c before (transferred (started id)) us = us ≡ before
Returns v w c before (transferred (already_active id)) us = us ≡ before
Returns v w c before (transferred (delivery_uncertain id)) us = us ≡ before
Returns v w c before unknown_source us = us ≡ before
Returns v w c before unknown_target us = us ≡ before
Returns v w c before same_instance us = us ≡ before
Returns v w c before invalid_index us = us ≡ before
Returns v w c before offline_target us = us ≡ before
Returns v w c before (export_failed e) us = us ≡ before

abbrev pub Restores : Env → ℤ × Message → StartResult × World → World → Type 0
Restores v c p w = Returns v w c (unlocks (commands w.trace)) p.0 (unlocks (commands p.1.trace))

abbrev unlock_for : ℤ → ℕ → String → ℤ × Message
unlock_for source index force = (source, unlock_source index none force)

-- The unlock was sent; the end says whether it failed.
with_unlock-Returns :
    (v : Env) (w : World) (c : ℤ × Message) (before : List (ℤ × Message)) (r : StartResult)
    (o : Option String) (u : World)
    → ((us : List (ℤ × Message)) → us ≡ c ∷ before → Returns v w c before r us)
    → unlocks (commands u.trace) ≡ c ∷ before
    → Returns v w c before
        (with_unlock r (o, u)).0
        (unlocks (commands (with_unlock r (o, u)).1.trace))
with_unlock-Returns v w c before r none u k h = k (unlocks (commands u.trace)) h
with_unlock-Returns v w c before r (some e) u k h = h

caught-Restores :
    (v : Env) (source : ℤ) (index : ℕ) (force : String) (r : StartResult) (w u : World)
    → unlocks (commands u.trace) ≡ unlocks (commands w.trace)
    → (let c = unlock_for source index force in
        let before = unlocks (commands w.trace) in
        (us : List (ℤ × Message)) → us ≡ c ∷ before → Returns v w c before r us)
    → Restores v (unlock_for source index force) (caught v source index force r u) w
unfolding caught send_unlock_request
caught-Restores v source index force r w u same k =
    let c = unlock_for source index force in
    with_unlock-Returns v w c (unlocks (commands w.trace)) r _ _ k (ap (λ l. c ∷ l) same)

refusal_with_unlock-Returns :
    (v : Env) (w : World) (c : ℤ × Message) (before : List (ℤ × Message)) (x : Refusal)
    (o : Option String) (u : World)
    → unlocks (commands u.trace) ≡ c ∷ before
    → Returns v w c before
        (refusal_with_unlock x (o, u)).0
        (unlocks (commands (refusal_with_unlock x (o, u)).1.trace))
refusal_with_unlock-Returns v w c before x none u h = h
refusal_with_unlock-Returns v w c before x (some e) u h = h

after_transfer-Restores :
    (v : Env) (source : ℤ) (index : ℕ) (force : String) (r : Result) (u w : World) (id : String)
    (e : StoredExport) (trace : List Effect)
    → get id (v.during_wait trace w.storage) ≡ some e
    → unlocks (commands u.trace) ≡ given_back (unlock_origin e) r ++ unlocks (commands w.trace)
    → Restores v (unlock_for source index force) (after_transfer v source index force (r, u)) w
unfolding after_transfer send_unlock_request
after_transfer-Restores v source index force (refused x true) u w id e trace at h =
    let c = unlock_for source index force in
    refusal_with_unlock-Returns v w c (unlocks (commands w.trace)) x _ _ (ap (λ l. c ∷ l) h)
after_transfer-Restores v source index force (refused x false) u w id e trace at h =
    (id, e, trace, at, h)
after_transfer-Restores v source index force (started _) u w id e trace at h = h
after_transfer-Restores v source index force (already_active _) u w id e trace at h = h
after_transfer-Restores v source index force (delivery_uncertain _) u w id e trace at h = h

after_wait-Restores :
    (v : Env) (source : ℤ) (index : ℕ) (target : ℤ) (force : String) (at : ℕ) (id : String)
    (w : World) (o : Option StoredExport)
    → get id (v.during_wait w.trace w.storage) ≡ o
    → let u : World = record w { storage = v.during_wait w.trace w.storage } in
      Restores v
        (unlock_for source index force)
        (after_wait v source index target force at id u o)
        w
after_wait-Restores v source index target force at id w none found =
    caught-Restores v source index force (export_not_stored id) w _ refl (λ us h. h)
after_wait-Restores v source index target force at id w (some e) found =
    let u : World = record w { storage = v.during_wait w.trace w.storage } in
    let p = transfer_platform v id target (some at) u in
    after_transfer-Restores v source index force p.0 p.1 w id e w.trace found
      (subst (λ o. Unlocks o p u) found (transfer_platform-Unlocks v id target (some at) u))

after_id-Restores :
    (v : Env) (source : ℤ) (index : ℕ) (target : ℤ) (force : String) (at : ℕ) (w : World)
    (o : Option String)
    → Restores v (unlock_for source index force) (after_id v source index target force at w o) w
after_id-Restores v source index target force at w none =
    caught-Restores v source index force id_invalid w w refl (λ us h. h)
after_id-Restores v source index target force at w (some id) =
    after_wait-Restores v source index target force at id w _ refl

after_export-Restores :
    (v : Env) (source : ℤ) (index : ℕ) (target : ℤ) (force : String) (at : ℕ) (r : Reply)
    (w : World)
    → Restores v (unlock_for source index force) (after_export v source index target force at r w) w
unfolding after_export
after_export-Restores v source index target force at (accepted none) w = refl
after_export-Restores v source index target force at (accepted (some job)) w =
    elim (Bool-cases (is_empty job)) [
      | inl empty ↦ rw empty refl
      | inr given ↦ rw given (
          after_id-Restores v source index target force at w
            (make_canonical_transfer_id v.number source job))
    ]
after_export-Restores v source index target force at (rejected e) w = refl
after_export-Restores v source index target force at (session_lost e) w =
    caught-Restores v source index force (export_threw e) w w refl (λ us h. h)
after_export-Restores v source index target force at (send_failed e) w =
    caught-Restores v source index force (export_threw e) w w refl (λ us h. h)

positive-asked_index : (i : ℤ) (n : ℕ) → positive i ≡ some n → asked_index i ≡ n
positive-asked_index (negsuc k) n h = cc
positive-asked_index (pos k) n h = ground (arith, h)

with_index-Restores :
    (v : Env) (q : StartRequest) (target : ℤ) (w : World) (o : Option ℕ)
    → positive q.source_platform_index ≡ o
    → Restores v (start_unlock q) (with_index v q target w o) w
with_index-Restores v q target w none h = refl
with_index-Restores v q target w (some index) h =
    elim (Bool-cases (is_instance_online v.cluster target)) [
      | inl e ↦ rw e (
          subst
            (λ n.
              Restores v
                (q.source_instance_id, unlock_source n none (given_or q.force_name "player"))
                (export_and_transfer v q.source_instance_id index target
                  (given_or q.force_name "player") w)
                w)
            (sym (positive-asked_index q.source_platform_index index h))
            (after_export-Restores v _ _ _ _ _ _ _))
      | inr e ↦ rw e refl
    ]

with_target-Restores :
    (v : Env) (q : StartRequest) (w : World) (o : Option ℤ)
    → Restores v (start_unlock q) (with_target v q w o) w
with_target-Restores v q w none = refl
with_target-Restores v q w (some target) = elim (Bool-cases (target == q.source_instance_id)) [
  | inl same ↦ rw same refl
  | inr apart ↦ rw apart (with_index-Restores v q target w (positive q.source_platform_index) refl)
]

pub handle_start_platform_transfer_request-Restores :
    (v : Env) (q : StartRequest) (w : World)
    → Restores v (start_unlock q) (handle_start_platform_transfer_request v q w) w
unfolding handle_start_platform_transfer_request
handle_start_platform_transfer_request-Restores v q w =
    elim (Bool-cases (is_known (get q.source_instance_id v.cluster.instances))) [
      | inl known ↦
          rw known
            (with_target-Restores v q w (resolve_target_instance v.cluster q.target_instance_id))
      | inr unknown ↦ rw unknown refl
    ]

-- For a transfer of a stored export: what it answers and does, by the id that is looked up.
abbrev pub UnlocksOrRefuses : Option Result × World → World → Type 0
UnlocksOrRefuses (none, w') w = w' ≡ w
UnlocksOrRefuses (some r, w') w = (id : String) × Unlocks (get id w.storage) (r, w') w

transfer_if-UnlocksOrRefuses :
    (v : Env) (target : ℤ) (w : World) (o : Option String)
    → UnlocksOrRefuses (transfer_if v target w o) w
transfer_if-UnlocksOrRefuses v target w none = refl
transfer_if-UnlocksOrRefuses v target w (some id) =
    (id, transfer_platform-Unlocks v id target none w)

safe_refusal-Unlocks :
    (x : Refusal) (w : World) (o : Option StoredExport) → Unlocks o (refused x true, w) w
safe_refusal-Unlocks x w none = refl
safe_refusal-Unlocks x w (some e) = refl

to_target-UnlocksOrRefuses :
    (v : Env) (q : TransferRequest) (w : World) (o : Option ℤ)
    → UnlocksOrRefuses (to_target v q w o) w
to_target-UnlocksOrRefuses v q w none = (
  q.export_id,
  safe_refusal-Unlocks (unknown_instance q.target_instance_id) w (get q.export_id w.storage),
)
to_target-UnlocksOrRefuses v q w (some target) = transfer_if-UnlocksOrRefuses v target w _

-- A request to transfer a stored export asks for the unlock of the platform that the export came from,
-- once, where the transfer fails and the answer does not leave the unlock to the caller, and for no
-- other unlock; where its id is invalid it throws and changes nothing.
pub handle_transfer_platform_request-UnlocksOrRefuses :
    (v : Env) (q : TransferRequest) (w : World)
    → UnlocksOrRefuses (handle_transfer_platform_request v q w) w
unfolding handle_transfer_platform_request
handle_transfer_platform_request-UnlocksOrRefuses v q w =
    to_target-UnlocksOrRefuses v q w (resolve_target_instance v.cluster q.target_instance_id)
