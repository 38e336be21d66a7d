-- ===== src/Transfer/Start/Retry.antt =====
-- What a started transfer leaves for its verdict, and for a retry: lib/transfer-orchestrator.ts,
-- transferPlatform.
use clusterio_surface_export.Prelude.{
  ℕ, String, true, Option, none, some, ◌≡◌, ◌≤◌, refl, arith, ap, ◌∙◌, or_text, if◌then◌else◌,
  string_eq, List, [], ◌∷◌,
}
use clusterio_surface_export.Prelude.Int.{ℤ}
use clusterio_surface_export.JsMap.{get, get-set_self}
use clusterio_surface_export.Cluster.{is_instance_online}
use clusterio_surface_export.Transfer.{
  ActiveTransfer, StoredExport, PendingIntent, transporting, awaiting_validation,
}
use clusterio_surface_export.Transfer.World.{
  World, Env, Effect, timer_armed, Setting, unreadable, not_positive, seconds, Reply, accepted,
  rejected, session_lost, send_failed, emit, send, store, log, archived, start_recorded,
  transfer_created, start_phase, end_phase, update_transfer,
}
use clusterio_surface_export.Transfer.Pending.{persist_pending_transfer}
use clusterio_surface_export.Transfer.Unlock.{try_unlock_source, note_rollback}
use clusterio_surface_export.Transfer.Start.{
  already_active, refused, destination_offline, retry_guard, validation_timeout_ms, intent_of,
  enter_awaiting_validation, threw_result, after_import, launch, from_stored, guarded,
  transfer_platform,
}
use clusterio_surface_export.Transfer.Start.Commands.{import_command, import_trace}

-- Whatever is configured, a verdict is awaited for 5 to 120 seconds.
pub validation_timeout_bounds :
    (s : Setting) → (5000 ≤ validation_timeout_ms s) × (validation_timeout_ms s ≤ 120000)
unfolding validation_timeout_ms
validation_timeout_bounds unreadable = omega arith
validation_timeout_bounds not_positive = omega arith
validation_timeout_bounds (seconds s) = omega arith

-- The timers that were armed, with their milliseconds, newest first.
abbrev pub armed_timers : List Effect → List (String × ℕ)
armed_timers [] = []
armed_timers (timer_armed id ms ∷ es) = (id, ms) ∷ armed_timers es
armed_timers (_ ∷ es) = armed_timers es

-- From the world w, the record of t has come to await its verdict, with a timer of 5 to 120 seconds, which
-- was armed, and an intent is kept.
abbrev pub Awaits : ActiveTransfer → World → World → Type 0
Awaits t w w' =
    (t' : ActiveTransfer) × (i : PendingIntent) × (ms : ℕ) × (get t.transfer_id w'.transfers
      ≡ some t')
    × (t'.status ≡ awaiting_validation)
    × (t'.validation_timeout ≡ some ms)
    × (armed_timers w'.trace ≡ (t.transfer_id, ms) ∷ armed_timers w.trace)
    × (5000 ≤ ms)
    × (ms ≤ 120000)
    × (get t.transfer_id w'.pending ≡ some i)
    × (t'.transfer_id ≡ t.transfer_id)
    × (t'.started_at ≡ t.started_at)

enter_awaiting-Awaits :
    (v : Env) (t : ActiveTransfer) (w : World) → Awaits t w (enter_awaiting_validation v t w)
unfolding enter_awaiting_validation start_phase update_transfer persist_pending_transfer
enter_awaiting-Awaits v t w =
    let bounds = validation_timeout_bounds v.timeout_setting in
    (
      _,
      _,
      validation_timeout_ms v.timeout_setting,
      get-set_self t.transfer_id _ w.transfers,
      refl,
      refl,
      refl,
      bounds.0,
      bounds.1,
      get-set_self t.transfer_id (intent_of t) _,
      refl,
      refl,
    )

-- The answers after which the destination may hold a copy.
abbrev pub MayHoldCopy : Reply → Type 0
MayHoldCopy (accepted e) = Unit {0}
MayHoldCopy (rejected e) = ⊥
MayHoldCopy (session_lost e) = Unit {0}
MayHoldCopy (send_failed e) = ⊥

after_import-Awaits :
    (v : Env) (r : Reply) (t : ActiveTransfer) (w : World)
    → MayHoldCopy r
    → Awaits t w (after_import v r t w).1
unfolding after_import end_phase
after_import-Awaits v (accepted e) t w h = enter_awaiting-Awaits v _ w
after_import-Awaits v (rejected e) t w h = absurd h
after_import-Awaits v (session_lost e) t w h = enter_awaiting-Awaits v _ w
after_import-Awaits v (send_failed e) t w h = absurd h

-- Where the import is accepted, or the session is lost while it is sent, the transfer awaits a
-- verdict: its timer is armed for 5 to 120 seconds and its intent is kept.
pub launch-Awaits :
    (v : Env) (t : ActiveTransfer) (export_id : String) (w : World)
    → MayHoldCopy (v.reply (import_trace t w) t.target_instance_id (import_command export_id t).1)
    → Awaits t w (launch v t export_id w).1
unfolding launch start_phase
launch-Awaits v t export_id w h = after_import-Awaits v _ _ _ h

-- A throwing send leaves the record as `launch` stored it.
threw_result-keeps :
    (e : String) (t : ActiveTransfer) (o : Option String) (w : World)
    → let w' = (threw_result e (note_rollback t (o, w))).1 in
      (w'.transfers ≡ w.transfers) × (w'.storage ≡ w.storage)
threw_result-keeps e t none w = (refl, refl)
threw_result-keeps e t (some r) w = (refl, refl)

send_failed-keeps :
    (v : Env) (e : String) (t : ActiveTransfer) (w : World)
    → let w' = (after_import v (send_failed e) t w).1 in
      (w'.transfers ≡ w.transfers) × (w'.storage ≡ w.storage)
unfolding after_import try_unlock_source
send_failed-keeps v e t w = threw_result-keeps e t _ _

launch-send_failed :
    (v : Env) (t : ActiveTransfer) (export_id : String) (w : World) (e : String)
    → v.reply (import_trace t w) t.target_instance_id (import_command export_id t).1 ≡ send_failed e
    → let w' = (launch v t export_id w).1 in
      let t' = start_phase "transmission" (v.clock (import_trace t w)) t in
      (get t.transfer_id w'.transfers ≡ some t') × (w'.storage ≡ w.storage)
unfolding launch start_phase
launch-send_failed v t export_id w e threw =
    let t' = start_phase "transmission" (v.clock (import_trace t w)) t in
    let u = send t.target_instance_id (import_command export_id t).1 (
      store t' (
        update_transfer t (
          emit (start_recorded t) (
            log t.transfer_id transfer_created
              (store t (emit (archived t.transfer_id t.started_at) w)))))) in
    let path : (launch v t export_id w).1 ≡ (after_import v (send_failed e) t' u).1 =
      ap (λ r. (after_import v r t' u).1) threw in
    let kept = send_failed-keeps v e t' u in
    (
      ap (λ x. get t.transfer_id x.transfers) path
          ∙ ap (get t.transfer_id) kept.0
          ∙ get-set_self t.transfer_id t' _,
      ap (λ x. x.storage) path ∙ kept.1,
    )

retry_guard-transporting :
    (id : String) (t : ActiveTransfer)
    → t.status ≡ transporting
    → retry_guard id (some t) ≡ some (already_active id)
unfolding retry_guard
retry_guard-transporting id t live = ground arith

-- A record with a live status ends a retry at once.
transfer_platform-live :
    (v : Env) (e : StoredExport) (export_id : String) (target : ℤ) (at : Option ℕ) (w : World)
    (t : ActiveTransfer)
    → get export_id w.storage ≡ some e
    → is_instance_online v.cluster target ≡ true
    → get (or_text e.export_id export_id) w.transfers ≡ some t
    → t.status ≡ transporting
    → transfer_platform v export_id target at w
      ≡ (already_active (or_text e.export_id export_id), w)
unfolding transfer_platform
transfer_platform-live v e export_id target at w t stored online found live =
    let id = or_text e.export_id export_id in
    ap (from_stored v export_id target at w) stored
    ∙ ap
        (λ b.
          if b
          then guarded v e id export_id target at w (retry_guard id (get id w.transfers))
          else (refused (destination_offline target) true, w))
        online
    ∙ ap (λ o. guarded v e id export_id target at w (retry_guard id o)) found
    ∙ ap (guarded v e id export_id target at w) (retry_guard-transporting id t live)

-- Where the import request of a record in status transporting throws for another reason than a lost
-- session, the next attempt for its stored export, to any destination that is online, answers that
-- the transfer is active, and changes nothing.
pub failed_send_blocks_retry :
    (v v' : Env) (t : ActiveTransfer) (e : StoredExport) (export_id : String) (w : World)
    (reason : String) (target : ℤ) (at : Option ℕ)
    → t.status ≡ transporting
    → v.reply (import_trace t w) t.target_instance_id (import_command export_id t).1
      ≡ send_failed reason
    → get export_id w.storage ≡ some e
    → or_text e.export_id export_id ≡ t.transfer_id
    → is_instance_online v'.cluster target ≡ true
    → let w' = (launch v t export_id w).1 in
      transfer_platform v' export_id target at w'
      ≡ (already_active (or_text e.export_id export_id), w')
unfolding start_phase
failed_send_blocks_retry v v' t e export_id w reason target at live threw stored same online =
    let left = launch-send_failed v t export_id w reason threw in
    let w' = (launch v t export_id w).1 in
    transfer_platform-live v' e export_id target at w' _ (ap (get export_id) left.1 ∙ stored) online
      (ap (λ k. get k w'.transfers) same ∙ left.0) live
