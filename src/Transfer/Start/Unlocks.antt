-- ===== src/Transfer/Start/Unlocks.antt =====
-- Which unlocks transferPlatform asks for: lib/transfer-orchestrator.ts.
use clusterio_surface_export.Prelude.{
  ℕ, String, true, false, Option, none, some, List, [], ◌∷◌, ◌≡◌, refl, arith, ap, ◌∙◌, sym,
  or_text, string_eq, ◌++◌, given_or, eqb, Bool-cases, inl, inr,
}
use clusterio_surface_export.Prelude.Int.{ℤ, pos, negsuc, int_eq}
use clusterio_surface_export.Cluster.{is_instance_online}
use clusterio_surface_export.JsMap.{get}
use clusterio_surface_export.Transfer.{ActiveTransfer, StoredExport}
use clusterio_surface_export.Transfer.World.{
  World, Env, start_phase, Message, export_platform, import_platform, delete_source, unlock_source,
  transfer_status, Reply, accepted, rejected, session_lost, send_failed,
}
use clusterio_surface_export.Transfer.Unlock.{try_unlock_source}
use clusterio_surface_export.Transfer.Verdict.Commands.{commands, unlock_command}
use clusterio_surface_export.Transfer.Operation.{create_operation_record}
use clusterio_surface_export.Transfer.Start.{
  index_is_given, Result, started, already_active, delivery_uncertain, refused, retry_guard,
  threw_result, handle_import_failure, after_import, launch, launch_if, transfer_record, guarded,
  from_stored, transfer_platform,
}
use clusterio_surface_export.Transfer.Start.Commands.{commands-after_import}

-- The unlocks among some commands, with the instance and the platform that each is for.
abbrev pub unlocks : List (ℤ × Message) → List (ℤ × Message)
unlocks [] = []
unlocks ((i, unlock_source a b c) ∷ cs) = (i, unlock_source a b c) ∷ unlocks cs
unlocks ((i, export_platform a b c) ∷ cs) = unlocks cs
unlocks ((i, import_platform a b) ∷ cs) = unlocks cs
unlocks ((i, delete_source a b c d) ∷ cs) = unlocks cs
unlocks ((i, transfer_status t) ∷ cs) = unlocks cs

abbrev index_of : Option ℤ → ℕ
index_of none = 0
index_of (some (negsuc n)) = 0
index_of (some (pos n)) = n

-- The unlock of the platform that a stored export came from.
abbrev pub unlock_origin : StoredExport → ℤ × Message
unlock_origin e = (
  e.instance_id,
  unlock_source (index_of e.platform_index) (some (or_text e.platform_name "Unknown"))
      (given_or e.force "player"),
)

-- What is unlocked where a transfer ends with this result, but does not leave it to the caller.
abbrev pub given_back : ℤ × Message → Result → List (ℤ × Message)
given_back c (refused x false) = c ∷ []
given_back c (refused x true) = []
given_back c (started id) = []
given_back c (already_active id) = []
given_back c (delivery_uncertain id) = []

abbrev Gives : ℤ × Message → Result × World → World → Type 0
Gives c p w = unlocks (commands p.1.trace) ≡ given_back c p.0 ++ unlocks (commands w.trace)

-- The source of the stored export is unlocked where the transfer fails and does not leave it to
-- its caller.
abbrev pub Unlocks : Option StoredExport → Result × World → World → Type 0
Unlocks none p w = unlocks (commands p.1.trace) ≡ unlocks (commands w.trace)
Unlocks (some e) p w = Gives (unlock_origin e) p w

threw_result-given_back :
    (c : ℤ × Message) (e : String) (p : Option String × World)
    → given_back c (threw_result e p).0 ≡ c ∷ []
threw_result-given_back c e (none, w) = refl
threw_result-given_back c e (some r, w) = refl

after_import-Gives :
    (v : Env) (r : Reply) (t : ActiveTransfer) (w : World)
    → Gives (unlock_command t) (after_import v r t w) w
unfolding after_import handle_import_failure
after_import-Gives v (accepted e) t w = ap unlocks (commands-after_import v (accepted e) t w)
after_import-Gives v (rejected e) t w = ap unlocks (commands-after_import v (rejected e) t w)
after_import-Gives v (session_lost e) t w =
    ap unlocks (commands-after_import v (session_lost e) t w)
after_import-Gives v (send_failed e) t w =
    ap unlocks (commands-after_import v (send_failed e) t w)
    ∙ ap (λ l. l ++ unlocks (commands w.trace))
        (sym (threw_result-given_back (unlock_command t) e (try_unlock_source v t w)))

launch-Gives :
    (v : Env) (t : ActiveTransfer) (id : String) (w : World)
    → Gives (unlock_command t) (launch v t id w) w
unfolding launch start_phase
launch-Gives v t id w = after_import-Gives v _ _ _

launch_if-Gives :
    (v : Env) (c : ℤ × Message) (o : Option ActiveTransfer) (id : String) (w : World)
    → ((t : ActiveTransfer) → o ≡ some t → unlock_command t ≡ c)
    → Gives c (launch_if v o id w) w
launch_if-Gives v c none id w h = refl
launch_if-Gives v c (some t) id w h =
    launch-Gives v t id w
    ∙ ap (λ d. given_back d (launch v t id w).0 ++ unlocks (commands w.trace)) (h t refl)

or_text-or_text : (a b : String) → or_text (or_text a b) b ≡ or_text a b
or_text-or_text a b = ground arith

given_or-given_or :
    (o : Option String) (b : String) → given_or (some (given_or o b)) b ≡ given_or o b
given_or-given_or none b = ground arith
given_or-given_or (some a) b = ground arith

abbrev unlock_or : ℤ × Message → Option ActiveTransfer → ℤ × Message
unlock_or c none = c
unlock_or c (some t) = unlock_command t

-- The record of a transfer names the platform of its export.
record_for-origin :
    (v : Env) (e : StoredExport) (id export_id : String) (target : ℤ) (at : Option ℕ) (w : World)
    (o : Option ℤ)
    → let e' : StoredExport = record e { platform_index = o } in
      unlock_or (unlock_origin e') (transfer_record v e' id export_id target at w)
      ≡ unlock_origin e'
unfolding transfer_record create_operation_record
record_for-origin v e id export_id target at w none = refl
record_for-origin v e id export_id target at w (some (negsuc n)) = refl
record_for-origin v e id export_id target at w (some (pos n)) = elim (Bool-cases (eqb n 0)) [
  | inl zero_index ↦ rw zero_index refl
  | inr given ↦ rw given (
      ap
        (λ a. (
          e.instance_id,
          unlock_source n (some a) (given_or (some (given_or e.force "player")) "player"),
        ))
        (or_text-or_text e.platform_name "Unknown")
      ∙ ap (λ f. (e.instance_id, unlock_source n (some (or_text e.platform_name "Unknown")) f))
          (given_or-given_or e.force "player"))
]

transfer_record-origin :
    (v : Env) (e : StoredExport) (id export_id : String) (target : ℤ) (at : Option ℕ) (w : World)
    (t : ActiveTransfer)
    → transfer_record v e id export_id target at w ≡ some t
    → unlock_command t ≡ unlock_origin e
transfer_record-origin v e id export_id target at w t h =
    sym (ap (unlock_or (unlock_origin e)) h)
    ∙ record_for-origin v e id export_id target at w e.platform_index

retry_guard-given_back :
    (c : ℤ × Message) (id : String) (o : Option ActiveTransfer) (r : Result)
    → retry_guard id o ≡ some r
    → given_back c r ≡ []
unfolding retry_guard
retry_guard-given_back c id none r h = cc
retry_guard-given_back c id (some t) r h = ground arith

guarded-Gives :
    (v : Env) (e : StoredExport) (id export_id : String) (target : ℤ) (at : Option ℕ) (w : World)
    (o : Option ActiveTransfer) (g : Option Result)
    → retry_guard id o ≡ g
    → Gives (unlock_origin e) (guarded v e id export_id target at w g) w
guarded-Gives v e id export_id target at w o (some r) h =
    ap (λ l. l ++ unlocks (commands w.trace))
      (sym (retry_guard-given_back (unlock_origin e) id o r h))
guarded-Gives v e id export_id target at w o none h =
    elim (Bool-cases (index_is_given e.platform_index)) [
      | inl given ↦ rw given (
          launch_if-Gives v (unlock_origin e) (transfer_record v e id export_id target at w)
            export_id w (transfer_record-origin v e id export_id target at w))
      | inr missing ↦ rw missing refl
    ]

from_stored-Unlocks :
    (v : Env) (export_id : String) (target : ℤ) (at : Option ℕ) (w : World)
    (o : Option StoredExport)
    → Unlocks o (from_stored v export_id target at w o) w
from_stored-Unlocks v export_id target at w none = refl
from_stored-Unlocks v export_id target at w (some e) =
    let id = or_text e.export_id export_id in
    elim (Bool-cases (is_instance_online v.cluster target)) [
      | inl online ↦ rw online (
          guarded-Gives v e id export_id target at w (get id w.transfers)
            (retry_guard id (get id w.transfers)) refl)
      | inr offline ↦ rw offline refl
    ]

-- transferPlatform asks for the unlock of the platform that the stored export came from, once, where it
-- fails and does not leave the unlock to its caller, and for no other unlock.
pub transfer_platform-Unlocks :
    (v : Env) (export_id : String) (target : ℤ) (at : Option ℕ) (w : World)
    → Unlocks (get export_id w.storage) (transfer_platform v export_id target at w) w
unfolding transfer_platform
transfer_platform-Unlocks v export_id target at w =
    from_stored-Unlocks v export_id target at w (get export_id w.storage)
