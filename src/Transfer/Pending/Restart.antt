-- ===== src/Transfer/Pending/Restart.antt =====
-- Pending intents over a restart of the controller: controller.ts, persistPendingTransfers,
-- prunePendingTransfers and loadPendingTransfers.
use mathlib.Core.List.{append_assoc, append-nil}
use clusterio_surface_export.Prelude.{
  ℕ, String, ◌≡◌, refl, sym, ap, subst, ◌∙◌, arith, Bool, true, false, Option, none, some, List, [],
  ◌∷◌, ◌++◌, map, All, string_eq, ◌==◌, ltb, Bool-cases, inl, inr, if◌then◌else◌,
}
use clusterio_surface_export.JsMap.{
  JsMap, get, set, values, get-set, KeysOnce, set-KeysOnce, set-new, once_before, All-set_entry,
}
use clusterio_surface_export.Transfer.{PendingIntent}
use clusterio_surface_export.Transfer.Pending.{is_stale, prune_pending, persist_pending_transfer}

-- An entry of the file's array that is no intent, or is one.
pub data SavedIntent : Type 0 where
  broken : SavedIntent
  intent : PendingIntent → SavedIntent

-- What stands at the path: nothing, a text that cannot be read or parsed, another value, or an array.
pub data IntentFile : Type 0 where
  missing unreadable not_an_array : IntentFile
  array : List SavedIntent → IntentFile

pub record PendingStore : Type 0 where
  pub pending : JsMap String PendingIntent
  pub on_disk : IntentFile

abbrev pub intent_file_of : JsMap String PendingIntent → IntentFile
intent_file_of m = array (map intent (values m))

-- A failed write is caught.
abbrev pub persist_pending_transfers : Bool → PendingStore → PendingStore
persist_pending_transfers true s = record s { on_disk = intent_file_of s.pending }
persist_pending_transfers false s = s

-- persistPendingTransfer, the write included
unfoldable pub store_pending_transfer : ℕ → Bool → PendingIntent → PendingStore → PendingStore
unfolding persist_pending_transfer
store_pending_transfer at writes i s =
    persist_pending_transfers writes
      (record s { pending = persist_pending_transfer at i s.pending })

abbrev persist_if_pruned : Bool → ℕ → PendingStore → PendingStore
persist_if_pruned writes pruned s = if ltb 0 pruned then persist_pending_transfers writes s else s

unfoldable pub prune_pending_transfers : ℕ → Bool → PendingStore → PendingStore
unfolding prune_pending
prune_pending_transfers at writes s =
    let (kept, pruned) = prune_pending at s.pending in
    persist_if_pruned writes pruned (record s { pending = kept })

abbrev load_intent : SavedIntent → JsMap String PendingIntent → JsMap String PendingIntent
load_intent broken m = m
load_intent (intent i) m = set i.transfer_id i m

abbrev pub load_intents : List SavedIntent → JsMap String PendingIntent → JsMap String PendingIntent
load_intents [] m = m
load_intents (e ∷ es) m = load_intents es (load_intent e m)

abbrev load_intent_file : ℕ → Bool → IntentFile → PendingStore → PendingStore
load_intent_file at writes missing s = s
load_intent_file at writes unreadable s = s
load_intent_file at writes not_an_array s = prune_pending_transfers at writes s
load_intent_file at writes (array es) s =
    prune_pending_transfers at writes (record s { pending = load_intents es s.pending })

unfoldable pub load_pending_transfers : ℕ → Bool → PendingStore → PendingStore
unfolding prune_pending_transfers
load_pending_transfers at writes s = load_intent_file at writes s.on_disk s

-- Each intent stands once, under its own id.
abbrev pub IsIndexed : JsMap String PendingIntent → Type 0
IsIndexed m = KeysOnce m × All (λ p. p.1.transfer_id ≡ p.0) m

abbrev pub unless_stale : ℕ → Option PendingIntent → Option PendingIntent
unless_stale at none = none
unless_stale at (some i) = if is_stale at i then none else some i

get-prune_pending :
    (at : ℕ) (id : String) (m : JsMap String PendingIntent)
    → KeysOnce m
    → get id (prune_pending at m).0 ≡ unless_stale at (get id m)
unfolding prune_pending
get-prune_pending at id [] once = refl
get-prune_pending at id ((k, i) ∷ m) (fresh, once) =
    ground (arith, get-prune_pending at id m once, fresh, string_eq.same_iff k id)

prune_pending-IsIndexed :
    (at : ℕ) (m : JsMap String PendingIntent) → IsIndexed m → IsIndexed (prune_pending at m).0
unfolding prune_pending
prune_pending-IsIndexed at [] h = h
prune_pending-IsIndexed at ((k, i) ∷ m) ((fresh, once), (own, all)) =
    let (rest, rest_own) = prune_pending-IsIndexed at m (once, all) in
    let gone : get k (prune_pending at m).0 ≡ none =
      get-prune_pending at k m once ∙ ap (unless_stale at) fresh in
    elim (Bool-cases (is_stale at i)) [
      | inl stale ↦ rw stale (rest, rest_own)
      | inr young ↦ rw young ((gone, rest), (own, rest_own))
    ]

load_intents-values :
    (m acc : JsMap String PendingIntent)
    → IsIndexed m
    → KeysOnce (acc ++ m)
    → load_intents (map intent (values m)) acc ≡ acc ++ m
load_intents-values [] acc h once = sym (append-nil acc)
load_intents-values ((k, i) ∷ m) acc ((fresh, rest), (own, all)) once =
    let front = (k, i) ∷ [] in
    let assoc = append_assoc acc front m in
    ap (λ j. load_intents (map intent (values m)) (set j i acc)) own
    ∙ ap (load_intents (map intent (values m))) (set-new k i acc (once_before acc m k i once))
    ∙ load_intents-values m (acc ++ front) (rest, all) (subst KeysOnce (sym assoc) once)
    ∙ assoc

pending-persist :
    (writes : Bool) (s : PendingStore) → (persist_pending_transfers writes s).pending ≡ s.pending
pending-persist true s = refl
pending-persist false s = refl

pending-prune :
    (at : ℕ) (writes : Bool) (s : PendingStore)
    → (prune_pending_transfers at writes s).pending ≡ (prune_pending at s.pending).0
unfolding prune_pending_transfers
pending-prune at writes s =
    let p = prune_pending at s.pending in
    let s' : PendingStore = record s { pending = p.0 } in
    elim (Bool-cases (ltb 0 p.1)) [
      | inl some_went ↦ rw some_went (pending-persist writes s')
      | inr all_stay ↦ rw all_stay refl
    ]

-- A controller that starts afresh from the file of an intent that was just stored has that intent, and
-- the ones that were there and not stale at that time, but for those that have become stale; before, each
-- intent stood once, under its own id.
pub get-load_pending_transfers :
    (at at' : ℕ) (writes : Bool) (i : PendingIntent) (s : PendingStore) (id : String)
    → IsIndexed s.pending
    → let file = (store_pending_transfer at true i s).on_disk in
      get id (load_pending_transfers at' writes (record { pending = []; on_disk = file })).pending
      ≡ unless_stale at'
          (if i.transfer_id == id then some i else unless_stale at (get id s.pending))
unfolding load_pending_transfers store_pending_transfer persist_pending_transfer
get-load_pending_transfers at at' writes i s id h =
    let kept = (prune_pending at s.pending).0 in
    let ok = prune_pending-IsIndexed at s.pending h in
    let m = set i.transfer_id i kept in
    let indexed : IsIndexed m = (
      set-KeysOnce i.transfer_id i kept ok.0,
      All-set_entry (λ p. p.1.transfer_id ≡ p.0) i.transfer_id i kept refl ok.1,
    ) in
    let start : PendingStore = record {
      pending = load_intents (map intent (values m)) [];
      on_disk = intent_file_of m;
    } in
    ap (get id) (
      pending-prune at' writes start
      ∙ ap (λ x. (prune_pending at' x).0) (load_intents-values m [] indexed indexed.0))
    ∙ get-prune_pending at' id m indexed.0
    ∙ ap (unless_stale at') (
        get-set i.transfer_id id i kept
        ∙ ap (λ o. if i.transfer_id == id then some i else o)
            (get-prune_pending at id s.pending h.0))
