-- ===== src/Log/Persist/Damaged.antt =====
-- A damaged detail store is left alone: lib/transaction-logger.ts.
use clusterio_surface_export.Prelude.{
  ℕ, String, ◌≡◌, refl, ap, ◌∙◌, Bool, true, false, Option, List, [], ◌∷◌, ◌==◌, string_eq, is_some,
  any, arith, Bool-cases, inl, inr,
}
use clusterio_surface_export.JsMap.{JsMap, get}
use clusterio_surface_export.Ledger.{AuditRow}
use clusterio_surface_export.Detail.{DetailEntry}
use clusterio_surface_export.Log.Persist.{
  StoredLogs, missing, unreadable, not_an_array, array, DetailStore, persist_transaction_log,
  load_transaction_logs,
}

-- The store after some more logs are persisted.
abbrev pub persist_all :
    (DetailEntry → Bool)
    → Option ℕ
    → List String
    → JsMap String AuditRow
    → List DetailEntry
    → DetailStore
    → DetailStore
persist_all is_pinned configured active index [] s = s
persist_all is_pinned configured active index (e ∷ es) s =
    persist_all is_pinned configured active index es
      (persist_transaction_log is_pinned configured true active index e s)

persist-refused :
    (is_pinned : DetailEntry → Bool) (configured : Option ℕ) (active : List String)
    (index : JsMap String AuditRow) (entry : DetailEntry) (s : DetailStore)
    → is_some s.load_error ≡ true
    → persist_transaction_log is_pinned configured true active index entry s ≡ s
unfolding persist_transaction_log
persist-refused is_pinned configured active index entry s failed =
    elim (Bool-cases (is_some (get entry.transfer_id s.logs))) [
      | inr e ↦ rw e
      | inl e ↦ rw e (elim (Bool-cases (any (λ a. a == entry.transfer_id) active)) [
        | inr f ↦ rw f
        | inl f ↦ rw (f, failed)
      ])
    ]

persist_all-refused :
    (is_pinned : DetailEntry → Bool) (configured : Option ℕ) (active : List String)
    (index : JsMap String AuditRow) (es : List DetailEntry) (s : DetailStore)
    → is_some s.load_error ≡ true
    → persist_all is_pinned configured active index es s ≡ s
persist_all-refused is_pinned configured active index [] s failed = refl
persist_all-refused is_pinned configured active index (e ∷ es) s failed =
    ap (persist_all is_pinned configured active index es)
      (persist-refused is_pinned configured active index e s failed)
    ∙ persist_all-refused is_pinned configured active index es s failed

abbrev pub is_damaged : StoredLogs → Bool
is_damaged missing = false
is_damaged (array es) = false
is_damaged (unreadable e) = true
is_damaged (not_an_array kind) = true

load-error :
    (d : StoredLogs) (s : DetailStore)
    → is_damaged d ≡ true
    → (is_some (load_transaction_logs d s).load_error ≡ true)
      × ((load_transaction_logs d s).on_disk ≡ s.on_disk)
unfolding load_transaction_logs
load-error (unreadable e) s h = (refl, refl)
load-error (not_an_array kind) s h = (refl, refl)
load-error missing s h = ground arith
load-error (array es) s h = ground arith

-- A file that cannot be read, or holds no array, is never written over: after such a start, however many
-- logs are persisted, the file stays.
pub damaged_file_kept :
    (is_pinned : DetailEntry → Bool) (configured : Option ℕ) (active : List String)
    (index : JsMap String AuditRow) (es : List DetailEntry) (s : DetailStore)
    → is_damaged s.on_disk ≡ true
    → (persist_all is_pinned configured active index es (load_transaction_logs s.on_disk s)).on_disk
      ≡ s.on_disk
damaged_file_kept is_pinned configured active index es s damaged =
    let l = load-error s.on_disk s damaged in
    ap (λ u. u.on_disk)
      (persist_all-refused is_pinned configured active index es (load_transaction_logs s.on_disk s)
        l.0)
    ∙ l.1
