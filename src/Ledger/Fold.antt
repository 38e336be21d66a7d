-- ===== src/Ledger/Fold.antt =====
-- foldAuditRows and countRevisions against the rows of one transfer: lib/audit-ledger.ts.
use text.Mathlib.TextEquality.{eq_iff}
use clusterio_surface_export.Prelude.{
  ℕ, suc, String, ◌+◌, ◌≡◌, refl, not, ◌&&◌, Option, none, some, List, [], ◌∷◌, ◌++◌, or_else,
  or_option, string_eq, if◌then◌else◌, arith, ap, ◌∙◌, Bool-cases, inl, inr, ◌==◌,
}
use clusterio_surface_export.JsMap.{JsMap, get, get-set}
use clusterio_surface_export.Ledger.{
  AuditRow, is_terminal, fold_row, fold_from, fold_audit_rows, count_row, count_from,
  count_revisions,
}

-- The last terminal row of a transfer, its last start row, and how many terminal rows it has.
abbrev pub last_terminal : String → List AuditRow → Option AuditRow
last_terminal id [] = none
last_terminal id (row ∷ rows) =
    let rest = last_terminal id rows in
    or_option rest (if (row.transfer_id == id) && is_terminal row.row_kind then some row else none)

abbrev pub last_start : String → List AuditRow → Option AuditRow
last_start id [] = none
last_start id (row ∷ rows) =
    let rest = last_start id rows in
    or_option rest
      (if (row.transfer_id == id) && not (is_terminal row.row_kind) then some row else none)

abbrev pub terminal_count : String → List AuditRow → ℕ
terminal_count id [] = 0
terminal_count id (row ∷ rows) =
    let rest = terminal_count id rows in
    if (row.transfer_id == id) && is_terminal row.row_kind then suc rest else rest

-- What stands for a transfer after some more rows.
abbrev standing : Option AuditRow → String → List AuditRow → Option AuditRow
standing none id rows = or_option (last_terminal id rows) (last_start id rows)
standing (some old) id rows =
    or_option (last_terminal id rows)
      (if is_terminal old.row_kind then some old else or_option (last_start id rows) (some old))

get-fold_row :
    (m : JsMap String AuditRow) (id : String) (row : AuditRow) (rows : List AuditRow)
    → standing (get id (fold_row m row)) id rows ≡ standing (get id m) id (row ∷ rows)
unfolding fold_row
get-fold_row m id row rows = elim (Bool-cases (row.transfer_id == id)) [
  | inl e ↦
      let same = (eq_iff row.transfer_id id).0 e in
      ground (arith, get-set row.transfer_id id row m, ap (λ k. get k m) same)
  | inr e ↦ ground (arith, get-set row.transfer_id id row m)
]

get-fold_from :
    (m : JsMap String AuditRow) (id : String) (rows : List AuditRow)
    → get id (fold_from m rows) ≡ standing (get id m) id rows
unfolding fold_from
get-fold_from m id [] = ground arith
get-fold_from m id (row ∷ rows) =
    get-fold_from (fold_row m row) id rows ∙ get-fold_row m id row rows

-- The folded ledger shows for each transfer its last terminal row, and where it has none its last
-- start row: a start never hides a result.
pub get-fold_audit_rows :
    (id : String) (rows : List AuditRow)
    → get id (fold_audit_rows rows) ≡ or_option (last_terminal id rows) (last_start id rows)
unfolding fold_audit_rows
get-fold_audit_rows id rows = get-fold_from [] id rows

get-count_row :
    (m : JsMap String ℕ) (id : String) (row : AuditRow)
    → or_else (get id (count_row m row)) 0 ≡ or_else (get id m) 0 + terminal_count id (row ∷ [])
unfolding count_row
get-count_row m id row = elim (Bool-cases (row.transfer_id == id)) [
  | inl e ↦
      let same = (eq_iff row.transfer_id id).0 e in
      let n = or_else (get row.transfer_id m) 0 + 1 in
      ground (arith, get-set row.transfer_id id n m, ap (λ k. get k m) same)
  | inr e ↦
      let n = or_else (get row.transfer_id m) 0 + 1 in
      ground (arith, get-set row.transfer_id id n m)
]

get-count_from :
    (m : JsMap String ℕ) (id : String) (rows : List AuditRow)
    → or_else (get id (count_from m rows)) 0 ≡ or_else (get id m) 0 + terminal_count id rows
unfolding count_from
get-count_from m id [] = omega arith
get-count_from m id (row ∷ rows) =
    ground (arith, get-count_from (count_row m row) id rows, get-count_row m id row)

-- The revision count of a transfer is the number of its terminal rows.
pub get-count_revisions :
    (id : String) (rows : List AuditRow)
    → or_else (get id (count_revisions rows)) 0 ≡ terminal_count id rows
unfolding count_revisions
get-count_revisions id rows = omega (arith, get-count_from [] id rows)

-- Folding goes on where it left off.
pub fold_from-append :
    (m : JsMap String AuditRow) (xs ys : List AuditRow)
    → fold_from m (xs ++ ys) ≡ fold_from (fold_from m xs) ys
unfolding fold_from
fold_from-append m [] ys = refl
fold_from-append m (x ∷ xs) ys = fold_from-append (fold_row m x) xs ys

pub count_from-append :
    (m : JsMap String ℕ) (xs ys : List AuditRow)
    → count_from m (xs ++ ys) ≡ count_from (count_from m xs) ys
unfolding count_from
count_from-append m [] ys = refl
count_from-append m (x ∷ xs) ys = count_from-append (count_row m x) xs ys
