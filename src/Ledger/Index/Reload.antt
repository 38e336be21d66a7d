-- ===== src/Ledger/Index/Reload.antt =====
-- The controller's index against a fresh reading of the ledger's files: controller.ts.
use clusterio_surface_export.Prelude.{
  ℕ, zero, suc, ◌≡◌, refl, Bool, true, false, some, List, [], ◌∷◌, ◌++◌, map, ap, ◌∙◌, sym, arith,
}
use clusterio_surface_export.Ledger.{
  AuditRow, TextUnits, fold_row, fold_from, fold_audit_rows, count_row, count_from, count_revisions,
}
use clusterio_surface_export.Ledger.Fold.{fold_from-append, count_from-append}
use clusterio_surface_export.Ledger.Rotation.{
  row_line, File, Files, write_path, RotationOptions, rotates, rotate_if_needed, append_audit_row,
  read_lines, read_file, load_from, load_audit_ledger,
}
use clusterio_surface_export.Ledger.Rotation.Shift.{rotate_if_needed_at}
use clusterio_surface_export.Ledger.Rotation.Append.{
  load_audit_ledger-append_audit_row, load_from-same,
}
use clusterio_surface_export.Ledger.Index.{
  IndexState, PersistedLog, migrated_rows, index_of, index_loaded, load_audit_index,
  record_audit_row,
}

-- The index is what a reading of the files gives.
pub record IsCurrent (o : RotationOptions) (s : IndexState) : Type 0 where
  pub index_current : s.audit_index ≡ fold_audit_rows (load_audit_ledger o s.files)
  pub revisions_current : s.audit_revisions ≡ count_revisions (load_audit_ledger o s.files)

index_of-IsCurrent :
    (o : RotationOptions) (fs : Files) (rows : List AuditRow)
    → load_audit_ledger o fs ≡ rows
    → IsCurrent o (index_of fs rows)
index_of-IsCurrent o fs rows e = record {
  index_current = ap fold_audit_rows (sym e);
  revisions_current = ap count_revisions (sym e);
}

read_lines-rows : (rows : List AuditRow) → read_lines (map row_line rows) ≡ rows
read_lines-rows [] = refl
read_lines-rows (row ∷ rows) = ap (◌∷◌ row) (read_lines-rows rows)

append-empty : {A : Type 0} (xs ys : List A) → xs ++ ys ≡ [] → ys ≡ []
append-empty [] ys e = e
append-empty (x ∷ xs) ys e = ground arith

append-empty_left : {A : Type 0} (xs ys : List A) → xs ++ ys ≡ [] → xs ≡ []
append-empty_left [] ys e = refl
append-empty_left (x ∷ xs) ys e = ground arith

-- Writing the ledger of files that hold no row gives the rows written.
load_from-written :
    (g : ℕ) (fs : Files) (rows : List AuditRow)
    → load_from g fs ≡ []
    → load_from g (write_path 0 (some (map row_line rows)) fs) ≡ rows
load_from-written zero fs rows e = read_lines-rows rows
load_from-written (suc g) fs rows e =
    let file = some (map row_line rows) in
    let above : write_path 0 file fs (suc g) ≡ fs (suc g) = ground arith in
    let none_above = append-empty_left (read_file (fs (suc g))) (load_from g fs) e in
    let none_below = append-empty (read_file (fs (suc g))) (load_from g fs) e in
    ap (λ f. read_file f ++ load_from g (write_path 0 file fs)) above
    ∙ ap (λ r. r ++ load_from g (write_path 0 file fs)) none_above
    ∙ load_from-written g fs rows none_below

index_loaded-IsCurrent :
    (u : TextUnits) (o : RotationOptions) (logs : List PersistedLog) (rows : List AuditRow)
    (fs : Files)
    → load_audit_ledger o fs ≡ rows
    → IsCurrent o (index_loaded u logs rows fs)
unfolding index_loaded load_audit_ledger
index_loaded-IsCurrent u o [] rows fs e = index_of-IsCurrent o fs rows e
index_loaded-IsCurrent u o (log ∷ logs) (row ∷ rows) fs e = index_of-IsCurrent o fs (row ∷ rows) e
index_loaded-IsCurrent u o (log ∷ logs) [] fs e =
    let rows = migrated_rows u (log ∷ logs) in
    index_of-IsCurrent o (write_path 0 (some (map row_line rows)) fs) rows
      (load_from-written o.max_files fs rows e)

-- After a start of the controller the index is what a reading of the files gives, also when
-- an empty ledger was filled from the persisted logs.
pub load_audit_index-IsCurrent :
    (u : TextUnits) (o : RotationOptions) (logs : List PersistedLog) (fs : Files)
    → IsCurrent o (load_audit_index u o logs fs)
unfolding load_audit_index
load_audit_index-IsCurrent u o logs fs =
    index_loaded-IsCurrent u o logs (load_audit_ledger o fs) fs refl

fold_audit_rows-one_more :
    (rows : List AuditRow) (row : AuditRow)
    → fold_row (fold_audit_rows rows) row ≡ fold_audit_rows (rows ++ row ∷ [])
unfolding fold_audit_rows fold_from
fold_audit_rows-one_more rows row = sym (fold_from-append [] rows (row ∷ []))

count_revisions-one_more :
    (rows : List AuditRow) (row : AuditRow)
    → count_row (count_revisions rows) row ≡ count_revisions (rows ++ row ∷ [])
unfolding count_revisions count_from
count_revisions-one_more rows row = sym (count_from-append [] rows (row ∷ []))

load-not_rotated :
    (size : File → ℕ) (bytes m : ℕ) (fs : Files)
    → rotates size (record { max_bytes = bytes; max_files = suc m }) (fs 0) ≡ false
    → load_audit_ledger
        (record { max_bytes = bytes; max_files = suc m })
        (rotate_if_needed size (record { max_bytes = bytes; max_files = suc m }) fs)
      ≡ load_audit_ledger (record { max_bytes = bytes; max_files = suc m }) fs
unfolding load_audit_ledger
load-not_rotated size bytes m fs quiet =
    let o : RotationOptions = record { max_bytes = bytes; max_files = suc m } in
    load_from-same (suc m) (rotate_if_needed size o fs) fs
      (λ k le. rw (rotate_if_needed_at size bytes m fs k) (rw quiet))

load-appended :
    (size : File → ℕ) (bytes m : ℕ) (row : AuditRow) (fs : Files)
    → rotates size (record { max_bytes = bytes; max_files = suc m }) (fs 0) ≡ false
    → load_audit_ledger
        (record { max_bytes = bytes; max_files = suc m })
        (append_audit_row size (record { max_bytes = bytes; max_files = suc m }) row fs)
      ≡ load_audit_ledger (record { max_bytes = bytes; max_files = suc m }) fs ++ row ∷ []
unfolding load_audit_ledger
load-appended size bytes m row fs quiet =
    rw (load_audit_ledger-append_audit_row size bytes m row fs) (rw quiet)

-- Whether the append succeeds or fails, an index that is what a reading of the files gives stays so,
-- when the ledger is not due for a rotation and there is at least one generation.
pub record_audit_row-IsCurrent :
    (size : File → ℕ) (bytes m : ℕ) (written : Bool) (row : AuditRow) (s : IndexState)
    → rotates size (record { max_bytes = bytes; max_files = suc m }) (s.files 0) ≡ false
    → IsCurrent (record { max_bytes = bytes; max_files = suc m }) s
    → IsCurrent
        (record { max_bytes = bytes; max_files = suc m })
        (record_audit_row size (record { max_bytes = bytes; max_files = suc m }) written row s)
unfolding record_audit_row
record_audit_row-IsCurrent size bytes m false row s quiet c =
    let same = load-not_rotated size bytes m s.files quiet in
    record {
      index_current = c.index_current ∙ ap fold_audit_rows (sym same);
      revisions_current = c.revisions_current ∙ ap count_revisions (sym same);
    }
record_audit_row-IsCurrent size bytes m true row s quiet c =
    let more = load-appended size bytes m row s.files quiet in
    let old = load_audit_ledger (record { max_bytes = bytes; max_files = suc m }) s.files in
    record {
      index_current =
          ap (λ i. fold_row i row) c.index_current
          ∙ fold_audit_rows-one_more old row
          ∙ ap fold_audit_rows (sym more);
      revisions_current =
          ap (λ i. count_row i row) c.revisions_current
          ∙ count_revisions-one_more old row
          ∙ ap count_revisions (sym more);
    }
