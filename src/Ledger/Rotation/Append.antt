-- ===== src/Ledger/Rotation/Append.antt =====
-- What a reload finds after appendAuditRow: lib/audit-ledger.ts.
use mathlib.Core.List.{append-nil, append_assoc}
use clusterio_surface_export.Prelude.{
  ℕ, zero, suc, ◌≡◌, ◌≤◌, refl, Option, none, some, [], ◌∷◌, ◌++◌, if◌then◌else◌, arith, ap, ◌∙◌,
  sym, Bool-cases, inl, inr,
}
use clusterio_surface_export.Ledger.{AuditRow}
use clusterio_surface_export.Ledger.Rotation.{
  row_line, blank, damaged, File, Files, write_path, rotates, rotate_if_needed, RotationOptions,
  append_line, append_audit_row, read_lines, read_file, load_from, load_audit_ledger,
}
use clusterio_surface_export.Ledger.Rotation.Shift.{rotate_if_needed_at}

read_lines-append :
    (f : File) (row : AuditRow) → read_lines (f ++ row_line row ∷ []) ≡ read_lines f ++ row ∷ []
read_lines-append [] row = refl
read_lines-append (row_line r ∷ f) row = ap (◌∷◌ r) (read_lines-append f row)
read_lines-append (blank ∷ f) row = read_lines-append f row
read_lines-append (damaged ∷ f) row = read_lines-append f row

read_file-append_line :
    (row : AuditRow) (o : Option File) → read_lines (append_line row o) ≡ read_file o ++ row ∷ []
read_file-append_line row none = refl
read_file-append_line row (some f) = read_lines-append f row

write_above : (g : ℕ) (f : Option File) (fs : Files) → write_path 0 f fs (suc g) ≡ fs (suc g)
write_above g f fs = ground arith

load_from-append_line :
    (g : ℕ) (row : AuditRow) (fs : Files)
    → load_from g (write_path 0 (some (append_line row (fs 0))) fs) ≡ load_from g fs ++ row ∷ []
load_from-append_line zero row fs = read_file-append_line row (fs 0)
load_from-append_line (suc g) row fs =
    let file = some (append_line row (fs 0)) in
    ap (λ f. read_file f ++ load_from g (write_path 0 file fs)) (write_above g file fs)
    ∙ ap (◌++◌ (read_file (fs (suc g)))) (load_from-append_line g row fs)
    ∙ sym (append_assoc (read_file (fs (suc g))) (load_from g fs) (row ∷ []))

-- Files that agree on the paths up to g load alike.
pub load_from-same :
    (g : ℕ) (fs fs' : Files) → ((k : ℕ) → k ≤ g → fs k ≡ fs' k) → load_from g fs ≡ load_from g fs'
load_from-same zero fs fs' h = ap read_file (h 0 (omega arith))
load_from-same (suc g) fs fs' h =
    ap (λ f. read_file f ++ load_from g fs) (h (suc g) (omega arith))
    ∙ ap (◌++◌ (read_file (fs' (suc g)))) (load_from-same g fs fs' (λ k le. h k (omega arith)))

load_from-shifted :
    (g : ℕ) (fs fs' : Files)
    → fs' 0 ≡ none
    → ((k : ℕ) → k ≤ g → fs' (suc k) ≡ fs k)
    → load_from (suc g) fs' ≡ load_from g fs
load_from-shifted zero fs fs' free h =
    ap (λ f. read_file f ++ read_file (fs' 0)) (h 0 (omega arith))
    ∙ ap (λ f. read_file (fs 0) ++ read_file f) free
    ∙ append-nil (read_file (fs 0))
load_from-shifted (suc g) fs fs' free h =
    ap (λ f. read_file f ++ load_from (suc g) fs') (h (suc g) (omega arith))
    ∙ ap (◌++◌ (read_file (fs (suc g))))
        (load_from-shifted g fs fs' free (λ k le. h k (omega arith)))

load_from-rotate_if_needed :
    (size : File → ℕ) (bytes m : ℕ) (fs : Files)
    → load_from (suc m) (rotate_if_needed size (record { max_bytes = bytes; max_files = suc m }) fs)
      ≡ (if rotates size (record { max_bytes = bytes; max_files = suc m }) (fs 0)
          then load_from m fs
          else load_from (suc m) fs)
load_from-rotate_if_needed size bytes m fs =
    let o : RotationOptions = record { max_bytes = bytes; max_files = suc m } in
    let fs' = rotate_if_needed size o fs in
    let at = rotate_if_needed_at size bytes m fs in
    elim (Bool-cases (rotates size o (fs 0))) [
      | inl e ↦
          rw e
            (load_from-shifted m fs fs' (ground (arith, at 0)) (λ k le. ground (arith, at (suc k))))
      | inr e ↦ rw e (load_from-same (suc m) fs' fs (λ k le. ground (arith, at k)))
    ]

-- With at least one generation, a reload after an append finds the rows that it found before and then
-- the new row; when the append rotates, the rows of the oldest generation are gone.
pub load_audit_ledger-append_audit_row :
    (size : File → ℕ) (bytes m : ℕ) (row : AuditRow) (fs : Files)
    → load_audit_ledger
        (record { max_bytes = bytes; max_files = suc m })
        (append_audit_row size (record { max_bytes = bytes; max_files = suc m }) row fs)
      ≡ (if rotates size (record { max_bytes = bytes; max_files = suc m }) (fs 0)
          then load_from m fs
          else load_from (suc m) fs)
        ++ row ∷ []
unfolding load_audit_ledger append_audit_row
load_audit_ledger-append_audit_row size bytes m row fs =
    let o : RotationOptions = record { max_bytes = bytes; max_files = suc m } in
    load_from-append_line (suc m) row (rotate_if_needed size o fs)
    ∙ ap (λ rows. rows ++ row ∷ []) (load_from-rotate_if_needed size bytes m fs)
