-- ===== src/Ledger/Rotation.antt =====
-- The ledger's files: generationPath, rotateIfNeeded, appendAuditRow, loadAuditLedger and
-- readLedgerFile of lib/audit-ledger.ts. Path 0 is the ledger, path g its generation g; the ledger's
-- name ends in .jsonl, so these are different files.
pub mod Shift
pub mod Append
use clusterio_surface_export.Prelude.{
  ℕ, zero, suc, String, ◌+◌, ◌≡◌, ◌≤◌, refl, Bool, true, false, ◌||◌, Option, none, some, List, [],
  ◌∷◌, ◌++◌, eqb, ltb, leb, if◌then◌else◌,
}
use clusterio_surface_export.Ledger.{AuditRow}

pub data Line : Type 0 where
  row_line : AuditRow → Line
  blank : Line
  damaged : Line

abbrev pub File : Type 0
File = List Line

abbrev pub Files : Type 0
Files = ℕ → Option File

abbrev pub write_path : ℕ → Option File → Files → Files
write_path p f fs q = if eqb p q then f else fs q

move : ℕ → ℕ → Option File → Files → Files
move p q none fs = fs
move p q (some f) fs = write_path q (some f) (write_path p none fs)

-- `fs.rename(p, q)`, where a missing file is passed over
unfoldable pub rename : ℕ → ℕ → Files → Files
unfolding move
rename p q fs = move p q (fs p) fs

-- The loop over the generations g, g - 1, …, 1.
pub shift_from : ℕ → ℕ → Files → Files
shift_from max_files zero fs = fs
shift_from max_files (suc g) fs = shift_from max_files g (
    if eqb (suc g) max_files then write_path max_files none fs else rename (suc g) (suc (suc g)) fs)

-- The options, their defaults filled in; `max_bytes` 0 stands for a limit that is not positive and
-- finite, which turns rotation off.
pub record RotationOptions : Type 0 where
  pub max_bytes : ℕ
  pub max_files : ℕ

abbrev pub rotates : (File → ℕ) → RotationOptions → Option File → Bool
rotates size o none = false
rotates size o (some f) = if eqb o.max_bytes 0 then false else leb o.max_bytes (size f)

-- rotateIfNeeded
pub rotate_if_needed : (File → ℕ) → RotationOptions → Files → Files
unfolding rename
rotate_if_needed size o fs =
    if rotates size o (fs 0) then rename 0 1 (shift_from o.max_files o.max_files fs) else fs

abbrev append_line : AuditRow → Option File → File
append_line row none = row_line row ∷ []
append_line row (some f) = f ++ row_line row ∷ []

-- appendAuditRow
pub append_audit_row : (File → ℕ) → RotationOptions → AuditRow → Files → Files
append_audit_row size o row fs =
    let fs' = rotate_if_needed size o fs in write_path 0 (some (append_line row (fs' 0))) fs'

-- readLedgerFile: the rows, and how many lines were skipped
abbrev pub read_lines : File → List AuditRow
read_lines [] = []
read_lines (row_line r ∷ ls) = r ∷ read_lines ls
read_lines (blank ∷ ls) = read_lines ls
read_lines (damaged ∷ ls) = read_lines ls

abbrev pub read_file : Option File → List AuditRow
read_file none = []
read_file (some f) = read_lines f

-- Generations g, …, 1 and then the ledger.
abbrev pub load_from : ℕ → Files → List AuditRow
load_from zero fs = read_file (fs zero)
load_from (suc g) fs = read_file (fs (suc g)) ++ load_from g fs

-- loadAuditLedger
unfoldable pub load_audit_ledger : RotationOptions → Files → List AuditRow
load_audit_ledger o fs = load_from o.max_files fs
