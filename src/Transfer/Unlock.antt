-- ===== src/Transfer/Unlock.antt =====
-- The rollback of lib/transfer-orchestrator.ts: sendUnlockRequest, tryUnlockSource, and
-- isBenignUnlockError of helpers.ts.
use Prim.Native.Char.{code}
use Prim.Native.String.{String}
use clusterio_surface_export.Prelude.{
  ℕ, ◌+◌, Bool, true, false, ◌&&◌, ◌||◌, Option, none, some, List, [], ◌∷◌, map, leb, eqb, given_or,
  if◌then◌else◌,
}
use clusterio_surface_export.Prelude.Int.{ℤ}
use clusterio_surface_export.Transfer.{ActiveTransfer}
use clusterio_surface_export.Transfer.World.{
  World, Env, Reply, accepted, rejected, session_lost, send_failed, unlock_source, rollback_attempt,
  rollback_success, rollback_failed, send, answer, log,
}

abbrev pub codes : String → List ℕ
codes String.[] = []
codes (String.◌∷◌ c s) = code c ∷ codes s

abbrev lower : ℕ → ℕ
lower c = if leb b'A' c && leb c b'Z' then c + 32 else c

abbrev begins_with : List ℕ → List ℕ → Bool
begins_with [] ys = true
begins_with (x ∷ xs) [] = false
begins_with (x ∷ xs) (y ∷ ys) = eqb x y && begins_with xs ys

abbrev occurs_in : List ℕ → List ℕ → Bool
occurs_in xs [] = begins_with xs []
occurs_in xs (y ∷ ys) = begins_with xs (y ∷ ys) || occurs_in xs ys

-- /platform not locked|no locked platforms/i. Without the `u` flag only ASCII letters fold onto
-- the pattern's.
unfoldable pub is_benign_unlock_error : String → Bool
is_benign_unlock_error text =
    let folded = map lower (codes text) in
    occurs_in (codes "platform not locked") folded || occurs_in (codes "no locked platforms") folded

refused_unlock : String → Option String
unfolding is_benign_unlock_error
refused_unlock err = if is_benign_unlock_error err then none else some err

-- The error of an unlock, if it has one. A refusal that says the platform is not locked is none.
unfoldable pub unlock_error : Reply → Option String
unfolding refused_unlock
unlock_error (accepted e) = none
unlock_error (rejected e) = refused_unlock (given_or e "Unknown unlock error")
unlock_error (session_lost e) = some e
unlock_error (send_failed e) = some e

-- The request and its error. The index is a whole number by its type, so the check of
-- coercePlatformIndex passes.
unfoldable pub send_unlock_request :
    Env → ℤ → ℕ → String → Option String → World → Option String × World
unfolding unlock_error
send_unlock_request v source index force name w =
    let m = unlock_source index name force in (unlock_error (answer v w source m), send source m w)

abbrev pub note_rollback : ActiveTransfer → Option String × World → Option String × World
note_rollback t (none, w) = (none, log t.transfer_id rollback_success w)
note_rollback t (some e, w) = (some e, log t.transfer_id rollback_failed w)

unfoldable pub try_unlock_source : Env → ActiveTransfer → World → Option String × World
unfolding send_unlock_request
try_unlock_source v t w = note_rollback t (
    send_unlock_request v t.source_instance_id t.platform_index t.force_name (some t.platform_name)
      (log t.transfer_id rollback_attempt w))
