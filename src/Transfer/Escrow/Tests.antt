-- ===== src/Transfer/Escrow/Tests.antt =====
-- A run of verdicts for one transfer.
use clusterio_surface_export.Prelude.{
  ◌≡◌, refl, sym, ap, ◌∙◌, true, false, none, [], ◌∷◌, ◌++◌, arith, Bool-cases, inl, inr, string_eq,
  ◌==◌,
}
use clusterio_surface_export.Transfer.{awaiting_validation}
use clusterio_surface_export.Transfer.World.{accepted}
use clusterio_surface_export.Transfer.Tests.{env_with, ship, ship_in, verdict}
use clusterio_surface_export.Transfer.Verdict.Commands.{commands}
use clusterio_surface_export.Transfer.Verdict.Closes.{IsKept}
use clusterio_surface_export.Transfer.Escrow.{
  verdict as verdict_came, timer, handle_all, escrow_of, replay, orders, handle_all_refines,
}

ship_in-IsKept : IsKept (ship_in awaiting_validation)
ship_in-IsKept = record {
  own_id = λ id t found. elim (Bool-cases ("11:7" == id)) [
    | inl same ↦
        let this : ship awaiting_validation ≡ t = ground (arith, found, same) in
        ap (λ r. r.transfer_id) (sym this) ∙ (string_eq.same_iff "11:7" id).0 same
    | inr differs ↦ ground (arith, found, differs)
  ];
  once = (refl, tt);
  stays = λ id t found waits. ground arith;
}

-- A success, a late failure and the timer: the deletion is the only command.
handle_all_refines_example :
    let es = verdict_came (verdict true) ∷ verdict_came (verdict false) ∷ timer "11:7" 60000 ∷ [] in
    let w = ship_in awaiting_validation in
    (escrow_of (handle_all (env_with (accepted none)) es w) ≡ replay es (escrow_of w))
    × (commands (handle_all (env_with (accepted none)) es w).trace ≡ orders es (escrow_of w) ++ [])
handle_all_refines_example =
    handle_all_refines (env_with (accepted none))
      (verdict_came (verdict true) ∷ verdict_came (verdict false) ∷ timer "11:7" 60000 ∷ [])
      (ship_in awaiting_validation) ship_in-IsKept
