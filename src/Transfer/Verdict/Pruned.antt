-- ===== src/Transfer/Verdict/Pruned.antt =====
-- What the transfers that await a verdict have to do with pruning: lib/transfer-orchestrator.ts,
-- pruneOldTransfers.
use clusterio_surface_export.Prelude.{
  String, ◌≡◌, sym, ap, ◌∙◌, arith, false, none, some, string_eq, Bool-cases, Option-cases, inl,
  inr,
}
use clusterio_surface_export.JsMap.{get}
use clusterio_surface_export.Transfer.{ActiveTransfer}
use clusterio_surface_export.Transfer.World.{World}
use clusterio_surface_export.Transfer.Verdict.{is_awaiting_validation, prune_old_transfers}
use clusterio_surface_export.Transfer.Verdict.Retained.{
  get-prune_old_transfers, kept-prune_old_transfers, started_since-prune_old_transfers,
  prune_old_transfers-KeysOnce,
}
use clusterio_surface_export.Transfer.Verdict.Closes.{choice_of, IsKept}

pub prune_old_transfers-IsKept : (w : World) → IsKept w → IsKept (prune_old_transfers w)
prune_old_transfers-IsKept w kept = record {
  own_id = λ id t h. kept.own_id id t (kept-prune_old_transfers id t w h);
  once = prune_old_transfers-KeysOnce w kept.once;
  stays = λ id t h waits. omega (
    arith,
    kept.stays id t (kept-prune_old_transfers id t w h) waits,
    started_since-prune_old_transfers t.started_at w,
  );
}

choice_of-settled :
    (t : ActiveTransfer) → is_awaiting_validation t.status ≡ false → choice_of (some t) ≡ none
choice_of-settled t settled = ground (arith, settled)

-- Pruning takes none that awaits its verdict.
pub choice_of-prune_old_transfers :
    (id : String) (w : World)
    → IsKept w
    → choice_of (get id (prune_old_transfers w).transfers) ≡ choice_of (get id w.transfers)
choice_of-prune_old_transfers id w kept =
    elim (Option-cases (get id (prune_old_transfers w).transfers)) [
      | inr (t, held) ↦ ap choice_of (held ∙ sym (kept-prune_old_transfers id t w held))
      | inl gone ↦ ap choice_of gone ∙ (elim (Option-cases (get id w.transfers)) [
        | inl lacking ↦ ap choice_of (sym lacking)
        | inr (t, found) ↦ elim (Bool-cases (is_awaiting_validation t.status)) [
          | inr settled ↦ sym (ap choice_of found ∙ choice_of-settled t settled)
          | inl waits ↦
              let still =
                get-prune_old_transfers id t w kept.once found (kept.stays id t found waits) in
              let both : none ≡ some t = sym gone ∙ still in
              let beyond : ⊥ = ground (arith, both) in absurd beyond
        ]
      ])
    ]
