-- ===== src/Transfer/Verdict/Written.antt =====
-- One record is written anew, and old ones may be pruned: lib/transfer-orchestrator.ts, the two outcomes
-- of handleTransferValidation.
use clusterio_surface_export.Prelude.{
  ℕ, ◌+◌, ◌≤◌, ◌≡◌, sym, ap, ◌∙◌, subst, String, some, [], ◌∷◌, ◌⊎◌, ◌==◌, string_eq, arith,
  Bool-cases, inl, inr, leb, if◌then◌else◌,
}
use clusterio_surface_export.JsMap.{JsMap, get, set, set-set, get-set_self, KeysOnce, set-KeysOnce}
use clusterio_surface_export.Transfer.{ActiveTransfer, Status, PendingIntent, StoredExport}
use clusterio_surface_export.Transfer.World.{World}
use clusterio_surface_export.Transfer.Verdict.{prune_old_transfers}
use clusterio_surface_export.Transfer.Verdict.Retained.{
  started_since, prune-rest, get-prune_old_transfers, kept-prune_old_transfers,
}

-- A record with all fields of another one but for its status, error, phases and time of completion.
abbrev pub KeepsRest : ActiveTransfer → ActiveTransfer → Type 0
KeepsRest t' t = t' ≡ record t {
  status = t'.status;
  error_text = t'.error_text;
  phases = t'.phases;
  completed_at = t'.completed_at;
}

-- The record stands anew with this status, and these are the intents and the stored exports.
abbrev pub Outcome :
    ActiveTransfer
    → Status
    → JsMap String PendingIntent
    → JsMap String StoredExport
    → World
    → World
    → Type 0
Outcome t s pending storage w w' =
    (t' : ActiveTransfer) × (w'.transfers ≡ set t.transfer_id t' w.transfers)
    × (t'.status ≡ s)
    × (w'.pending ≡ pending)
    × (w'.storage ≡ storage)
    × KeepsRest t' t

-- The same, where other records may be gone; those that are there are as they were.
abbrev pub KeptOutcome :
    ActiveTransfer
    → Status
    → JsMap String PendingIntent
    → JsMap String StoredExport
    → World
    → World
    → Type 0
KeptOutcome t s pending storage w w' =
    (t' : ActiveTransfer) × (get t.transfer_id w'.transfers ≡ some t')
    × ((j : String) (x : ActiveTransfer)
        → get j w'.transfers ≡ some x
        → get j (set t.transfer_id t' w.transfers) ≡ some x)
    × (t'.status ≡ s)
    × (w'.pending ≡ pending)
    × (w'.storage ≡ storage)
    × KeepsRest t' t

abbrev pub UpToPruning : (World → Type 0) → World → Type 0
UpToPruning P w' = (u : World) × P u × ((w' ≡ u) ⊎ (w' ≡ prune_old_transfers u))

pub UpToPruning-map :
    (P Q : World → Type 0) (w : World)
    → ((u : World) → P u → Q u)
    → UpToPruning P w
    → UpToPruning Q w
UpToPruning-map P Q w f (u, p, way) = (u, f u p, way)

pub started_since-set :
    (at : ℕ) (k : String) (x y : ActiveTransfer) (m : JsMap String ActiveTransfer)
    → get k m ≡ some x
    → y.started_at ≡ x.started_at
    → started_since at (set k y m) ≡ started_since at m
started_since-set at k x y [] found same = cc
started_since-set at k x y ((j, z) ∷ m) found same = elim (Bool-cases (j == k)) [
  | inl here ↦
      let one : z ≡ x = ground (arith, found, here) in
      let start : y.started_at ≡ z.started_at = same ∙ ap (λ r. r.started_at) (sym one) in
      rw here (ap (λ n. (if leb at n then 1 else 0) + started_since at m) start)
  | inr other ↦
      let rest = started_since-set at k x y m (ground (arith, found, other)) same in
      rw other (ap (λ n. (if leb at z.started_at then 1 else 0) + n) rest)
]

module _ (t : ActiveTransfer) (s : Status) (pending : JsMap String PendingIntent)
    (storage : JsMap String StoredExport) where
  -- Two writes under one key are one.
  pub Outcome-store :
      (r : ActiveTransfer) (w u : World)
      → Outcome t s pending storage (record w { transfers = set t.transfer_id r w.transfers }) u
      → Outcome t s pending storage w u
  Outcome-store r w u (t', a, b, c, d, e) =
      (t', a ∙ set-set t.transfer_id r t' w.transfers, b, c, d, e)

  -- A record is kept where at most a hundred records, itself among them, started no earlier.
  pub Outcome-kept :
      (x : ActiveTransfer) (w w' : World)
      → KeysOnce w.transfers
      → get t.transfer_id w.transfers ≡ some x
      → t.started_at ≡ x.started_at
      → started_since x.started_at w.transfers ≤ 100
      → UpToPruning (Outcome t s pending storage w) w'
      → KeptOutcome t s pending storage w w'
  Outcome-kept x w w' once found same few (u, (t', written, status, p, q, rest), inl unchanged) =
      subst (KeptOutcome t s pending storage w) (sym unchanged) (
        t',
        ap (get t.transfer_id) written ∙ get-set_self t.transfer_id t' w.transfers,
        λ j y h. ap (get j) (sym written) ∙ h,
        status,
        p,
        q,
        rest,
      )
  Outcome-kept x w w' once found same few (u, (t', written, status, p, q, rest), inr pruned) =
      let k = t.transfer_id in
      let start : t'.started_at ≡ x.started_at = ap (λ r. r.started_at) rest ∙ same in
      let there : get k u.transfers ≡ some t' =
        ap (get k) written ∙ get-set_self k t' w.transfers in
      let count : started_since t'.started_at u.transfers ≤ 100 = omega (
        arith,
        few,
        ap (λ n. started_since n u.transfers) start,
        ap (started_since x.started_at) written,
        started_since-set x.started_at k x t' w.transfers found start,
      ) in
      let once_written = subst KeysOnce (sym written) (set-KeysOnce k t' w.transfers once) in
      let same_rest = prune-rest u in
      subst (KeptOutcome t s pending storage w) (sym pruned) (
        t',
        get-prune_old_transfers k t' u once_written there count,
        λ j y h. ap (get j) (sym written) ∙ kept-prune_old_transfers j y u h,
        status,
        same_rest.0 ∙ p,
        same_rest.1 ∙ q,
        rest,
      )
