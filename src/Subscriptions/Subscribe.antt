-- ===== src/Subscriptions/Subscribe.antt =====
-- What a subscription request leaves: lib/subscription-manager.ts,
-- handleSetSurfaceExportSubscriptionRequest.
use clusterio_surface_export.Prelude.{
  ℕ, zero, suc, String, ◌+◌, ◌≡◌, refl, ap, Bool, true, false, not, ◌&&◌, ◌||◌, none, some, List,
  [], ◌∷◌, ◌==◌, nat_eq, if◌then◌else◌, or_null, length, arith, Bool-cases, inl, inr,
}
use clusterio_surface_export.JsMap.{get, set, delete, get-set, get-delete}
use clusterio_surface_export.Subscriptions.{
  Subscription, Hub, transfer_update, deliver, has_any, send_transfers, transfers_if, snapshots,
  set_subscription,
}

-- Whether one of the first `m` sends from number n on throws.
abbrev pub throws_within : (ℕ → Bool) → ℕ → ℕ → Bool
throws_within throws n zero = false
throws_within throws n (suc m) = throws n || throws_within throws (suc n) m

-- How many snapshots a subscription asks for.
abbrev pub snapshot_count : Subscription → List String → ℕ
snapshot_count s ids = let n = if s.transfers then length ids else 0 in if s.tree then suc n else n

send_transfers-subscriptions :
    (throws : ℕ → Bool) (n link : ℕ) (ids : List String) (h : Hub)
    → (send_transfers throws n link ids h).subscriptions ≡ (
        if throws_within throws n (length ids)
        then delete link h.subscriptions
        else h.subscriptions)
unfolding send_transfers
send_transfers-subscriptions throws n link [] h = refl
send_transfers-subscriptions throws n link (id ∷ ids) h =
    let h' = record h { transfer_revision = h.transfer_revision + 1 } in
    let sent = deliver link (transfer_update h'.transfer_revision id) h' in
    ground (arith, send_transfers-subscriptions throws (suc n) link ids sent)

transfers_if-subscriptions :
    (b : Bool) (throws : ℕ → Bool) (n link : ℕ) (ids : List String) (h : Hub)
    → (transfers_if b throws n link ids h).subscriptions ≡ (
        if throws_within throws n (if b then length ids else 0)
        then delete link h.subscriptions
        else h.subscriptions)
unfolding transfers_if
transfers_if-subscriptions true throws n link ids h =
    send_transfers-subscriptions throws n link ids h
transfers_if-subscriptions false throws n link ids h = refl

snapshots-subscriptions :
    (throws : ℕ → Bool) (link : ℕ) (ids : List String) (s : Subscription) (h : Hub)
    → (snapshots throws link ids s h).subscriptions ≡ (
        if throws_within throws 0 (snapshot_count s ids)
        then delete link h.subscriptions
        else h.subscriptions)
unfolding snapshots
snapshots-subscriptions throws link ids s h = elim (Bool-cases s.tree) [
  | inl t ↦ rw t (elim (Bool-cases (throws 0)) [
    | inl bad ↦ rw bad
    | inr good ↦ rw good (transfers_if-subscriptions s.transfers throws 1 link ids _)
  ])
  | inr f ↦ rw f (transfers_if-subscriptions s.transfers throws 0 link ids h)
]

-- After a request that is let through, the link is subscribed as it asked, unless it asked for nothing or
-- one of its first snapshots could not be sent: then it has no subscription. Other links keep theirs.
pub set_subscription_outcome :
    (may_view_logs : Bool) (throws : ℕ → Bool) (link : ℕ) (ids : List String) (q : Subscription)
    (h h' : Hub) (k : ℕ)
    → set_subscription may_view_logs throws link ids q h ≡ some h'
    → let s = record q { transfer_id = or_null q.transfer_id } in
      get k h'.subscriptions ≡ (
        if link == k
        then (if has_any s && not (throws_within throws 0 (snapshot_count s ids))
            then some s
            else none)
        else get k h.subscriptions)
unfolding set_subscription
set_subscription_outcome may_view_logs throws link ids q h h' k done =
    let s = record q { transfer_id = or_null q.transfer_id } in
    let u = record h { subscriptions = set link s h.subscriptions } in
    ground (
      arith,
      ap (get k) (snapshots-subscriptions throws link ids s u),
      get-set link k s h.subscriptions,
      get-delete link k u.subscriptions,
      get-delete link k h.subscriptions,
    )
