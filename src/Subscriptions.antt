-- ===== src/Subscriptions.antt =====
-- Who hears of changes: lib/subscription-manager.ts. A control link is a number; `throws` says
-- for which links a send throws. The tree that an update shows is left out, and so is metrics counting.
pub mod Broadcast
pub mod Subscribe
mod Tests
use clusterio_surface_export.Prelude.{
  ℕ, zero, suc, String, ◌+◌, Bool, true, false, not, ◌&&◌, ◌||◌, Option, none, some, List, [], ◌∷◌,
  ◌++◌, ◌==◌, string_eq, nat_eq, if◌then◌else◌, is_empty, given_or, or_text, or_null, any,
}
use clusterio_surface_export.JsMap.{JsMap, get, set, delete, values}

pub record Subscription : Type 0 where
  pub tree : Bool
  pub transfers : Bool
  pub logs : Bool
  pub transfer_id : Option String

-- The updates, each with its revision.
pub data Update : Type 0 where
  tree_update : ℕ → String → Update
  transfer_update : ℕ → String → Update
  log_update : ℕ → String → Update

pub record Hub : Type 0 where
  pub subscriptions : JsMap ℕ Subscription
  pub last_force : Option String
  pub tree_revision : ℕ
  pub transfer_revision : ℕ
  pub log_revision : ℕ
  pub delivered : List (ℕ × Update)  -- newest first

abbrev pub deliver : ℕ → Update → Hub → Hub
deliver link u h = record h { delivered = (link, u) ∷ h.delivered }

-- The loop over the subscriptions: what is delivered, and which links are stale.
pub send_each :
    (Subscription → Bool)
    → (ℕ → Bool)
    → Update
    → JsMap ℕ Subscription
    → List (ℕ × Update)
    → List (ℕ × Update) × List ℕ
send_each wants throws u [] out = (out, [])
send_each wants throws u ((link, s) ∷ subs) out =
    if wants s
    then (if throws link
        then (let r = send_each wants throws u subs out in (r.0, link ∷ r.1))
        else send_each wants throws u subs ((link, u) ∷ out))
    else send_each wants throws u subs out

abbrev pub drop_links : List ℕ → JsMap ℕ Subscription → JsMap ℕ Subscription
drop_links [] m = m
drop_links (l ∷ ls) m = drop_links ls (delete l m)

-- broadcastToSubscribers
pub broadcast_to_subscribers : (Subscription → Bool) → (ℕ → Bool) → Update → Hub → Hub
unfolding send_each
broadcast_to_subscribers wants throws u h =
    let r = send_each wants throws u h.subscriptions h.delivered in
    record h { subscriptions = drop_links r.1 h.subscriptions; delivered = r.0 }

-- `forceName || lastTreeForceName || "player"`
abbrev force_or_last : String → Option String → String
force_or_last force last = or_text force (given_or last "player")

-- emitTreeUpdate
pub emit_tree_update : (ℕ → Bool) → String → Hub → Hub
unfolding broadcast_to_subscribers
emit_tree_update throws force h =
    if any (λ s. s.tree) (values h.subscriptions)
    then (let name = force_or_last force h.last_force in
        let h' = record h { last_force = some name; tree_revision = h.tree_revision + 1 } in
        broadcast_to_subscribers (λ s. s.tree) throws (tree_update h'.tree_revision name) h')
    else h

-- emitTransferUpdate
pub emit_transfer_update : (ℕ → Bool) → String → Hub → Hub
unfolding broadcast_to_subscribers
emit_transfer_update throws id h =
    let h' = record h { transfer_revision = h.transfer_revision + 1 } in
    broadcast_to_subscribers (λ s. s.transfers) throws (transfer_update h'.transfer_revision id) h'

-- An empty id is no filter.
abbrev pub concerns : String → Option String → Bool
concerns id none = true
concerns id (some t) = is_empty t || t == id

abbrev pub wants_log : String → Subscription → Bool
wants_log id s = s.logs && concerns id s.transfer_id

-- emitLogUpdate
pub emit_log_update : (ℕ → Bool) → String → Hub → Hub
unfolding broadcast_to_subscribers
emit_log_update throws id h =
    let h' = record h { log_revision = h.log_revision + 1 } in
    broadcast_to_subscribers (wants_log id) throws (log_update h'.log_revision id) h'

abbrev has_any : Subscription → Bool
has_any s = s.tree || (s.transfers || s.logs)

abbrev pub drop_link : ℕ → Hub → Hub
drop_link link h = record h { subscriptions = delete link h.subscriptions }

-- The snapshots of the active transfers: each takes a revision; the first send that throws drops the
-- link and ends the loop. Send number n throws where `throws n` says so.
pub send_transfers : (ℕ → Bool) → ℕ → ℕ → List String → Hub → Hub
send_transfers throws n link [] h = h
send_transfers throws n link (id ∷ ids) h =
    let h' = record h { transfer_revision = h.transfer_revision + 1 } in
    let rest =
      send_transfers throws (suc n) link ids
        (deliver link (transfer_update h'.transfer_revision id) h') in
    if throws n then drop_link link h' else rest

transfers_if : Bool → (ℕ → Bool) → ℕ → ℕ → List String → Hub → Hub
unfolding send_transfers
transfers_if true throws n link ids h = send_transfers throws n link ids h
transfers_if false throws n link ids h = h

snapshots : (ℕ → Bool) → ℕ → List String → Subscription → Hub → Hub
unfolding transfers_if
snapshots throws link ids s h =
    if s.tree
    then (let h' = record h { tree_revision = h.tree_revision + 1 } in
        let u = tree_update h'.tree_revision (given_or h.last_force "player") in
        if throws 0
        then drop_link link h'
        else transfers_if s.transfers throws 1 link ids (deliver link u h'))
    else transfers_if s.transfers throws 0 link ids h

-- handleSetSurfaceExportSubscriptionRequest for a link that is connected; `none` is the error that
-- the permission check throws.
pub set_subscription : Bool → (ℕ → Bool) → ℕ → List String → Subscription → Hub → Option Hub
unfolding snapshots
set_subscription may_view_logs throws link ids q h =
    let s = record q { transfer_id = or_null q.transfer_id } in
    if s.logs && not may_view_logs
    then none
    else if has_any s
    then some
        (snapshots throws link ids s (record h { subscriptions = set link s h.subscriptions }))
    else some (drop_link link h)
