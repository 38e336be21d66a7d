-- ===== src/Subscriptions/Tests.antt =====
-- Two subscribers, of which the second is gone.
use clusterio_surface_export.Prelude.{◌≡◌, refl, true, false, none, some, [], ◌∷◌, nat_eq, eqb}
use clusterio_surface_export.JsMap.{get}
use clusterio_surface_export.Subscriptions.{
  Subscription, Hub, tree_update, broadcast_to_subscribers, set_subscription,
}
use clusterio_surface_export.Subscriptions.Broadcast.{broadcast_outcome}
use clusterio_surface_export.Subscriptions.Subscribe.{set_subscription_outcome}

abbrev all_trees : Subscription
all_trees = record { tree = true; transfers = false; logs = false; transfer_id = none }

abbrev two_links : Hub
two_links = record {
  subscriptions = (1, all_trees) ∷ (2, all_trees) ∷ [];
  last_force = none;
  tree_revision = 4;
  transfer_revision = 0;
  log_revision = 0;
  delivered = [];
}

broadcast_outcome_example :
    let h = broadcast_to_subscribers (λ s. s.tree) (eqb 2) (tree_update 5 "player") two_links in
    (h.delivered ≡ (1, tree_update 5 "player") ∷ []) × (get 2 h.subscriptions ≡ none)
broadcast_outcome_example =
    broadcast_outcome (λ s. s.tree) (eqb 2) (tree_update 5 "player") two_links 2 (refl, (refl, tt))

abbrev nothing : Subscription
nothing = record { tree = false; transfers = false; logs = false; transfer_id = none }

abbrev one_link : Hub
one_link = record two_links { subscriptions = (1, all_trees) ∷ [] }

asks_nothing : set_subscription true (eqb 9) 2 [] nothing two_links ≡ some one_link
unfolding set_subscription
asks_nothing = refl

unsubscribed : get 2 one_link.subscriptions ≡ none
unsubscribed = set_subscription_outcome true (eqb 9) 2 [] nothing two_links one_link 2 asks_nothing
