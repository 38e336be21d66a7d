-- ===== src/Subscriptions/Broadcast.antt =====
-- Who receives an update and who is dropped: lib/subscription-manager.ts, broadcastToSubscribers.
use mathlib.Core.List.{append_assoc}
use clusterio_surface_export.Prelude.{
  eqb_iff, ℕ, ◌≡◌, refl, sym, ap, ◌∙◌, Bool, false, not, ◌&&◌, Option, none, some, List, [], ◌∷◌,
  ◌++◌, ◌==◌, nat_eq, if◌then◌else◌, arith, Bool-cases, inl, inr, any,
}
use clusterio_surface_export.JsMap.{JsMap, get, delete, get-delete}
use clusterio_surface_export.Subscriptions.{
  Subscription, Update, Hub, send_each, drop_links, broadcast_to_subscribers,
}

-- The links whose send throws, among those that want the update.
abbrev pub stale_links : (Subscription → Bool) → (ℕ → Bool) → JsMap ℕ Subscription → List ℕ
stale_links wants throws [] = []
stale_links wants throws ((link, s) ∷ subs) =
    let rest = stale_links wants throws subs in if wants s && throws link then link ∷ rest else rest

-- The deliveries of an update, newest first.
abbrev pub deliveries :
    (Subscription → Bool) → (ℕ → Bool) → Update → JsMap ℕ Subscription → List (ℕ × Update)
deliveries wants throws u [] = []
deliveries wants throws u ((link, s) ∷ subs) =
    let rest = deliveries wants throws u subs in
    if wants s && not (throws link) then rest ++ (link, u) ∷ [] else rest

send_each-parts :
    (wants : Subscription → Bool) (throws : ℕ → Bool) (u : Update) (subs : JsMap ℕ Subscription)
    (out : List (ℕ × Update))
    → send_each wants throws u subs out
      ≡ (deliveries wants throws u subs ++ out, stale_links wants throws subs)
unfolding send_each
send_each-parts wants throws u [] out = refl
send_each-parts wants throws u ((link, s) ∷ subs) out = elim (Bool-cases (wants s)) [
  | inr idle ↦ rw idle (send_each-parts wants throws u subs out)
  | inl want ↦ elim (Bool-cases (throws link)) [
    | inl bad ↦
        rw (want, bad)
          (ap {A = List (ℕ × Update) × List ℕ} {B = List (ℕ × Update) × List ℕ}
            (λ r. (r.0, link ∷ r.1)) (send_each-parts wants throws u subs out))
    | inr good ↦
        rw (want, good)
          (send_each-parts wants throws u subs ((link, u) ∷ out)
            ∙ ap (λ l. (l, stale_links wants throws subs))
                (sym (append_assoc (deliveries wants throws u subs) ((link, u) ∷ []) out)))
  ]
]

get-drop_links :
    (ls : List ℕ) (m : JsMap ℕ Subscription) (k : ℕ)
    → get k (drop_links ls m) ≡ (if any (λ l. l == k) ls then none else get k m)
get-drop_links [] m k = refl
get-drop_links (l ∷ ls) m k = ground (arith, get-drop_links ls (delete l m) k, get-delete l k m)

-- A link is stale if its entry wants the update and its send throws.
abbrev pub is_stale_entry : (Subscription → Bool) → (ℕ → Bool) → ℕ → Option Subscription → Bool
is_stale_entry wants throws k none = false
is_stale_entry wants throws k (some s) = wants s && throws k

-- A `Map` has each key once.
abbrev pub KeysOnce : JsMap ℕ Subscription → Type 0
KeysOnce [] = Unit {0}
KeysOnce ((k, s) ∷ m) = (get k m ≡ none) × KeysOnce m

not_stale :
    (wants : Subscription → Bool) (throws : ℕ → Bool) (subs : JsMap ℕ Subscription) (k : ℕ)
    → get k subs ≡ none
    → any (λ l. l == k) (stale_links wants throws subs) ≡ false
not_stale wants throws [] k h = refl
not_stale wants throws ((link, s) ∷ subs) k h = ground (arith, not_stale wants throws subs k)

any-stale_links :
    (wants : Subscription → Bool) (throws : ℕ → Bool) (subs : JsMap ℕ Subscription) (k : ℕ)
    → KeysOnce subs
    → any (λ l. l == k) (stale_links wants throws subs) ≡ is_stale_entry wants throws k (get k subs)
any-stale_links wants throws [] k h = refl
any-stale_links wants throws ((link, s) ∷ subs) k (fresh, h) = elim (Bool-cases (link == k)) [
  | inl e ↦
      let same = (eqb_iff link k).0 e in
      ground (
        arith,
        not_stale wants throws subs k (ap (λ i. get i subs) (sym same) ∙ fresh),
        ap throws same,
      )
  | inr e ↦ ground (arith, any-stale_links wants throws subs k h)
]

-- A broadcast reaches each subscriber that wants the update and whose send does not throw, in their
-- order, and drops exactly those that want it and whose send throws. Each link has one
-- subscription.
pub broadcast_outcome :
    (wants : Subscription → Bool) (throws : ℕ → Bool) (u : Update) (h : Hub) (k : ℕ)
    → KeysOnce h.subscriptions
    → let h' = broadcast_to_subscribers wants throws u h in
      (h'.delivered ≡ deliveries wants throws u h.subscriptions ++ h.delivered)
      × (get k h'.subscriptions ≡ (
          if is_stale_entry wants throws k (get k h.subscriptions)
          then none
          else get k h.subscriptions))
unfolding broadcast_to_subscribers
broadcast_outcome wants throws u h k once =
    let r = send_each-parts wants throws u h.subscriptions h.delivered in
    let links = stale_links wants throws h.subscriptions in
    (
      ap (λ p. p.0) r,
      ap (λ p. get k (drop_links p.1 h.subscriptions)) r
          ∙ get-drop_links links h.subscriptions k
          ∙ ap (λ b. if b then none else get k h.subscriptions)
              (any-stale_links wants throws h.subscriptions k once),
    )
