-- ===== src/PlatformTree/Shown.antt =====
-- Which transfer a platform shows: lib/platform-tree.ts, applyActiveTransferState.
use clusterio_surface_export.Prelude.{
  String, ◌≡◌, refl, sym, ap, ◌∙◌, fun_ext, Bool, true, false, not, ◌&&◌, ◌||◌, ◌==◌, ℕ, eqb, ltb,
  or_option, Option, none, some, List, [], ◌∷◌, map, filter, get_last?, or_else, Bool-cases, inl,
  inr, string_eq, if◌then◌else◌, arith,
}
use clusterio_surface_export.Prelude.Int.{ℤ, pos, negsuc, int_eq}
use clusterio_surface_export.JsMap.{JsMap, values}
use clusterio_surface_export.Transfer.{
  ActiveTransfer, Status, transporting, awaiting_validation, awaiting_completion, in_progress,
  completed, failed, cleanup_failed, error, unknown,
}
use clusterio_surface_export.PlatformTree.{
  PlatformModel, has_ended, is_index, is_in_flight, moves, carry, mark, mark_each, reset,
  apply_active_transfer_state,
}

abbrev transfer_for : ℤ → List ActiveTransfer → PlatformModel → Option ActiveTransfer
transfer_for id ts p = get_last? (filter (λ t. is_in_flight id t && moves t p) ts)

abbrev showing : Option ActiveTransfer → PlatformModel → PlatformModel
showing none p = p
showing (some t) p = carry t p

map-mark :
    (f : PlatformModel → PlatformModel) (g : PlatformModel → PlatformModel)
    (ps : List PlatformModel)
    → map f (map g ps) ≡ map (λ p. f (g p)) ps
map-mark f g [] = refl
map-mark f g (p ∷ ps) = ap (λ l. f (g p) ∷ l) (map-mark f g ps)

get_last?-cons {ℓ} :
    {A : Type ℓ} (x : A) (xs : List A) → get_last? (x ∷ xs) ≡ some (or_else (get_last? xs) x)
get_last?-cons x [] = refl
get_last?-cons x (y ∷ ys) =
    get_last?-cons y ys ∙ ap (λ o. some (or_else o x)) (sym (get_last?-cons y ys))

map-same : (ps : List PlatformModel) → map (λ p. p) ps ≡ ps
map-same [] = refl
map-same (p ∷ ps) = ap (λ l. p ∷ l) (map-same ps)

last_shown :
    (o : Option ActiveTransfer) (t : ActiveTransfer) (p : PlatformModel)
    → showing o (carry t p) ≡ showing (some (or_else o t)) p
last_shown none t p = refl
last_shown (some u) t p = refl

-- A transfer in flight that comes before the others.
showing-turn :
    (id : ℤ) (t : ActiveTransfer) (ts : List ActiveTransfer) (p : PlatformModel)
    → is_in_flight id t ≡ true
    → showing (transfer_for id ts (mark t p)) (mark t p) ≡ showing (transfer_for id (t ∷ ts) p) p
showing-turn id t ts p h =
    let rest = filter (λ u. is_in_flight id u && moves u p) ts in
    let pick : Bool → PlatformModel =
      λ b. showing (get_last? (if b && moves t p then t ∷ rest else rest)) p in
    let before : Bool → PlatformModel =
      λ b. let q = if b then carry t p else p in showing (transfer_for id ts q) q in
    let after : Bool → PlatformModel = λ b. showing (get_last? (if b then t ∷ rest else rest)) p in
    let same : before (moves t p) ≡ after (moves t p) = elim (Bool-cases (moves t p)) [
      | inl hit ↦
          ap before hit
          ∙ last_shown (get_last? rest) t p
          ∙ ap (λ o. showing o p) (sym (get_last?-cons t rest))
          ∙ sym (ap after hit)
      | inr miss ↦ ap before miss ∙ sym (ap after miss)
    ] in
    same ∙ sym (ap pick h)

mark_each_lem :
    (id : ℤ) (ts : List ActiveTransfer) (ps : List PlatformModel)
    → mark_each id ts ps ≡ map (λ p. showing (transfer_for id ts p) p) ps
mark_each_lem id [] ps = sym (map-same ps)
mark_each_lem id (t ∷ ts) ps =
    let step : Bool → List PlatformModel =
      λ b. mark_each id ts (if b then map (mark t) ps else ps) in
    elim (Bool-cases (is_in_flight id t)) [
      | inl flies ↦
          ap step flies
          ∙ mark_each_lem id ts (map (mark t) ps)
          ∙ map-mark (λ p. showing (transfer_for id ts p) p) (mark t) ps
          ∙ ap (λ f. map f ps) (fun_ext λ p. showing-turn id t ts p flies)
      | inr stays ↦
          ap step stays
          ∙ mark_each_lem id ts ps
          ∙ ap (λ f. map f ps)
              (fun_ext λ p.
                let rest = filter (λ u. is_in_flight id u && moves u p) ts in
                sym (
                  ap (λ b. showing (get_last? (if b && moves t p then t ∷ rest else rest)) p)
                    stays))
    ]

-- A transfer that is still on its way.
abbrev is_open : Status → Bool
is_open transporting = true
is_open awaiting_validation = true
is_open awaiting_completion = true
is_open in_progress = true
is_open unknown = true
is_open completed = false
is_open failed = false
is_open cleanup_failed = false
is_open error = false

abbrev has_index : Option ℤ → ℕ → Bool
has_index none n = false
has_index (some (negsuc i)) n = false
has_index (some (pos i)) n = eqb i n && ltb 0 n

-- The transfer is under way from the instance, and is of the platform with its index, which is not 0, or
-- with its name.
abbrev pub concerns : ℤ → ActiveTransfer → PlatformModel → Bool
concerns id t p =
    is_open t.status
    && (t.source_instance_id == id
        && (has_index p.platform_index t.platform_index || t.platform_name == p.platform_name))

abbrev pub last_for : ℤ → List ActiveTransfer → PlatformModel → Option ActiveTransfer
last_for id [] p = none
last_for id (t ∷ ts) p =
    let later = last_for id ts p in or_option later (if concerns id t p then some t else none)

-- The platform with the id and the status of a transfer, or with none.
abbrev pub shown : Option ActiveTransfer → PlatformModel → PlatformModel
shown none p = record p { transfer_id = none; transfer_status = none }
shown (some t) p = record p { transfer_id = some t.transfer_id; transfer_status = some t.status }

open-has_ended : (s : Status) → not (has_ended s) ≡ is_open s
open-has_ended transporting = refl
open-has_ended awaiting_validation = refl
open-has_ended awaiting_completion = refl
open-has_ended in_progress = refl
open-has_ended unknown = refl
open-has_ended completed = refl
open-has_ended failed = refl
open-has_ended cleanup_failed = refl
open-has_ended error = refl

is_index-has_index : (n : ℕ) (o : Option ℤ) → is_index n o ≡ has_index o n
is_index-has_index n none = refl
is_index-has_index n (some (negsuc i)) = ground arith
is_index-has_index n (some (pos i)) = ground arith

flight-concerns :
    (id : ℤ) (t : ActiveTransfer) (p : PlatformModel)
    → is_in_flight id t && moves t p ≡ concerns id t p
flight-concerns id t p =
    let open_same = open-has_ended t.status in
    let index_same = is_index-has_index t.platform_index p.platform_index in
    let name_same : p.platform_name == t.platform_name ≡ t.platform_name == p.platform_name =
      ground (
        arith,
        string_eq.same_iff p.platform_name t.platform_name,
        string_eq.same_iff t.platform_name p.platform_name,
      ) in
    ap (λ b. ((t.source_instance_id == id) && b) && moves t p) open_same
    ∙ ap
        (λ b.
          ((t.source_instance_id == id) && is_open t.status)
          && (b || p.platform_name == t.platform_name))
        index_same
    ∙ ap
        (λ b.
          ((t.source_instance_id == id) && is_open t.status)
          && (has_index p.platform_index t.platform_index || b))
        name_same
    ∙ turned (t.source_instance_id == id) (is_open t.status)
        (has_index p.platform_index t.platform_index || t.platform_name == p.platform_name)
  where
    turned : (x y z : Bool) → (x && y) && z ≡ y && (x && z)
    turned x y z = ground arith

or_option-none {ℓ} : {A : Type ℓ} (o : Option A) → o ≡ or_option o none
or_option-none none = refl
or_option-none (some a) = refl

or_option-some {ℓ} : {A : Type ℓ} (o : Option A) (a : A) → some (or_else o a) ≡ or_option o (some a)
or_option-some none a = refl
or_option-some (some b) a = refl

transfer_for-last_for :
    (id : ℤ) (ts : List ActiveTransfer) (p : PlatformModel)
    → transfer_for id ts p ≡ last_for id ts p
transfer_for-last_for id [] p = refl
transfer_for-last_for id (t ∷ ts) p =
    let rest = filter (λ u. is_in_flight id u && moves u p) ts in
    let tail = transfer_for-last_for id ts p in
    let pick : Bool → Option ActiveTransfer = λ b. get_last? (if b then t ∷ rest else rest) in
    ap pick (flight-concerns id t p) ∙ (elim (Bool-cases (concerns id t p)) [
      | inl hit ↦ rw hit (
          get_last?-cons t rest
          ∙ or_option-some (get_last? rest) t
          ∙ ap (λ o. or_option o (some t)) tail)
      | inr miss ↦ rw miss (or_option-none (get_last? rest) ∙ ap (λ o. or_option o none) tail)
    ])

last_for-reset :
    (id : ℤ) (ts : List ActiveTransfer) (p : PlatformModel)
    → last_for id ts (reset p) ≡ last_for id ts p
last_for-reset id [] p = refl
last_for-reset id (t ∷ ts) p =
    ap (λ o. or_option o (if concerns id t p then some t else none)) (last_for-reset id ts p)

showing-shown : (o : Option ActiveTransfer) (p : PlatformModel) → showing o (reset p) ≡ shown o p
showing-shown none p = refl
showing-shown (some t) p = refl

-- Each platform of an instance shows the id and the status of the last transfer, in the order of the
-- records, that is under way from that instance and has the platform's index or name; it shows none where
-- there is none, whatever it showed before, and nothing else of it changes.
pub apply_active_transfer_state_lem :
    (ps : List PlatformModel) (id : ℤ) (transfers : JsMap String ActiveTransfer)
    → apply_active_transfer_state ps id transfers
      ≡ map (λ p. shown (last_for id (values transfers) p) p) ps
unfolding apply_active_transfer_state
apply_active_transfer_state_lem ps id transfers =
    let ts = values transfers in
    mark_each_lem id ts (map reset ps)
    ∙ map-mark (λ p. showing (transfer_for id ts p) p) reset ps
    ∙ ap (λ f. map f ps)
        (fun_ext λ p.
          ap (λ o. showing o (reset p))
            (transfer_for-last_for id ts (reset p) ∙ last_for-reset id ts p)
          ∙ showing-shown (last_for id ts p) p)
