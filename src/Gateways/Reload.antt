-- ===== src/Gateways/Reload.antt =====
-- A restart after a request: controller.ts, handleSetGatewayLinkRequest, persistGatewayConfig and
-- loadGatewayConfig.
use mathlib.Core.List.{append_assoc, append-nil}
use clusterio_surface_export.Prelude.{
  ℕ, String, ◌≡◌, refl, sym, ap, ◌∙◌, subst, Bool, true, false, not, ◌||◌, Option, none, some, List,
  [], ◌∷◌, ◌++◌, map, string_eq, arith, Bool-cases, inl, inr, is_empty, All,
}
use clusterio_surface_export.Prelude.Int.{ℤ, int_eq}
use clusterio_surface_export.JsMap.{
  set, delete, KeysOnce, set-KeysOnce, delete-KeysOnce, set-new, once_before, All-set, All-delete,
}
use clusterio_surface_export.Cluster.{Cluster, Instance}
use clusterio_surface_export.Gateways.{
  GatewayMode, one_gate, multi, all_gateway_names, gateway_names_for, includes, GatewayLink, Links,
  IdText, gateway_key, parse_gateway_key,
}
use clusterio_surface_export.Gateways.Keys.{ReadsBack, parse-gateway_key}
use clusterio_surface_export.Gateways.Accepted.{handle_set_gateway_link-Outcome, is_written}
use clusterio_surface_export.Gateways.Set.{
  Env, State, Entry, normalize, normalized_targets, apply_links, handle_set_gateway_link,
}
use clusterio_surface_export.Gateways.Load.{
  SavedEntry, saved_entry, ConfigFile, array, unreadable, load_parsed, load_entries,
  load_gateway_config, live_instances,
}

-- The file's array, as it is written.
abbrev pub saved_entries : Links → List SavedEntry
saved_entries m = map (λ p. saved_entry p.0 p.1) m

abbrev pub is_known_gateway : Option (ℤ × String) → Bool
is_known_gateway none = false
is_known_gateway (some (i, name)) = includes name all_gateway_names

abbrev pub HasKnownKey : IdText → String → Type 0
HasKnownKey ids key = is_known_gateway (parse_gateway_key ids key) ≡ true

-- Each key stands once and is that of a gateway which the program knows.
abbrev pub WellKeyed : IdText → Links → Type 0
WellKeyed ids m = KeysOnce m × All (λ p. HasKnownKey ids p.0) m

load_parsed-known :
    (ids : IdText) (live : List Instance) (key : String) (ts : List GatewayLink)
    (o : Option (ℤ × String)) (acc : Links) (n : ℕ)
    → is_known_gateway o ≡ true
    → load_parsed ids live key ts o (acc, n) ≡ (set key ts acc, n)
unfolding load_parsed
load_parsed-known ids live key ts none acc n h = ground arith
load_parsed-known ids live key ts (some (i, name)) acc n h = rw h refl

load_entries-saved :
    (ids : IdText) (live : List Instance) (m acc : Links) (n : ℕ)
    → KeysOnce (acc ++ m)
    → All (λ p. HasKnownKey ids p.0) m
    → load_entries ids live (saved_entries m) (acc, n) ≡ (acc ++ m, n)
unfolding load_entries
load_entries-saved ids live [] acc n once known =
    ap {B = Links × ℕ} (λ l. (l, n)) (sym (append-nil acc))
load_entries-saved ids live ((k, ts) ∷ m) acc n once (h, known) =
    let front = (k, ts) ∷ [] in
    let all = append_assoc acc front m in
    ap (λ r. load_entries ids live (saved_entries m) r)
      (load_parsed-known ids live k ts (parse_gateway_key ids k) acc n h
        ∙ ap {B = Links × ℕ} (λ l. (l, n)) (set-new k ts acc (once_before acc m k ts once)))
    ∙ load_entries-saved ids live m (acc ++ front) n (subst KeysOnce (sym all) once) known
    ∙ ap {B = Links × ℕ} (λ l. (l, n)) all

-- The name of a gateway of the mode.
abbrev pub IsActive : List String → String → Type 0
IsActive active name = (is_empty name ≡ false) × (includes name active ≡ true)

-- Loading what was written gives it back.
pub load-saved_entries :
    (ids : IdText) (c : Cluster) (m : Links)
    → WellKeyed ids m
    → (load_gateway_config ids c (array (saved_entries m)) []).0 ≡ m
unfolding load_gateway_config
load-saved_entries ids c m (once, known) =
    ap (λ r. r.0) (load_entries-saved ids (live_instances c) m [] 0 once known)

pub normalize-known :
    (active : List String) (source : ℤ) (es : List Entry) (acc m : Links)
    → normalize active source es acc ≡ inr m
    → All (λ p. IsActive active p.0) acc
    → All (λ p. IsActive active p.0) m
normalize-known active source [] acc m e known =
    subst (All (λ p. IsActive active p.0)) (ground (arith, e)) known
normalize-known active source (x ∷ es) acc m e known =
    let name = x.gateway_name in
    let ts = normalized_targets source name x.targets in
    elim (Bool-cases (is_empty name || not (includes name active))) [
      | inl bad ↦ ground (arith, e, bad)
      | inr good ↦
          let tail = normalize-known active source es (set name ts acc) m in
          let here = All-set (IsActive active) name ts acc (ground (arith, good)) known in
          ground (arith, e, good, tail, here)
    ]

known_key :
    (ids : IdText) (mode : GatewayMode) (source : ℤ) (name : String)
    → ReadsBack ids
    → IsActive (gateway_names_for mode) name
    → HasKnownKey ids (gateway_key ids source name)
known_key ids multi source name r h =
    ap is_known_gateway (parse-gateway_key ids source name r h.0) ∙ ground (arith, h.1)
known_key ids one_gate source name r h =
    ap is_known_gateway (parse-gateway_key ids source name r h.0) ∙ ground (arith, h.1)

apply_links-WellKeyed :
    (ids : IdText) (mode : GatewayMode) (source : ℤ) (requested links : Links)
    → ReadsBack ids
    → All (λ p. IsActive (gateway_names_for mode) p.0) requested
    → WellKeyed ids links
    → WellKeyed ids (apply_links ids source requested links)
unfolding apply_links
apply_links-WellKeyed ids mode source [] links r active h = h
apply_links-WellKeyed ids mode source ((name, []) ∷ requested) links r active (once, known) =
    let key = gateway_key ids source name in
    apply_links-WellKeyed ids mode source requested (delete key links) r active.1
      (delete-KeysOnce key links once, All-delete (HasKnownKey ids) key links known)
apply_links-WellKeyed ids mode source ((name, t ∷ ts) ∷ requested) links r active (once, known) =
    let key = gateway_key ids source name in
    apply_links-WellKeyed ids mode source requested (set key (t ∷ ts) links) r active.1 (
      set-KeysOnce key (t ∷ ts) links once,
      All-set (HasKnownKey ids) key (t ∷ ts) links (known_key ids mode source name r active.0)
          known,
    )

-- After any request each key still stands once and is that of a known gateway.
pub handle_set_gateway_link-WellKeyed :
    (env : Env) (c : Cluster) (source : ℤ) (es : List Entry) (s : State)
    → ReadsBack env.ids
    → WellKeyed env.ids s.links
    → WellKeyed env.ids (handle_set_gateway_link env c source es s).0.links
handle_set_gateway_link-WellKeyed env c source es s r h =
    elim (handle_set_gateway_link-Outcome env c source es s) [
      | inl (why, e) ↦ subst (λ p. WellKeyed env.ids p.0.links) (sym e) h
      | inr (requested, (known, made, checked), e, written) ↦
          let active =
            normalize-known (gateway_names_for env.mode) source es [] requested made tt in
          subst (WellKeyed env.ids) (sym e)
            (apply_links-WellKeyed env.ids env.mode source requested s.links r active h)
    ]

abbrev pub file_of : Option Links → ConfigFile
file_of none = unreadable
file_of (some m) = array (saved_entries m)

-- After a request whose answer says that the links are written, a controller that starts afresh
-- loads exactly the links in memory, whatever its cluster. Before the request each key stood once
-- and was that of a known gateway. Instance ids are read back as they are written, with no colon in
-- them.
pub load_gateway_config-handle_set_gateway_link :
    (env : Env) (c : Cluster) (source : ℤ) (es : List Entry) (s : State) (c' : Cluster)
    → ReadsBack env.ids
    → WellKeyed env.ids s.links
    → is_written (handle_set_gateway_link env c source es s).1 ≡ true
    → let s' = (handle_set_gateway_link env c source es s).0 in
      (load_gateway_config env.ids c' (file_of s'.file) []).0 ≡ s'.links
load_gateway_config-handle_set_gateway_link env c source es s c' r h answered =
    let s' = (handle_set_gateway_link env c source es s).0 in
    let file : s'.file ≡ some s'.links = elim (handle_set_gateway_link-Outcome env c source es s) [
      | inl (why, e) ↦ ground (arith, answered, ap (λ p. is_written p.1) e)
      | inr (requested, accepted, e, written) ↦ written answered
    ] in
    ap (λ f. (load_gateway_config env.ids c' (file_of f) []).0) file
    ∙ load-saved_entries env.ids c' s'.links
        (handle_set_gateway_link-WellKeyed env c source es s r h)
