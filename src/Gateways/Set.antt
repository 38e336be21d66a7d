-- ===== src/Gateways/Set.antt =====
-- A request to set the links of an instance's gateways: controller.ts, handleSetGatewayLinkRequest.
use clusterio_surface_export.Prelude.{
  String, Bool, true, false, not, ◌||◌, Option, none, some, List, [], ◌∷◌, ◌==◌, string_eq,
  if◌then◌else◌, is_empty, given_or, ◌⊎◌, inl, inr,
}
use clusterio_surface_export.Prelude.Int.{ℤ, int_eq}
use clusterio_surface_export.JsMap.{get, has, set, delete}
use clusterio_surface_export.Cluster.{Cluster, Instance, is_instance_online}
use clusterio_surface_export.Gateways.{
  GatewayMode, one_gate, multi, multi_gateway_names, gateway_names_for, includes, GatewayLink,
  Links, Violation, check_multi_mode_link, IdText, gateway_key, ResolvedGateway, resolve_gateways,
}

-- A target as the request gives it: `none` where `Number(t.targetInstanceId)` is no integer.
pub record RawLink : Type 0 where
  pub target_instance_id : Option ℤ
  pub target_gateway : Option String

pub record Entry : Type 0 where
  pub gateway_name : String  -- empty where it is missing
  pub targets : List RawLink

pub data Refusal : Type 0 where
  no_gateways : Refusal
  unknown_source : ℤ → Refusal
  unknown_gateway : String → Refusal
  gateway_twice : String → Refusal
  violates : Violation → Refusal

pub data Answer : Type 0 where
  refused : Refusal → Answer
  not_written : String → Answer
  saved_not_pushed : String → Answer
  saved : Answer

-- How an instance answers a push: it throws, sends no reply, or replies with success or an error.
pub data PushReply : Type 0 where
  threw : String → PushReply
  no_reply : PushReply
  replied : Bool → Option String → PushReply

pub record Env : Type 0 where
  pub ids : IdText
  pub mode : GatewayMode
  pub write_error : Option String
  pub push_reply : PushReply

pub record State : Type 0 where
  pub links : Links
  pub file : Option Links
  pub pushed : List (ℤ × (List ResolvedGateway × List String))  -- newest first

abbrev is_other_target : ℤ → RawLink → Bool
is_other_target source l = is_other l.target_instance_id
  where
    is_other : Option ℤ → Bool
    is_other none = false
    is_other (some i) = not (i == source)

abbrev link_of : String → RawLink → List GatewayLink → List GatewayLink
link_of name l rest = with_id l.target_instance_id
  where
    with_id : Option ℤ → List GatewayLink
    with_id none = rest
    with_id (some i) =
        record { target_instance_id = i; target_gateway = given_or l.target_gateway name } ∷ rest

-- The filter and the map over an entry's targets.
abbrev pub normalized_targets : ℤ → String → List RawLink → List GatewayLink
normalized_targets source name [] = []
normalized_targets source name (l ∷ ls) =
    let rest = normalized_targets source name ls in
    if is_other_target source l then link_of name l rest else rest

-- The loop over the entries: the first bad one refuses the request.
abbrev pub normalize : List String → ℤ → List Entry → Links → Refusal ⊎ Links
normalize active source [] acc = inr acc
normalize active source (e ∷ es) acc =
    let name = e.gateway_name in
    let rest =
      normalize active source es (set name (normalized_targets source name e.targets) acc) in
    if is_empty name || not (includes name active)
    then inl (unknown_gateway name)
    else if has name acc
    then inl (gateway_twice name)
    else rest

abbrev pub put_given : String → Option (List GatewayLink) → Links → Links
put_given name none m = m
put_given name (some []) m = m
put_given name (some (t ∷ ts)) m = set name (t ∷ ts) m

-- What each gateway of the source would have: as requested, else as it is.
abbrev pub next_links : IdText → ℤ → Links → Links → String → Option (List GatewayLink)
next_links ids source links requested name =
    if has name requested then get name requested else get (gateway_key ids source name) links

abbrev pub propose : IdText → ℤ → Links → Links → List String → Links → Links
propose ids source links requested [] acc = acc
propose ids source links requested (name ∷ names) acc =
    propose ids source links requested names
      (put_given name (next_links ids source links requested name) acc)

abbrev first_or : Option Violation → Option Violation → Option Violation
first_or none rest = rest
first_or (some v) rest = some v

abbrev pub find_violation : Links → Links → Option Violation
find_violation proposed [] = none
find_violation proposed ((name, targets) ∷ requested) =
    first_or (check_multi_mode_link name targets (delete name proposed))
      (find_violation proposed requested)

unfoldable pub mode_violation : IdText → GatewayMode → ℤ → Links → Links → Option Violation
unfolding gateway_key
mode_violation ids one_gate source links requested = none
mode_violation ids multi source links requested =
    find_violation (propose ids source links requested multi_gateway_names []) requested

abbrev pub apply_one : String → List GatewayLink → Links → Links
apply_one key [] links = delete key links
apply_one key (t ∷ ts) links = set key (t ∷ ts) links

unfoldable pub apply_links : IdText → ℤ → Links → Links → Links
unfolding gateway_key
apply_links ids source [] links = links
apply_links ids source ((name, targets) ∷ requested) links =
    apply_links ids source requested (apply_one (gateway_key ids source name) targets links)

-- The reason why the push failed: pushGatewayConfigToInstance after the online test.
abbrev push_error : PushReply → Option String
push_error (threw reason) = some reason
push_error no_reply = some "the instance rejected the gateway config"
push_error (replied true e) = none
push_error (replied false e) = some (given_or e "the instance rejected the gateway config")

abbrev with_push : Option String → Answer
with_push none = saved
with_push (some reason) = saved_not_pushed reason

unfoldable pub push_gateway_config : Env → Cluster → ℤ → State → State × Answer
unfolding is_instance_online resolve_gateways
push_gateway_config env c source s =
    if is_instance_online c source
    then (
      record s {
        pushed =
            (source, (resolve_gateways env.ids c source s.links, gateway_names_for env.mode))
            ∷ s.pushed;
      },
      with_push (push_error env.push_reply),
    )
    else (s, saved)

unfoldable pub persist_gateway_config : Env → Cluster → ℤ → Option String → State → State × Answer
unfolding push_gateway_config
persist_gateway_config env c source none s =
    push_gateway_config env c source (record s { file = some s.links })
persist_gateway_config env c source (some reason) s = (s, not_written reason)

unfoldable pub apply_checked : Env → Cluster → ℤ → Links → Option Violation → State → State × Answer
unfolding apply_links persist_gateway_config
apply_checked env c source requested (some v) s = (s, refused (violates v))
apply_checked env c source requested none s =
    persist_gateway_config env c source env.write_error
      (record s { links = apply_links env.ids source requested s.links })

unfoldable pub after_normalize : Env → Cluster → ℤ → Refusal ⊎ Links → State → State × Answer
unfolding apply_checked mode_violation
after_normalize env c source (inl r) s = (s, refused r)
after_normalize env c source (inr requested) s =
    apply_checked env c source requested (mode_violation env.ids env.mode source s.links requested)
      s

abbrev pub is_known_instance : Option Instance → Bool
is_known_instance none = false
is_known_instance (some i) = not i.is_deleted

-- handleSetGatewayLinkRequest
unfoldable pub handle_set_gateway_link : Env → Cluster → ℤ → List Entry → State → State × Answer
unfolding after_normalize
handle_set_gateway_link env c source [] s = (s, refused no_gateways)
handle_set_gateway_link env c source (e ∷ es) s =
    if is_known_instance (get source c.instances)
    then after_normalize env c source (normalize (gateway_names_for env.mode) source (e ∷ es) []) s
    else (s, refused (unknown_source source))
