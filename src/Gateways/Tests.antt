-- ===== src/Gateways/Tests.antt =====
-- Instance 1 links its first gateway to instance 2. Ids are written in strokes.
use Prim.Native.Char.{code}
use Prim.Native.String.{String}
use clusterio_surface_export.Prelude.{
  ℕ, zero, suc, ◌≡◌, refl, ap, true, false, Option, none, some, List, [], ◌∷◌, eqb, if◌then◌else◌,
  is_empty, arith,
}
use clusterio_surface_export.Prelude.Int.{ℤ, pos, negsuc}
use clusterio_surface_export.CanonicalId.RoundTrip.{ColonFree}
use clusterio_surface_export.CanonicalId.Tests.{
  strokes, count_strokes, count_strokes-strokes, strokes-ColonFree, strokes-given,
}
use clusterio_surface_export.Cluster.{Cluster, Instance}
use clusterio_surface_export.Gateways.{IdText, multi}
use clusterio_surface_export.Gateways.Keys.{ReadsBack}
use clusterio_surface_export.Gateways.Set.{
  RawLink, Entry, Env, State, replied, saved, handle_set_gateway_link,
}
use clusterio_surface_export.Gateways.Accepted.{is_written}
use clusterio_surface_export.Gateways.MultiMode.{OneToOne, handle_set_gateway_link-OneToOne}
use clusterio_surface_export.Gateways.Requested.{SetsOrRefuses, handle_set_gateway_link_lem}
use clusterio_surface_export.Gateways.Load.{load_gateway_config}
use clusterio_surface_export.Gateways.Reload.{file_of, load_gateway_config-handle_set_gateway_link}

abbrev pub write_strokes : ℤ → String
write_strokes (pos n) = strokes n
write_strokes (negsuc n) = String.◌∷◌ "-" (strokes n)

abbrev pub with_sign : (ℕ → ℤ) → ℕ → Option ℤ
with_sign sign zero = none
with_sign sign (suc n) = some (sign n)

abbrev pub read_strokes : String → Option ℤ
read_strokes String.[] = none
read_strokes (String.◌∷◌ c s) =
    if eqb (code c) b'-'
    then with_sign negsuc (count_strokes s)
    else with_sign pos (suc (count_strokes s))

abbrev pub stroke_ids : IdText
stroke_ids = record { write = write_strokes; read = read_strokes }

read_strokes-pos : (n : ℕ) → read_strokes (strokes n) ≡ some (pos n)
read_strokes-pos zero = refl
read_strokes-pos (suc n) = ap (λ k. with_sign pos (suc k)) (count_strokes-strokes n)

read_strokes-negsuc : (n : ℕ) → read_strokes (String.◌∷◌ "-" (strokes n)) ≡ some (negsuc n)
read_strokes-negsuc n = ap (with_sign negsuc) (count_strokes-strokes n)

read_write_strokes : (i : ℤ) → read_strokes (write_strokes i) ≡ some i
read_write_strokes (pos n) = read_strokes-pos n
read_write_strokes (negsuc n) = read_strokes-negsuc n

write_strokes-ColonFree : (i : ℤ) → ColonFree (write_strokes i)
write_strokes-ColonFree (pos n) = strokes-ColonFree n
write_strokes-ColonFree (negsuc n) = (refl, strokes-ColonFree n)

write_strokes-given : (i : ℤ) → is_empty (write_strokes i) ≡ false
write_strokes-given (pos n) = strokes-given n
write_strokes-given (negsuc n) = refl

pub stroke_ids-ReadsBack : ReadsBack stroke_ids
stroke_ids-ReadsBack = record {
  read_write = read_write_strokes;
  write_colon_free = write_strokes-ColonFree;
  write_given = write_strokes-given;
}

abbrev first_instance : Instance
first_instance = record {
  id = pos 1;
  name = some "nauvis";
  assigned_host = some (pos 7);
  is_deleted = false;
  status = "running";
}

abbrev one_instance : Cluster
one_instance = record {
  instances = (pos 1, first_instance) ∷ [];
  hosts = (pos 7, record { id = pos 7; connected = true }) ∷ [];
  write = write_strokes;
}

abbrev multi_env : Env
multi_env = record {
  ids = stroke_ids;
  mode = multi;
  write_error = none;
  push_reply = replied true none;
}

abbrev no_links : State
no_links = record { links = []; file = none; pushed = [] }

abbrev to_second : List RawLink
to_second = record { target_instance_id = some (pos 2); target_gateway = none } ∷ []

abbrev first_gateway : List Entry
first_gateway = record { gateway_name = "surfexp_gateway_1"; targets = to_second } ∷ []

abbrev after_set : State
after_set = (handle_set_gateway_link multi_env one_instance (pos 1) first_gateway no_links).0

no_links-OneToOne : OneToOne stroke_ids []
no_links-OneToOne source i a b known_a known_b =
    (omega arith, λ hit_a. λ hit_b. ground (arith, hit_a))

handle_set_gateway_link-OneToOne_example : OneToOne stroke_ids after_set.links
handle_set_gateway_link-OneToOne_example =
    handle_set_gateway_link-OneToOne multi_env one_instance (pos 1) first_gateway no_links
      stroke_ids-ReadsBack no_links-OneToOne

answer_is_saved :
    (handle_set_gateway_link multi_env one_instance (pos 1) first_gateway no_links).1 ≡ saved
unfolding handle_set_gateway_link
answer_is_saved = refl

answer_is_written :
    is_written (handle_set_gateway_link multi_env one_instance (pos 1) first_gateway no_links).1
    ≡ true
answer_is_written = ap is_written answer_is_saved

load_gateway_config-handle_set_gateway_link_example :
    (load_gateway_config stroke_ids one_instance (file_of after_set.file) []).0 ≡ after_set.links
load_gateway_config-handle_set_gateway_link_example =
    load_gateway_config-handle_set_gateway_link multi_env one_instance (pos 1) first_gateway
      no_links one_instance stroke_ids-ReadsBack (tt, tt) answer_is_written

handle_set_gateway_link_lem_example :
    SetsOrRefuses multi_env
      (pos 1)
      first_gateway
      no_links
      (handle_set_gateway_link multi_env one_instance (pos 1) first_gateway no_links)
handle_set_gateway_link_lem_example =
    handle_set_gateway_link_lem multi_env one_instance (pos 1) first_gateway no_links
      stroke_ids-ReadsBack
