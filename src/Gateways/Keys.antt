-- ===== src/Gateways/Keys.antt =====
-- Keys of gateway links: controller.ts, gatewayKey and parseGatewayKey.
use clusterio_surface_export.Prelude.{String, ◌≡◌, sym, ap, ◌∙◌, false, some, is_empty, arith}
use clusterio_surface_export.Prelude.Int.{ℤ}
use clusterio_surface_export.CanonicalId.{split_at_colon}
use clusterio_surface_export.CanonicalId.RoundTrip.{ColonFree, split_at_colon-concat}
use clusterio_surface_export.Gateways.{IdText, gateway_key, parse_gateway_key}

-- What the documentation says of an integer's text.
pub record ReadsBack (ids : IdText) : Type 0 where
  pub read_write : (i : ℤ) → ids.read (ids.write i) ≡ some i
  pub write_colon_free : (i : ℤ) → ColonFree (ids.write i)
  pub write_given : (i : ℤ) → is_empty (ids.write i) ≡ false

split-gateway_key :
    (ids : IdText) (i : ℤ) (name : String)
    → ReadsBack ids
    → split_at_colon (gateway_key ids i name) ≡ some (ids.write i, name)
unfolding gateway_key
split-gateway_key ids i name r = split_at_colon-concat (ids.write i) name (r.write_colon_free i)

pub parse-gateway_key :
    (ids : IdText) (i : ℤ) (name : String)
    → ReadsBack ids
    → is_empty name ≡ false
    → parse_gateway_key ids (gateway_key ids i name) ≡ some (i, name)
unfolding parse_gateway_key
parse-gateway_key ids i name r given =
    rw (split-gateway_key ids i name r, r.write_given i, r.read_write i) (simp given)

-- Two gateways with one key are one.
pub gateway_key-injective :
    (ids : IdText) (i j : ℤ) (a b : String)
    → ReadsBack ids
    → gateway_key ids i a ≡ gateway_key ids j b
    → (i ≡ j) × (a ≡ b)
gateway_key-injective ids i j a b r same =
    let parts =
      sym (split-gateway_key ids i a r) ∙ ap split_at_colon same ∙ split-gateway_key ids j b r in
    let ps : (ids.write i ≡ ids.write j) × (a ≡ b) = ground (arith, parts) in
    (ground (arith, ap ids.read ps.0, r.read_write i, r.read_write j), ps.1)
