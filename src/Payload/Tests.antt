-- ===== src/Payload/Tests.antt =====
-- Three code units in chunks of two, and the settings `{}` in a session whose calls are all answered.
use clusterio_surface_export.Prelude.{◌≡◌, refl, true, none, some, [], ◌∷◌, arith, any}
use clusterio_surface_export.Payload.{Units, to_ascii_json, simple_checksum, chunkify}
use clusterio_surface_export.Payload.Chunks.{join_units, IsChunked, join-chunkify}
use clusterio_surface_export.Payload.Session.{Session, ok, configure_gateways}
use clusterio_surface_export.Payload.Commit.{sent_texts, is_commit, sent_texts-configure_gateways}

two_chunks : chunkify 2 (7 ∷ 8 ∷ 9 ∷ []) ≡ (7 ∷ 8 ∷ []) ∷ (9 ∷ []) ∷ []
unfolding chunkify
two_chunks = refl

join-chunkify_example :
    (join_units (chunkify 2 (7 ∷ 8 ∷ 9 ∷ [])) ≡ 7 ∷ 8 ∷ 9 ∷ [])
    × IsChunked 2 (chunkify 2 (7 ∷ 8 ∷ 9 ∷ []))
join-chunkify_example = join-chunkify 2 (7 ∷ 8 ∷ 9 ∷ []) (omega arith)

-- "é" is written `\u00e9`, and "ab" hashes to 97 * 31 + 98.
ascii_of_e_acute : to_ascii_json (233 ∷ []) ≡ 92 ∷ 117 ∷ 48 ∷ 48 ∷ 101 ∷ 57 ∷ []
ascii_of_e_acute = refl

checksum_of_ab : simple_checksum (97 ∷ 98 ∷ []) ≡ 3105
checksum_of_ab = refl

abbrev answered : Session
answered = record {
  reply = λ n. ok (some 0) (some 2);
  token = "gwcfg";
  expected_gateways = 0;
  single_bytes = λ w. λ a. 9000;
}

abbrev empty_object : Units
empty_object = 123 ∷ 125 ∷ []

is_committed : any is_commit (configure_gateways answered empty_object none).0 ≡ true
unfolding configure_gateways
is_committed = refl

sent_texts-configure_gateways_example :
    sent_texts (configure_gateways answered empty_object none).0 ≡ 123 ∷ 125 ∷ []
sent_texts-configure_gateways_example =
    sent_texts-configure_gateways answered empty_object none is_committed
