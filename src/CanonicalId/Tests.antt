-- ===== src/CanonicalId/Tests.antt =====
-- Concrete runs of the id functions: a number is written in strokes, one more than the number.
use Prim.Native.String.{String}
use clusterio_surface_export.Prelude.{
  ℕ, zero, suc, ◌≡◌, refl, false, is_empty, Option, none, some, ap,
}
use clusterio_surface_export.Prelude.Int.{ℤ, pos}
use clusterio_surface_export.CanonicalId.{
  NumberText, make_canonical_transfer_id, parse_canonical_transfer_id,
}
use clusterio_surface_export.CanonicalId.RoundTrip.{
  ColonFree, ReadsBack, parse-make_canonical_transfer_id,
}

abbrev pub strokes : ℕ → String
strokes zero = "1"
strokes (suc n) = String.◌∷◌ "1" (strokes n)

abbrev pub count_strokes : String → ℕ
count_strokes String.[] = 0
count_strokes (String.◌∷◌ c s) = suc (count_strokes s)

abbrev less_one : ℕ → Option ℤ
less_one zero = none
less_one (suc n) = some (pos n)

abbrev pub stroke_text : NumberText
stroke_text = record { write = strokes; read = λ s. less_one (count_strokes s) }

pub count_strokes-strokes : (n : ℕ) → count_strokes (strokes n) ≡ suc n
count_strokes-strokes zero = refl
count_strokes-strokes (suc n) = ap suc (count_strokes-strokes n)

pub strokes-ColonFree : (n : ℕ) → ColonFree (strokes n)
strokes-ColonFree zero = (refl, tt)
strokes-ColonFree (suc n) = (refl, strokes-ColonFree n)

pub strokes-given : (n : ℕ) → is_empty (strokes n) ≡ false
strokes-given zero = refl
strokes-given (suc n) = refl

pub stroke_text-ReadsBack : ReadsBack stroke_text
stroke_text-ReadsBack = record {
  read_write = λ i. ap less_one (count_strokes-strokes i);
  write_colon_free = strokes-ColonFree;
  write_given = strokes-given;
}

id_of_3 : make_canonical_transfer_id stroke_text (pos 3) "job" ≡ some "1111:job"
unfolding make_canonical_transfer_id
id_of_3 = refl

id_of_3_parsed : parse_canonical_transfer_id stroke_text "1111:job" ≡ some (3, "job")
id_of_3_parsed =
    parse-make_canonical_transfer_id stroke_text 3 "job" "1111:job" stroke_text-ReadsBack id_of_3
