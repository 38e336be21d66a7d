-- ===== src/Comparison.antt =====
-- The comparison of expected and actual item counts on the pages: web/utils.ts,
-- buildExpectedActualRows. Counts are whole numbers; `localeCompare` is a parameter. The share that is
-- preserved stands as a hundredfold count over a count.
pub mod Totals
mod Tests
use clusterio_surface_export.Prelude.{
  ℕ, ◌+◌, ◌*◌, String, Bool, not, ◌&&◌, ◌||◌, Option, none, some, List, ◌++◌, map, filter, ltb, eqb,
  or_else, string_eq, if◌then◌else◌,
}
use clusterio_surface_export.Prelude.Int.{ℤ, pos, pos_part, neg_part, ◌-ℤ◌}
use clusterio_surface_export.Prelude.Sort.{sort_by}
use clusterio_surface_export.JsMap.{JsMap, get, has, keys}

abbrev pub Counts : Type 0
Counts = JsMap String ℕ

pub record ExpectedActualRow : Type 0 where
  pub name : String
  pub expected : ℕ
  pub actual : ℕ
  pub delta : ℤ
  pub preserved_pct : Option (ℕ × ℕ)

-- `new Set([...Object.keys(expected), ...Object.keys(actual)])`
abbrev pub names_of : Counts → Counts → List String
names_of expected actual = keys expected ++ filter (λ k. not (has k expected)) (keys actual)

-- `Number(counts[name] || 0)`
abbrev pub number_of : Counts → String → ℕ
number_of counts name = or_else (get name counts) 0

abbrev pub row_for : Counts → Counts → String → ExpectedActualRow
row_for expected actual name =
    let e = number_of expected name in
    let a = number_of actual name in
    record {
      name = name;
      expected = e;
      actual = a;
      delta = pos a -ℤ pos e;
      preserved_pct = if ltb 0 e then some (a * 100, e) else none;
    }

abbrev delta_size : ℤ → ℕ
delta_size d = pos_part d + neg_part d

-- The largest difference first, then by name.
abbrev pub differs_more : (String → String → Bool) → ExpectedActualRow → ExpectedActualRow → Bool
differs_more collates a b =
    ltb (delta_size b.delta) (delta_size a.delta)
    || (eqb (delta_size a.delta) (delta_size b.delta) && collates a.name b.name)

unfoldable pub build_expected_actual_rows :
    (String → String → Bool) → Counts → Counts → List ExpectedActualRow
unfolding sort_by ◌-ℤ◌
build_expected_actual_rows collates expected actual =
    sort_by (differs_more collates) (map (row_for expected actual) (names_of expected actual))
