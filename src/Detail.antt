-- ===== src/Detail.antt =====
-- Which entries of the transaction log stay on disk: lib/detail-retention.ts, and
-- applyDetailRetention of lib/transaction-logger.ts. An entry is an object, which `identity` tells
-- from every other.
pub mod Claim
pub mod Count
mod Tests
use clusterio_surface_export.Prelude.{
  ℕ, zero, suc, String, ◌+◌, ◌-◌, ◌/◌, min, max, Bool, true, false, not, ◌&&◌, ◌||◌, Option, none,
  some, List, [], ◌∷◌, ◌++◌, ◌==◌, string_eq, eqb, ltb, leb, if◌then◌else◌, length, filter, any,
  or_else,
}
use clusterio_surface_export.Prelude.Sort.{sort_by}

pub record DetailEntry : Type 0 where
  pub identity : ℕ
  pub transfer_id : String
  pub saved_at : Option ℕ
  pub started_at : Option ℕ
  pub status : String

abbrev reserved_success_slots : ℕ
reserved_success_slots = 25

abbrev pub min_detail_entries : ℕ
min_detail_entries = 10

abbrev pub max_detail_entries : ℕ
max_detail_entries = 5000

-- `a || b` on numbers that may be missing
abbrev time_or : Option ℕ → ℕ → ℕ
time_or none b = b
time_or (some a) b = if eqb a 0 then b else a

abbrev saved_at_of : DetailEntry → ℕ
saved_at_of e = time_or e.saved_at (time_or e.started_at 0)

abbrev is_failure : DetailEntry → Bool
is_failure e = e.status == "failed" || (e.status == "cleanup_failed" || e.status == "error")

abbrev success_floor_for : ℕ → ℕ → ℕ → ℕ
success_floor_for budget available reserved = min (min reserved available) (budget / 2)

-- preferPinnedThenNewest puts `a` strictly before `b`.
abbrev preferred : (DetailEntry → Bool) → DetailEntry → DetailEntry → Bool
preferred is_pinned a b =
    if is_pinned a
    then (if is_pinned b then ltb (saved_at_of b) (saved_at_of a) else true)
    else (if is_pinned b then false else ltb (saved_at_of b) (saved_at_of a))

abbrev pub same_entry : DetailEntry → DetailEntry → Bool
same_entry a b = eqb a.identity b.identity

abbrev held : List DetailEntry → DetailEntry → Bool
held keep e = any (λ k. same_entry k e) keep

-- One round of `claim`, on the slots that are left and the entries kept. Where the code returns, this
-- round and all later ones change nothing.
abbrev claim_one : ℕ → DetailEntry → ℕ × List DetailEntry → ℕ × List DetailEntry
claim_one cap e (slots, keep) =
    if leb cap (length keep) || (eqb slots 0 || held keep e)
    then (slots, keep)
    else (slots - 1, e ∷ keep)

pub claim : ℕ → List DetailEntry → ℕ × List DetailEntry → ℕ × List DetailEntry
claim cap [] s = s
claim cap (e ∷ es) s = claim cap es (claim_one cap e s)

-- The three claims: failures, successes, and then whatever is left.
pub kept : (DetailEntry → Bool) → ℕ → ℕ → List DetailEntry → List DetailEntry
unfolding claim
kept is_pinned cap reserved entries =
    let failures = sort_by (preferred is_pinned) (filter is_failure entries) in
    let successes = sort_by (preferred is_pinned) (filter (λ e. not (is_failure e)) entries) in
    let floor = success_floor_for cap (length successes) reserved in
    let k₁ = (claim cap failures (cap - floor, [])).1 in
    let k₂ = (claim cap successes (cap - length k₁, k₁)).1 in
    (claim cap (sort_by (preferred is_pinned) (failures ++ successes)) (cap - length k₂, k₂)).1

-- selectRetainedDetail, the cap a whole number, 0 for none
unfoldable pub select_retained_detail :
    (DetailEntry → Bool) → ℕ → ℕ → List DetailEntry → List DetailEntry
select_retained_detail is_pinned cap reserved entries =
    if eqb cap 0
    then entries
    else if leb (length entries) cap
    then entries
    else filter (held (kept is_pinned cap reserved entries)) entries

-- applyDetailRetention, by the whole part of the configured number, 0 for a negative one; `none`
-- where there is no finite number
unfoldable pub apply_detail_retention :
    (DetailEntry → Bool) → Option ℕ → List DetailEntry → List DetailEntry
apply_detail_retention is_pinned none entries =
    select_retained_detail (λ e. false) 0 reserved_success_slots entries
apply_detail_retention is_pinned (some n) entries =
    select_retained_detail is_pinned (min max_detail_entries (max min_detail_entries n))
      reserved_success_slots entries
