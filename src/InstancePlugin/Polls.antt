-- ===== src/InstancePlugin/Polls.antt =====
-- The poll for an export ends: instance.ts, waitForExportData.
use clusterio_surface_export.Prelude.{
  ℕ, zero, suc, ◌+◌, ◌-◌, ◌*◌, ◌≤◌, ◌<◌, String, false, Option, none, some, List, [], ◌∷◌, ◌≡◌, ◌≢◌,
  ◌⊎◌, refl, sym, subst, arith, Bool-cases, inl, inr, ltb, ltb→lt,
}
use clusterio_surface_export.Prelude.Text.{trim}
use clusterio_surface_export.InstancePlugin.{
  call, ExportData, get_export_json, list_exports_json, PluginEffect, called, waited, PluginState,
  Surroundings,
}
use clusterio_surface_export.InstancePlugin.Exports.{
  lookup, is_invalid_export_id, Lookup, lookup_threw, missing, found, fetched, get_export_data,
  PollEnd, timed_out, out_of_fuel, after_poll, poll, wait_for_export_data,
}

-- The clock never runs back, and a wait takes at least as long as was asked for: what the poll relies on
-- in `Date.now` and `setTimeout` while the system's clock is not set back.
pub record IsClock (clock : List PluginEffect → ℕ) : Type 0 where
  pub passes : (e : PluginEffect) (es : List PluginEffect) → clock es ≤ clock (e ∷ es)
  pub wait_passes : (n : ℕ) (es : List PluginEffect) → clock es + n ≤ clock (waited n ∷ es)

-- How often the plugin asks the game for an export.
abbrev pub asked : List PluginEffect → ℕ
asked [] = 0
asked (called (get_export_json id) ∷ es) = suc (asked es)
asked (_ ∷ es) = asked es

fetched-quiet : (l : Lookup) (s : PluginState) → (fetched false l s).1 ≡ s
fetched-quiet lookup_threw s = refl
fetched-quiet missing s = refl
fetched-quiet (found d) s = refl

abbrev pub IsLook : String → PluginState → PluginState → Type 0
IsLook id s u = (u ≡ s) ⊎ (u ≡ call (get_export_json (trim id)) s)

-- One look asks the game once, or not at all.
get_export_data-IsLook :
    (v : Surroundings) (id : String) (s : PluginState)
    → IsLook id s (get_export_data v false id s).1
unfolding get_export_data
get_export_data-IsLook v id s =
    let c = get_export_json (trim id) in
    elim (Bool-cases (is_invalid_export_id (trim id))) [
      | inl bad ↦ inl (rw bad)
      | inr good ↦ inr (rw good (fetched-quiet (lookup v (v.rcon s.trace c)) (call c s)))
    ]

module _ (v : Surroundings) (laws : IsClock v.clock) (id : String) (interval : ℕ) where
  open laws use {passes, wait_passes}

  abbrev Asks : PluginState → PluginState → ℕ → Type 0
  Asks s u left = (k : ℕ) × (asked u.trace ≤ asked s.trace + k) × (k * interval < left + interval)

  abbrev pub Ends : PluginState → ℕ → PollEnd × PluginState → Type 0
  Ends s deadline p =
      (p.0 ≢ out_of_fuel)
      × Asks s p.1 (deadline - v.clock s.trace)
      × (p.0 ≡ timed_out → deadline ≤ v.clock p.1.trace)

  abbrev Waits : PluginState → PluginState → Type 0
  Waits s u =
      (v.clock s.trace + interval ≤ v.clock (waited interval ∷ u.trace))
      × (asked u.trace ≤ asked s.trace + 1)

  IsLook-Waits : (s u : PluginState) → IsLook id s u → Waits s u
  IsLook-Waits s u (inl e) = subst (Waits s) (sym e) (wait_passes interval s.trace, omega arith)
  IsLook-Waits s u (inr e) =
      let es = called (get_export_json (trim id)) ∷ s.trace in
      subst (Waits s) (sym e) (
        omega (arith, passes (called (get_export_json (trim id))) s.trace, wait_passes interval es),
        omega arith,
      )

  add_turn :
      (s u t : PluginState) (deadline : ℕ)
      → Waits s u
      → v.clock s.trace < deadline
      → Asks
          (record u { trace = waited interval ∷ u.trace })
          t
          (deadline - v.clock (waited interval ∷ u.trace))
      → Asks s t (deadline - v.clock s.trace)
  add_turn s u t deadline (later, once) early (zero, few, bound) =
      (1, omega (arith, few, once), omega (arith, early))
  add_turn s u t deadline (later, once) early (suc k, few, bound) =
      (suc (suc k), omega (arith, few, once), omega (arith, early, later, bound))

  abbrev turned : PluginState → PluginState
  turned u = record u { trace = waited interval ∷ u.trace }

  after_poll-Ends :
      (s : PluginState) (deadline : ℕ) (p : Option ExportData × PluginState)
      (rest : PluginState → PollEnd × PluginState)
      → Waits s p.1
      → v.clock s.trace < deadline
      → Ends (turned p.1) deadline (rest p.1)
      → Ends s deadline (after_poll p rest)
  after_poll-Ends s deadline (some d, u) rest (later, once) early h =
      (cc, (1, once, omega (arith, early)), λ h. cc)
  after_poll-Ends s deadline (none, u) rest w early (fine, asks, late) =
      (fine, add_turn s u (rest u).1 deadline w early asks, late)

  late-Ends :
      (n deadline : ℕ) (s : PluginState)
      → 0 < interval
      → ltb (v.clock s.trace) deadline ≡ false
      → Ends s deadline (poll (suc n) v id deadline interval s)
  late-Ends n deadline s pos late = rw late (
    cc,
    (0, omega arith, omega (arith, pos)),
    λ h.
        let over : deadline ≤ v.clock s.trace = ground (arith, late) in
        omega (arith, over, passes (called list_exports_json) s.trace),
  )

  -- With `n` milliseconds left, one turn more than `n` is fuel enough.
  poll-Ends :
      (n deadline : ℕ) (s : PluginState)
      → 0 < interval
      → deadline ≤ v.clock s.trace + n
      → Ends s deadline (poll (suc n) v id deadline interval s)
  poll-Ends zero deadline s pos enough = late-Ends zero deadline s pos (ground (arith, enough))
  poll-Ends (suc n) deadline s pos enough = elim (Bool-cases (ltb (v.clock s.trace) deadline)) [
    | inr late ↦ late-Ends (suc n) deadline s pos late
    | inl early ↦
        let look = get_export_data v false id s in
        let w = IsLook-Waits s look.1 (get_export_data-IsLook v id s) in
        let before = ltb→lt (v.clock s.trace) deadline early in
        rw early (
          after_poll-Ends s deadline look (λ u. poll (suc n) v id deadline interval (turned u)) w
            before (poll-Ends n deadline (turned look.1) pos (omega (arith, enough, w.0, pos))))
  ]

-- On a clock that never runs back, and on which a wait takes at least as long as was asked for, and for
-- an interval that is not 0, waitForExportData ends, with the export or at its timeout: it gives up only
-- when the timeout has passed since it began, and has asked the game for the export less than
-- timeout / interval + 1 times.
pub wait_for_export_data-Ends :
    (v : Surroundings) (id : String) (timeout interval : ℕ) (s : PluginState)
    → IsClock v.clock
    → 0 < interval
    → let p = wait_for_export_data v id timeout interval s in
      (p.0 ≢ out_of_fuel)
      × ((k : ℕ) × (asked p.1.trace ≤ asked s.trace + k) × (k * interval < timeout + interval))
      × (p.0 ≡ timed_out → v.clock s.trace + timeout ≤ v.clock p.1.trace)
unfolding wait_for_export_data
wait_for_export_data-Ends v id timeout interval s laws pos =
    let (fine, (k, few, bound), late) =
      poll-Ends v laws id interval timeout (v.clock s.trace + timeout) s pos (omega arith) in
    (fine, (k, few, omega (arith, bound)), late)
