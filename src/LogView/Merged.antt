-- ===== src/LogView/Merged.antt =====
-- Which registry a summary comes from: lib/transaction-logger.ts, getTransferSummaries.
use clusterio_surface_export.Prelude.{
  String, ◌≡◌, refl, sym, ap, subst, ◌∙◌, arith, Bool, true, false, Option, none, some, List, [],
  ◌∷◌, find, or_option, string_eq, ◌==◌, Bool-cases, inl, inr, if◌then◌else◌,
}
use clusterio_surface_export.JsMap.{JsMap, get, set, has, values, get-set, get-set_self, KeysOnce}
use clusterio_surface_export.Transfer.{ActiveTransfer}
use clusterio_surface_export.Ledger.{AuditRow}
use clusterio_surface_export.LogView.{
  SavedLog, TransferSummary, Registries, active_summary, ledger_summary, saved_summary, Summaries,
  set_active, add_ledger, add_saved, summaries_by_id,
}

abbrev pub of_active : Registries → String → Option ActiveTransfer → Option TransferSummary
of_active r id none = none
of_active r id (some t) = some (active_summary r id t)

abbrev pub of_ledger : Registries → Option AuditRow → Option TransferSummary
of_ledger r none = none
of_ledger r (some row) = some (ledger_summary r row)

abbrev pub of_saved : Registries → Option SavedLog → Option TransferSummary
of_saved r none = none
of_saved r (some l) = some (saved_summary r l)

or_option-none : (o : Option TransferSummary) → o ≡ or_option o none
or_option-none none = refl
or_option-none (some s) = refl

-- A summary that is added where its id is missing.
get-add_missing :
    (k j : String) (s : TransferSummary) (m : Summaries)
    → get j (if has k m then m else set k s m)
      ≡ or_option (get j m) (if k == j then some s else none)
get-add_missing k j s m =
    ground (arith, get-set k j s m, string_eq.same_iff k j, or_option-none (get j m))

-- One more entry in front of a registry.
or_option-entry :
    (b : Bool) (o rest : Option TransferSummary) (s : TransferSummary)
    → or_option (or_option o (if b then some s else none)) rest
      ≡ or_option o (if b then some s else rest)
or_option-entry true none rest s = refl
or_option-entry true (some t) rest s = refl
or_option-entry false none rest s = refl
or_option-entry false (some t) rest s = refl

of_ledger-entry :
    (r : Registries) (b : Bool) (row : AuditRow) (o : Option AuditRow)
    → (if b then some (ledger_summary r row) else of_ledger r o)
      ≡ of_ledger r (if b then some row else o)
of_ledger-entry r true row o = refl
of_ledger-entry r false row o = refl

of_saved-entry :
    (r : Registries) (b : Bool) (l : SavedLog) (o : Option SavedLog)
    → (if b then some (saved_summary r l) else of_saved r o) ≡ of_saved r (if b then some l else o)
of_saved-entry r true l o = refl
of_saved-entry r false l o = refl

get-add_ledger :
    (r : Registries) (id : String) (rows : List AuditRow) (m : Summaries)
    → get id (add_ledger r rows m)
      ≡ or_option (get id m) (of_ledger r (find (λ row. row.transfer_id == id) rows))
get-add_ledger r id [] m = or_option-none (get id m)
get-add_ledger r id (row ∷ rows) m =
    let k = row.transfer_id in
    let s = ledger_summary r row in
    let rest = find (λ row. row.transfer_id == id) rows in
    get-add_ledger r id rows (if has k m then m else set k s m)
    ∙ ap (λ o. or_option o (of_ledger r rest)) (get-add_missing k id s m)
    ∙ or_option-entry (k == id) (get id m) (of_ledger r rest) s
    ∙ ap (or_option (get id m)) (of_ledger-entry r (k == id) row rest)

get-add_saved :
    (r : Registries) (id : String) (ls : List SavedLog) (m : Summaries)
    → get id (add_saved r ls m)
      ≡ or_option (get id m) (of_saved r (find (λ l. l.transfer_id == id) ls))
get-add_saved r id [] m = or_option-none (get id m)
get-add_saved r id (l ∷ ls) m =
    let k = l.transfer_id in
    let s = saved_summary r l in
    let rest = find (λ l. l.transfer_id == id) ls in
    get-add_saved r id ls (if has k m then m else set k s m)
    ∙ ap (λ o. or_option o (of_saved r rest)) (get-add_missing k id s m)
    ∙ or_option-entry (k == id) (get id m) (of_saved r rest) s
    ∙ ap (or_option (get id m)) (of_saved-entry r (k == id) l rest)

-- The active transfers stand once each in their map.
get-set_active :
    (r : Registries) (id : String) (ts : JsMap String ActiveTransfer) (m : Summaries)
    → KeysOnce ts
    → get id (set_active r ts m) ≡ or_option (of_active r id (get id ts)) (get id m)
get-set_active r id [] m once = refl
get-set_active r id ((k, t) ∷ ts) m (fresh, once) =
    let s = active_summary r k t in
    get-set_active r id ts (set k s m) once ∙ elim (Bool-cases (k == id)) [
      | inl same ↦
          let here : or_option (of_active r k (get k ts)) (get k (set k s m))
              ≡ or_option (of_active r k (get k ((k, t) ∷ ts))) (get k m) =
            ap (λ o. or_option (of_active r k o) (get k (set k s m))) fresh
            ∙ get-set_self k s m
            ∙ sym (
                ap (λ b. or_option (of_active r k (if b then some t else get k ts)) (get k m))
                  ((string_eq.same_iff k k).1 refl)) in
          subst
            (λ j.
              or_option (of_active r j (get j ts)) (get j (set k s m))
              ≡ or_option (of_active r j (get j ((k, t) ∷ ts))) (get j m))
            ((string_eq.same_iff k id).0 same) here
      | inr other ↦
          let rest = of_active r id (get id ts) in
          ap (or_option rest) (get-set k id s m ∙ ap (λ b. if b then some s else get id m) other)
          ∙ sym (
              ap (λ b. or_option (of_active r id (if b then some t else get id ts)) (get id m))
                other)
    ]

-- Before the list is cut, a transfer has the summary of its active record; else that of the ledger's row
-- under its id; else that of its persisted log; and there is no other. Active transfers stand once each.
pub get-summaries_by_id :
    (r : Registries) (id : String)
    → KeysOnce r.transfers
    → get id (summaries_by_id r)
      ≡ or_option
          (or_option
            (of_active r id (get id r.transfers))
            (of_ledger r (find (λ row. row.transfer_id == id) (values r.audit_index))))
          (of_saved r (find (λ l. l.transfer_id == id) r.persisted_logs))
unfolding summaries_by_id
get-summaries_by_id r id once =
    let ledger = of_ledger r (find (λ row. row.transfer_id == id) (values r.audit_index)) in
    let saved = of_saved r (find (λ l. l.transfer_id == id) r.persisted_logs) in
    let m = set_active r r.transfers [] in
    get-add_saved r id r.persisted_logs (add_ledger r (values r.audit_index) m)
    ∙ ap (λ o. or_option o saved)
        (get-add_ledger r id (values r.audit_index) m
          ∙ ap (λ o. or_option o ledger)
              (get-set_active r id r.transfers [] once
                ∙ sym (or_option-none (of_active r id (get id r.transfers)))))
