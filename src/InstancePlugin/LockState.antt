-- ===== src/InstancePlugin/LockState.antt =====
-- Every answer about a source's lock names a state of SOURCE_TRANSFER_LOCK_STATES: instance.ts,
-- handleGetSourceTransferLockState, and lib/source-lock-state.ts.
use clusterio_surface_export.Prelude.{
  String, true, Bool-cases, Option, none, some, ◌≡◌, refl, inl, inr, is_empty, given_or, string_eq,
}
use clusterio_surface_export.Prelude.Int.{ℤ}
use clusterio_surface_export.Prelude.Text.{trim}
use clusterio_surface_export.InstancePlugin.{
  get_source_transfer_lock_state, RconReply, printed, rcon_threw, PluginState, Surroundings,
}
use clusterio_surface_export.InstancePlugin.Source.{
  is_source_transfer_lock_state, LockStateResponse, ParsedLockState, bad_json, not_an_object,
  lock_state, state_or_offline, normalize_source_transfer_lock_state,
  parse_source_transfer_lock_state_json, state_answered, handle_get_source_transfer_lock_state,
}

abbrev pub IsLockState : LockStateResponse → Type 0
IsLockState r = is_source_transfer_lock_state r.state ≡ true

state_or_offline-known :
    (o : Option String) → is_source_transfer_lock_state (state_or_offline o) ≡ true
state_or_offline-known none = refl
state_or_offline-known (some s) = elim (Bool-cases (is_source_transfer_lock_state s)) [
  | inl known ↦ rw known known
  | inr other ↦ rw other refl
]

normalize-IsLockState : (p : ParsedLockState) → IsLockState (normalize_source_transfer_lock_state p)
normalize-IsLockState (bad_json why) = refl
normalize-IsLockState not_an_object = refl
normalize-IsLockState (lock_state raw) = state_or_offline-known raw.raw_state

parse-IsLockState :
    (parse : String → ParsedLockState) (text : String)
    → IsLockState (parse_source_transfer_lock_state_json parse text)
unfolding parse_source_transfer_lock_state_json
parse-IsLockState parse text = elim (Bool-cases (is_empty (trim text))) [
  | inl blank ↦ rw blank refl
  | inr given ↦ rw given (normalize-IsLockState (parse text))
]

state_answered-IsLockState :
    (parse : String → ParsedLockState) (id : String) (r : RconReply)
    → IsLockState (state_answered parse id r)
state_answered-IsLockState parse id (printed text) = parse-IsLockState parse (trim text)
state_answered-IsLockState parse id (rcon_threw e) = refl

pub handle_get_source_transfer_lock_state-IsLockState :
    (v : Surroundings) (parse : String → ParsedLockState) (id : String) (index : Option ℤ)
    (name : String) (force : Option String) (s : PluginState)
    → IsLockState (handle_get_source_transfer_lock_state v parse id index name force s).0
unfolding handle_get_source_transfer_lock_state
handle_get_source_transfer_lock_state-IsLockState v parse id none name force s = refl
handle_get_source_transfer_lock_state-IsLockState v parse id (some index) name force s =
    let c = get_source_transfer_lock_state id index name (given_or force "player") in
    state_answered-IsLockState parse id (v.rcon s.trace c)
