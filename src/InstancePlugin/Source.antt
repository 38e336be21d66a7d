-- ===== src/InstancePlugin/Source.antt =====
-- The controller's requests about a source platform: instance.ts, handleDeleteSourcePlatform,
-- handleUnlockSourcePlatform, handleGetSourceTransferLockState and handleTransferStatusUpdate;
-- lib/source-lock-state.ts.
use clusterio_surface_export.Prelude.{
  String, Bool, Option, none, some, List, [], ◌∷◌, any, is_empty, given_or, string_eq, ◌==◌,
  if◌then◌else◌,
}
use clusterio_surface_export.Prelude.Int.{ℤ}
use clusterio_surface_export.Prelude.Text.{trim, remove_first}
use clusterio_surface_export.JsMap.{JsMap, get}
use clusterio_surface_export.InstancePlugin.{
  delete_source_platform, get_source_transfer_lock_state, unlock_platform, print_to_game, RconCall,
  RconReply, printed, rcon_threw, PluginState, Surroundings, call,
}

-- The answer to a request: a success, or an error.
pub data SourceAnswer : Type 0 where
  done : SourceAnswer
  failed : String → SourceAnswer

pub answered_by_game : RconReply → SourceAnswer
unfolding trim remove_first
answered_by_game (printed text) =
    if trim text == "SUCCESS" then done else failed (remove_first "ERROR:" (trim text))
answered_by_game (rcon_threw e) = failed e

abbrev invalid_index : String
invalid_index = "invalid platformIndex"

abbrev ask_game : Surroundings → RconCall → PluginState → SourceAnswer × PluginState
ask_game v c s = (answered_by_game (v.rcon s.trace c), call c s)

-- The index is missing where it is no integer.
unfoldable pub handle_delete_source_platform :
    Surroundings
    → Option ℤ
    → String
    → Option String
    → Option String
    → PluginState
    → SourceAnswer × PluginState
unfolding answered_by_game
handle_delete_source_platform v none name force job s = (failed invalid_index, s)
handle_delete_source_platform v (some index) name force job s =
    ask_game v (delete_source_platform index name (given_or force "player") job) s

unfoldable pub handle_unlock_source_platform :
    Surroundings → Option ℤ → Option String → PluginState → SourceAnswer × PluginState
unfolding answered_by_game
handle_unlock_source_platform v none name s = (failed invalid_index, s)
handle_unlock_source_platform v (some index) name s = ask_game v (unlock_platform index name) s

-- SOURCE_TRANSFER_LOCK_STATES of messages.ts
abbrev pub source_transfer_lock_states : List String
source_transfer_lock_states =
    "pre_commit" ∷ "committed" ∷ "source_gone_matching_transfer" ∷ "unknown/offline"
    ∷ "identity_mismatch" ∷ []

abbrev pub is_source_transfer_lock_state : String → Bool
is_source_transfer_lock_state state = any (λ s. s == state) source_transfer_lock_states

pub record LockStateResponse : Type 0 where
  pub state : String
  pub transfer_id : Option String
  pub error_text : Option String

-- The fields of an object, each of which may be missing or no text.
pub record RawLockState : Type 0 where
  pub raw_state : Option String
  pub raw_transfer_id : Option String
  pub raw_error : Option String

-- What `JSON.parse` makes of a text.
pub data ParsedLockState : Type 0 where
  bad_json : String → ParsedLockState
  not_an_object : ParsedLockState
  lock_state : RawLockState → ParsedLockState

abbrev offline : String
offline = "unknown/offline"

abbrev pub unknown_state : String → LockStateResponse
unknown_state why = record { state = offline; transfer_id = none; error_text = some why }

abbrev pub state_or_offline : Option String → String
state_or_offline none = offline
state_or_offline (some s) = if is_source_transfer_lock_state s then s else offline

abbrev pub normalize_source_transfer_lock_state : ParsedLockState → LockStateResponse
normalize_source_transfer_lock_state (bad_json why) = unknown_state why
normalize_source_transfer_lock_state not_an_object = unknown_state "missing source lock state"
normalize_source_transfer_lock_state (lock_state raw) = record {
  state = state_or_offline raw.raw_state;
  transfer_id = raw.raw_transfer_id;
  error_text = raw.raw_error;
}

unfoldable pub parse_source_transfer_lock_state_json :
    (String → ParsedLockState) → String → LockStateResponse
unfolding trim
parse_source_transfer_lock_state_json parse text =
    if is_empty (trim text)
    then unknown_state "empty source lock state response"
    else normalize_source_transfer_lock_state (parse text)

abbrev pub state_answered : (String → ParsedLockState) → String → RconReply → LockStateResponse
state_answered parse id (printed text) = parse_source_transfer_lock_state_json parse (trim text)
state_answered parse id (rcon_threw e) = record {
  state = offline;
  transfer_id = some id;
  error_text = some e;
}

unfoldable pub handle_get_source_transfer_lock_state :
    Surroundings
    → (String → ParsedLockState)
    → String
    → Option ℤ
    → String
    → Option String
    → PluginState
    → LockStateResponse × PluginState
unfolding parse_source_transfer_lock_state_json trim
handle_get_source_transfer_lock_state v parse id none name force s = (
  record { state = "identity_mismatch"; transfer_id = some id; error_text = some invalid_index },
  s,
)
handle_get_source_transfer_lock_state v parse id (some index) name force s =
    let c = get_source_transfer_lock_state id index name (given_or force "player") in
    (state_answered parse id (v.rcon s.trace c), call c s)

abbrev color_map : JsMap String String
color_map =
    ("green", "{0, 1, 0}")
    ∷ ("yellow", "{1, 1, 0}")
    ∷ ("red", "{1, 0, 0}")
    ∷ ("blue", "{0, 0.5, 1}")
    ∷ ("white", "{1, 1, 1}")
    ∷ []

abbrev print_answer : RconReply → SourceAnswer
print_answer (printed text) = done
print_answer (rcon_threw e) = failed e

unfoldable pub handle_transfer_status_update :
    Surroundings → String → Option String → PluginState → SourceAnswer × PluginState
handle_transfer_status_update v message color s =
    let c = print_to_game message (given_or (get (given_or color "") color_map) "{1, 1, 1}") in
    (print_answer (v.rcon s.trace c), call c s)
