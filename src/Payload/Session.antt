-- ===== src/Payload/Session.antt =====
-- The gateway settings on their way to a game instance: lib/lua-interface.ts, configureGateways,
-- callGatewayRemote and verifyGatewayEcho. The remote call's script around a command is left out.
use clusterio_surface_export.Prelude.{
  ℕ, ◌+◌, String, Bool, true, false, ◌&&◌, Option, none, some, List, [], ◌∷◌, leb, eqb,
  if◌then◌else◌, length,
}
use clusterio_surface_export.Payload.{
  Units, to_ascii_json, simple_checksum, Wrapped, bracket_wrap, chunkify,
}

-- The texts of the active gateways are those of `activeArg`.
pub data Command : Type 0 where
  configure : Wrapped → Option Wrapped → Command
  begin : String → ℕ → ℕ → Command
  chunk : String → ℕ → Wrapped → Command
  commit : String → Option Wrapped → Command

-- A reply's last line: the send throws, it is no JSON, it does not say ok, or it says ok with the
-- numbers of gateways and bytes that the instance has applied.
pub data Reply : Type 0 where
  threw : Reply
  no_json : Reply
  not_ok : Reply
  ok : Option ℕ → Option ℕ → Reply

-- The error that configureGateways throws: an unsafe text, a failed call, or other numbers applied.
pub data Failure : Type 0 where
  no_safe_level : Failure
  call_failed : Command → Failure
  wrong_echo : Failure

pub record Session : Type 0 where
  pub reply : ℕ → Reply  -- to the n-th command
  pub token : String
  pub expected_gateways : ℕ
  pub single_bytes : Wrapped → Option Wrapped → ℕ  -- of the script of a single call

abbrev pub is_ok : Reply → Bool
is_ok threw = false
is_ok no_json = false
is_ok not_ok = false
is_ok (ok g b) = true

abbrev has_number : Option ℕ → ℕ → Bool
has_number none n = false
has_number (some m) n = eqb m n

-- verifyGatewayEcho
abbrev pub echo_failure : Reply → ℕ → ℕ → Option Failure
echo_failure (ok g b) gateways bytes =
    if has_number g gateways && has_number b bytes then none else some wrong_echo
echo_failure r gateways bytes = some wrong_echo

-- What is sent, in order, and the error, if any.
abbrev pub Run : Type 0
Run = List Command × Option Failure

-- One call: its own failure, else what comes after it.
abbrev pub call_then : Reply → Command → Run → Run
call_then r c next = if is_ok r then (c ∷ next.0, next.1) else (c ∷ [], some (call_failed c))

-- The last call, whose reply is verified.
unfoldable pub call_last : Session → ℕ → Command → ℕ → Run
call_last s n c bytes =
    call_then (s.reply n) c ([], echo_failure (s.reply n) s.expected_gateways bytes)

abbrev send_wrapped : Session → ℕ → ℕ → Option Wrapped → Run → Run
send_wrapped s n i none next = ([], some no_safe_level)
send_wrapped s n i (some w) next = call_then (s.reply n) (chunk s.token i w) next

-- The loop over the chunks, and the commit after it; n counts the commands.
unfoldable pub send_chunks : Session → ℕ → ℕ → List Units → Option Wrapped → ℕ → Run
unfolding call_last bracket_wrap
send_chunks s n i [] active bytes = call_last s n (commit s.token active) bytes
send_chunks s n i (c ∷ cs) active bytes =
    send_wrapped s n i (bracket_wrap c) (send_chunks s (n + 1) (i + 1) cs active bytes)

abbrev pub gateway_config_single_limit : ℕ
gateway_config_single_limit = 7000

abbrev pub gateway_config_chunk_size : ℕ
gateway_config_chunk_size = 40000

unfoldable pub send_in_chunks : Session → Units → Option Wrapped → Run
unfolding send_chunks chunkify
send_in_chunks s ascii active =
    let chunks = chunkify gateway_config_chunk_size ascii in
    call_then (s.reply 0) (begin s.token (length chunks) (simple_checksum ascii))
      (send_chunks s 1 1 chunks active (length ascii))

unfoldable pub single_or_chunks : Session → Units → Option Wrapped → Option Wrapped → Run
unfolding send_in_chunks call_last
single_or_chunks s ascii active none = ([], some no_safe_level)
single_or_chunks s ascii active (some w) =
    if leb (s.single_bytes w active) gateway_config_single_limit
    then call_last s 0 (configure w active) (length ascii)
    else send_in_chunks s ascii active

abbrev with_active : Option Wrapped → Run → Run
with_active none next = ([], some no_safe_level)
with_active (some a) next = next

unfoldable pub wrap_active : Session → Units → Option Units → Run
unfolding single_or_chunks bracket_wrap
wrap_active s ascii none = single_or_chunks s ascii none (bracket_wrap ascii)
wrap_active s ascii (some active) =
    let a = bracket_wrap (to_ascii_json active) in
    with_active a (single_or_chunks s ascii a (bracket_wrap ascii))

-- configureGateways
unfoldable pub configure_gateways : Session → Units → Option Units → Run
unfolding wrap_active
configure_gateways s json active = wrap_active s (to_ascii_json json) active
