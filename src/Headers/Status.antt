-- ===== src/Headers/Status.antt =====
-- src/protocol_structs.rs: command and status codes.
use wagonet.Prelude.{ℕ, ◌≡◌, Option, none, some, ◌==◌, if◌then◌else◌, arith}
use wagonet.Headers.Bytes.{as_u8}

pub data Command : Type 0 where
  ping : Command

abbrev pub command_code : Command → ℕ
command_code ping = 0

pub data ResponseStatus : Type 0 where
  unknown ok_status finish error database_error invalid_command invalid_data : ResponseStatus
  invalid_data_size invalid_data_format invalid_data_value invalid_domain : ResponseStatus
  invalid_request invalid_response invalid_signature : ResponseStatus

-- `value as u8`, and `value as u32`
unfoldable pub status_code : ResponseStatus → ℕ
status_code unknown = 0
status_code ok_status = 1
status_code finish = 2
status_code error = 3
status_code database_error = 4
status_code invalid_command = 5
status_code invalid_data = 6
status_code invalid_data_size = 7
status_code invalid_data_format = 8
status_code invalid_data_value = 9
status_code invalid_domain = 10
status_code invalid_request = 11
status_code invalid_response = 12
status_code invalid_signature = 13

-- the derived `FromRepr`
unfoldable pub from_repr : ℕ → Option ResponseStatus
from_repr n =
    if n == 0
    then some unknown
    else if n == 1
    then some ok_status
    else if n == 2
    then some finish
    else if n == 3
    then some error
    else if n == 4
    then some database_error
    else if n == 5
    then some invalid_command
    else if n == 6
    then some invalid_data
    else if n == 7
    then some invalid_data_size
    else if n == 8
    then some invalid_data_format
    else if n == 9
    then some invalid_data_value
    else if n == 10
    then some invalid_domain
    else if n == 11
    then some invalid_request
    else if n == 12
    then some invalid_response
    else if n == 13
    then some invalid_signature
    else none

unwrap_or_unknown : Option ResponseStatus → ResponseStatus
unwrap_or_unknown none = unknown
unwrap_or_unknown (some s) = s

unfoldable pub status_from_u8 : ℕ → ResponseStatus
unfolding from_repr unwrap_or_unknown
status_from_u8 value = unwrap_or_unknown (from_repr value)

unfoldable pub status_from_u32 : ℕ → ResponseStatus
unfolding from_repr unwrap_or_unknown
status_from_u32 status = unwrap_or_unknown (from_repr (as_u8 status))

pub status_from_u8-status_code : (s : ResponseStatus) → status_from_u8 (status_code s) ≡ s
unfolding status_code status_from_u8
status_from_u8-status_code s = ground arith
