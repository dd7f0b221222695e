-- ===== src/Wire/Codes.antt =====
-- The message types, error codes and decay rates of src/Wire.hpp, by their wire values.
use cks_loadtest.Base.{ℕ, Bool, not, ◌==◌}
use Prim.Native.Nat.{bit_and}

abbrev pub message_bundle : ℕ
message_bundle = 2

abbrev pub generic_error_message : ℕ
generic_error_message = 3

abbrev pub command_reconnect : ℕ
command_reconnect = 22

abbrev pub client_actor_heartbeat : ℕ
client_actor_heartbeat = 26

abbrev pub client_capabilities : ℕ
client_capabilities = 29

abbrev pub message_bundle_signed : ℕ
message_bundle_signed = 30

abbrev pub actor_update_request_2 : ℕ
actor_update_request_2 = 128

abbrev pub actor_update_notification_2 : ℕ
actor_update_notification_2 = 130

abbrev pub spatial_type_bit : ℕ
spatial_type_bit = 0x80

-- `type & SPATIAL_TYPE_BIT`, read as a condition.
abbrev pub is_spatial : ℕ → Bool
is_spatial t = not (bit_and t spatial_type_bit == 0)

abbrev pub err_invalid_token : ℕ
err_invalid_token = 5

abbrev pub err_unauthorized : ℕ
err_unauthorized = 7

abbrev pub err_user_not_authenticated : ℕ
err_user_not_authenticated = 20

abbrev pub err_token_expired : ℕ
err_token_expired = 32

pub data DecayRate : Type 0 where
  no_decay exponential linear_50 linear_25 linear_10 linear_5 : DecayRate

abbrev pub decay_code : DecayRate → ℕ
decay_code no_decay = 0
decay_code exponential = 1
decay_code linear_50 = 2
decay_code linear_25 = 3
decay_code linear_10 = 4
decay_code linear_5 = 5
