-- ===== src/Control.antt =====
-- The messages between the workers and the control thread (src/Worker.hpp, with the credentials
-- of src/Provisioner.hpp), and the queue that all workers share.
pub mod Fifo
use cks_loadtest.Base.{
  if◌then◌else◌, ℕ, Bool, true, List, [], ◌∷◌, ◌++◌, ◌≡◌, refl, ◌∙◌, append_assoc, append-nil,
}
use mathlib.Core.List.{foldl}
use cks_loadtest.Base.Int.{ℤ}
use cks_loadtest.Base.Text.{Text}

-- Times are nanoseconds since the clock's epoch.
pub record ClientCredentials : Type 0 where
  pub index : ℤ
  pub email : Text
  pub session_token : Text
  pub app_token : Text
  pub game_token_id : ℤ
  pub game_api_url : Text
  pub token_expires_at : ℕ
  pub server_ip4 : Text
  pub server_port : ℕ
  pub udp_ready_at : ℕ

pub data Kind : Type 0 where
  reassign refresh : Kind

pub record ControlRequest : Type 0 where
  pub worker_index : ℕ
  pub client_index : ℕ
  pub kind : Kind
  pub creds : ClientCredentials

pub record ClientUpdate : Type 0 where
  pub client_index : ℕ
  pub failed : Bool
  pub creds : ClientCredentials

pub record ControlQueue : Type 0 where
  pub queue : List ControlRequest
  pub is_shutdown : Bool

-- What `pop` does: it blocks, returns false, or returns true with a request.
pub data Popped : Type 0 where
  blocked : Popped
  closed : Popped
  got : ControlRequest → ControlQueue → Popped

abbrev pub push : ControlQueue → ControlRequest → ControlQueue
push q r = record q { queue = q.queue ++ (r ∷ []) }

pop_from : List ControlRequest → ControlQueue → Popped
pop_from [] q = if q.is_shutdown then closed else blocked
pop_from (r ∷ rs) q = got r (record q { queue = rs })

unfoldable pub pop : ControlQueue → Popped
unfolding pop_from
pop q = pop_from q.queue q

unfoldable pub shutdown : ControlQueue → ControlQueue
shutdown q = record q { is_shutdown = true }
