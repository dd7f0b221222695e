-- ===== src/Worker/Receive.antt =====
-- `Worker::handleDatagram` and `Worker::drainSocket` of src/Worker.cpp.
use cks_loadtest.Base.{
  ℕ, ◌+◌, Bool, true, false, not, ◌&&◌, ◌||◌, Option, none, some, List, [], ◌∷◌, if◌then◌else◌,
  ◌==◌, leb, length, take, get_or,
}
use cks_loadtest.Base.Int.{ℤ, pos, ◌-ℤ◌, ◌*ℤ◌, ltb_ℤ, leb_ℤ, abs}
use cks_loadtest.Base.Words.{Bytes, u64, bump}
use cks_loadtest.Platform.{Floats, Crypto}
use cks_loadtest.Config.{Config}
use cks_loadtest.Stats.{inc, record_latency_ms}
use cks_loadtest.Control.{reassign, refresh}
use cks_loadtest.Wire.Codes.{
  message_bundle, message_bundle_signed, generic_error_message, command_reconnect,
  actor_update_notification_2, is_spatial, err_invalid_token, err_unauthorized,
  err_user_not_authenticated, err_token_expired,
}
use cks_loadtest.Wire.Inbound.{type_of, verify_notification, notification_epoch_ms}
use cks_loadtest.Wire.Bundle.{verify_signed_bundle, for_each_message}
use cks_loadtest.Worker.Client.{SimClient, Cell, is_active, with_client, with_stats, suspend_client}

-- `FIRST_CONTACT_GRACE_MS`, and milliseconds in nanoseconds.
abbrev pub first_contact_grace_ms : ℕ
first_contact_grace_ms = 2000

abbrev pub ns_per_ms : ℕ
ns_per_ms = 1_000_000

-- `when.time_since_epoch().count() != 0 && now - when < grace` (a grace below 0 is never met).
abbrev pub is_within : ℕ → ℕ → ℤ → Bool
is_within now when grace_ms =
    not (when == 0) && ltb_ℤ (pos now -ℤ pos when) (grace_ms *ℤ pos ns_per_ms)

module _ {fl : Floats} (cfg : Config fl) (worker slot : ℕ) where
  -- The client's chunk lies outside the modelled permission box.
  unfoldable pub is_outside : SimClient fl → Bool
  is_outside c =
      let r = cfg.perm_window_radius_chunks in
      ltb_ℤ r (pos (abs (c.chunk_x -ℤ c.perm_window_center_x)))
      || ltb_ℤ r (pos (abs (c.chunk_y -ℤ c.perm_window_center_y)))
      || ltb_ℤ r (pos (abs (c.chunk_z -ℤ c.perm_window_center_z)))

  abbrev recentre : SimClient fl → ℕ → SimClient fl
  recentre c now = record c {
    perm_window_center_x = c.chunk_x;
    perm_window_center_y = c.chunk_y;
    perm_window_center_z = c.chunk_z;
    perm_reload_at = now;
  }

  -- Whether the refusal is expected, and the tally that says why.
  unfoldable pub classify : ℕ → ℕ → Cell fl → Bool × Cell fl
  unfolding is_outside
  classify now code x =
      let c = x.client in
      let s = x.stats in
      let same_episode = is_within now c.perm_reload_at cfg.perm_reload_grace_ms in
      if code == err_unauthorized && is_within now c.activated_at (pos first_contact_grace_ms)
      then (
        true,
        with_stats x (record s { unauthorized_first_contact = inc s.unauthorized_first_contact }),
      )
      else if code == err_unauthorized && c.perm_window_valid
      then (if same_episode || is_outside c
          then (
            true,
            record x {
              stats = record s { unauthorized_window_reload = inc s.unauthorized_window_reload };
              client = if same_episode then c else recentre c now;
            },
          )
          else (false, x))
      else (false, x)

  abbrev pub log_once : Bool × Cell fl → Cell fl
  log_once (expected, x) =
      if not x.client.error_logged && not expected
      then with_client x (record (x.client) { error_logged = true })
      else x

  abbrev pub is_token_error : ℕ → Bool
  is_token_error code =
      code == err_invalid_token || code == err_token_expired || code == err_user_not_authenticated

  -- What the code asks of the control thread.
  unfoldable pub react : ℕ → Cell fl → Cell fl
  react code x =
      let c = x.client in
      let count = c.unauthorized_count + 1 in
      if is_token_error code && not c.refresh_requested
      then suspend_client worker slot refresh
          (with_client x (record c { refresh_requested = true }))
      else if code == err_unauthorized
      then (if leb_ℤ (pos 5 *ℤ cfg.update_hz) (pos count)
          then suspend_client worker slot reassign
              (with_client x (record c { unauthorized_count = 0 }))
          else with_client x (record c { unauthorized_count = count }))
      else x

  unfoldable pub handle_error : ℕ → ℕ → Cell fl → Cell fl
  handle_error now code x =
      let s = x.stats in
      react code (
        log_once
          (classify now code (with_stats x (record s { error_codes = bump s.error_codes code }))))

  module _ (c : Crypto) where
    abbrev pub record_epoch : ℤ → Option ℤ → Cell fl → Cell fl
    record_epoch now_ms none x = x
    record_epoch now_ms (some epoch) x =
        if ltb_ℤ (pos 0) epoch
        then with_stats x (record_latency_ms x.stats (now_ms -ℤ epoch))
        else x

    -- A spatial notification.
    unfoldable pub handle_spatial : ℤ → Cell fl → Bytes → Cell fl
    handle_spatial now_ms x m =
        let s = x.stats in
        let counted =
          if type_of m == actor_update_notification_2
          then record s { rx_actor_notifications = inc s.rx_actor_notifications }
          else record s { rx_other_spatial = inc s.rx_other_spatial } in
        if cfg.verify_server_hmac && not (verify_notification c m x.client.creds.app_token)
        then with_stats x (record s { rx_hmac_failures = inc s.rx_hmac_failures })
        else record_epoch now_ms (notification_epoch_ms m) (with_stats x counted)

    -- The callback that `handleDatagram` hands to `forEachMessage`.
    unfoldable pub handle_message : Bool → ℕ → ℤ → Cell fl → Bytes → Cell fl
    handle_message signed now now_ms x m =
        let s =
          if signed
          then (record (x.stats) { rx_signed_members = inc x.stats.rx_signed_members })
          else x.stats in
        if type_of m == generic_error_message
        then (let y = with_stats x (record s { rx_error_messages = inc s.rx_error_messages }) in
            if leb 3 (length m) then handle_error now (get_or m 2 0) y else y)
        else if type_of m == command_reconnect
        then suspend_client worker slot reassign
            (with_stats x (record s { rx_reconnect_commands = inc s.rx_reconnect_commands }))
        else if is_spatial (type_of m)
        then handle_spatial now_ms (with_stats x s) m
        else with_stats x s

    abbrev pub count_malformed : Cell fl × Bool → Cell fl
    count_malformed (x, ok) =
        if ok
        then x
        else with_stats x (record (x.stats) { rx_malformed = inc x.stats.rx_malformed })

    abbrev pub deliver_all : Bool → ℕ → ℤ → Bytes → Cell fl → Cell fl
    deliver_all signed now now_ms d x =
        count_malformed (for_each_message (handle_message signed now now_ms) d x)

    -- `now` and `now_sec` are one reading of the steady clock, `now_ms` of the system clock.
    unfoldable pub handle_datagram : ℕ → fl.Double → ℤ → Bytes → Cell fl → Cell fl
    handle_datagram now now_sec now_ms d x =
        let s = record (x.stats) {
          rx_datagrams = inc x.stats.rx_datagrams;
          rx_bytes = u64 (x.stats.rx_bytes + length d);
        } in
        let y = record x { stats = s; client = record (x.client) { last_rx_time = now_sec } } in
        let z = with_stats y (record s { rx_signed_bundles = inc s.rx_signed_bundles }) in
        if length d == 0
        then y
        else if get_or d 0 0 == message_bundle
        then deliver_all false now now_ms d
            (with_stats y (record s { rx_bundles = inc s.rx_bundles }))
        else if get_or d 0 0 == message_bundle_signed
        then (if verify_signed_bundle c d x.client.creds.app_token
            then deliver_all true now now_ms d z
            else with_stats z
                (record (z.stats) { rx_hmac_failures = inc z.stats.rx_hmac_failures }))
        else deliver_all false now now_ms d y

-- The clocks that the handler of one datagram reads, each taken once.
pub record Clocks (fl : Floats) : Type 0 where
  pub steady_now : ℕ
  pub steady_seconds : fl.Double
  pub epoch_millis : ℤ

-- What `recv` returns: a datagram, `ECONNREFUSED`, or an error that ends the loop.
pub data Recv (fl : Floats) : Type 0 where
  datagram : Clocks fl → Bytes → Recv fl
  refused : Recv fl
  drained : Recv fl

abbrev pub is_open {ℓ} : {A : Type ℓ} → Option A → Bool
is_open none = false
is_open (some fd) = true

module _ {fl : Floats} (cfg : Config fl) (worker slot : ℕ) (c : Crypto) where
  -- The loop over what `recv` returns, into a buffer of 2048 octets.
  unfoldable pub drain_loop : List (Recv fl) → Cell fl → Cell fl
  drain_loop [] x = x
  drain_loop (drained ∷ rs) x = x
  drain_loop (refused ∷ rs) x = drain_loop rs x
  drain_loop (datagram t d ∷ rs) x =
      let y =
        handle_datagram cfg worker slot c t.steady_now t.steady_seconds t.epoch_millis (take 2048 d)
          x in
      let skipped = drain_loop rs x in
      let handled = drain_loop rs y in
      if not (is_active x.client.state) then skipped else if is_open y.client.fd then handled else y

  unfoldable pub drain_socket : List (Recv fl) → Cell fl → Cell fl
  drain_socket rs x = if is_open x.client.fd then drain_loop rs x else x
