-- ===== src/Worker/Keeps/Receive.antt =====
-- `handleDatagram` and `drainSocket` keep the gauges and the socket in step with the state.
use cks_loadtest.Base.{
  ℕ, ◌+◌, Bool, true, false, List, [], ◌∷◌, if◌then◌else◌, ◌==◌, arith, length, take, get_or,
}
use cks_loadtest.Base.Int.{ℤ}
use cks_loadtest.Base.Words.{Bytes, bump, u64}
use cks_loadtest.Platform.{Floats, Crypto}
use cks_loadtest.Config.{Config}
use cks_loadtest.Stats.{Stats, inc, record_latency_ms}
use cks_loadtest.Control.{reassign, refresh}
use cks_loadtest.Wire.Bundle.{for_each_message}
use cks_loadtest.Wire.Bundle.Keep.{for_each_message-keep}
use cks_loadtest.Worker.Client.{Cell, with_client, with_stats}
use cks_loadtest.Worker.Receive.{
  Recv, datagram, refused, drained, classify, log_once, react, deliver_all, handle_error,
  handle_spatial, handle_message, handle_datagram, drain_loop, drain_socket,
}
use cks_loadtest.Wire.Codes.{message_bundle, message_bundle_signed}
use cks_loadtest.Wire.Bundle.{verify_signed_bundle}
use cks_loadtest.Worker.Keeps.{
  Keeps, Leaves, Leaves-Keeps, Keeps-refl, Keeps-trans, Leaves-suspend, if-Keeps,
}

module _ {fl : Floats} (cfg : Config fl) (worker slot : ℕ) where
  classify-Leaves : (now code : ℕ) (x : Cell fl) → Leaves x (classify cfg worker slot now code x).1
  unfolding classify
  classify-Leaves now code x = ground arith

  log_once-Leaves :
      (expected : Bool) (x : Cell fl) → Leaves x (log_once cfg worker slot (expected, x))
  log_once-Leaves expected x = ground arith

  react-Keeps : (code : ℕ) (x : Cell fl) → Keeps x (react cfg worker slot code x)
  unfolding react
  react-Keeps code x = ground (
    arith,
    Keeps-refl x,
    Leaves-suspend worker slot refresh x
        (with_client x (record (x.client) { refresh_requested = true })),
    Leaves-suspend worker slot reassign x
        (with_client x (record (x.client) { unauthorized_count = 0 })),
  )

  handle_error-Keeps :
      (now code : ℕ) (x : Cell fl) → Keeps x (handle_error cfg worker slot now code x)
  unfolding handle_error
  handle_error-Keeps now code x =
      let a = with_stats x (record (x.stats) { error_codes = bump x.stats.error_codes code }) in
      let b = classify cfg worker slot now code a in
      let d = log_once cfg worker slot b in
      let ab : Keeps a b.1 = Leaves-Keeps a b.1 (classify-Leaves now code a) in
      let bd : Keeps b.1 d = Leaves-Keeps b.1 d (log_once-Leaves b.0 b.1) in
      Keeps-trans x a _ (Leaves-Keeps x a (ground arith))
        (Keeps-trans a b.1 _ ab (Keeps-trans b.1 d _ bd (react-Keeps code d)))

  module _ (c : Crypto) where
    record_latency-Leaves :
        (x : Cell fl) (ms : ℤ) → Leaves x (with_stats x (record_latency_ms x.stats ms))
    unfolding record_latency_ms
    record_latency-Leaves x ms = ground arith

    handle_spatial-Leaves :
        (now_ms : ℤ) (x : Cell fl) (m : Bytes)
        → Leaves x (handle_spatial cfg worker slot c now_ms x m)
    unfolding handle_spatial record_latency_ms
    handle_spatial-Leaves now_ms x m = ground arith

    handle_message-Keeps :
        (signed : Bool) (now : ℕ) (now_ms : ℤ) (x : Cell fl) (m : Bytes)
        → Keeps x (handle_message cfg worker slot c signed now now_ms x m)
    unfolding handle_message
    handle_message-Keeps signed now now_ms x m =
        let s : Stats =
          if signed
          then (record (x.stats) { rx_signed_members = inc x.stats.rx_signed_members })
          else x.stats in
        let y : Cell fl = with_stats x (record s { rx_error_messages = inc s.rx_error_messages }) in
        let r : Cell fl =
          with_stats x (record s { rx_reconnect_commands = inc s.rx_reconnect_commands }) in
        let xy : Keeps x y = Leaves-Keeps x y (ground arith) in
        let xs : Keeps x (with_stats x s) = Leaves-Keeps x (with_stats x s) (ground arith) in
        if-Keeps _ x _ _
          (if-Keeps _ x _ _ (Keeps-trans x y _ xy (handle_error-Keeps now (get_or m 2 0) y)) xy)
          (if-Keeps _ x _ _ (Leaves-suspend worker slot reassign x r (ground arith)) (
            if-Keeps _ x _ _
              (Keeps-trans x (with_stats x s) _ xs
                (Leaves-Keeps (with_stats x s) _ (handle_spatial-Leaves now_ms (with_stats x s) m)))
              xs))

    deliver_all-Keeps :
        (signed : Bool) (now : ℕ) (now_ms : ℤ) (d : Bytes) (x y : Cell fl)
        → Leaves x y
        → Keeps x (deliver_all cfg worker slot c signed now now_ms d y)
    deliver_all-Keeps signed now now_ms d x y l =
        let fn = handle_message cfg worker slot c signed now now_ms in
        let r = for_each_message fn d y in
        let all : Keeps y r.0 =
          for_each_message-keep (Keeps y) fn
            (λ s m k. Keeps-trans y s _ k (handle_message-Keeps signed now now_ms s m)) d y
            (Keeps-refl y) in
        Keeps-trans x y _ (Leaves-Keeps x y l)
          (Keeps-trans y r.0 _ all (Leaves-Keeps r.0 _ (ground arith)))

    handle_datagram-Keeps :
        (now : ℕ) (now_sec : fl.Double) (now_ms : ℤ) (d : Bytes) (x : Cell fl)
        → Keeps x (handle_datagram cfg worker slot c now now_sec now_ms d x)
    unfolding handle_datagram
    handle_datagram-Keeps now now_sec now_ms d x =
        let s : Stats = record (x.stats) {
          rx_datagrams = inc x.stats.rx_datagrams;
          rx_bytes = u64 (x.stats.rx_bytes + length d);
        } in
        let y : Cell fl = record x {
          stats = s;
          client = record (x.client) { last_rx_time = now_sec };
        } in
        let p : Cell fl = with_stats y (record s { rx_bundles = inc s.rx_bundles }) in
        let z : Cell fl = with_stats y (record s { rx_signed_bundles = inc s.rx_signed_bundles }) in
        let h : Cell fl =
          with_stats z (record (z.stats) { rx_hmac_failures = inc z.stats.rx_hmac_failures }) in
        if-Keeps (length d == 0) x _ _ (Leaves-Keeps x y (ground arith)) (
          if-Keeps (get_or d 0 0 == message_bundle) x _ _
            (deliver_all-Keeps false now now_ms d x p (ground arith))
            (if-Keeps (get_or d 0 0 == message_bundle_signed) x _ _
              (if-Keeps (verify_signed_bundle c d x.client.creds.app_token) x _ _
                (deliver_all-Keeps true now now_ms d x z (ground arith))
                (Leaves-Keeps x h (ground arith)))
              (deliver_all-Keeps false now now_ms d x y (ground arith))))

    drain_loop-Keeps :
        (rs : List (Recv fl)) (x : Cell fl) → Keeps x (drain_loop cfg worker slot c rs x)
    unfolding drain_loop
    drain_loop-Keeps [] x = Keeps-refl x
    drain_loop-Keeps (drained ∷ rs) x = Keeps-refl x
    drain_loop-Keeps (refused ∷ rs) x = drain_loop-Keeps rs x
    drain_loop-Keeps (datagram t d ∷ rs) x =
        let y : Cell fl =
          handle_datagram cfg worker slot c t.steady_now t.steady_seconds t.epoch_millis
            (take 2048 d) x in
        let xy : Keeps x y =
          handle_datagram-Keeps t.steady_now t.steady_seconds t.epoch_millis (take 2048 d) x in
        if-Keeps _ x _ _ (drain_loop-Keeps rs x)
          (if-Keeps _ x _ _ (Keeps-trans x y _ xy (drain_loop-Keeps rs y)) xy)

    -- `drainSocket` keeps the accounts.
    pub drain_socket-Keeps :
        (rs : List (Recv fl)) (x : Cell fl) → Keeps x (drain_socket cfg worker slot c rs x)
    unfolding drain_socket
    drain_socket-Keeps rs x = if-Keeps _ x _ _ (drain_loop-Keeps rs x) (Keeps-refl x)
