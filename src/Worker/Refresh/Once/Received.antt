-- ===== src/Worker/Refresh/Once/Received.antt =====
-- `handleDatagram` and `drainSocket` ask for a refresh at most once.
use cks_loadtest.Base.{
  ℕ, ◌+◌, Bool, true, false, List, [], ◌∷◌, if◌then◌else◌, ◌==◌, arith, length, take, get_or,
}
use cks_loadtest.Base.Int.{ℤ}
use cks_loadtest.Base.Words.{Bytes, bump, u64}
use cks_loadtest.Platform.{Floats, Crypto}
use cks_loadtest.Config.{Config}
use cks_loadtest.Stats.{Stats, inc, record_latency_ms}
use cks_loadtest.Wire.Bundle.{for_each_message}
use cks_loadtest.Wire.Bundle.Keep.{for_each_message-keep}
use cks_loadtest.Worker.Client.{Cell, with_client, with_stats}
use cks_loadtest.Worker.Receive.{
  Recv, datagram, refused, drained, classify, log_once, react, deliver_all, handle_error,
  handle_spatial, handle_message, handle_datagram, drain_loop, drain_socket,
}
use cks_loadtest.Wire.Codes.{message_bundle, message_bundle_signed}
use cks_loadtest.Wire.Bundle.{verify_signed_bundle}
use cks_loadtest.Worker.Refresh.Once.{
  AsksOnce, Stands, Stands-AsksOnce, AsksOnce-refl, AsksOnce-trans, reassign-AsksOnce,
  refresh-AsksOnce, if-AsksOnce,
}

module _ {fl : Floats} (cfg : Config fl) (worker slot : ℕ) where
  classify-Stands : (now code : ℕ) (x : Cell fl) → Stands x (classify cfg worker slot now code x).1
  unfolding classify
  classify-Stands now code x = ground arith

  log_once-Stands :
      (expected : Bool) (x : Cell fl) → Stands x (log_once cfg worker slot (expected, x))
  log_once-Stands expected x = ground arith

  react-AsksOnce : (code : ℕ) (x : Cell fl) → AsksOnce x (react cfg worker slot code x)
  unfolding react
  react-AsksOnce code x = ground (
    arith,
    AsksOnce-refl x,
    refresh-AsksOnce worker slot x (with_client x (record (x.client) { refresh_requested = true })),
    reassign-AsksOnce worker slot x (with_client x (record (x.client) { unauthorized_count = 0 })),
  )

  handle_error-AsksOnce :
      (now code : ℕ) (x : Cell fl) → AsksOnce x (handle_error cfg worker slot now code x)
  unfolding handle_error
  handle_error-AsksOnce now code x =
      let a = with_stats x (record (x.stats) { error_codes = bump x.stats.error_codes code }) in
      let b = classify cfg worker slot now code a in
      let d = log_once cfg worker slot b in
      let ab : AsksOnce a b.1 = Stands-AsksOnce a b.1 (classify-Stands now code a) in
      let bd : AsksOnce b.1 d = Stands-AsksOnce b.1 d (log_once-Stands b.0 b.1) in
      AsksOnce-trans x a _ (Stands-AsksOnce x a (ground arith))
        (AsksOnce-trans a b.1 _ ab (AsksOnce-trans b.1 d _ bd (react-AsksOnce code d)))

  module _ (c : Crypto) where
    record_latency-Stands :
        (x : Cell fl) (ms : ℤ) → Stands x (with_stats x (record_latency_ms x.stats ms))
    unfolding record_latency_ms
    record_latency-Stands x ms = ground arith

    handle_spatial-Stands :
        (now_ms : ℤ) (x : Cell fl) (m : Bytes)
        → Stands x (handle_spatial cfg worker slot c now_ms x m)
    unfolding handle_spatial record_latency_ms
    handle_spatial-Stands now_ms x m = ground arith

    handle_message-AsksOnce :
        (signed : Bool) (now : ℕ) (now_ms : ℤ) (x : Cell fl) (m : Bytes)
        → AsksOnce x (handle_message cfg worker slot c signed now now_ms x m)
    unfolding handle_message
    handle_message-AsksOnce signed now now_ms x m =
        let s : Stats =
          if signed
          then (record (x.stats) { rx_signed_members = inc x.stats.rx_signed_members })
          else x.stats in
        let y : Cell fl = with_stats x (record s { rx_error_messages = inc s.rx_error_messages }) in
        let r : Cell fl =
          with_stats x (record s { rx_reconnect_commands = inc s.rx_reconnect_commands }) in
        let xy : AsksOnce x y = Stands-AsksOnce x y (ground arith) in
        let xs : AsksOnce x (with_stats x s) = Stands-AsksOnce x (with_stats x s) (ground arith) in
        if-AsksOnce _ x _ _
          (if-AsksOnce _ x _ _
            (AsksOnce-trans x y _ xy (handle_error-AsksOnce now (get_or m 2 0) y)) xy)
          (if-AsksOnce _ x _ _ (reassign-AsksOnce worker slot x r (ground arith)) (
            if-AsksOnce _ x _ _
              (AsksOnce-trans x (with_stats x s) _ xs (
                Stands-AsksOnce (with_stats x s) _
                  (handle_spatial-Stands now_ms (with_stats x s) m)))
              xs))

    deliver_all-AsksOnce :
        (signed : Bool) (now : ℕ) (now_ms : ℤ) (d : Bytes) (x y : Cell fl)
        → Stands x y
        → AsksOnce x (deliver_all cfg worker slot c signed now now_ms d y)
    deliver_all-AsksOnce signed now now_ms d x y l =
        let fn = handle_message cfg worker slot c signed now now_ms in
        let r = for_each_message fn d y in
        let all : AsksOnce y r.0 =
          for_each_message-keep (AsksOnce y) fn
            (λ s m k. AsksOnce-trans y s _ k (handle_message-AsksOnce signed now now_ms s m)) d y
            (AsksOnce-refl y) in
        AsksOnce-trans x y _ (Stands-AsksOnce x y l)
          (AsksOnce-trans y r.0 _ all (Stands-AsksOnce r.0 _ (ground arith)))

    handle_datagram-AsksOnce :
        (now : ℕ) (now_sec : fl.Double) (now_ms : ℤ) (d : Bytes) (x : Cell fl)
        → AsksOnce x (handle_datagram cfg worker slot c now now_sec now_ms d x)
    unfolding handle_datagram
    handle_datagram-AsksOnce now now_sec now_ms d x =
        let s : Stats = record (x.stats) {
          rx_datagrams = inc x.stats.rx_datagrams;
          rx_bytes = u64 (x.stats.rx_bytes + length d);
        } in
        let y : Cell fl = record x {
          stats = s;
          client = record (x.client) { last_rx_time = now_sec };
        } in
        let p : Cell fl = with_stats y (record s { rx_bundles = inc s.rx_bundles }) in
        let z : Cell fl = with_stats y (record s { rx_signed_bundles = inc s.rx_signed_bundles }) in
        let h : Cell fl =
          with_stats z (record (z.stats) { rx_hmac_failures = inc z.stats.rx_hmac_failures }) in
        if-AsksOnce (length d == 0) x _ _ (Stands-AsksOnce x y (ground arith)) (
          if-AsksOnce (get_or d 0 0 == message_bundle) x _ _
            (deliver_all-AsksOnce false now now_ms d x p (ground arith))
            (if-AsksOnce (get_or d 0 0 == message_bundle_signed) x _ _
              (if-AsksOnce (verify_signed_bundle c d x.client.creds.app_token) x _ _
                (deliver_all-AsksOnce true now now_ms d x z (ground arith))
                (Stands-AsksOnce x h (ground arith)))
              (deliver_all-AsksOnce false now now_ms d x y (ground arith))))

    drain_loop-AsksOnce :
        (rs : List (Recv fl)) (x : Cell fl) → AsksOnce x (drain_loop cfg worker slot c rs x)
    unfolding drain_loop
    drain_loop-AsksOnce [] x = AsksOnce-refl x
    drain_loop-AsksOnce (drained ∷ rs) x = AsksOnce-refl x
    drain_loop-AsksOnce (refused ∷ rs) x = drain_loop-AsksOnce rs x
    drain_loop-AsksOnce (datagram t d ∷ rs) x =
        let y : Cell fl =
          handle_datagram cfg worker slot c t.steady_now t.steady_seconds t.epoch_millis
            (take 2048 d) x in
        let xy : AsksOnce x y =
          handle_datagram-AsksOnce t.steady_now t.steady_seconds t.epoch_millis (take 2048 d) x in
        if-AsksOnce _ x _ _ (drain_loop-AsksOnce rs x)
          (if-AsksOnce _ x _ _ (AsksOnce-trans x y _ xy (drain_loop-AsksOnce rs y)) xy)

    -- `drainSocket` asks at most once.
    pub drain_socket-AsksOnce :
        (rs : List (Recv fl)) (x : Cell fl) → AsksOnce x (drain_socket cfg worker slot c rs x)
    unfolding drain_socket
    drain_socket-AsksOnce rs x = if-AsksOnce _ x _ _ (drain_loop-AsksOnce rs x) (AsksOnce-refl x)
