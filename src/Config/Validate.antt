-- ===== src/Config/Validate.antt =====
-- `Config::validate` of src/Config.cpp.
use mathlib.Core.Option
use cks_loadtest.Base.{
  ℕ, ◌≡◌, ◌↔◌, ◌≢◌, ◌≤◌, ◌⊎◌, refl, sym, ap, ◌∙◌, Bool, true, false, not, ◌&&◌, ◌||◌, Option, none,
  some, List, [], ◌∷◌, if◌then◌else◌, All, arith, length, ltb, ◌++◌,
}
use cks_loadtest.Base.Int.{ℤ, pos, ltb_ℤ, leb_ℤ, ◌==ℤ◌, ◌≤ℤ◌}
use cks_loadtest.Base.Text.{Text, codes, text_eq, is_empty, find_char}
use cks_loadtest.Platform.{Floats}
use cks_loadtest.Config.{Config, needs_password}
use cks_loadtest.Config.Bind.{ControlBind, parse_control_bind}

abbrev pub is_found : Option ℕ → Bool
is_found none = false
is_found (some i) = true

-- A statement `if (failed) return message;`.
pub record Check : Type 0 where
  pub failed : Bool
  pub message : Text

infix 1 guard◌says◌
abbrev pub guard◌says◌ : Bool → Text → Check
guard b says t = record { failed = b; message = t }

-- The first that fails; the empty text if none does.
unfoldable pub first_failure : List Check → Text
first_failure [] = []
first_failure (c ∷ cs) = let rest = first_failure cs in if c.failed then c.message else rest

abbrev pub is_outside_range : ℤ → ℤ → ℤ → Bool
is_outside_range lo hi z = ltb_ℤ z lo || ltb_ℤ hi z

module _ {fl : Floats} where
  abbrev pub account_checks : Config fl → List Check
  account_checks c =
      (guard is_empty c.email says codes "missing LT_EMAIL / --email")
      ∷ (guard not (is_found (find_char 64 c.email))
          says codes "LT_EMAIL must be a full email address")
      ∷ (guard needs_password c && is_empty c.password
          says if is_empty c.roster_file
          then codes "missing LT_PASSWORD / --password"
          else codes
              "missing LT_PASSWORD / --password: the roster may not cover every client and the rest must sign in. Set LT_ROSTER_REQUIRED=1 to refuse a short roster instead.")
      ∷ (guard needs_password c && ltb (length c.password) 8
          says codes "LT_PASSWORD must be at least 8 characters (API minimum)")
      ∷ (guard is_empty c.management_api_url
          says codes "missing LT_MANAGEMENT_API_URL / --management-api-url")
      ∷ (guard leb_ℤ c.app_id (pos 0) says codes "missing/invalid LT_APP_ID / --app-id")
      ∷ []

  abbrev pub shape_checks : Config fl → List Check
  shape_checks c =
      (guard ltb_ℤ c.clients (pos 0) says codes "LT_CLIENTS must be >= 0")
      ∷ (guard ltb_ℤ c.threads (pos 1) says codes "LT_THREADS must be >= 1")
      ∷ (guard is_outside_range (pos 1) (pos 1000) c.update_hz
          says codes "LT_UPDATE_HZ must be in [1, 1000]")
      ∷ (guard is_outside_range (pos 0) (pos 255) c.distance
          says codes "LT_DISTANCE must be in [0, 255]")
      ∷ (guard not (text_eq c.pose_format (codes "ue5"))
            && not (text_eq c.pose_format (codes "bwf"))
          says codes "LT_POSE_FORMAT must be 'ue5' or 'bwf'")
      ∷ (guard is_outside_range (pos 0) (pos 64) c.volume_chunks
          says codes "LT_VOLUME_CHUNKS must be in [0, 64]")
      ∷ (guard not (text_eq c.replay_logging (codes "on"))
            && not (text_eq c.replay_logging (codes "off"))
            && not (text_eq c.replay_logging (codes "leave"))
          says codes "LT_REPLAY_LOGGING must be 'on', 'off' or 'leave'")
      ∷ (guard is_outside_range (pos 0) (pos 1_000_000_000) c.sparse_range_chunks
          says codes "LT_SPARSE_RANGE_CHUNKS must be in [0, 1e9]")
      ∷ (guard ltb_ℤ (pos 0) c.sparse_range_chunks && ltb_ℤ (pos 0) c.volume_chunks
          says codes "LT_SPARSE_RANGE_CHUNKS and LT_VOLUME_CHUNKS are exclusive population shapes")
      ∷ (guard ltb_ℤ c.sparse_group (pos 1) says codes "LT_SPARSE_GROUP must be >= 1")
      ∷ (guard ltb_ℤ c.spawn_radius_chunks (pos 0) says codes "LT_SPAWN_RADIUS_CHUNKS must be >= 0")
      ∷ []

  abbrev pub limit_checks : Config fl → List Check
  limit_checks c =
      (guard ltb_ℤ c.perm_window_radius_chunks (pos 0)
        says codes "LT_PERMISSION_WINDOW_RADIUS_CHUNKS must be >= 0")
      ∷ (guard ltb_ℤ c.perm_reload_grace_ms (pos 0)
          says codes "LT_PERMISSION_RELOAD_GRACE_MS must be >= 0")
      ∷ (guard is_outside_range (pos 0) (pos 5) c.decay says codes "LT_DECAY must be in [0, 5]")
      ∷ (guard ltb_ℤ c.provision_concurrency (pos 1)
          says codes "LT_PROVISION_CONCURRENCY must be >= 1")
      ∷ (guard ltb_ℤ c.ramp_batch_size (pos 1) says codes "LT_RAMP_BATCH_SIZE must be >= 1")
      ∷ (guard ltb_ℤ c.rx_silent_reassign_sec (pos 0)
          says codes "LT_RX_SILENT_REASSIGN_SEC must be >= 0")
      ∷ (guard ltb_ℤ c.socket_rcvbuf_bytes (pos 0) says codes "LT_SOCKET_RCVBUF_BYTES must be >= 0")
      ∷ (guard ltb_ℤ c.index_base (pos 0) says codes "LT_INDEX_BASE must be >= 0")
      ∷ (guard is_outside_range (pos 1) (pos 16) c.index_width
          says codes "LT_INDEX_WIDTH must be in [1, 16]")
      ∷ (guard ltb_ℤ c.index_limit (pos 0) says codes "LT_INDEX_LIMIT must be >= 0")
      ∷ (guard ltb_ℤ c.index_limit c.clients says codes "LT_INDEX_LIMIT must be >= LT_CLIENTS")
      ∷ []

  abbrev pub bind_checks : Config fl → ControlBind → List Check
  bind_checks c b =
      (guard not b.disabled && is_outside_range (pos 1) (pos 65535) b.port
        says codes "LT_CONTROL_BIND port out of range")
      ∷ (guard not b.disabled && (not b.loopback && is_empty c.control_token)
          says codes
              "LT_CONTROL_TOKEN is required when LT_CONTROL_BIND is not loopback (a fleet bind without a token would accept unauthenticated adds)")
      ∷ (guard c.clients ==ℤ pos 0 && b.disabled
          says codes
              "LT_CLIENTS is 0 and the control port is off: nothing would run. Set LT_CLIENTS > 0 or enable LT_CONTROL_BIND so an agent can add clients")
      ∷ []

  -- The checks before `parsedBind()`, which can throw (`none`), and those after it.
  unfoldable pub validate : (Text → Option ℤ) → Config fl → Option Text
  validate stoi c =
      let early = first_failure (account_checks c ++ (shape_checks c ++ limit_checks c)) in
      if is_empty early
      then Option.map (λ b. first_failure (bind_checks c b))
          (parse_control_bind stoi c.control_bind)
      else some early

first_failure_iff :
    (cs : List Check)
    → All (λ (c : Check). is_empty c.message ≡ false) cs
    → (is_empty (first_failure cs) ≡ true) ↔ All (λ (c : Check). c.failed ≡ false) cs
unfolding first_failure is_empty
first_failure_iff [] h = (λ e. tt, λ e. refl)
first_failure_iff (c ∷ cs) h =
    let (to, from) = first_failure_iff cs h.1 in ground (arith, h.0, to, from)

-- What an accepted configuration says of the account and of the numbers.
pub record IsSound {fl : Floats} (c : Config fl) : Type 0 where
  pub email_given : is_empty c.email ≡ false
  pub email_has_at : is_found (find_char 64 c.email) ≡ true
  pub password_given : needs_password c ≡ true → 8 ≤ length c.password
  pub url_given : is_empty c.management_api_url ≡ false
  pub app_id_positive : pos 1 ≤ℤ c.app_id
  pub clients_range : (pos 0 ≤ℤ c.clients) × (c.clients ≤ℤ c.index_limit)
  pub threads_positive : pos 1 ≤ℤ c.threads
  pub update_hz_range : (pos 1 ≤ℤ c.update_hz) × (c.update_hz ≤ℤ pos 1000)
  pub distance_range : (pos 0 ≤ℤ c.distance) × (c.distance ≤ℤ pos 255)
  pub pose_known :
      (text_eq c.pose_format (codes "ue5") ≡ true) ⊎ (text_eq c.pose_format (codes "bwf") ≡ true)
  pub volume_range : (pos 0 ≤ℤ c.volume_chunks) × (c.volume_chunks ≤ℤ pos 64)
  pub sparse_range : (pos 0 ≤ℤ c.sparse_range_chunks) × (c.sparse_range_chunks ≤ℤ pos 1_000_000_000)
  pub one_shape : (c.sparse_range_chunks ≤ℤ pos 0) ⊎ (c.volume_chunks ≤ℤ pos 0)
  pub sparse_group_positive : pos 1 ≤ℤ c.sparse_group
  pub spawn_range : pos 0 ≤ℤ c.spawn_radius_chunks
  pub decay_range : (pos 0 ≤ℤ c.decay) × (c.decay ≤ℤ pos 5)
  pub concurrency_positive : pos 1 ≤ℤ c.provision_concurrency
  pub ramp_positive : pos 1 ≤ℤ c.ramp_batch_size
  pub index_width_range : (pos 1 ≤ℤ c.index_width) × (c.index_width ≤ℤ pos 16)
  pub index_base_range : pos 0 ≤ℤ c.index_base
  pub replay_known :
      (text_eq c.replay_logging (codes "on") ≡ true)
      ⊎ (text_eq c.replay_logging (codes "off") ≡ true)
      ⊎ (text_eq c.replay_logging (codes "leave") ≡ true)
  pub window_range : (pos 0 ≤ℤ c.perm_window_radius_chunks) × (pos 0 ≤ℤ c.perm_reload_grace_ms)
  pub silence_range : pos 0 ≤ℤ c.rx_silent_reassign_sec
  pub rcvbuf_range : pos 0 ≤ℤ c.socket_rcvbuf_bytes

-- What it says of the control port: in range, and guarded by a token off the loopback interface;
-- and there is something to run.
pub record IsGuarded {fl : Floats} (c : Config fl) (b : ControlBind) : Type 0 where
  pub port_range : b.disabled ≡ false → (pos 1 ≤ℤ b.port) × (b.port ≤ℤ pos 65535)
  pub token_given : b.disabled ≡ false → b.loopback ≡ false → is_empty c.control_token ≡ false
  pub something_runs : b.disabled ≡ true → c.clients ≢ pos 0

abbrev Holds : List Check → Type 0
Holds cs = All (λ (k : Check). k.failed ≡ false) cs

account_iff :
    {fl : Floats} (c : Config fl)
    → Holds (account_checks c ++ (shape_checks c ++ limit_checks c)) ↔ IsSound c
unfolding is_empty
account_iff c = ground arith

bind_iff : {fl : Floats} (c : Config fl) (b : ControlBind) → Holds (bind_checks c b) ↔ IsGuarded c b
unfolding is_empty
bind_iff c b = ground arith

account_messages :
    {fl : Floats} (c : Config fl)
    → All
        (λ (k : Check). is_empty k.message ≡ false)
        (account_checks c ++ (shape_checks c ++ limit_checks c))
unfolding is_empty
account_messages c = ground arith

bind_messages :
    {fl : Floats} (c : Config fl) (b : ControlBind)
    → All (λ (k : Check). is_empty k.message ≡ false) (bind_checks c b)
unfolding is_empty
bind_messages c b = ground arith

text_is_empty : (t : Text) → is_empty t ≡ true → t ≡ []
unfolding is_empty
text_is_empty [] h = refl
text_is_empty (b ∷ bs) h = absurd (ground arith)

opened : Option Text → Bool
opened none = false
opened (some t) = is_empty t

some_empty_iff : (t : Text) → (is_empty t ≡ true) ↔ (some t ≡ some [])
unfolding is_empty opened
some_empty_iff t = (λ h. ap some (text_is_empty t h), λ e. ap opened e)

validate_if :
    {fl : Floats} (stoi : Text → Option ℤ) (c : Config fl) (b : ControlBind) (early : Bool)
    → is_empty (first_failure (account_checks c ++ (shape_checks c ++ limit_checks c))) ≡ early
    → parse_control_bind stoi c.control_bind ≡ some b
    → (validate stoi c ≡ some [])
      ↔ ((early ≡ true) × (is_empty (first_failure (bind_checks c b)) ≡ true))
unfolding validate
validate_if stoi c b true e h =
    let (to, from) = some_empty_iff (first_failure (bind_checks c b)) in
    rw (e, h) (λ v. (refl, from v), λ p. to p.1)
validate_if stoi c b false e h =
    let (to, from) =
      some_empty_iff (first_failure (account_checks c ++ (shape_checks c ++ limit_checks c))) in
    rw (e) (λ v. (sym e ∙ from v, absurd (ground (arith, e, from v))), λ p. absurd (ground arith))

-- When the control address parses, `validate` accepts a configuration exactly if its account and
-- numbers are sound, its control port is in range and needs a token off the loopback interface, and
-- there is something to run.
pub validate_iff :
    {fl : Floats} (stoi : Text → Option ℤ) (c : Config fl) (b : ControlBind)
    → parse_control_bind stoi c.control_bind ≡ some b
    → (validate stoi c ≡ some []) ↔ (IsSound c × IsGuarded c b)
validate_iff stoi c b h = ground (
  arith,
  validate_if stoi c b
      (is_empty (first_failure (account_checks c ++ (shape_checks c ++ limit_checks c)))) refl h,
  first_failure_iff (account_checks c ++ (shape_checks c ++ limit_checks c)) (account_messages c),
  first_failure_iff (bind_checks c b) (bind_messages c b),
  account_iff c,
  bind_iff c b,
)
