-- ===== src/Provisioner/Roster.antt =====
-- The constructor of `Provisioner`, which loads the roster, and what looks an index up in it.
pub mod Loaded
use cks_loadtest.Base.{
  ℕ, Bool, true, false, not, ◌&&◌, ◌||◌, Option, none, some, List, [], ◌∷◌, if◌then◌else◌, length,
  ◌==◌,
}
use cks_loadtest.Base.Int.{ℤ, pos, ◌==ℤ◌}
use cks_loadtest.Base.Text.{Text, codes, text_eq, is_empty}
use cks_loadtest.Platform.{Floats}
use cks_loadtest.Config.{Config}
use cks_loadtest.Graphql.{Json, Net}
use cks_loadtest.Graphql.Action.{
  Result, ok, err, Failure, other_exception, refused, no_roster_file, roster_not_json,
  foreign_roster, foreign_email,
}
use cks_loadtest.Graphql.Request.{trim_slash}
use cks_loadtest.Provisioner.{IntMap, find, insert, RosterAppToken, Provisioner}

-- The members that the loop over the sessions fills.
pub record Roster : Type 0 where
  pub tokens : IntMap Text
  pub emails : IntMap Text
  pub app_tokens : IntMap RosterAppToken

abbrev pub empty_roster : Roster
empty_roster = record { tokens = []; emails = []; app_tokens = [] }

infixl 5 ◌>>=◌
abbrev pub ◌>>=◌ : {A B : Type 0} → Result A → (A → Result B) → Result B
ok a >>= f = f a
err e >>= f = err e

abbrev pub of_option : {A : Type 0} → Option A → Result A
of_option none = err other_exception
of_option (some a) = ok a

-- `parseIso8601Utc` is a parameter, `iso`, read at the time of the load.
module _ (json : Json) (net : Net) (iso : Text → ℕ) where
  abbrev pub at_text : json.Value → Text → Result Text
  at_text v k = do x ← of_option (json.at v k); of_option (json.get_text x)

  abbrev pub has_text : json.Value → Text → Bool
  has_text v k =
      json.contains v k && (elim (json.at v k) [ none ↦ false | some x ↦ json.is_text x ])

  unfoldable pub add_email : json.Value → ℤ → Roster → Result Roster
  add_email entry idx r =
      if has_text entry (codes "email")
      then (do
        email ← at_text entry (codes "email")
        ok (record r { emails = insert idx email r.emails }))
      else ok r

  unfoldable pub entry_token_id : json.Value → Result ℤ
  entry_token_id entry =
      if has_text entry (codes "gameTokenId")
      then (do digits ← at_text entry (codes "gameTokenId"); of_option (net.stoll digits))
      else ok (pos 0)

  unfoldable pub entry_expiry : json.Value → Result ℕ
  entry_expiry entry =
      if has_text entry (codes "expiresAt")
      then (do stamp ← at_text entry (codes "expiresAt"); ok (iso stamp))
      else ok 0

  -- An entry whose token has another length, or whose id is 0, is passed over.
  unfoldable pub keep_app_token : ℤ → RosterAppToken → Roster → Roster
  keep_app_token idx at' r =
      if not (length at'.token == 64) || at'.game_token_id ==ℤ pos 0 then r else record r {
        app_tokens = insert idx at' r.app_tokens;
        tokens = insert idx (codes "app-token") r.tokens;
      }

  unfoldable pub add_token : Bool → json.Value → ℤ → Text → Roster → Result Roster
  add_token false entry idx token r = ok (record r { tokens = insert idx token r.tokens })
  add_token true entry idx token r = do
    id ← entry_token_id entry
    expiry ← entry_expiry entry
    ok (keep_app_token idx (record { token = token; game_token_id = id; expires_at = expiry }) r)

  unfoldable pub add_entry : Bool → json.Value → Roster → Result Roster
  add_entry app_kind entry r =
      if json.contains entry (codes "index") && json.contains entry (codes "token")
      then (do
        index ← of_option (json.at entry (codes "index"))
        idx ← of_option (json.get_int index)
        token ← at_text entry (codes "token")
        (if is_empty token
            then ok r
            else add_email entry idx r >>= add_token app_kind entry idx token))
      else ok r

  unfoldable pub add_entries : Bool → List json.Value → Roster → Result Roster
  add_entries app_kind [] r = ok r
  add_entries app_kind (entry ∷ entries) r =
      add_entry app_kind entry r >>= add_entries app_kind entries

  unfoldable pub roster_url : Bool → json.Value → Result Text
  roster_url app_kind doc =
      if app_kind && has_text doc (codes "gameApiUrl")
      then (do url ← at_text doc (codes "gameApiUrl"); ok (trim_slash url))
      else ok (codes "")

module _ {fl : Floats} (json : Json) (net : Net) (iso : Text → ℕ) where
  -- The origin that the roster names, if it does, against the one of this run.
  unfoldable pub check_origin : Config fl → json.Value → Result (Unit {0})
  check_origin cfg doc =
      if has_text json net iso doc (codes "origin")
      then (do
        origin ← at_text json net iso doc (codes "origin")
        (if text_eq (trim_slash origin) (trim_slash cfg.management_api_url)
            then ok tt
            else err (refused foreign_roster (codes ""))))
      else ok tt

  abbrev pub without_roster : Config fl → Provisioner fl
  without_roster cfg = record {
    config = cfg;
    roster = [];
    roster_emails = [];
    roster_kind_app_token = false;
    roster_app_tokens = [];
    roster_game_api_url = codes "";
  }

  unfoldable pub load_document : Config fl → json.Value → Result (Provisioner fl)
  load_document cfg doc = do
    origin_checked ← check_origin cfg doc
    kind ← of_option (json.text_at_or doc (codes "kind") (codes "session"))
    url ← roster_url json net iso (text_eq kind (codes "app-token")) doc
    entries ← of_option (json.elements_at doc (codes "sessions"))
    r ← add_entries json net iso (text_eq kind (codes "app-token")) entries empty_roster
    ok (record {
      config = cfg;
      roster = r.tokens;
      roster_emails = r.emails;
      roster_kind_app_token = text_eq kind (codes "app-token");
      roster_app_tokens = r.app_tokens;
      roster_game_api_url = url;
    })

  abbrev pub load_json : Config fl → Option json.Value → Result (Provisioner fl)
  load_json cfg none = err (refused roster_not_json (codes ""))
  load_json cfg (some doc) = load_document cfg doc

  abbrev pub load_file : Config fl → Option Text → Result (Provisioner fl)
  load_file cfg none = err (refused no_roster_file (codes ""))
  load_file cfg (some bytes) = load_json cfg (json.parse bytes)

  -- The constructor; `file` is what the roster file holds, if it can be opened.
  unfoldable pub new_provisioner : Config fl → Option Text → Result (Provisioner fl)
  new_provisioner cfg file =
      if is_empty cfg.roster_file then ok (without_roster cfg) else load_file cfg file

module _ {fl : Floats} (p : Provisioner fl) where
  abbrev pub check_email : {A : Type 0} → Option Text → Text → A → Result A
  check_email none email found = ok found
  check_email (some named) email found =
      if text_eq named email then ok found else err (refused foreign_email (codes ""))

  abbrev pub checked_app_token : Option RosterAppToken → ℤ → Text → Result (Option RosterAppToken)
  checked_app_token none index email = ok none
  checked_app_token (some t) index email = check_email (find index p.roster_emails) email (some t)

  -- `none` where the source returns false.
  unfoldable pub roster_app_token : ℤ → Text → Result (Option RosterAppToken)
  roster_app_token index email = checked_app_token (find index p.roster_app_tokens) index email

  abbrev pub checked_session : Option Text → ℤ → Text → Result Text
  checked_session none index email = ok []
  checked_session (some t) index email = check_email (find index p.roster_emails) email t

  unfoldable pub roster_session : ℤ → Text → Result Text
  roster_session index email = checked_session (find index p.roster) index email
