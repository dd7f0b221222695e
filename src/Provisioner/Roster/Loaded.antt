-- ===== src/Provisioner/Roster/Loaded.antt =====
-- What a roster holds that the constructor has accepted, and whom its sessions are used for.
use cks_loadtest.Base.{
  ℕ, ◌≡◌, ◌≢◌, refl, arith, inl, inr, true, false, Bool, length, Option, none, some, List, [], ◌∷◌,
  Bool-cases, All, not, ◌||◌, ◌==◌,
}
use cks_loadtest.Base.Int.{ℤ, pos, ◌==ℤ◌}
use cks_loadtest.Base.Text.{Text, codes, is_empty, text_eq, text_eq_iff}
use cks_loadtest.Platform.{Floats}
use cks_loadtest.Config.{Config}
use cks_loadtest.Graphql.{Json, Net}
use cks_loadtest.Graphql.Action.{ok}
use cks_loadtest.Provisioner.{Provisioner, IntMap, find, insert, RosterAppToken}
use cks_loadtest.Provisioner.Roster.{
  Roster, check_email, checked_app_token, checked_session, keep_app_token, add_token, add_email,
  add_entry, add_entries, load_document, new_provisioner, roster_session, roster_app_token,
  empty_roster,
}

-- Of every value that a map holds.
abbrev pub AllValues : {A : Type 0} → (A → Type 0) → IntMap A → Type 0
AllValues P m = All (λ e. P e.1) m

insert-AllValues :
    {A : Type 0} (P : A → Type 0) (k : ℤ) (a : A) (m : IntMap A)
    → P a
    → AllValues P m
    → AllValues P (insert k a m)
unfolding insert
insert-AllValues P k a [] h all = (h, tt)
insert-AllValues P k a ((j, c) ∷ m) h (hc, all) = elim (Bool-cases (j ==ℤ k)) [
  | inl same ↦ rw same (h, all)
  | inr other ↦ rw other (hc, insert-AllValues P k a m h all)
]

pub find-AllValues :
    {A : Type 0} (P : A → Type 0) (k : ℤ) (a : A) (m : IntMap A)
    → AllValues P m
    → find k m ≡ some a
    → P a
unfolding find
find-AllValues P k a [] all e = absurd (cc)
find-AllValues P k a ((j, c) ∷ m) (hc, all) e = elim (Bool-cases (j ==ℤ k)) [
  | inl same ↦ let e' : c ≡ a = ground (arith, e, same) in rw⁻¹ e' hc
  | inr other ↦ find-AllValues P k a m all (ground (arith, e, other))
]

abbrev pub IsAppToken : RosterAppToken → Type 0
IsAppToken t = (length t.token ≡ 64) × (t.game_token_id ≢ pos 0)

-- The app tokens can be used, and a session that is found is not empty, so that it replaces a sign-in.
abbrev pub IsRoster : Roster → Type 0
IsRoster r = AllValues IsAppToken r.app_tokens × AllValues (λ t. is_empty t ≡ false) r.tokens

module _ {fl : Floats} (p : Provisioner fl) where
  -- A roster entry that names another email than the client's is refused.
  check_email-ok :
      {A : Type 0} (o : Option Text) (email : Text) (a b : A)
      → check_email p o email a ≡ ok b
      → (a ≡ b) × ((named : Text) → o ≡ some named → named ≡ email)
  check_email-ok none email a b h = (ground arith, λ named e. cc)
  check_email-ok (some x) email a b h = elim (Bool-cases (text_eq x email)) [
    | inl same ↦ (ground (arith, same, h), λ named e. ground (arith, e, text_eq_iff x email, same))
    | inr other ↦ absurd (ground (arith, other, h))
  ]

  checked-found :
      (o : Option RosterAppToken) (index : ℤ) (email : Text) (t : RosterAppToken)
      → checked_app_token p o index email ≡ ok (some t)
      → o ≡ some t
  checked-found none index email t h = cc
  checked-found (some x) index email t h =
      (check_email-ok (find index p.roster_emails) email (some x) (some t) h).0

  pub roster_app_token-found :
      (index : ℤ) (email : Text) (t : RosterAppToken)
      → roster_app_token p index email ≡ ok (some t)
      → find index p.roster_app_tokens ≡ some t
  unfolding roster_app_token
  roster_app_token-found index email t h =
      checked-found (find index p.roster_app_tokens) index email t h

  -- A session that is taken from the roster for an index stands in the roster for it, and the entry names
  -- no other email than the one it is used for.
  pub roster_session-IsOwn :
      (index : ℤ) (email session : Text)
      → roster_session p index email ≡ ok session
      → is_empty session ≡ false
      → (find index p.roster ≡ some session)
        × ((named : Text) → find index p.roster_emails ≡ some named → named ≡ email)
  unfolding roster_session is_empty
  roster_session-IsOwn index email session h nonempty = from_entry (find index p.roster) refl h
    where
      from_entry :
          (o : Option Text)
          → find index p.roster ≡ o
          → checked_session p o index email ≡ ok session
          → (find index p.roster ≡ some session)
            × ((named : Text) → find index p.roster_emails ≡ some named → named ≡ email)
      from_entry none e k = absurd (ground (arith, k, nonempty))
      from_entry (some t) e k =
          let (same, own) = check_email-ok (find index p.roster_emails) email t session k in
          (rw (e, same) refl, own)

module _ (json : Json) (net : Net) (iso : Text → ℕ) where
  keep_app_token-IsRoster :
      (idx : ℤ) (t : RosterAppToken) (r : Roster)
      → IsRoster r
      → IsRoster (keep_app_token json net iso idx t r)
  unfolding keep_app_token is_empty
  keep_app_token-IsRoster idx t r h =
      elim (Bool-cases (not (length t.token == 64) || t.game_token_id ==ℤ pos 0)) [
        | inl skipped ↦ rw skipped h
        | inr kept ↦ rw kept (
          insert-AllValues IsAppToken idx t r.app_tokens (ground (arith, kept)) h.0,
          insert-AllValues (λ t. is_empty t ≡ false) idx (codes "app-token") r.tokens refl h.1,
        )
      ]

  add_token-IsRoster :
      (app_kind : Bool) (entry : json.Value) (idx : ℤ) (token : Text) (r r' : Roster)
      → is_empty token ≡ false
      → IsRoster r
      → add_token json net iso app_kind entry idx token r ≡ ok r'
      → IsRoster r'
  unfolding add_token
  add_token-IsRoster false entry idx token r r' nonempty h e =
      let e' : record r { tokens = insert idx token r.tokens } ≡ r' = ground (arith, e) in
      rw⁻¹ e' (h.0, insert-AllValues (λ t. is_empty t ≡ false) idx token r.tokens nonempty h.1)
  add_token-IsRoster true entry idx token r r' nonempty h e = grind (arith, keep_app_token-IsRoster)

  add_email-IsRoster :
      (entry : json.Value) (idx : ℤ) (r r' : Roster)
      → IsRoster r
      → add_email json net iso entry idx r ≡ ok r'
      → IsRoster r'
  unfolding add_email
  add_email-IsRoster entry idx r r' h e = grind arith

  add_entry-IsRoster :
      (app_kind : Bool) (entry : json.Value) (r r' : Roster)
      → IsRoster r
      → add_entry json net iso app_kind entry r ≡ ok r'
      → IsRoster r'
  unfolding add_entry
  add_entry-IsRoster app_kind entry r r' h e = grind (arith, add_email-IsRoster, add_token-IsRoster)

  add_entries-IsRoster :
      (app_kind : Bool) (entries : List json.Value) (r r' : Roster)
      → IsRoster r
      → add_entries json net iso app_kind entries r ≡ ok r'
      → IsRoster r'
  unfolding add_entries
  add_entries-IsRoster app_kind [] r r' h e = let e' : r ≡ r' = ground (arith, e) in rw⁻¹ e' h
  add_entries-IsRoster app_kind (entry ∷ entries) r r' h e =
      grind (arith, add_entry-IsRoster app_kind entry r, add_entries-IsRoster app_kind entries)

module _ {fl : Floats} (json : Json) (net : Net) (iso : Text → ℕ) where
  -- What the members say of the roster.
  abbrev pub roster_of : Provisioner fl → Roster
  roster_of p = record {
    tokens = p.roster;
    emails = p.roster_emails;
    app_tokens = p.roster_app_tokens;
  }

  load_document-IsRoster :
      (cfg : Config fl) (doc : json.Value) (p : Provisioner fl)
      → load_document json net iso cfg doc ≡ ok p
      → IsRoster (roster_of p) × (p.config ≡ cfg)
  unfolding load_document
  load_document-IsRoster cfg doc p h = grind (
    arith,
    λ (kind : Bool) (es : List json.Value) (r : Roster).
        add_entries-IsRoster json net iso kind es empty_roster r (tt, tt),
  )

  -- Whatever file the constructor accepts, every app token that it loads has 64 octets and an id
  -- other than 0, no session that it loads is empty, and the configuration is the one it was given.
  pub new_provisioner-IsRoster :
      (cfg : Config fl) (file : Option Text) (p : Provisioner fl)
      → new_provisioner json net iso cfg file ≡ ok p
      → IsRoster (roster_of p) × (p.config ≡ cfg)
  unfolding new_provisioner
  new_provisioner-IsRoster cfg file p h = grind (arith, load_document-IsRoster cfg)
