-- ===== src/Config/Bind.antt =====
-- `trim` and `parseControlBind` of src/Config.cpp.
use cks_loadtest.Base.{
  ℕ, suc, ◌+◌, Bool, true, false, ◌&&◌, ◌||◌, Option, none, some, [], ◌∷◌, if◌then◌else◌, ◌==◌,
  take, drop, length, ltb, get_or,
}
use mathlib.Core.Option
use cks_loadtest.Base.Int.{ℤ, pos}
use cks_loadtest.Base.Text.{Text, codes, text_eq, is_empty, find_char}

pub record ControlBind : Type 0 where
  pub host : Text
  pub port : ℤ
  pub loopback : Bool
  pub wildcard : Bool
  pub disabled : Bool

abbrev pub default_bind : ControlBind
default_bind = record {
  host = codes "127.0.0.1";
  port = pos 9109;
  loopback = true;
  wildcard = false;
  disabled = false;
}

abbrev pub is_blank : ℕ → Bool
is_blank c = c == 32 || c == 9 || c == 13 || c == 10

unfoldable pub drop_blanks : Text → Text
drop_blanks [] = []
drop_blanks (c ∷ cs) = let rest = drop_blanks cs in if is_blank c then rest else c ∷ cs

-- The part up to the last character that is not blank.
unfoldable pub drop_trailing : Text → Text
drop_trailing [] = []
drop_trailing (c ∷ cs) =
    let rest = drop_trailing cs in if is_blank c && is_empty rest then [] else c ∷ rest

unfoldable pub trim : Text → Text
trim s = drop_trailing (drop_blanks s)

last_of : Bool → Option ℕ → Option ℕ
last_of here none = if here then some 0 else none
last_of here (some i) = some (suc i)

-- `s.rfind(c)`
unfoldable pub rfind_char : ℕ → Text → Option ℕ
unfolding last_of
rfind_char c [] = none
rfind_char c (b ∷ bs) = last_of (b == c) (rfind_char c bs)

abbrev pub with_address : Text → ℤ → ControlBind
with_address host port = record default_bind { host = host; port = port }

abbrev pub classify_host : ControlBind → ControlBind
classify_host b =
    let host = if is_empty b.host then codes "0.0.0.0" else b.host in
    record b {
      host = host;
      wildcard =
          text_eq host (codes "0.0.0.0") || text_eq host (codes "*") || text_eq host (codes "::");
      loopback =
          text_eq host (codes "127.0.0.1")
          || text_eq host (codes "::1")
          || text_eq host (codes "localhost");
    }

-- `std::stoi`, with `none` for an exception, is a parameter.
module _ (stoi : Text → Option ℤ) where
  abbrev port_after : Text → ℕ → Option ControlBind
  port_after s colon = Option.map (with_address (take colon s)) (stoi (drop (colon + 1) s))

  abbrev bracketed : Text → Option ℕ → Option ControlBind
  bracketed s none = some (with_address s (pos 9109))
  bracketed s (some rb) =
      let host = drop 1 (take rb s) in
      Option.map classify_host (
        if ltb (rb + 1) (length s) && get_or s (rb + 1) 0 == 58
        then Option.map (with_address host) (stoi (drop (rb + 2) s))
        else some (with_address host (pos 9109)))

  abbrev plain : Text → Option ℕ → Option ControlBind
  plain s none = some (classify_host (with_address s (pos 9109)))
  plain s (some colon) = Option.map classify_host (port_after s colon)

  unfoldable pub parse_control_bind : Text → Option ControlBind
  parse_control_bind spec =
      let s = trim spec in
      if is_empty s
        || text_eq s (codes "off")
        || text_eq s (codes "none")
        || text_eq s (codes "disabled")
      then some (record default_bind { disabled = true })
      else if get_or s 0 0 == 91
      then bracketed s (find_char 93 s)
      else plain s (rfind_char 58 s)
