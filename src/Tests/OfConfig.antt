-- ===== src/Tests/OfConfig.antt =====
-- Witnesses for the sources of the configuration.
use cks_loadtest.Base.{ℕ, ◌≡◌, ◌⊎◌, refl, Option, none, some, List, [], ◌∷◌, map, if◌then◌else◌}
use cks_loadtest.Base.Int.{pos, ◌≤ℤ◌}
use cks_loadtest.Base.Text.{Text, codes, text_eq, is_empty, find_char}
use cks_loadtest.Config.{Config, needs_password}
use cks_loadtest.Config.Bind.{ControlBind, parse_control_bind, trim, drop_blanks, drop_trailing}
use cks_loadtest.Config.Defaults.{default_config}
use cks_loadtest.Config.File.{Kv, Numbers, empty_kv, parse_lines, get, get_number, get_bool}
use cks_loadtest.Config.File.Layered.{render, get-Layered}
use cks_loadtest.Config.Settings.{CommandLine, text_settings, run_steps, layered, command_line}
use cks_loadtest.Config.Load.{config_file, settle, load}
use cks_loadtest.Config.Load.Accepted.{load-IsAccepted}
use cks_loadtest.Config.Validate.{IsSound, IsGuarded, validate, first_failure}
use cks_loadtest.Tests.{floats}

abbrev unset : Text → Option Text
unset name = none

-- The second line has a value with a blank, a `#` and a quote.
abbrev entries : List (Text × Text)
entries =
    (codes "LT_EMAIL", codes "a@b")
    ∷ (codes "LT_PASSWORD", 32 ∷ 35 ∷ 34 ∷ [])
    ∷ (codes "LT_EMAIL", codes "c@d")
    ∷ []

get-Layered_example :
    get
      (record { env = unset; file = parse_lines (map render entries) empty_kv })
      (codes "LT_EMAIL")
      []
    ≡ codes "c@d"
unfolding drop_trailing find_char is_empty text_eq
get-Layered_example =
    get-Layered unset entries (codes "LT_EMAIL") []
      ((refl, refl, refl, refl), ((refl, refl, refl, refl), ((refl, refl, refl, refl), tt)))

abbrev numbers : Numbers ℕ
numbers = record { stoi = λ t. none; stoll = λ t. none; stod = λ t. none }

abbrev no_files : Text → Option (List Text)
no_files path = none

abbrev options : CommandLine floats
options = record {
  str = λ name.
      if text_eq name (codes "email")
      then some (codes "a@b")
      else if text_eq name (codes "password")
      then some (codes "long secret")
      else if text_eq name (codes "management-api-url")
      then some (codes "u")
      else if text_eq name (codes "control-bind")
      then some (codes "off")
      else none;
  int = λ name. if text_eq name (codes "threads") then some (pos 40) else none;
  i64 = λ name. some (pos 1);
  double = λ name. none;
  bool = λ name. none;
}

abbrev loaded_config : Config floats
loaded_config = record default_config {
  email = codes "a@b";
  password = codes "long secret";
  management_api_url = codes "u";
  control_bind = codes "off";
  app_id = pos 1;
  instance_id = codes "cks-loadtest";
  index_limit = pos 10;
  threads = pos 10;
}

load-IsAccepted_example :
    ((kv : Kv) × (base : Config floats) × (config_file no_files (options.str (codes "config"))
        ≡ some kv)
      × (layered numbers (record { env = unset; file = kv }) ≡ some base)
      × (settle none (command_line options base) ≡ loaded_config))
    × IsSound loaded_config
    × ((b : ControlBind) × (parse_control_bind numbers.stoi loaded_config.control_bind ≡ some b)
        × IsGuarded loaded_config b)
    × ((loaded_config.clients ≤ℤ pos 0) ⊎ (loaded_config.threads ≤ℤ loaded_config.clients))
unfolding load text_settings get get_number get_bool run_steps layered command_line settle validate
    parse_control_bind trim drop_blanks drop_trailing is_empty text_eq needs_password find_char
    first_failure
load-IsAccepted_example =
    load-IsAccepted floats numbers no_files unset none options loaded_config refl
