-- ===== src/Config/Load.antt =====
-- `Config::load`, from the parsed command line on.
pub mod Accepted
use cks_loadtest.Base.{Bool, ◌&&◌, Option, none, some, List, [], ◌∷◌, take, if◌then◌else◌}
use cks_loadtest.Base.Int.{pos, ltb_ℤ}
use cks_loadtest.Base.Text.{Text, codes, is_empty}
use cks_loadtest.Platform.{Floats}
use cks_loadtest.Config.{Config}
use cks_loadtest.Config.File.{Kv, empty_kv, parse_kv_file, Numbers}
use cks_loadtest.Config.Settings.{CommandLine, layered, command_line}
use cks_loadtest.Config.Validate.{validate}

-- `exits` is `exit(2)` with a message (that of a file that cannot be opened also names the file), `throws` an exception that nothing catches.
pub data Loaded (fl : Floats) : Type 0 where
  loaded : Config fl → Loaded fl
  exits : Text → Loaded fl
  throws : Loaded fl

abbrev pub config_file : (Text → Option (List Text)) → Option Text → Option Kv
config_file read none = some empty_kv
config_file read (some path) = parse_kv_file (read path)

-- What `gethostname` gives.
abbrev pub default_instance_id : Option Text → Text
default_instance_id none = codes "cks-loadtest"
default_instance_id (some host) = take 255 host

module _ {fl : Floats} where
  unfoldable pub settle : Option Text → Config fl → Config fl
  settle host c =
      let index_limit = if ltb_ℤ c.index_limit (pos 0) then c.clients else c.index_limit in
      record c {
        instance_id = if is_empty c.instance_id then default_instance_id host else c.instance_id;
        index_limit = index_limit;
        threads =
            if ltb_ℤ (pos 0) c.clients && ltb_ℤ c.clients c.threads then c.clients else c.threads;
      }

  -- `validate` throws with the control address, on `std::stoi`.
  abbrev pub accept : Config fl → Option Text → Loaded fl
  accept c none = throws
  accept c (some []) = loaded c
  accept c (some (e ∷ err)) = exits (e ∷ err)

  abbrev pub checked :
      Numbers fl.Double → Option Text → CommandLine fl → Option (Config fl) → Loaded fl
  checked num host cli none = throws
  checked num host cli (some c) =
      let d = settle host (command_line cli c) in accept d (validate num.stoi d)

  abbrev pub load_from :
      Numbers fl.Double
      → (Text → Option Text)
      → Option Text
      → CommandLine fl
      → Option Kv
      → Loaded fl
  load_from num env host cli none = exits (codes "cannot open config file")
  load_from num env host cli (some kv) =
      checked num host cli (layered num (record { env = env; file = kv }))

  -- `read` gives the lines of a file.
  unfoldable pub load :
      Numbers fl.Double
      → (Text → Option (List Text))
      → (Text → Option Text)
      → Option Text
      → CommandLine fl
      → Loaded fl
  load num read env host cli =
      load_from num env host cli (config_file read (cli.str (codes "config")))
