-- ===== src/Config/Load/Accepted.antt =====
-- What `load` returns.
use cks_loadtest.Base.{
  ◌≡◌, refl, subst, ◌⊎◌, arith, ap, if◌then◌else◌, Option, none, some, List, [], ◌∷◌,
}
use mathlib.Core.Option
use cks_loadtest.Base.Int.{pos, ◌≤ℤ◌}
use cks_loadtest.Base.Text.{Text, codes, is_empty}
use cks_loadtest.Platform.{Floats}
use cks_loadtest.Config.{Config}
use cks_loadtest.Config.Bind.{ControlBind, parse_control_bind}
use cks_loadtest.Config.File.{Numbers, Kv}
use cks_loadtest.Config.Settings.{CommandLine, layered, command_line}
use cks_loadtest.Config.Validate.{validate, validate_iff, IsSound, IsGuarded}
use cks_loadtest.Config.Load.{
  Loaded, loaded, exits, throws, settle, accept, checked, load_from, config_file, load,
}

module _ {fl : Floats} where
  config_or : Config fl → Loaded fl → Config fl
  config_or d (loaded c) = c
  config_or d (exits err) = d
  config_or d throws = d

  loaded_inj : (c d : Config fl) → loaded c ≡ loaded d → c ≡ d
  unfolding config_or
  loaded_inj c d e = ap (config_or c) e

  accept-loaded :
      (d c : Config fl) (v : Option Text) → accept d v ≡ loaded c → (v ≡ some []) × (d ≡ c)
  accept-loaded d c none e = ground arith
  accept-loaded d c (some []) e = (refl, loaded_inj d c e)
  accept-loaded d c (some (x ∷ xs)) e = ground arith

  threads-settle :
      (host : Option Text) (c : Config fl)
      → ((settle host c).clients ≤ℤ pos 0) ⊎ ((settle host c).threads ≤ℤ (settle host c).clients)
  unfolding settle
  threads-settle host c = ground arith

  binds :
      (c : Config fl) (early : Text) (bind : Option ControlBind) (later : ControlBind → Text)
      → (if is_empty early then Option.map later bind else some early) ≡ some []
      → (b : ControlBind) × (bind ≡ some b)
  unfolding is_empty
  binds c [] none later v = absurd (ground arith)
  binds c [] (some b) later v = (b, refl)
  binds c (x ∷ xs) bind later v = absurd (ground arith)

  validate-binds :
      (num : Numbers fl.Double) (c : Config fl)
      → validate num.stoi c ≡ some []
      → (b : ControlBind) × (parse_control_bind num.stoi c.control_bind ≡ some b)
  unfolding validate
  validate-binds num c v = binds c _ _ _ v

  checked-loaded :
      (num : Numbers fl.Double) (host : Option Text) (cli : CommandLine fl) (o : Option (Config fl))
      (c : Config fl)
      → checked num host cli o ≡ loaded c
      → (base : Config fl) × (o ≡ some base)
        × (settle host (command_line cli base) ≡ c)
        × (validate num.stoi c ≡ some [])
  checked-loaded num host cli none c e = absurd (ground arith)
  checked-loaded num host cli (some base) c e =
      let d = settle host (command_line cli base) in
      let (v, same) = accept-loaded d c (validate num.stoi d) e in
      (base, refl, same, subst (λ x. validate num.stoi x ≡ some []) same v)

  from-loaded :
      (num : Numbers fl.Double) (env : Text → Option Text) (host : Option Text)
      (cli : CommandLine fl) (o : Option Kv) (c : Config fl)
      → load_from num env host cli o ≡ loaded c
      → (kv : Kv) × (o ≡ some kv)
        × (checked num host cli (layered num (record { env = env; file = kv })) ≡ loaded c)
  from-loaded num env host cli none c e = absurd (ground arith)
  from-loaded num env host cli (some kv) c e = (kv, refl, e)

-- A configuration that `load` returns is the one of the defaults, the layers over the file and the command
-- line, settled; its account and numbers are sound, its control address parses, its control port is guarded,
-- and it has no more threads than clients, if it has clients.
pub load-IsAccepted :
    (fl : Floats) (num : Numbers fl.Double) (read : Text → Option (List Text))
    (env : Text → Option Text) (host : Option Text) (cli : CommandLine fl) (c : Config fl)
    → load num read env host cli ≡ loaded c
    → ((kv : Kv) × (base : Config fl) × (config_file read (cli.str (codes "config")) ≡ some kv)
        × (layered num (record { env = env; file = kv }) ≡ some base)
        × (settle host (command_line cli base) ≡ c))
      × IsSound c
      × ((b : ControlBind) × (parse_control_bind num.stoi c.control_bind ≡ some b) × IsGuarded c b)
      × ((c.clients ≤ℤ pos 0) ⊎ (c.threads ≤ℤ c.clients))
unfolding load
load-IsAccepted fl num read env host cli c e =
    let (kv, opened, checks) =
      from-loaded num env host cli (config_file read (cli.str (codes "config"))) c e in
    let (base, found, same, valid) =
      checked-loaded num host cli (layered num (record { env = env; file = kv })) c checks in
    let (b, parsed) = validate-binds num c valid in
    let (to, back) = validate_iff num.stoi c b parsed in
    let (sound, guarded) = to valid in
    (
      (kv, base, opened, found, same),
      sound,
      (b, parsed, guarded),
      subst (λ d. (d.clients ≤ℤ pos 0) ⊎ (d.threads ≤ℤ d.clients)) same
          (threads-settle host (command_line cli base)),
    )
