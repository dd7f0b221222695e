-- ===== src/Config/File.antt =====
-- The configuration file and the layers of src/Config.cpp: `parseKvFile` and `Layers`.
pub mod Layered
use cks_loadtest.Base.{
  ℕ, suc, ◌-◌, Bool, true, false, ◌&&◌, ◌||◌, Option, none, some, List, [], ◌∷◌, if◌then◌else◌,
  ◌==◌, leb, take, drop, length, get_or,
}
use cks_loadtest.Base.Int.{ℤ}
use cks_loadtest.Base.Text.{Text, codes, text_eq, is_empty, find_char}
use cks_loadtest.Config.Bind.{trim}

-- `std::unordered_map<std::string, std::string>`
abbrev pub Kv : Type 0
Kv = Text → Option Text

abbrev pub empty_kv : Kv
empty_kv k = none

abbrev pub assign : Text → Text → Kv → Kv
assign key val kv k = if text_eq k key then some val else kv k

-- The value between single or double quotes.
unfoldable pub unquote : Text → Text
unquote val =
    let first = get_or val 0 0 in
    let last = get_or val (length val - 1) 0 in
    if leb 2 (length val) && (first == 34 && last == 34 || first == 39 && last == 39)
    then take (length val - 2) (drop 1 val)
    else val

abbrev split_at : Text → Option ℕ → Option (Text × Text)
split_at t none = none
split_at t (some eq) = some (trim (take eq t), unquote (trim (drop (suc eq) t)))

-- The key and the value of a line; `none` for a blank line, a comment and a line without `=`.
unfoldable pub parse_line : Text → Option (Text × Text)
parse_line line =
    let t = trim line in
    if is_empty t || get_or t 0 0 == 35 then none else split_at t (find_char 61 t)

abbrev pub store_line : Option (Text × Text) → Kv → Kv
store_line none kv = kv
store_line (some (key, val)) kv = assign key val kv

unfoldable pub parse_lines : List Text → Kv → Kv
parse_lines [] kv = kv
parse_lines (line ∷ lines) kv = parse_lines lines (store_line (parse_line line) kv)

-- The lines of the file; `none` where it cannot be opened, on which the program exits.
abbrev pub parse_kv_file : Option (List Text) → Option Kv
parse_kv_file none = none
parse_kv_file (some lines) = some (parse_lines lines empty_kv)

-- What `std::stoi`, `std::stoll` and `std::stod` read; `none` where they throw, which ends the program.
pub record Numbers (Double : Type 0) : Type 0 where
  pub stoi : Text → Option ℤ
  pub stoll : Text → Option ℤ
  pub stod : Text → Option Double

-- `Layers`, with the environment.
pub record Layers : Type 0 where
  pub env : Text → Option Text
  pub file : Kv

abbrev pub or_else : Option Text → Text → Text
or_else none fallback = fallback
or_else (some v) fallback = v

abbrev pub get_file : Option Text → Option Text → Text → Text
get_file (some v) found fallback = v
get_file none found fallback = or_else found fallback

module _ (l : Layers) where
  unfoldable pub get : Text → Text → Text
  get name fallback = get_file (l.env name) (l.file name) fallback

  -- `getInt`, `getI64` and `getDouble`, with the function that reads the number.
  unfoldable pub get_number : {A : Type 0} → (Text → Option A) → Text → A → Option A
  get_number read name fallback =
      let v = get name [] in if is_empty v then some fallback else read v

  unfoldable pub get_bool : Text → Bool → Bool
  get_bool name fallback =
      let v = get name [] in
      if is_empty v
      then fallback
      else text_eq v (codes "1")
        || text_eq v (codes "true")
        || text_eq v (codes "yes")
        || text_eq v (codes "on")
