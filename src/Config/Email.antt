-- ===== src/Config/Email.antt =====
-- `formatIndex` and `derivedEmail` of src/Config.cpp.
use cks_loadtest.Base.{
  ℕ, zero, suc, ◌+◌, ◌-◌, true, false, Option, none, some, [], ◌∷◌, ◌++◌, take, drop, length,
}
use cks_loadtest.Base.Int.{ℤ}
use cks_loadtest.Base.Text.{Text, codes, is_prefix, find_char}
use cks_loadtest.Platform.{Floats}
use cks_loadtest.Config.{Config}

-- The text with every occurrence of `from`, from left to right, replaced; the loop goes on behind
-- what it has put in. `skip` characters belong to an occurrence that has been replaced.
unfoldable pub replace_from : Text → Text → ℕ → Text → Text
replace_from from to skip [] = []
replace_from from to (suc skip) (c ∷ cs) = replace_from from to skip cs
replace_from from to zero (c ∷ cs) = elim (is_prefix from (c ∷ cs)) [
  | true ↦ to ++ replace_from from to (length from - 1) cs
  | false ↦ c ∷ replace_from from to zero cs
]

abbrev pub replace_all : Text → Text → Text → Text
replace_all from to s = replace_from from to 0 s

abbrev pub before_at : Text → Option ℕ → Text
before_at email none = email
before_at email (some i) = take i email

abbrev pub after_at : Text → Option ℕ → Text
after_at email none = []
after_at email (some i) = drop (i + 1) email

-- `padded w n` is what `snprintf("%0*d", w, n)` writes into a buffer that is large enough.
module _ {fl : Floats} (padded : ℤ → ℤ → Text) (c : Config fl) where
  unfoldable pub format_index : ℤ → Text
  format_index global_index = take 31 (padded c.index_width global_index)

  unfoldable pub derived_email : ℤ → Text
  derived_email global_index =
      let at_sign = find_char 64 c.email in
      replace_all (codes "{index}") (format_index global_index) (
        replace_all (codes "{domain}") (after_at c.email at_sign)
          (replace_all (codes "{local}") (before_at c.email at_sign) c.email_pattern))
