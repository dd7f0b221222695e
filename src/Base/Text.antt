-- ===== src/Base/Text.antt =====
-- `std::string` as its bytes: literals, equality, and the standard library's searches.
use Prim.Native.Char.{code}
use Prim.Native.String.{String}
use cks_loadtest.Base.Tests.{◌==◌, if◌then◌else◌}
use cks_loadtest.Base.Words.{Bytes}
use Prim.Native.Nat.{ℕ, suc}
use mathlib.Core.Path.{◌≡◌}
use mathlib.Core.Logic.{◌↔◌}
use mathlib.Core.Bool.{Bool, true, false, ◌&&◌, ◌||◌}
use mathlib.Core.Option.{Option, none, some}
use mathlib.Core.Option
use mathlib.Core.List.{[], ◌∷◌}
use native.Mathlib.Omega.{arith}

abbrev pub Text : Type 0
Text = Bytes

-- A literal of the source; all of them are ASCII.
abbrev pub codes : String → Text
codes String.[] = []
codes (String.◌∷◌ c s) = code c ∷ codes s

unfoldable pub text_eq : Text → Text → Bool
text_eq [] [] = true
text_eq [] (b ∷ bs) = false
text_eq (a ∷ as') [] = false
text_eq (a ∷ as') (b ∷ bs) = a == b && text_eq as' bs

pub text_eq_iff : (s t : Text) → (text_eq s t ≡ true) ↔ (s ≡ t)
unfolding text_eq
text_eq_iff [] [] = ground arith
text_eq_iff [] (b ∷ bs) = ground arith
text_eq_iff (a ∷ as') [] = ground arith
text_eq_iff (a ∷ as') (b ∷ bs) = ground (arith, text_eq_iff as' bs)

unfoldable pub is_empty : Text → Bool
is_empty [] = true
is_empty (b ∷ bs) = false

-- `s.find(c)`; `none` is `npos`.
unfoldable pub find_char : ℕ → Text → Option ℕ
find_char c [] = none
find_char c (b ∷ bs) =
    let later = Option.map suc (find_char c bs) in if b == c then some 0 else later

unfoldable pub is_prefix : Text → Text → Bool
is_prefix [] s = true
is_prefix (a ∷ as') [] = false
is_prefix (a ∷ as') (b ∷ bs) = a == b && is_prefix as' bs

-- `s.find(t) != npos`
unfoldable pub contains_text : Text → Text → Bool
contains_text t [] = is_prefix t []
contains_text t (b ∷ bs) = let later = contains_text t bs in is_prefix t (b ∷ bs) || later
