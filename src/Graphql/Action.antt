-- ===== src/Graphql/Action.antt =====
-- A call: it changes a state, and returns or throws. What it wrote before it threw stays written.
use cks_loadtest.Base.{Bool, false, Option, none, some, if◌then◌else◌, ◌≡◌, refl}
use cks_loadtest.Base.Text.{Text, codes}

-- The errors that the program itself raises, in place of their message.
pub data Refusal : Type 0 where
  no_roster_file roster_not_json foreign_roster foreign_email : Refusal
  password_rejected base_account_rejected not_entitled : Refusal
  no_game_api_url no_roster_game_api_url token_length : Refusal
  logging_not_set logging_refused : Refusal

-- What is thrown: a `GraphQLError` with its message, code and transport flag, one of the program's
-- own with its code, or another exception of the standard or the JSON library.
pub data Failure : Type 0 where
  graphql_error : Text → Text → Bool → Failure
  refused : Refusal → Text → Failure
  other_exception : Failure

abbrev pub is_transport : Failure → Bool
is_transport (graphql_error what code transport) = transport
is_transport (refused r code) = false
is_transport other_exception = false

abbrev pub code_of : Failure → Text
code_of (graphql_error what code transport) = code
code_of (refused r code) = code
code_of other_exception = codes ""

pub data Result (A : Type 0) : Type 0 where
  ok : A → Result A
  err : Failure → Result A

abbrev pub Action : Type 0 → Type 0 → Type 0
Action S A = S → Result A × S

module _ {S A : Type 0} where
  abbrev pub pure : A → Action S A
  pure a s = (ok a, s)

  abbrev pub raise : Failure → Action S A
  raise e s = (err e, s)

  abbrev pub or_throw : Option A → Action S A
  or_throw none = raise other_exception
  or_throw (some a) = pure a

  abbrev pub gets : (S → A) → Action S A
  gets f s = (ok (f s), s)

-- What follows a call that has ended: the rest of the block, if it returned.
abbrev pub and_then : {S A B : Type 0} → (A → Action S B) → Result A × S → Result B × S
and_then f (ok a, s) = f a s
and_then f (err e, s) = (err e, s)

-- `catch (const GraphQLError& e)`
abbrev pub handle : {S A : Type 0} → (Failure → Action S A) → Result A × S → Result A × S
handle handler (ok a, s) = (ok a, s)
handle handler (err (graphql_error what code transport), s) =
    handler (graphql_error what code transport) s
handle handler (err (refused r code), s) = handler (refused r code) s
handle handler (err other_exception, s) = (err other_exception, s)

infixl 5 ◌>>=◌ ◌>>◌
abbrev pub ◌>>=◌ : {S A B : Type 0} → Action S A → (A → Action S B) → Action S B
◌>>=◌ m f s = and_then f (m s)

abbrev pub ◌>>◌ : {S B : Type 0} → Action S (Unit {0}) → Action S B → Action S B
m >> k = m >>= λ _. k

abbrev pub raise_if : {S : Type 0} → Bool → Failure → Action S (Unit {0})
raise_if c e s = (if c then err e else ok tt, s)

abbrev pub modify : {S : Type 0} → (S → S) → Action S (Unit {0})
modify f s = (ok tt, f s)

abbrev pub catch : {S A : Type 0} → Action S A → (Failure → Action S A) → Action S A
catch m handler s = handle handler (m s)

module _ {S A B : Type 0} (m : Action S A) (f : A → Action S B) (s : S) {b : B} {u : S} where
  from_end :
      (r : Result A × S)
      → m s ≡ r
      → and_then f r ≡ (ok b, u)
      → (a : A) × (t : S) × (m s ≡ (ok a, t)) × (f a t ≡ (ok b, u))
  from_end (ok a, t) e h = (a, t, e, h)
  from_end (err x, t) e h = cc

  -- What a block that returns has done.
  pub bind-eq-ok :
      (m >>= f) s ≡ (ok b, u) → (a : A) × (t : S) × (m s ≡ (ok a, t)) × (f a t ≡ (ok b, u))
  bind-eq-ok = from_end (m s) refl

-- A relation between the states before and after a call, which blocks and handlers keep.
module _ {S : Type 0} (R : S → S → Type 0) where
  abbrev pub Keeps : {A : Type 0} → Action S A → Type 0
  Keeps m = (s : S) → R s (m s).1

  module _ (trans : (s t u : S) → R s t → R t u → R s u) {A : Type 0} where
    and_then-Keeps :
        {B : Type 0} (f : A → Action S B)
        → ((a : A) → Keeps (f a))
        → (s : S) (r : Result A × S) → R s r.1
        → R s (and_then f r).1
    and_then-Keeps f hf s (ok a, t) h = trans s t _ h (hf a t)
    and_then-Keeps f hf s (err e, t) h = h

    pub bind-Keeps :
        {B : Type 0} (m : Action S A) (f : A → Action S B)
        → Keeps m
        → ((a : A) → Keeps (f a))
        → Keeps (m >>= f)
    bind-Keeps m f hm hf s = and_then-Keeps f hf s (m s) (hm s)

    handle-Keeps :
        (f : Failure → Action S A)
        → ((e : Failure) → Keeps (f e))
        → (s : S) (r : Result A × S) → R s r.1
        → R s (handle f r).1
    handle-Keeps f hf s (ok a, t) h = h
    handle-Keeps f hf s (err (graphql_error w c x), t) h =
        trans s t _ h (hf (graphql_error w c x) t)
    handle-Keeps f hf s (err (refused r c), t) h = trans s t _ h (hf (refused r c) t)
    handle-Keeps f hf s (err other_exception, t) h = h

    pub catch-Keeps :
        (m : Action S A) (f : Failure → Action S A)
        → Keeps m
        → ((e : Failure) → Keeps (f e))
        → Keeps (catch m f)
    catch-Keeps m f hm hf s = handle-Keeps f hf s (m s) (hm s)
