-- ===== src/Python.antt =====
-- How Python code is modelled: a call returns a value or raises, and a method also changes state.
-- An exception is its class with the source's message template; the values formatted into a
-- message are left out. `foreign` is any exception raised by code outside the repository.
-- What a method wrote before it raised stays written.
pub mod Rules
use tessia_baselib.Prelude.{ℕ, String, Bool, true, false, if◌then◌else◌, Option, none, some, List}

pub data Error : Type 0 where
  runtime_error value_error type_error key_error index_error : String → Error
  attribute_error name_error connection_error not_implemented : String → Error
  unbound_local timeout_error ssh_error : String → Error
  -- a loop of the model ran out of rounds; no theorem's code ends so where enough are given
  out_of_fuel : Error
  foreign : ℕ → Error
  -- of zhmcclient: HTTPError and the details of ServerAuthError, each with its HTTP status and its
  -- reason, and NotFound
  http_error auth_error : ℕ → ℕ → Error
  not_found : Error
  -- S3270StatusError, with the output it was given
  status_error : String → Option (List ℕ) → Error

pub data Outcome {ℓ} (A : Type ℓ) : Type ℓ where
  returned : A → Outcome A
  raised : Error → Outcome A

abbrev pub Method {ℓ} : Type ℓ → Type ℓ → Type ℓ
Method S A = S → Outcome A × S

module _ {ℓ} {S A : Type ℓ} where
  unfoldable pub pure : A → Method S A
  pure a s = (returned a, s)

  unfoldable pub raise : Error → Method S A
  raise e s = (raised e, s)

  unfoldable pub lift : Outcome A → Method S A
  lift r s = (r, s)

  unfoldable pub gets : (S → A) → Method S A
  gets f s = (returned (f s), s)

-- `x[k]` on a dictionary: a missing key raises
abbrev pub or_raise {ℓ} : {A : Type ℓ} → Option A → Error → Outcome A
or_raise none e = raised e
or_raise (some a) e = returned a

-- a test for None
abbrev pub option_case {ℓ κ} : {A : Type ℓ} {B : Type κ} → Option A → B → (A → B) → B
option_case none n f = n
option_case (some a) n f = f a

unfoldable pub modify : {S : Type 0} → (S → S) → Method S (Unit {0})
modify f s = (returned tt, f s)

-- RuntimeError and its subclass NotImplementedError, which `except RuntimeError` catches
abbrev pub is_runtime : Error → Bool
is_runtime (runtime_error m) = true
is_runtime (not_implemented m) = true
is_runtime _ = false

abbrev pub is_timeout : Error → Bool
is_timeout (timeout_error m) = true
is_timeout _ = false

module _ {ℓ} {S A B : Type ℓ} where
  abbrev pub continue : Outcome A → (A → Method S B) → Method S B
  continue (returned a) f s = f a s
  continue (raised e) f s = (raised e, s)

  infixl 10 ◌>>=◌ ◌>>◌
  -- to open this is to open the actions above too
  unfoldable pub ◌>>=◌ : Method S A → (A → Method S B) → Method S B
  unfolding pure raise lift gets modify
  ◌>>=◌ m f s = let (r, s') = m s in continue r f s'

  abbrev pub ◌>>◌ : Method S A → Method S B → Method S B
  m >> k = m >>= λ _. k

module _ {ℓ} {S A : Type ℓ} where
  abbrev pub handle : (Error → Bool) → Method S A → Outcome A → Method S A
  handle test k (returned a) s = (returned a, s)
  handle test k (raised e) s = let rest = k s in if test e then rest else (raised e, s)

  -- `try: m` with `except RuntimeError: k`
  abbrev pub except_runtime : Method S A → Method S A → Method S A
  except_runtime m k s = let (r, s') = m s in handle is_runtime k r s'

  -- `try: m` with `except TimeoutError: k`
  abbrev pub except_timeout : Method S A → Method S A → Method S A
  except_timeout m k s = let (r, s') = m s in handle is_timeout k r s'
