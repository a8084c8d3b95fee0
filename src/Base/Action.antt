-- ===== src/Base/Action.antt =====
-- Stateful code that may fail: an action returns an `esp_err_t` or a value and the new state, and
-- `none` is a crash, such as a null dereference, a failed assertion or a write out of a buffer.
use mathlib.Core.Bool.{Bool, true, false}
use mathlib.Core.Option.{Option, none, some}
use bindkey_esp.Base.Esp.{EspErr, Result, ok, err}

abbrev pub Act : Type 0 → Type 0 → Type 0
Act S A = S → Option (Result A × S)

module _ {S A : Type 0} where
  abbrev pub pure : A → Act S A
  pure a s = some (ok a, s)

  abbrev pub throw : EspErr → Act S A
  throw e s = some (err e, s)

  abbrev pub crash : Act S A
  crash s = none

  -- The returned error as a value, where the caller looks at it or ignores it.
  abbrev pub outcome : Option (Result A × S) → Option (Result (Result A) × S)
  outcome none = none
  outcome (some (r, s)) = some (ok r, s)

  abbrev pub attempt : Act S A → Act S (Result A)
  attempt m s = outcome (m s)

  abbrev pub from_result : Result A → Act S A
  from_result r s = some (r, s)

  abbrev pub gets : (S → A) → Act S A
  gets f s = some (ok (f s), s)

abbrev pub modify : {S : Type 0} → (S → S) → Act S (Unit {0})
modify f s = some (ok tt, f s)

abbrev pub proceed : {S A B : Type 0} → Result A → S → (A → Act S B) → Option (Result B × S)
proceed (ok a) s f = f a s
proceed (err e) s f = some (err e, s)

abbrev pub resume : {S A B : Type 0} → Option (Result A × S) → (A → Act S B) → Option (Result B × S)
resume none f = none
resume (some (r, s)) f = proceed r s f

infixl 5 ◌>>=◌ ◌>>◌
abbrev pub ◌>>=◌ : {S A B : Type 0} → Act S A → (A → Act S B) → Act S B
◌>>=◌ m f s = resume (m s) f

abbrev pub ◌>>◌ : {S B : Type 0} → Act S (Unit {0}) → Act S B → Act S B
m >> k = m >>= λ _. k

-- `if (!cond) return e;`
abbrev pub guard : {S : Type 0} → Bool → EspErr → Act S (Unit {0})
guard true e s = some (ok tt, s)
guard false e s = some (err e, s)

-- `assert(cond)`
abbrev pub assert : {S : Type 0} → Bool → Act S (Unit {0})
assert true s = some (ok tt, s)
assert false s = none

-- An action whose result is ignored.
abbrev pub ignore : {S A : Type 0} → Act S A → Act S (Unit {0})
ignore m = attempt m >>= λ _. pure tt

-- The value behind a pointer, or a crash at null.
abbrev pub deref : {S A : Type 0} → Option A → Act S A
deref none s = none
deref (some a) s = some (ok a, s)
