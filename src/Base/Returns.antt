-- ===== src/Base/Returns.antt =====
-- Properties of what an action returns, and of buffers that keep their length.
use mathlib.Core.Path.{◌≡◌}
use mathlib.Core.Option.{Option, none, some}
use mathlib.Core.List.{List}
use Prim.Native.Nat.{ℕ}
use bindkey_esp.Base.Lists.{length}
use bindkey_esp.Base.Esp.{Result, ok, err}
use bindkey_esp.Base.Action.{Act, resume, outcome}

-- Every value that an action returns has the property.
unfoldable pub Returns : {S A : Type 0} → (A → Type 0) → Option (Result A × S) → Type 0
Returns P none = Unit
Returns P (some (ok a, s)) = P a
Returns P (some (err e, s)) = Unit

module _ {S A B : Type 0} (P : B → Type 0) where
  pub Returns-resume :
      (m : Option (Result A × S)) (k : A → Act S B)
      → ((a : A) (s : S) → Returns P (k a s))
      → Returns P (resume m k)
  unfolding Returns
  Returns-resume none k next = tt
  Returns-resume (some (ok a, s)) k next = next a s
  Returns-resume (some (err e, s)) k next = tt

  -- The same, for what follows a value that has a property itself.
  pub Returns-resume_from :
      (Q : A → Type 0) (m : Option (Result A × S)) (k : A → Act S B)
      → Returns Q m
      → ((a : A) (s : S) → Q a → Returns P (k a s))
      → Returns P (resume m k)
  unfolding Returns
  Returns-resume_from Q none k h next = tt
  Returns-resume_from Q (some (ok a, s)) k h next = next a s h
  Returns-resume_from Q (some (err e, s)) k h next = tt

-- A buffer of that length, and an outcome that is one or an error.
abbrev pub HasLength : ℕ → List ℕ → Type 0
HasLength n bytes = length bytes ≡ n

abbrev pub OutcomeHas : ℕ → Result (List ℕ) → Type 0
OutcomeHas n (ok bytes) = HasLength n bytes
OutcomeHas n (err e) = Unit

pub Returns-attempt :
    {S : Type 0} (n : ℕ) (m : Option (Result (List ℕ) × S))
    → Returns (HasLength n) m
    → Returns (OutcomeHas n) (outcome m)
unfolding Returns
Returns-attempt n none h = tt
Returns-attempt n (some (ok bytes, s)) h = h
Returns-attempt n (some (err e, s)) h = tt
