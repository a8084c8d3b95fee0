-- ===== src/Base/Lists.antt =====
-- Buffers as lists, measured and indexed by native numbers.
use Prim.Native.Nat.{ℕ, zero, suc, ◌+◌, ◌-◌, ◌≤◌, min}
use mathlib.Core.Path.{◌≡◌, refl, ap, ◌∙◌}
use mathlib.Core.List.{List, [], ◌∷◌, ◌++◌}
use native.Mathlib.Omega.{arith}

module _ {ℓ} {A : Type ℓ} where
  abbrev pub length : List A → ℕ
  length [] = 0
  length (x ∷ xs) = suc (length xs)

  abbrev pub get_or : List A → ℕ → A → A
  get_or [] i d = d
  get_or (x ∷ xs) zero d = x
  get_or (x ∷ xs) (suc i) d = get_or xs i d

  abbrev pub take : ℕ → List A → List A
  take zero xs = []
  take (suc n) [] = []
  take (suc n) (x ∷ xs) = x ∷ take n xs

  abbrev pub drop : ℕ → List A → List A
  drop zero xs = xs
  drop (suc n) [] = []
  drop (suc n) (x ∷ xs) = drop n xs

  abbrev pub replicate : ℕ → A → List A
  replicate zero a = []
  replicate (suc n) a = a ∷ replicate n a

  -- `buf[off..off + src.len()].copy_from_slice(src)`; what does not fit into `buf` is lost.
  unfoldable pub overwrite : ℕ → List A → List A → List A
  overwrite off src [] = []
  overwrite zero [] (b ∷ buf) = b ∷ buf
  overwrite zero (x ∷ src) (b ∷ buf) = x ∷ overwrite zero src buf
  overwrite (suc off) src (b ∷ buf) = b ∷ overwrite off src buf

module _ {ℓ} {A : Type ℓ} where
  pub length-append : (xs ys : List A) → length (xs ++ ys) ≡ length xs + length ys
  length-append [] ys = omega arith
  length-append (x ∷ xs) ys = omega (arith, length-append xs ys)

  pub length-take : (n : ℕ) (xs : List A) → length (take n xs) ≡ min n (length xs)
  length-take zero xs = omega arith
  length-take (suc n) [] = omega arith
  length-take (suc n) (x ∷ xs) = omega (arith, length-take n xs)

  pub length-drop : (n : ℕ) (xs : List A) → length (drop n xs) ≡ length xs - n
  length-drop zero xs = omega arith
  length-drop (suc n) [] = omega arith
  length-drop (suc n) (x ∷ xs) = omega (arith, length-drop n xs)

  pub length-replicate : (n : ℕ) (a : A) → length (replicate n a) ≡ n
  length-replicate zero a = refl
  length-replicate (suc n) a = ap suc (length-replicate n a)

  pub take-append : (xs ys : List A) (n : ℕ) → n ≡ length xs → take n (xs ++ ys) ≡ xs
  take-append [] ys zero e = refl
  take-append [] ys (suc n) e = absurd (omega arith)
  take-append (x ∷ xs) ys zero e = absurd (omega arith)
  take-append (x ∷ xs) ys (suc n) e = ap (λ r. x ∷ r) (take-append xs ys n (omega arith))

  pub length-overwrite : (off : ℕ) (src buf : List A) → length (overwrite off src buf) ≡ length buf
  unfolding overwrite
  length-overwrite zero src [] = refl
  length-overwrite (suc off) src [] = refl
  length-overwrite zero [] (b ∷ buf) = refl
  length-overwrite zero (x ∷ src) (b ∷ buf) = ap suc (length-overwrite zero src buf)
  length-overwrite (suc off) src (b ∷ buf) = ap suc (length-overwrite off src buf)

  -- Reading back up to the end of what was written.
  take-overwrite :
      (off n : ℕ) (src buf : List A)
      → n ≡ off + length src
      → n ≤ length buf
      → take n (overwrite off src buf) ≡ take off buf ++ src
  unfolding overwrite
  take-overwrite zero zero [] buf e h = refl
  take-overwrite zero (suc n) [] buf e h = absurd (omega arith)
  take-overwrite zero zero (x ∷ src) buf e h = absurd (omega arith)
  take-overwrite zero (suc n) (x ∷ src) [] e h = absurd (omega arith)
  take-overwrite zero (suc n) (x ∷ src) (b ∷ buf) e h =
      ap (λ r. x ∷ r) (take-overwrite zero n src buf (omega arith) (omega arith))
  take-overwrite (suc off) zero src buf e h = absurd (omega arith)
  take-overwrite (suc off) (suc n) src [] e h = absurd (omega arith)
  take-overwrite (suc off) (suc n) src (b ∷ buf) e h =
      ap (λ r. b ∷ r) (take-overwrite off n src buf (omega arith) (omega arith))

  pub length-zero : (xs : List A) → length xs ≡ 0 → xs ≡ []
  length-zero [] e = refl
  length-zero (x ∷ xs) e = absurd (omega arith)

  pub take-length : (xs : List A) (n : ℕ) → n ≡ length xs → take n xs ≡ xs
  take-length [] zero e = refl
  take-length [] (suc n) e = refl
  take-length (x ∷ xs) zero e = absurd (omega arith)
  take-length (x ∷ xs) (suc n) e = ap (λ r. x ∷ r) (take-length xs n (omega arith))

  -- What was written at the front of a buffer is read back from its front.
  pub take-overwrite_front :
      (n : ℕ) (src buf : List A)
      → n ≡ length src
      → n ≤ length buf
      → take n (overwrite 0 src buf) ≡ src
  take-overwrite_front n src buf e h = take-overwrite 0 n src buf (omega arith) h

  -- Two pieces that are written one behind the other are read back as one.
  pub take-overwrite_two :
      (k n : ℕ) (first second buf : List A)
      → k ≡ length first
      → n ≡ k + length second
      → n ≤ length buf
      → take n (overwrite k second (overwrite 0 first buf)) ≡ first ++ second
  take-overwrite_two k n first second buf e h fits =
      take-overwrite k n second (overwrite 0 first buf) h
        (omega (arith, length-overwrite 0 first buf))
      ∙ ap (λ r. r ++ second) (take-overwrite_front k first buf e (omega arith))

  -- The same of three pieces.
  pub take-overwrite_three :
      (k m n : ℕ) (first second third buf : List A)
      → k ≡ length first
      → m ≡ k + length second
      → n ≡ m + length third
      → n ≤ length buf
      → take n (overwrite m third (overwrite k second (overwrite 0 first buf)))
        ≡ (first ++ second) ++ third
  take-overwrite_three k m n first second third buf e h g fits =
      take-overwrite m n third (overwrite k second (overwrite 0 first buf)) g (
        omega
          (arith, length-overwrite k second (overwrite 0 first buf), length-overwrite 0 first buf))
      ∙ ap (λ r. r ++ third) (take-overwrite_two k m first second buf e h (omega arith))

-- What is put over the front of a buffer.
pub overwrite-front {ℓ} :
    {A : Type ℓ} (src buf : List A)
    → length src ≤ length buf
    → overwrite 0 src buf ≡ src ++ drop (length src) buf
unfolding overwrite
overwrite-front [] [] h = refl
overwrite-front [] (b ∷ buf) h = refl
overwrite-front (x ∷ src) [] h = absurd (omega (arith, h))
overwrite-front (x ∷ src) (b ∷ buf) h = ap (λ r. x ∷ r) (overwrite-front src buf (omega (arith, h)))
