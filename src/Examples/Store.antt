-- ===== src/Examples/Store.antt =====
-- Disks of sectors of two bytes.
use mathlib.Core.Path.{fun_ext}
use bindkey_esp.Base.{
  length-drop, ℕ, zero, suc, ◌+◌, ◌-◌, ◌*◌, ◌≤◌, ◌≡◌, refl, sym, arith, List, [], ◌∷◌, ◌++◌, length,
  take, drop, ltb, leb, ◌&&◌, Bool-cases, inl, inr, length-take, length-append, take-append,
}
use bindkey_esp.MassStorage.BlockDevice.Store.{Disk, sectors, stored}

-- Two bytes, padded with zeros.
abbrev pub fit : List ℕ → List ℕ
fit bytes = take 2 (bytes ++ (0 ∷ 0 ∷ []))

length-fit : (bytes : List ℕ) → length (fit bytes) ≡ 2
length-fit bytes =
    omega (arith, length-take 2 (bytes ++ (0 ∷ 0 ∷ [])), length-append bytes (0 ∷ 0 ∷ []))

fit-exact : (bytes : List ℕ) → length bytes ≡ 2 → fit bytes ≡ bytes
fit-exact bytes e = take-append bytes (0 ∷ 0 ∷ []) 2 (sym e)

-- What the drive of sectors of two bytes holds.
abbrev pub held : Disk → Disk
held w a = fit (w a)

pub length-sectors : (w : Disk) (lba n : ℕ) → length (sectors (held w) lba n) ≡ n * 2
length-sectors w lba zero = refl
length-sectors w lba (suc n) = omega (
  arith,
  length-append (fit (w lba)) (sectors (held w) (suc lba) n),
  length-fit (w lba),
  length-sectors w (suc lba) n,
)

pub held-stored :
    (payload : List ℕ) (lba n : ℕ) (w : Disk)
    → length payload ≡ n * 2
    → held (stored 2 lba n payload w) ≡ stored 2 lba n payload (held w)
held-stored payload lba n w e = fun_ext λ a. elim (Bool-cases (leb lba a && ltb a (lba + n))) [
  | inl inside ↦
      let within : (a - lba) * 2 + 2 ≤ n * 2 = ground (arith, inside) in
      rw inside (
        fit-exact (take 2 (drop ((a - lba) * 2) payload)) (
          omega (
            arith,
            length-take 2 (drop ((a - lba) * 2) payload),
            length-drop ((a - lba) * 2) payload,
            e,
            within,
          )))
  | inr outside ↦ rw outside refl
]
