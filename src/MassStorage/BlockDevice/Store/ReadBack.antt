-- ===== src/MassStorage/BlockDevice/Store/ReadBack.antt =====
-- Reading back what was written to the block device of src/usb_mass_storage/block_device.rs.
use bindkey_esp.Base.{
  ℕ, zero, suc, ◌+◌, ◌-◌, ◌*◌, ◌<◌, ◌≡◌, refl, sym, ap, ◌∙◌, arith, ◌&&◌, true, List, [], ◌∷◌, ◌++◌,
  length, take, drop, ltb, leb,
}
use bindkey_esp.MassStorage.BlockDevice.Store.{Disk, sectors, stored}

take-drop : (n : ℕ) (xs : List ℕ) → take n xs ++ drop n xs ≡ xs
take-drop zero xs = refl
take-drop (suc n) [] = refl
take-drop (suc n) (x ∷ xs) = ap (λ r. x ∷ r) (take-drop n xs)

drop-nil : (n : ℕ) → drop {A = ℕ} n [] ≡ []
drop-nil zero = refl
drop-nil (suc n) = refl

pub drop-add : (a b : ℕ) (xs : List ℕ) → drop b (drop a xs) ≡ drop (a + b) xs
drop-add zero b xs = ap (λ k. drop k xs) (omega arith)
drop-add (suc a) b [] = drop-nil b ∙ sym (drop-nil (suc a + b))
drop-add (suc a) b (x ∷ xs) =
    let step : suc (a + b) ≡ suc a + b = omega arith in
    drop-add a b xs ∙ ap (λ k. drop k (x ∷ xs)) step

drop-all : (xs : List ℕ) (n : ℕ) → length xs ≡ n → drop n xs ≡ []
drop-all [] zero e = refl
drop-all [] (suc n) e = refl
drop-all (x ∷ xs) zero e = absurd (omega (arith, e))
drop-all (x ∷ xs) (suc n) e = drop-all xs n (omega (arith, e))

module _ (bs lba n : ℕ) (payload : List ℕ) (disk : Disk) (sized : length payload ≡ n * bs) where
  stored-inside :
      (j : ℕ) → j < n → stored bs lba n payload disk (lba + j) ≡ take bs (drop (j * bs) payload)
  stored-inside j h =
      let inside : (leb lba (lba + j) && ltb (lba + j) (lba + n)) ≡ true = ground (arith, h) in
      let offset : lba + j - lba ≡ j = omega arith in rw (inside, offset) refl

  -- The sectors from the `j`-th on.
  sectors-stored_from :
      (k j : ℕ)
      → j + k ≡ n
      → sectors (stored bs lba n payload disk) (lba + j) k ≡ drop (j * bs) payload
  sectors-stored_from zero j e =
      sym (drop-all payload (j * bs) (sized ∙ ap (λ t. t * bs) (omega (arith, e))))
  sectors-stored_from (suc k) j e =
      let next : suc (lba + j) ≡ lba + suc j = omega arith in
      let step : suc j * bs ≡ j * bs + bs = omega arith in
      rw (stored-inside j (omega (arith, e))) (
        ap (λ r. take bs (drop (j * bs) payload) ++ r)
          (ap (λ a. sectors (stored bs lba n payload disk) a k) next
            ∙ sectors-stored_from k (suc j) (omega (arith, e))
            ∙ ap (λ t. drop t payload) step
            ∙ sym (drop-add (j * bs) bs payload))
        ∙ take-drop bs (drop (j * bs) payload))

  pub sectors-stored : sectors (stored bs lba n payload disk) lba n ≡ payload
  sectors-stored =
      let start : lba ≡ lba + 0 = omega arith in
      let none_skipped : 0 * bs ≡ 0 = omega arith in
      ap (λ a. sectors (stored bs lba n payload disk) a n) start
      ∙ sectors-stored_from n 0 (omega arith)
      ∙ ap (λ t. drop t payload) none_skipped
