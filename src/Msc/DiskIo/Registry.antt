-- ===== src/Msc/DiskIo/Registry.antt =====
-- The table of disks of src/usb_mass_storage/usb_host_msc/src/diskio_usb.c.
use bindkey_esp.Base.{
  ℕ, zero, suc, ◌+◌, ◌%◌, ◌^◌, ◌<◌, ◌≡◌, ap, ◌∙◌, arith, Option, some, List, [], ◌∷◌, length, false,
}
use bindkey_esp.Msc.DiskIo.{set_disk, search_disk, is_disk}

-- No entry is the disk `d`.
abbrev pub Absent : ℕ → List (Option ℕ) → Type 0
Absent d [] = Unit
Absent d (v ∷ rest) = (is_disk d v ≡ false) × Absent d rest

search_disk-set_disk_from :
    (d i p : ℕ) (disks : List (Option ℕ))
    → Absent d disks
    → p < length disks
    → search_disk d i (set_disk p (some d) disks) ≡ (i + p) % 2 ^ 8
unfolding search_disk set_disk
search_disk-set_disk_from d i p [] h k = absurd (omega arith)
search_disk-set_disk_from d i zero (v ∷ rest) h k = ground arith
search_disk-set_disk_from d i (suc p) (v ∷ rest) h k =
    let later = search_disk-set_disk_from d (i + 1) p rest h.1 (omega arith) in
    rw h.0 (later ∙ ap (λ j. j % 2 ^ 8) (omega arith))

-- A disk that was not in the table and is registered under a volume of it is found under that
-- volume, for a table of fewer than 256 volumes, and the volume's entry is the disk.
search_disk-set_disk :
    (d p : ℕ) (disks : List (Option ℕ))
    → Absent d disks
    → p < length disks
    → length disks < 256
    → search_disk d 0 (set_disk p (some d) disks) ≡ p
search_disk-set_disk d p disks h k small = omega (arith, search_disk-set_disk_from d 0 p disks h k)
