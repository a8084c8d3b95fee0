-- ===== src/Msc/Vfs.antt =====
-- src/usb_mass_storage/usb_host_msc/src/msc_host_vfs.c: mounting the disk of a device. FatFs, its
-- registration with the file system layer and the allocator enter as the record `Fat`.
pub mod Cluster
pub mod Format
use Prim.Native.Nat.{max}
use bindkey_esp.Base.{
  ℕ, ◌+◌, ◌*◌, ◌%◌, ◌^◌, min, Bool, true, false, not, ◌&&◌, ◌||◌, Option, none, some, List, [], ◌∷◌,
  if◌then◌else◌, Result, ok, err, EspErr, no_mem, invalid_arg, msc_mount_failed, msc_format_failed,
  Status,
}
use bindkey_esp.Base.Action.{Act, pure, throw, guard, modify, ignore, attempt, ◌>>=◌, ◌>>◌}
use bindkey_esp.Msc.Types.{UsbHost, St, lib, load}
use bindkey_esp.Msc.DiskIo.{Volumes, on_msc, ff_diskio_register_msc}

-- `FRESULT`, as far as the driver tells the values apart.
pub data FResult : Type 0 where
  fr_ok fr_no_filesystem fr_int_err fr_other : FResult

-- `esp_vfs_fat_mount_config_t`
pub record MountConfig : Type 0 where
  pub format_if_mount_failed : Bool
  pub max_files : ℕ
  pub allocation_unit_size : ℕ

-- `msc_host_vfs_t`
pub record MscVfs : Type 0 where
  pub drive : List ℕ
  pub base_path : Option (List ℕ)
  pub pdrv : ℕ

pub record Fat (W : Type 0) : Type 0 where
  -- Whether a buffer of that size could be had.
  pub ff_memalloc : ℕ → W → Bool × W
  pub calloc_vfs : W → Bool × W
  pub strdup : W → Bool × W
  pub free : W → W
  pub f_mkfs : (drive : List ℕ) (cluster_size workbuf_size : ℕ) → W → FResult × W
  pub f_mount : (fs : Option ℕ) (drive : List ℕ) (opt : ℕ) → W → FResult × W
  pub get_drive : Act W ℕ
  pub diskio_register : ℕ → W → W
  pub diskio_unregister : ℕ → W → W
  pub fat_register : (base_path drive : List ℕ) (max_files : ℕ) → Act W ℕ
  pub fat_unregister_path : Option (List ℕ) → W → W

abbrev pub is_fr_ok : FResult → Bool
is_fr_ok fr_ok = true
is_fr_ok fr_no_filesystem = false
is_fr_ok fr_int_err = false
is_fr_ok fr_other = false

abbrev pub may_format : FResult → Bool
may_format fr_ok = false
may_format fr_no_filesystem = true
may_format fr_int_err = true
may_format fr_other = false

-- Between one block and 128 blocks.
unfoldable pub cluster_size_of : (block_size allocation_size : ℕ) → ℕ
cluster_size_of block_size allocation_size =
    min (max allocation_size block_size) (128 * block_size % 2 ^ 32)

-- What the label `fail` has to undo.
pub record Mounted : Type 0 where
  pub pdrv : Option ℕ
  pub fs : Option ℕ
  pub drive : List ℕ

module _ {W : Type 0} (U : UsbHost W) (recover : ℕ → Act (St W) (Unit {0})) (ff_volumes : ℕ)
    (F : Fat W) where
  -- A call of FatFs or the allocator.
  abbrev pub fat_call : {A : Type 0} → (W → A × W) → Act (Volumes W) A
  fat_call f s =
      let (a, w) = f s.msc.world in some (ok a, record s { msc = record s.msc { world = w } })

  abbrev pub fat_do : (W → W) → Act (Volumes W) (Unit {0})
  fat_do f = modify (λ s. record s { msc = record s.msc { world = f s.msc.world } })

  unfoldable pub msc_format_storage :
      (block_size allocation_size : ℕ) → List ℕ → Act (Volumes W) (Unit {0})
  unfolding cluster_size_of
  msc_format_storage block_size allocation_size drv = do
    allocated ← fat_call (F.ff_memalloc 4096)
    guard allocated no_mem
    result ← fat_call (F.f_mkfs drv (cluster_size_of block_size allocation_size) 4096)
    fat_do F.free
    guard (is_fr_ok result) msc_format_failed

  unfoldable pub msc_host_vfs_format :
      Option ℕ → Option MountConfig → Option MscVfs → Act (Volumes W) (Unit {0})
  unfolding msc_format_storage load
  msc_host_vfs_format none config vfs = throw invalid_arg
  msc_host_vfs_format (some d) none vfs = throw invalid_arg
  msc_host_vfs_format (some d) (some config) none = throw invalid_arg
  msc_host_vfs_format (some d) (some config) (some vfs) = do
    device ← on_msc U recover ff_volumes (load d)
    msc_format_storage device.disk.block_size config.allocation_unit_size vfs.drive

  -- Freeing the path, which may be null, and the struct.
  unfoldable pub dealloc_msc_vfs : Act (Volumes W) (Unit {0})
  dealloc_msc_vfs = do fat_do F.free; fat_do F.free

  unregister_disk : Option ℕ → Act (Volumes W) (Unit {0})
  unregister_disk none = pure tt
  unregister_disk (some pdrv) = fat_do (F.diskio_unregister pdrv)

  unmount_fs : Option ℕ → List ℕ → Act (Volumes W) (Unit {0})
  unmount_fs none drive = pure tt
  unmount_fs (some fs) drive = ignore (fat_call (F.f_mount none drive 0))

  -- The label `fail`.
  unfoldable pub undo_mount : Mounted → List ℕ → EspErr → Act (Volumes W) MscVfs
  unfolding unregister_disk unmount_fs dealloc_msc_vfs
  undo_mount m base_path e = do
    unregister_disk m.pdrv
    unmount_fs m.fs m.drive
    fat_do (F.fat_unregister_path (some base_path))
    dealloc_msc_vfs
    throw e

  -- `{'0' + pdrv, ':', 0}`
  abbrev pub drive_name : ℕ → List ℕ
  drive_name pdrv = (48 + pdrv) ∷ 58 ∷ 0 ∷ []

  -- A failed mount, formatted and mounted again where the configuration asks for it.
  format_and_mount : MountConfig → ℕ → ℕ → List ℕ → FResult → Act (Volumes W) (Unit {0})
  unfolding msc_format_storage
  format_and_mount config block_size fs drive result =
      if is_fr_ok result
      then pure tt
      else if config.format_if_mount_failed && may_format result
      then (do
        msc_format_storage block_size config.allocation_unit_size drive
        again ← fat_call (F.f_mount (some fs) drive 0)
        guard (is_fr_ok again) msc_mount_failed)
      else throw msc_mount_failed

  finish_mount : Mounted → MscVfs → List ℕ → Result (Unit {0}) → Act (Volumes W) MscVfs
  unfolding undo_mount
  finish_mount m vfs base_path (ok _) = pure vfs
  finish_mount m vfs base_path (err e) = undo_mount m base_path e

  mount_fs : MountConfig → ℕ → ℕ → List ℕ → Result ℕ → Act (Volumes W) MscVfs
  unfolding undo_mount format_and_mount finish_mount
  mount_fs config block_size pdrv base_path (err e) =
      undo_mount (record { pdrv = some pdrv; fs = none; drive = drive_name pdrv }) base_path e
  mount_fs config block_size pdrv base_path (ok fs) = do
    result ← fat_call (F.f_mount (some fs) (drive_name pdrv) 1)
    mounted ← attempt (format_and_mount config block_size fs (drive_name pdrv) result)
    finish_mount (record { pdrv = some pdrv; fs = some fs; drive = drive_name pdrv })
        (record { drive = drive_name pdrv; base_path = some base_path; pdrv = pdrv }) base_path
        mounted

  with_drive : ℕ → MountConfig → ℕ → List ℕ → Result ℕ → Act (Volumes W) MscVfs
  unfolding undo_mount ff_diskio_register_msc mount_fs
  with_drive d config block_size base_path (err e) =
      undo_mount (record { pdrv = none; fs = none; drive = [] }) base_path e
  with_drive d config block_size base_path (ok pdrv) = do
    ff_diskio_register_msc U recover ff_volumes F.diskio_register pdrv d
    copied ← fat_call F.strdup
    if not copied
        then undo_mount (record { pdrv = some pdrv; fs = none; drive = drive_name pdrv }) base_path
            no_mem
        else do
          registered ← attempt (
              on_msc U recover ff_volumes
                (lib (F.fat_register base_path (drive_name pdrv) config.max_files)))
          mount_fs config block_size pdrv base_path registered

  unfoldable pub msc_host_vfs_register :
      Option ℕ → Option (List ℕ) → Option MountConfig → Act (Volumes W) MscVfs
  unfolding load with_drive
  msc_host_vfs_register none base_path config = throw invalid_arg
  msc_host_vfs_register (some d) none config = throw invalid_arg
  msc_host_vfs_register (some d) (some base_path) none = throw invalid_arg
  msc_host_vfs_register (some d) (some base_path) (some config) = do
    device ← on_msc U recover ff_volumes (load d)
    allocated ← fat_call F.calloc_vfs
    guard allocated no_mem
    pdrv ← attempt (on_msc U recover ff_volumes (lib F.get_drive))
    with_drive d config device.disk.block_size base_path pdrv

  unfoldable pub msc_host_vfs_unregister : Option MscVfs → Act (Volumes W) (Unit {0})
  unfolding dealloc_msc_vfs
  msc_host_vfs_unregister none = throw invalid_arg
  msc_host_vfs_unregister (some vfs) = do
    ignore (fat_call (F.f_mount none vfs.drive 0))
    fat_do (F.diskio_unregister vfs.pdrv)
    fat_do (F.fat_unregister_path vfs.base_path)
    dealloc_msc_vfs
