-- ===== src/Msc/Vfs/Format.antt =====
-- When a mount of src/usb_mass_storage/usb_host_msc/src/msc_host_vfs.c formats the disk.
use bindkey_esp.Base.{ℕ, ◌≡◌, refl, false, Option, none, some, List}
use bindkey_esp.Base.Action.{Act}
use bindkey_esp.Msc.Types.{UsbHost, St}
use bindkey_esp.Msc.DiskIo.{Volumes}
use bindkey_esp.Msc.Vfs.{
  FResult, MountConfig, Fat, format_and_mount, mount_fs, with_drive, msc_host_vfs_register,
}

module _ {W : Type 0} (U : UsbHost W) (recover : ℕ → Act (St W) (Unit {0})) (ff_volumes : ℕ)
    (F : Fat W) (other : (drive : List ℕ) (cluster_size workbuf_size : ℕ) → W → FResult × W) where
  -- A mount that is not asked to format gives the same result and leaves the same state whatever
  -- formatting would do: the disk is never formatted, also when mounting fails.
  pub msc_host_vfs_register-no_format :
      (handle : Option ℕ) (base_path : Option (List ℕ)) (config : MountConfig) (s : Volumes W)
      → config.format_if_mount_failed ≡ false
      → msc_host_vfs_register U recover ff_volumes F handle base_path (some config) s
        ≡ msc_host_vfs_register U recover ff_volumes
            (record F { f_mkfs = other })
            handle
            base_path
            (some config)
            s
  unfolding msc_host_vfs_register with_drive mount_fs format_and_mount
  msc_host_vfs_register-no_format none base_path config s asked = refl
  msc_host_vfs_register-no_format (some d) none config s asked = refl
  msc_host_vfs_register-no_format (some d) (some path) config s asked = rw asked refl
