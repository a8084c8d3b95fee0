-- ===== src/Msc/Vfs/Cluster.antt =====
-- The cluster size of src/usb_mass_storage/usb_host_msc/src/msc_host_vfs.c, `msc_format_storage`.
use bindkey_esp.Base.{ℕ, ◌*◌, ◌^◌, ◌≤◌, ◌<◌, ◌≡◌, ◌↔◌, arith}
use bindkey_esp.Msc.Vfs.{cluster_size_of}

-- Where 128 blocks are less than 2 ^ 32 bytes, the cluster size lies between one block and 128
-- blocks whatever allocation size is configured, and it is the configured size exactly where that
-- lies between these bounds itself.
cluster_size_of_lem :
    (block_size allocation_size : ℕ)
    → 128 * block_size < 2 ^ 32
    → (block_size ≤ cluster_size_of block_size allocation_size)
      × (cluster_size_of block_size allocation_size ≤ 128 * block_size)
      × ((cluster_size_of block_size allocation_size ≡ allocation_size)
          ↔ ((block_size ≤ allocation_size) × (allocation_size ≤ 128 * block_size)))
unfolding cluster_size_of
cluster_size_of_lem block_size allocation_size small =
    (omega (arith, small), omega (arith, small), ground (arith, small))
