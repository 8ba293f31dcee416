-- ===== src/Disk/Device/Bounds.antt =====
-- lib/disk_layer.c with `DISK`: no call writes behind the last block, whatever the block id and
-- whatever the calls of the device return.
use file_system_fuse.Base.{ℕ, ◌^◌, ◌≤◌, ◌<◌, ◌≡◌, List, [], ◌∷◌}
use file_system_fuse.Disk.Device.{fs_size, Device, Mounted}
use file_system_fuse.Disk.Device.Runs.{Op, block_of}

abbrev pub AreWords : List Op → Type 0
AreWords [] = Unit
AreWords (op ∷ ops) = (block_of op < 2 ^ 64) × AreWords ops

module _ (dev : Device) where
  -- The bytes behind the last block are the same.
  abbrev pub SameBeyond : Mounted dev → Mounted dev → Type 0
  SameBeyond s t = (p : ℕ) → fs_size ≤ p → dev.bytes t.device p ≡ dev.bytes s.device p
