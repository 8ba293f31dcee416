-- ===== src/Fuse/Rename.antt =====
-- `charm_rename` of lib/fuse_layer.c.
use Prim.Native.Nat.{bit_or}
use file_system_fuse.Base.{ℕ, zero, suc, ◌-◌, ◌%◌, ◌^◌, Bool, true, false, not, ◌==◌, if◌then◌else◌}
use file_system_fuse.Base.Ssize.{minus_one, add_ssize}
use file_system_fuse.Bytes.{Block, zero_block}
use file_system_fuse.Disk.{block_size}
use file_system_fuse.FilePath.{Chars}
use file_system_fuse.State.{no_fuel, return, ◌>>=◌}
use file_system_fuse.World.{W}
use file_system_fuse.Operations.{o_creat, o_trunc}
use file_system_fuse.Unlink.{custom_unlink}
use file_system_fuse.FileIo.{custom_read, custom_write}
use file_system_fuse.Fuse.{charm_access, charm_open}

-- The copying loop of `charm_rename`; false where not all that was read was written.
unfoldable pub copy_file : (fuel rounds : ℕ) → (from to : Chars) → Block → (offset : ℕ) → W Bool
copy_file fuel zero from to buffer offset = λ _. no_fuel
copy_file fuel (suc rounds) from to buffer offset = do
  (bytes_read, filled) ← custom_read fuel from buffer block_size offset
  if bytes_read == 0 then return true else do
    bytes_written ← custom_write fuel to filled bytes_read offset
    if bytes_read == bytes_written
        then copy_file fuel rounds from to filled (add_ssize offset bytes_read)
        else return false

-- `O_WRONLY | O_CREAT | O_TRUNC`
abbrev pub rename_flags : ℕ
rename_flags = bit_or (bit_or 1 o_creat) o_trunc

-- `-errno` for the number that `errno` holds, which no function of the program sets.
abbrev pub minus_errno : ℕ → ℕ
minus_errno errno = (2 ^ 32 - errno) % 2 ^ 32

-- `rounds` bounds the copying loop.
unfoldable pub charm_rename : (fuel rounds errno : ℕ) → (from to : Chars) → W ℕ
charm_rename fuel rounds errno from to = do
  there ← charm_access fuel from 0
  if not (there == 0) then return (minus_errno errno) else do
    taken ← charm_access fuel to (bit_or (bit_or 1 o_creat) 0o200)
    if taken == 0 then return (minus_errno errno) else do
      opened ← charm_open fuel to rename_flags
      if not (opened == 0) then return (minus_errno errno) else do
        copied ← copy_file fuel rounds from to zero_block 0
        if not copied then return (minus_errno errno) else do
          status ← custom_unlink fuel from
          return (if status == minus_one then minus_errno errno else 0)
