-- ===== src/FileIo.antt =====
-- `custom_read` and `custom_write` of lib/file_layer.c on paths; the bytes are moved in Transfer.
pub mod Read
pub mod Stored
pub mod Write
pub mod Append
pub mod Longer
pub mod RoundTrip
mod Tests
use file_system_fuse.Base.{
  ℕ, ◌+◌, ◌-◌, ◌/◌, ◌^◌, Bool, true, false, not, Option, none, some, ◌==◌, if◌then◌else◌, ltb,
}
use file_system_fuse.Base.Ssize.{minus_one, add_ssize, sub_ssize}
use file_system_fuse.Bytes.{Block}
use file_system_fuse.Disk.{block_size}
use file_system_fuse.FilePath.{Chars}
use file_system_fuse.Inode.{Inode, read_inode, write_inode}
use file_system_fuse.State.{Outcome, Cmd, done, return, bind, ◌>>=◌, ◌>>◌}
use file_system_fuse.World.{W, on_fs, time, need}
use file_system_fuse.Resolve.{get_inode_num_from_path}
use file_system_fuse.Transfer.{span, rounds, read_span, write_span, add_blocks}

-- `memset(buff, 0, nbytes)`
abbrev pub cleared : ℕ → Block → Block
cleared nbytes buff p = if ltb p nbytes then 0 else buff p

-- How many bytes there are to read.
abbrev pub available : (file_size nbytes offset : ℕ) → ℕ
available file_size nbytes offset =
    if ltb file_size (add_ssize offset nbytes) then sub_ssize file_size offset else nbytes

-- The result and the buffer.
unfoldable pub custom_read : (fuel : ℕ) → Chars → Block → (nbytes offset : ℕ) → W (ℕ × Block)
custom_read fuel path buff nbytes offset = do
  inum ← get_inode_num_from_path fuel path
  if inum == minus_one then return (minus_one, cleared nbytes buff) else do
    read ← on_fs (read_inode inum)
    inode ← need read
    if inode.file_size == 0
        then return (0, cleared nbytes buff)
        else if ltb inode.file_size offset
        then return (minus_one, cleared nbytes buff)
        else do
          let size = available inode.file_size nbytes offset
          (result, filled) ← on_fs (read_span (span offset size) size inode (cleared nbytes buff))
          elim result [
            | none ↦ return (minus_one, filled)
            | some bytes_read ↦ do
              curr_time ← time
              on_fs (write_inode inum (record inode { access_time = curr_time }))
              return (bytes_read, filled)
          ]

-- How many blocks are missing, if bytes are.
abbrev pub missing_blocks : Inode → (nbytes offset : ℕ) → ℕ
missing_blocks inode nbytes offset =
    if ltb inode.file_size (add_ssize offset nbytes)
    then rounds (add_ssize (sub_ssize (add_ssize offset nbytes / block_size) inode.num_blocks) 1)
    else 0

-- `bytes_to_add`
abbrev pub missing_bytes : Inode → (nbytes offset : ℕ) → ℕ
missing_bytes inode nbytes offset =
    if ltb inode.file_size (add_ssize offset nbytes)
    then sub_ssize (add_ssize offset nbytes) inode.file_size
    else 0

unfoldable pub custom_write : (fuel : ℕ) → Chars → Block → (nbytes offset : ℕ) → W ℕ
custom_write fuel path buff nbytes offset = do
  inum ← get_inode_num_from_path fuel path
  if inum == minus_one then return minus_one else do
    read ← on_fs (read_inode inum)
    inode ← need read
    grown ← on_fs (add_blocks (missing_blocks inode nbytes offset) inode)
    elim grown [
      | none ↦ return minus_one
      | some changed ↦ do
        written ← on_fs (write_span (span offset nbytes) nbytes changed buff)
        if not written then return minus_one else do
          curr_time ← time
          stored ← on_fs (
              write_inode inum (record changed {
                file_size = add_ssize changed.file_size (missing_bytes inode nbytes offset);
                access_time = curr_time;
                modification_time = curr_time;
                status_change_time = curr_time;
              }))
          return (if stored then nbytes else minus_one)
    ]
