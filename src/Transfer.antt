-- ===== src/Transfer.antt =====
-- `custom_read` and `custom_write` of lib/file_layer.c. A buffer is the function from an offset to
-- the byte there; a `size_t` is kept as an `ssize_t` is, and compared as unsigned.
pub mod Content
pub mod Read
pub mod Write
pub mod Holds
pub mod Grow
use file_system_fuse.Base.{
  ℕ, zero, suc, ◌+◌, ◌-◌, ◌/◌, ◌%◌, ◌^◌, Bool, true, false, not, ◌&&◌, Option, none, some, ◌==◌,
  if◌then◌else◌, ltb, leb,
}
use file_system_fuse.Base.Ssize.{slt, sle, minus_one, add_ssize, sub_ssize}
use file_system_fuse.Bytes.{Block}
use file_system_fuse.Fs.{M, pure, ◌>>=◌, ◌>>◌}
use file_system_fuse.Disk.{block_size}
use file_system_fuse.FreeList.{create_new_dblock, read_dblock, write_dblock}
use file_system_fuse.Inode.{Inode}
use file_system_fuse.FileMap.{fblock_num_to_dblock_num, add_dblock_to_inode}
use file_system_fuse.Directory.{access}

-- `memcpy(dst + at, src + from, n)`
unfoldable pub paste : Block → (at : ℕ) → Block → (from n : ℕ) → Block
paste dst at src from n p = if leb at p && ltb p (at + n) then src (from + (p - at)) else dst p

-- The blocks of a file that the bytes from an offset on lie in: how many, the first, where the bytes
-- start in it, and how many lie in the last, which is `BLOCK_SIZE - end_block_bottom_floor`.
pub record Span : Type 0 where
  pub nblocks : ℕ
  pub start_block : ℕ
  pub top : ℕ
  pub rest : ℕ

abbrev pub span : (offset nbytes : ℕ) → Span
span offset nbytes = record {
  nblocks = add_ssize (sub_ssize (add_ssize offset nbytes / block_size) (offset / block_size)) 1;
  start_block = offset / block_size;
  top = offset % block_size;
  rest = add_ssize offset nbytes % block_size;
}

-- How often a loop below an `ssize_t` goes round.
abbrev pub rounds : ℕ → ℕ
rounds n = if slt n 0 then 0 else n

-- In round `i`, where the bytes start in the block, and how many they are.
abbrev pub piece_from : Span → ℕ → ℕ
piece_from sp i = if i == 0 then sp.top else 0

abbrev pub piece_size : Span → ℕ → ℕ
piece_size sp i =
    if i == 0
    then block_size - sp.top
    else if i == sub_ssize sp.nblocks 1
    then sp.rest
    else block_size

-- A block of a file, or `none` where the function returns -1.
unfoldable pub read_fblock : Inode → (fblock_num : ℕ) → M (Option (ℕ × Block))
read_fblock inode fblock_num = do
  dblock_num ← fblock_num_to_dblock_num inode fblock_num
  if sle dblock_num 0 then pure none else do
    buf_read ← read_dblock dblock_num
    elim buf_read [ none ↦ pure none | some b ↦ pure (some (dblock_num, b)) ]

-- One block is to be read: the number of bytes, or `none` for -1, and the buffer.
unfoldable pub read_one : Span → (nbytes : ℕ) → Inode → Block → M (Option ℕ × Block)
read_one sp nbytes inode buff = do
  found ← read_fblock inode sp.start_block
  elim found [
    | none ↦ pure (none, buff)
    | some (dblock_num, b) ↦ do
      access (sp.top + nbytes)
      pure (some nbytes, paste buff 0 b sp.top nbytes)
  ]

-- The loop over several blocks from round `i`, with `n` left.
unfoldable pub read_loop :
    (n i : ℕ) → Span → Inode → (bytes_read : ℕ) → Block → M (Option ℕ × Block)
read_loop zero i sp inode bytes_read buff = pure (some bytes_read, buff)
read_loop (suc n) i sp inode bytes_read buff = do
  found ← read_fblock inode (add_ssize sp.start_block i)
  elim found [
    | none ↦ pure (none, buff)
    | some (dblock_num, b) ↦
        read_loop n (i + 1) sp inode (add_ssize bytes_read (piece_size sp i))
          (paste buff bytes_read b (piece_from sp i) (piece_size sp i))
  ]

unfoldable pub read_span : Span → (nbytes : ℕ) → Inode → Block → M (Option ℕ × Block)
read_span sp nbytes inode buff =
    if sp.nblocks == 1
    then read_one sp nbytes inode buff
    else read_loop (rounds sp.nblocks) 0 sp inode 0 buff

-- One block is to be written; false where the function returns -1.
unfoldable pub write_one : Span → (nbytes : ℕ) → Inode → Block → M Bool
write_one sp nbytes inode buff = do
  found ← read_fblock inode sp.start_block
  elim found [
    | none ↦ pure false
    | some (dblock_num, b) ↦ do
      access (sp.top + nbytes)
      write_dblock dblock_num (paste b sp.top buff 0 nbytes)
  ]

unfoldable pub write_loop : (n i : ℕ) → Span → Inode → (bytes_written : ℕ) → Block → M Bool
write_loop zero i sp inode bytes_written buff = pure true
write_loop (suc n) i sp inode bytes_written buff = do
  found ← read_fblock inode (add_ssize sp.start_block i)
  elim found [
    | none ↦ pure false
    | some (dblock_num, b) ↦ do
      written ←
          write_dblock dblock_num (paste b (piece_from sp i) buff bytes_written (piece_size sp i))
      if written
          then write_loop n (i + 1) sp inode (add_ssize bytes_written (piece_size sp i)) buff
          else pure false
  ]

unfoldable pub write_span : Span → (nbytes : ℕ) → Inode → Block → M Bool
write_span sp nbytes inode buff =
    if sp.nblocks == 1
    then write_one sp nbytes inode buff
    else write_loop (rounds sp.nblocks) 0 sp inode 0 buff

-- The loop of `custom_write` that adds blocks, with `n` rounds left; `none` where it returns -1.
unfoldable pub add_blocks : (n : ℕ) → Inode → M (Option Inode)
add_blocks zero inode = pure (some inode)
add_blocks (suc n) inode = do
  new_block_id ← create_new_dblock
  if sle new_block_id 0 then pure none else do
    (extended, changed) ← add_dblock_to_inode inode new_block_id
    if extended then add_blocks n changed else pure none
