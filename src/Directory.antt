-- ===== src/Directory.antt =====
-- Directories in lib/file_layer.c: `find_file`, `is_empty_dir` and `add_new_entry`. A block of a
-- directory is a chain of records: an inode number (8 bytes), the size of the record or, in the last
-- one, of all that is left (8), the length of the name (2) and the name. What is read or written
-- past the end of a block is a fault.
pub mod Records
pub mod Find
pub mod Write
pub mod Place
pub mod Added
pub mod Names
pub mod Enter
pub mod Entered
pub mod Adding
pub mod Tests
pub mod AddingTests
use file_system_fuse.Base.{
  ℕ, zero, suc, ◌+◌, ◌-◌, ◌/◌, ◌%◌, ◌^◌, Bool, true, false, not, Option, none, some, List, [], ◌∷◌,
  ◌==◌, leb, if◌then◌else◌, length,
}
use file_system_fuse.Base.Ssize.{slt, sle, minus_one, add_ssize, sub_ssize}
use file_system_fuse.Bytes.{Block, zero_block, put, load, store}
use file_system_fuse.Fs.{Fs, M, fault, out_of_fuel, pure, deref, ok, ◌>>=◌, ◌>>◌}
use file_system_fuse.Disk.{block_size}
use file_system_fuse.FreeList.{create_new_dblock, read_dblock, write_dblock}
use file_system_fuse.Inode.{Inode}
use file_system_fuse.FilePath.{Chars}
use file_system_fuse.FileMap.{fblock_num_to_dblock_num, add_dblock_to_inode}

-- `MAX_NAME_LENGTH`
abbrev pub max_name_length : ℕ
max_name_length = 255

-- `INODE_SZ`, the same with `ADDRESS_PTR_SZ`, and the same with `STRING_LENGTH_SZ`.
abbrev pub size_at : ℕ
size_at = 8

abbrev pub length_at : ℕ
length_at = 16

abbrev pub name_at : ℕ
name_at = 18

-- `S_ISDIR(mode)`
abbrev pub is_dir : ℕ → Bool
is_dir mode = mode / 2 ^ 12 % 16 == 4

-- An access of a block ends here.
unfoldable pub access : ℕ → M (Unit {0})
access end s = if leb end block_size then ok tt s else fault

-- The number in the `n` bytes at `p`.
unfoldable pub field : (n p : ℕ) → Block → M ℕ
field n p b = do access (p + n); pure (load n b p)

-- `strncmp(dblock + p, name, strlen(name)) == 0`
unfoldable pub matches : Chars → ℕ → Block → M Bool
matches [] p b = pure true
matches (c ∷ cs) p b = do
  stored ← field 1 p b
  if stored == c then matches cs (p + 1) b else pure false

-- Whether the record at `curr_pos` is one of `name`.
unfoldable pub is_entry : Chars → (curr_pos : ℕ) → Block → M Bool
is_entry name curr_pos b = do
  inum ← field 8 curr_pos b
  if inum == 0 then pure false else do
    str_length ← field 2 (curr_pos + length_at) b
    if str_length == length name then matches name (curr_pos + name_at) b else pure false

-- How the search of one block ends: at a record, with the one before it (-1 if there is none); past
-- the last record; or at a record without a size, where `find_file` returns.
pub data Search : Type 0 where
  found : (start_pos prev_entry : ℕ) → Search
  past_end : Search
  broken : Search

-- The `while` loop of `find_file`. Each round moves on by at least 1, or faults.
unfoldable pub search_block : (fuel curr_pos prev_entry : ℕ) → Chars → Block → M Search
search_block zero curr_pos prev_entry name b = λ _. out_of_fuel
search_block (suc fuel) curr_pos prev_entry name b =
    if not (slt curr_pos block_size) then pure past_end else do
      hit ← is_entry name curr_pos b
      if hit then pure (found curr_pos prev_entry) else do
        next ← field 8 (curr_pos + size_at) b
        if sle next 0
            then pure broken
            else search_block fuel (add_ssize curr_pos next) curr_pos name b

-- `struct file_pos_in_dir`
pub record FilePos : Type 0 where
  pub dblock : Block
  pub dblock_num : ℕ
  pub fblock_num : ℕ
  pub start_pos : ℕ
  pub prev_entry : ℕ

-- The `for` loop of `find_file` from block `i` with `n` rounds left.
unfoldable pub search_blocks : (n i : ℕ) → Chars → Inode → M (Option FilePos)
search_blocks zero i name inode = pure none
search_blocks (suc n) i name inode = do
  dblock_num ← fblock_num_to_dblock_num inode i
  if sle dblock_num 0 then pure none else do
    b ← read_dblock dblock_num >>= deref
    end ← search_block (block_size + 1) 0 minus_one name b
    elim end [
      | found start_pos prev_entry ↦ pure (
          some (record {
            dblock = b;
            dblock_num = dblock_num;
            fblock_num = i;
            start_pos = start_pos;
            prev_entry = prev_entry;
          }))
      | past_end ↦ search_blocks n (i + 1) name inode
      | broken ↦ pure none
    ]

-- `none` where `start_pos` is -1: the callers do not look at the other members then.
unfoldable pub find_file : Chars → Inode → M (Option FilePos)
find_file name parent_inode =
    if not (is_dir parent_inode.mode)
    then pure none
    else search_blocks (if slt parent_inode.num_blocks 0 then 0 else parent_inode.num_blocks) 0 name
        parent_inode

unfoldable pub is_empty_dir : Inode → M Bool
is_empty_dir inode = if slt 1 inode.num_blocks then pure false else do
  parent_ref ← find_file (b'.' ∷ b'.' ∷ []) inode
  elim parent_ref [
    | none ↦ pure false
    | some pos ↦ do
      next_entry ← field 8 (pos.start_pos + size_at) pos.dblock
      pure (add_ssize pos.start_pos next_entry == block_size)
  ]

-- `strncpy(dblock + p, name, strlen(name))`
unfoldable pub put_chars : Block → ℕ → Chars → Block
put_chars b p [] = b
put_chars b p (c ∷ cs) = put (put_chars b (p + 1) cs) p c

-- A record at `p`, with its four members.
unfoldable pub put_record : Block → (p inum size : ℕ) → Chars → Block
put_record b p inum size name =
    put_chars
      (store 2 (store 8 (store 8 b p inum) (p + size_at) size) (p + length_at)
        (length name % 2 ^ 16))
      (p + name_at) name

-- How the search for room in one block ends.
pub data Placing : Type 0 where
  placed : Block → Placing
  no_room : Placing
  corrupt : Placing

-- The `while` loop of `add_new_entry`.
unfoldable pub place_entry : (fuel curr_pos inum : ℕ) → Chars → Block → M Placing
place_entry zero curr_pos inum name b = λ _. out_of_fuel
place_entry (suc fuel) curr_pos inum name b =
    if not (slt curr_pos block_size) then pure no_room else do
      next ← field 8 (curr_pos + size_at) b
      curr_length ← field 2 (curr_pos + length_at) b
      let entry_length = name_at + curr_length
      if sle (name_at + length name) (sub_ssize next entry_length)
          then (do
            access (curr_pos + entry_length + name_at + length name)
            pure (
                placed (
                  put_record (store 8 b (curr_pos + size_at) entry_length) (curr_pos + entry_length)
                    inum (sub_ssize next entry_length) name)))
          else if sle next 0
          then pure corrupt
          else place_entry fuel (add_ssize curr_pos next) inum name b

-- The first part of `add_new_entry`: what it returns, or `none` if it goes on.
unfoldable pub add_to_last : Inode → (inum : ℕ) → Chars → M (Option Bool)
add_to_last inode inum name = if inode.num_blocks == 0 then pure none else do
  dblock_num ← fblock_num_to_dblock_num inode (sub_ssize inode.num_blocks 1)
  if sle dblock_num 0 then pure (some false) else do
    b ← read_dblock dblock_num >>= deref
    end ← place_entry (block_size + 1) 0 inum name b
    elim end [
      | placed changed ↦ do written ← write_dblock dblock_num changed; pure (some written)
      | no_room ↦ pure none
      | corrupt ↦ pure (some false)
    ]

-- The second part: a block more.
unfoldable pub add_in_new : Inode → (inum : ℕ) → Chars → M (Bool × Inode)
add_in_new inode inum name = do
  dblock_num ← create_new_dblock
  if sle dblock_num 0 then pure (false, inode) else do
    written ← write_dblock dblock_num (put_record zero_block 0 inum block_size name)
    if not written then pure (false, inode) else do
      (extended, changed) ← add_dblock_to_inode inode dblock_num
      pure (
          if extended
          then (true, record changed { file_size = add_ssize changed.file_size block_size })
          else (false, changed))

-- The result, and the inode as the function leaves it.
unfoldable pub add_new_entry : Inode → (child_inode_num : ℕ) → Chars → M (Bool × Inode)
add_new_entry inode child_inode_num child_name =
    if not (is_dir inode.mode)
    then pure (false, inode)
    else if slt max_name_length (length child_name)
    then pure (false, inode)
    else do
      last ← add_to_last inode child_inode_num child_name
      elim last [
        | none ↦ add_in_new inode child_inode_num child_name
        | some result ↦ pure (result, inode)
      ]
