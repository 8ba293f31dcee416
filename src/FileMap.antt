-- ===== src/FileMap.antt =====
-- The blocks of a file in lib/file_layer.c: from the number of a block in the file (`fblock_num`)
-- to its data block, and adding a block. An inode is a `struct` that the caller owns: a function
-- that changes it returns the new one. A read through a null buffer, and an index outside
-- `direct_blocks`, are faults.
pub mod Lookup
pub mod Add
pub mod Double
mod Tests
use file_system_fuse.Base.{
  ℕ, zero, suc, ◌+◌, ◌-◌, ◌*◌, ◌/◌, ◌%◌, Bool, true, false, not, ◌&&◌, Option, none, some, List, [],
  ◌∷◌, ◌==◌, if◌then◌else◌, length, ltb, get_elem?, set,
}
use file_system_fuse.Base.Ssize.{slt, sle, minus_one, add_ssize}
use file_system_fuse.Bytes.{Block, word, set_word}
use file_system_fuse.Fs.{Fs, M, fault, pure, deref, ◌>>=◌, ◌>>◌}
use file_system_fuse.FreeList.{dblocks_per_block, create_new_dblock, read_dblock, write_dblock}
use file_system_fuse.Inode.{Inode, direct_b_count}

-- `SINGLE_INDIRECT_BLOCK_COUNT`
abbrev pub single_count : ℕ
single_count = dblocks_per_block

-- `DOUBLE_INDIRECT_BLOCK_COUNT`
abbrev pub double_count : ℕ
double_count = single_count * dblocks_per_block

-- The first block of a file behind the direct ones, behind those of the single indirect block, and
-- behind those of the double indirect block.
abbrev pub single_end : ℕ
single_end = direct_b_count + single_count

abbrev pub double_end : ℕ
double_end = single_end + double_count

-- `(ssize_t*) read_dblock(dblock_num)`, which is then read or written.
unfoldable pub read_addresses : ℕ → M Block
read_addresses dblock_num = read_dblock dblock_num >>= deref

-- An address of a buffer, which has 512: a read past its end is a fault.
unfoldable pub address_at : Block → ℕ → M ℕ
address_at buff i s = if ltb i dblocks_per_block then pure (word buff i) s else fault

-- With an index below 512.
unfoldable pub read_address : (dblock_num i : ℕ) → M ℕ
read_address dblock_num i = do buff ← read_addresses dblock_num; pure (word buff i)

-- Through a block of addresses of blocks of addresses.
unfoldable pub read_through : (dblock_num i j : ℕ) → M ℕ
read_through dblock_num i j = do
  single ← read_address dblock_num i
  if sle single 0 then pure minus_one else read_address single j

unfoldable pub fblock_num_to_dblock_num : Inode → ℕ → M ℕ
fblock_num_to_dblock_num inode fblock_num =
    if slt inode.num_blocks fblock_num
    then pure minus_one
    else if slt fblock_num direct_b_count
    then deref (get_elem? inode.direct_blocks fblock_num)
    else if slt fblock_num single_end
    then (if inode.single_indirect == 0
        then pure minus_one
        else read_address inode.single_indirect (fblock_num - direct_b_count))
    else if slt fblock_num double_end
    then (let offset = fblock_num - single_end in
        if inode.double_indirect == 0
        then pure minus_one
        else read_through inode.double_indirect (offset / single_count) (offset % single_count))
    else (let offset = fblock_num - double_end in
        if inode.triple_indirect == 0 then pure minus_one else do
          triples ← read_addresses inode.triple_indirect
          double ← address_at triples (offset / double_count)
          if sle double 0
              then pure minus_one
              else read_through double (offset / single_count % single_count)
                  (offset % single_count))

-- One address is set, and the block is written back.
unfoldable pub write_address : (dblock_num i v : ℕ) → M Bool
write_address dblock_num i v = do
  buff ← read_addresses dblock_num
  write_dblock dblock_num (set_word buff i v)

-- `direct_blocks[i] = v`
unfoldable pub set_direct : Inode → ℕ → ℕ → M Inode
set_direct inode i v s =
    if ltb i (length inode.direct_blocks)
    then pure (record inode { direct_blocks = set inode.direct_blocks i v }) s
    else fault

-- A `bool` that is given a number.
abbrev pub to_bool : ℕ → Bool
to_bool n = not (n == 0)

-- The results of `write_dblock` are not looked at here, and two paths return numbers.
unfoldable pub write_dblock_to_inode : Inode → (fblock_num dblock_num : ℕ) → M (Bool × Inode)
write_dblock_to_inode inode fblock_num dblock_num =
    if slt inode.num_blocks fblock_num
    then pure (false, inode)
    else if slt fblock_num direct_b_count
    then (do changed ← set_direct inode fblock_num dblock_num; pure (true, changed))
    else if slt fblock_num single_end
    then (if inode.single_indirect == 0 then pure (false, inode) else do
      write_address inode.single_indirect (fblock_num - direct_b_count) dblock_num
      pure (true, inode))
    else if slt fblock_num double_end
    then (let offset = fblock_num - single_end in
        if inode.double_indirect == 0 then pure (false, inode) else do
          single ← read_address inode.double_indirect (offset / single_count)
          if sle single 0
              then pure (false, inode)
              else do write_address single (offset % single_count) dblock_num; pure (true, inode))
    else (let offset = fblock_num - double_end in
        if inode.triple_indirect == 0 then pure (to_bool dblock_num, inode) else do
          triples ← read_addresses inode.triple_indirect
          double ← address_at triples (offset / double_count)
          if sle double 0 then pure (to_bool minus_one, inode) else do
            single ← read_address double (offset / single_count % single_count)
            if sle single 0
                then pure (to_bool minus_one, inode)
                else do write_address single (offset % single_count) dblock_num; pure (true, inode))

-- The end of `add_dblock_to_inode` after the last write.
abbrev pub added : Inode → Bool → Bool × Inode
added inode written =
    if written
    then (true, record inode { num_blocks = add_ssize inode.num_blocks 1 })
    else (false, inode)

-- The single indirect range, with the block of addresses in place.
unfoldable pub add_single : Inode → (fblock_num dblock_num : ℕ) → M (Bool × Inode)
add_single inode fblock_num dblock_num = do
  written ← write_address inode.single_indirect (fblock_num - direct_b_count) dblock_num
  pure (added inode written)

-- A block of addresses for index `i` of `buff`, which is the block `dblock_num`, if `needed`: the
-- buffer, or `none` where the function returns false.
unfoldable pub ensure_address : Bool → (dblock_num i : ℕ) → Block → M (Option Block)
ensure_address needed dblock_num i buff = if not needed then pure (some buff) else do
  fresh ← create_new_dblock
  if fresh == minus_one then pure none else do
    address_at buff i
    written ← write_dblock dblock_num (set_word buff i fresh)
    pure (if written then some (set_word buff i fresh) else none)

-- The last write of the two deeper ranges, through the address at index `i` of `buff`.
unfoldable pub add_through : Inode → Block → (i j dblock_num : ℕ) → M (Bool × Inode)
add_through inode buff i j dblock_num =
    if sle (word buff i) 0
    then pure (false, inode)
    else do written ← write_address (word buff i) j dblock_num; pure (added inode written)

unfoldable pub add_double : Inode → (fblock_num dblock_num : ℕ) → M (Bool × Inode)
add_double inode fblock_num dblock_num =
    let offset = fblock_num - single_end in
    do
      buff ← read_addresses inode.double_indirect
      ready ←
          ensure_address (offset % single_count == 0) inode.double_indirect (offset / single_count)
            buff
      elim ready [
        | none ↦ pure (false, inode)
        | some buff' ↦
            add_through inode buff' (offset / single_count) (offset % single_count) dblock_num
      ]

unfoldable pub add_triple : Inode → (fblock_num dblock_num : ℕ) → M (Bool × Inode)
add_triple inode fblock_num dblock_num =
    let offset = fblock_num - double_end in
    let middle = offset / single_count % single_count in
    do
      buff ← read_addresses inode.triple_indirect
      ready ←
          ensure_address (offset % double_count == 0) inode.triple_indirect (offset / double_count)
            buff
      elim ready [
        | none ↦ pure (false, inode)
        | some triple ↦ do
          double ← address_at triple (offset / double_count)
          doubles ← read_addresses double
          found ← ensure_address (offset % single_count == 0) double middle doubles
          elim found [
            | none ↦ pure (false, inode)
            | some buff' ↦ add_through inode buff' middle (offset % single_count) dblock_num
          ]
      ]

-- With a new block of addresses in the inode if `fblock_num` is the first of its range.
unfoldable pub with_fresh :
    Bool → Inode → (ℕ → Inode) → (Inode → M (Bool × Inode)) → M (Bool × Inode)
with_fresh needed inode place next = if not needed then next inode else do
  fresh ← create_new_dblock
  if fresh == minus_one then pure (false, inode) else next (place fresh)

-- The result, and the inode as the function leaves it.
unfoldable pub add_dblock_to_inode : Inode → ℕ → M (Bool × Inode)
add_dblock_to_inode inode dblock_num =
    let fblock_num = inode.num_blocks in
    if slt fblock_num direct_b_count
    then (do changed ← set_direct inode fblock_num dblock_num; pure (added changed true))
    else if slt fblock_num single_end
    then with_fresh (fblock_num == direct_b_count) inode
        (λ fresh. record inode { single_indirect = fresh })
        (λ ready. add_single ready fblock_num dblock_num)
    else if slt fblock_num double_end
    then with_fresh (fblock_num == single_end) inode
        (λ fresh. record inode { double_indirect = fresh })
        (λ ready. add_double ready fblock_num dblock_num)
    else with_fresh (fblock_num == double_end) inode
        (λ fresh. record inode { triple_indirect = fresh })
        (λ ready. add_triple ready fblock_num dblock_num)
