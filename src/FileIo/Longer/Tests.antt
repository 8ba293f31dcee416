-- ===== src/FileIo/Longer/Tests.antt =====
-- A file of two blocks, behind whose end 100 bytes are written; one block is free.
use file_system_fuse.Base.{
  some, zero, suc, get_elem?, get_elem?, some, ℕ, ◌+◌, ◌<◌, ◌≡◌, ◌≢◌, ◌⊎◌, ◌∙◌, refl, zero, suc,
  List, [], ◌∷◌, arith,
}
use file_system_fuse.Base.Ssize.{minus_one}
use file_system_fuse.Bytes.{Block}
use file_system_fuse.Fs.{Fs}
use file_system_fuse.FreeList.Chain.{free_count}
use file_system_fuse.FreeList.Same.{FreeList-kept, free_count-kept}
use file_system_fuse.FreeList.Samples.{one_count, one_free-FreeList}
use file_system_fuse.Inode.Store.{inode_at, disk_with_inode}
use file_system_fuse.State.{done}
use file_system_fuse.Transfer.Holds.{Holds}
use file_system_fuse.FileIo.{custom_write}
use file_system_fuse.FileIo.Append.{Appended}
use file_system_fuse.FileIo.Longer.{more_blocks, custom_write-Appended}
use file_system_fuse.Samples.{
  start, start-IsGeometry, start_inode, name, resolved, zeros, zeros-IsGeometry, file, file-Fits,
}
use file_system_fuse.Inode.Store.{with_inode}

kept : (a : ℕ) → a ≢ 0 → 0 < free_count zeros.disk (2_561 ∷ []) a → start.fs.disk a ≡ zeros.disk a
kept a z l =
    disk_with_inode zeros 5 file zeros-IsGeometry (omega arith) file-Fits a
      (one_free-FreeList.data_blocks a z l).0

start_free : (k : ℕ) → free_count start.fs.disk (2_561 ∷ []) (2_600 + k) ≡ 0
start_free k =
    free_count-kept one_free-FreeList start.fs kept (2_600 + k)
    ∙ ground (arith, one_count (2_600 + k))

file_blocks : (k : ℕ) → k < 2 → get_elem? file.direct_blocks k ≡ some (2_600 + k)
file_blocks zero l = refl
file_blocks (suc zero) l = refl
file_blocks (suc (suc k)) l = ground (arith, l)

start-Holds : Holds (inode_at start.fs 5) start.fs (2_561 ∷ []) (λ k. 2_600 + k)
unfolding with_inode
start-Holds = rw start_inode record {
  list = FreeList-kept one_free-FreeList start.fs kept refl;
  fits = file-Fits;
  few = omega arith;
  at = file_blocks;
  data_block = λ k l. (omega (arith, l), omega (arith, l));
  once = λ j k l m h. omega (arith, h);
  not_free = λ k l. start_free k;
}

abbrev sevens : Block
sevens _ = 7

custom_write-Appended_example :
    ((s' : Fs) × (ns' : List ℕ) × (blk' : ℕ → ℕ) × (custom_write 1 name sevens 100 8_150 start
        ≡ done 100 (record start { fs = s'; calls = 1 }))
      × Appended 5
          (more_blocks 8_250 (inode_at start.fs 5).num_blocks)
          (inode_at start.fs 5)
          (λ k. 2_600 + k)
          8_150
          100
          1_000
          sevens
          start.fs
          (2_561 ∷ [])
          s'
          ns'
          blk')
    ⊎ ((s' : Fs) × (custom_write 1 name sevens 100 8_150 start
          ≡ done minus_one (record start { fs = s' }))
        × (s'.super_block.free_list_head ≡ 0))
custom_write-Appended_example =
    custom_write-Appended 1 name start start 5 (resolved start.fs 0) start-IsGeometry (omega arith)
      (omega arith) 100 8_150 sevens start-Holds (rw start_inode (omega arith)) (omega arith)
