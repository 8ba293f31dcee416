-- ===== src/Operations/Tests.antt =====
-- A file system that is made over old memory.
use file_system_fuse.Base.{◌+◌, ◌-◌, ◌%◌, ◌≡◌, ℕ, refl, true, [], ◌∷◌, arith}
use file_system_fuse.Inode.{to_words}
use file_system_fuse.Inode.Layout.{Fits}
use file_system_fuse.Inode.Store.{IsGeometry, inode_at}
use file_system_fuse.MakeFs.{blank}
use file_system_fuse.Directory.{is_dir}
use file_system_fuse.Directory.Find.{IsListing}
use file_system_fuse.State.{done}
use file_system_fuse.World.{World}
use file_system_fuse.Resolve.{root_inode}
use file_system_fuse.Samples.{
  name, resolved, start, start-IsGeometry, start_inode, start-IsMapped, start-Fits, file, zeros,
  world_with,
}
use file_system_fuse.Operations.{custom_truncate, init_file_layer}
use file_system_fuse.Operations.Dots.{dots}
use file_system_fuse.Operations.Cut.{cut_to, custom_truncate_lem}
use file_system_fuse.FileIo.Stored.{FileWritten}
use file_system_fuse.Disk.{block_size}
use file_system_fuse.Bytes.{zero_block}
use file_system_fuse.Fs.{Fs}
use file_system_fuse.Operations.Root.{root_with, init_file_layer_lem}

file-Fits : Fits (blank file)
unfolding to_words
file-Fits = record { directs = refl; words = omega arith; mode = omega arith }

init_file_layer_lem_example :
    (w' : World) × (d : ℕ) × (init_file_layer true file (world_with zeros 0) ≡ done true w')
    × (inode_at w'.fs root_inode ≡ root_with file 1_000 d)
    × (is_dir (root_with file 1_000 d).mode ≡ true)
    × IsListing (root_with file 1_000 d) w'.fs 0 ((d, dots root_inode) ∷ [])
    × (w'.cache.head ≡ 0)
    × ((i : ℕ) → w'.cache.map i ≡ 0)
    × IsGeometry w'.fs.super_block
init_file_layer_lem_example = init_file_layer_lem file (world_with zeros 0) file-Fits (omega arith)

custom_truncate_lem_example :
    (s' : Fs) × (custom_truncate 1 name 5_000 start ≡ done 0 (record start { fs = s' }))
    × FileWritten 5 2
        (λ k. 2_600 + k)
        5_000
        (block_size - 5_000 % block_size)
        (cut_to 5_000 (inode_at start.fs 5))
        zero_block
        start.fs
        s'
custom_truncate_lem_example =
    custom_truncate_lem 1 name start start 5 (resolved start.fs 0) start-IsGeometry (omega arith)
      start-Fits 5_000 start-IsMapped (rw start_inode (omega arith)) (rw start_inode (omega arith))
      (omega arith) (rw start_inode (omega arith)) (omega arith)
