-- ===== src/Fuse/Main/Tests.antt =====
-- The start of the program over old memory, and a directory that is listed.
use file_system_fuse.Base.{ℕ, ◌≡◌, refl, true, [], ◌∷◌, arith}
use file_system_fuse.Inode.{to_words}
use file_system_fuse.Inode.Layout.{Fits}
use file_system_fuse.MakeFs.{blank}
use file_system_fuse.Directory.{is_dir}
use file_system_fuse.State.{done}
use file_system_fuse.World.{World, W}
use file_system_fuse.Resolve.{root_inode}
use file_system_fuse.Operations.{dot, dot_dot}
use file_system_fuse.Operations.Dots.{dots}
use file_system_fuse.Operations.Root.{init_file_layer_lem}
use file_system_fuse.Fuse.{charm_readdir}
use file_system_fuse.Fuse.Listing.{listings, charm_readdir_lem}
use file_system_fuse.Fuse.Main.{FuseOperations, fuse_ops, main, root_stat, main_lem, resolved_root}
use file_system_fuse.Samples.{file, zeros, world_with}

blank-Fits : Fits (blank file)
unfolding to_words
blank-Fits = record { directs = refl; words = omega arith; mode = omega arith }

main_lem_example :
    (w' : World) × (d : ℕ) × ((fuse_main : FuseOperations → W ℕ)
      → main true file (fuse_ops 9 9 0) fuse_main (world_with zeros 0)
        ≡ fuse_main (fuse_ops 9 9 0) w')
    × ((fuse_ops 9 9 0).getattr (b'/' ∷ []) w' ≡ done (0, root_stat file 1_000 d) w')
    × ((fuse_ops 9 9 0).readdir (b'/' ∷ []) w'
        ≡ done (0, (dot, root_stat file 1_000 d) ∷ (dot_dot, root_stat file 1_000 d) ∷ []) w')
    × (is_dir (root_stat file 1_000 d).st_mode ≡ true)
main_lem_example = main_lem file (world_with zeros 0) 8 9 0 blank-Fits (omega arith)

-- The world after the start.
abbrev begun : World
begun = (init_file_layer_lem file (world_with zeros 0) blank-Fits (omega arith)).0

abbrev block : ℕ
block = (init_file_layer_lem file (world_with zeros 0) blank-Fits (omega arith)).1

charm_readdir_lem_example :
    charm_readdir 9 (b'/' ∷ []) begun
    ≡ done (0, listings begun.fs ((block, dots root_inode) ∷ [])) begun
charm_readdir_lem_example =
    let (w', d, run, root, dir, listing, head, map, g) =
      init_file_layer_lem file (world_with zeros 0) blank-Fits (omega arith) in
    charm_readdir_lem 9 (b'/' ∷ []) begun begun root_inode ((block, dots root_inode) ∷ [])
      (resolved_root 8 file 1_000 d w' g root) g (omega arith) (rw root dir) (rw root refl)
      (omega arith) (rw root listing) (omega arith)
