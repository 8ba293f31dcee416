-- ===== src/Fuse/Modes.antt =====
-- `charm_getattr` after `charm_chmod`.
use file_system_fuse.Base.{ℕ, ◌<◌, ◌^◌, ◌≡◌, refl, false, ◌==◌, arith}
use file_system_fuse.Base.Ssize.{minus_one}
use file_system_fuse.FilePath.{Chars}
use file_system_fuse.Inode.{Inode, to_words}
use file_system_fuse.Inode.Layout.{other_tail, Fits}
use file_system_fuse.Inode.Store.{
  IsGeometry, IsInum, inode_at, with_inode, read_inode-at, write_inode-at, inode_at_self,
  super_with_inode,
}
use file_system_fuse.State.{done}
use file_system_fuse.World.{World}
use file_system_fuse.Resolve.{get_inode_num_from_path}
use file_system_fuse.Resolve.Kept.{resolution_reads}
use file_system_fuse.Fuse.{no_stat, inode_to_stdbuff, charm_chmod, charm_getattr}

abbrev with_mode : (mode : ℕ) → Inode → Inode
with_mode mode inode = record inode { mode = mode }

with_mode-Fits :
    (mode : ℕ) (inode : Inode) → mode < 2 ^ 32 → Fits inode → Fits (with_mode mode inode)
unfolding to_words
with_mode-Fits mode inode h f = record {
  directs = f.directs;
  words = other_tail inode.direct_blocks _ _ f.words (λ t. omega (arith, t, h));
  mode = h;
}

-- The world after the change.
abbrev pub after_chmod : World → (inum mode : ℕ) → World
after_chmod w inum mode = record w {
  fs = with_inode w.fs inum (with_mode mode (inode_at w.fs inum));
}

module _ (fuel : ℕ) (path : Chars) (w w' : World) (inum : ℕ)
    (resolved : get_inode_num_from_path fuel path w ≡ done inum w')
    (geometry : IsGeometry w'.fs.super_block) (valid : IsInum inum)
    (fits : Fits (inode_at w'.fs inum)) (mode : ℕ) (small : mode < 2 ^ 32) where
  found : (inum == minus_one) ≡ false
  found = ground (arith, valid)

  pub charm_chmod_lem : charm_chmod fuel path mode w ≡ done 0 (after_chmod w' inum mode)
  unfolding charm_chmod
  charm_chmod_lem =
      rw
        (
          resolved,
          found,
          read_inode-at w'.fs inum geometry valid,
          write_inode-at w'.fs inum (with_mode mode (inode_at w'.fs inum)) geometry valid,
        )
        refl

  -- `chmod` of a file returns 0, and where the path still leads to the inode, `getattr` then returns
  -- the mode that was set, with the other members that the inode had.
  pub charm_getattr-charm_chmod :
      (w2 : World)
      → get_inode_num_from_path fuel path (after_chmod w' inum mode) ≡ done inum w2
      → (charm_chmod fuel path mode w ≡ done 0 (after_chmod w' inum mode))
        × (charm_getattr fuel path (after_chmod w' inum mode)
            ≡ done
                (
                  0,
                  record (inode_to_stdbuff (inode_at w'.fs inum) no_stat) {
                    st_ino = inum;
                    st_mode = mode;
                  },
                )
                w2)
  unfolding charm_getattr
  charm_getattr-charm_chmod w2 again =
      let same : w2.fs ≡ (after_chmod w' inum mode).fs =
        resolution_reads fuel path (after_chmod w' inum mode) w2 inum again in
      let new_fits = with_mode-Fits mode (inode_at w'.fs inum) small fits in
      let super : IsGeometry w2.fs.super_block =
        rw
          (
            same,
            super_with_inode w'.fs inum (with_mode mode (inode_at w'.fs inum)) geometry valid
                new_fits,
          )
          geometry in
      let there : inode_at w2.fs inum ≡ with_mode mode (inode_at w'.fs inum) =
        rw same (
          inode_at_self w'.fs inum (with_mode mode (inode_at w'.fs inum)) geometry valid
            new_fits) in
      (charm_chmod_lem, rw (again, found, read_inode-at w2.fs inum super valid, there) refl)
