-- ===== src/Fuse/Main.antt =====
-- The table `fuse_ops` of lib/fuse_layer.c, and `main`, which hands it to libfuse. `fuse_main` is a
-- parameter: it gets the table and calls its members as it likes. `umask` and the arguments of the
-- command are for libfuse and the kernel only.
mod Tests
use file_system_fuse.Base.{
  suc, ℕ, ◌+◌, ◌^◌, ◌<◌, ◌≡◌, ◌∙◌, refl, ap, true, Bool, List, [], ◌∷◌, arith,
}
use file_system_fuse.Bytes.{Block}
use file_system_fuse.FilePath.{same, Chars}
use file_system_fuse.Inode.{Inode}
use file_system_fuse.Inode.Layout.{Fits}
use file_system_fuse.Inode.Store.{IsGeometry, inode_at, read_inode-at}
use file_system_fuse.MakeFs.{blank}
use file_system_fuse.Directory.{is_dir}
use file_system_fuse.Directory.Find.{IsListing}
use file_system_fuse.State.{done, ◌>>=◌, ◌>>◌}
use file_system_fuse.World.{World, W}
use file_system_fuse.Resolve.{root_inode, get_inode_num_from_path}
use file_system_fuse.Operations.{dot, dot_dot, init_file_layer}
use file_system_fuse.Operations.Dots.{dots}
use file_system_fuse.Operations.Root.{root_with, init_file_layer_lem}
use file_system_fuse.Fuse.{
  Stat, no_stat, inode_to_stdbuff, charm_access, charm_chown, charm_chmod, charm_create,
  charm_getattr, charm_mkdir, charm_rmdir, charm_unlink, charm_truncate, charm_mknod, charm_readdir,
  charm_open, charm_read, charm_write, charm_utimens,
}
use file_system_fuse.Fuse.Rename.{charm_rename}
use file_system_fuse.Fuse.Listing.{charm_readdir_lem}

-- The members of `struct fuse_operations` that are set.
pub record FuseOperations : Type 0 where
  pub access : Chars → (mode : ℕ) → W ℕ
  pub chown : Chars → (uid gid : ℕ) → W ℕ
  pub chmod : Chars → (mode : ℕ) → W ℕ
  pub create : Chars → (mode flags : ℕ) → W ℕ
  pub getattr : Chars → W (ℕ × Stat)
  pub mkdir : Chars → (mode : ℕ) → W ℕ
  pub rmdir : Chars → W ℕ
  pub unlink : Chars → W ℕ
  pub truncate : Chars → (offset : ℕ) → W ℕ
  pub mknod : Chars → (mode dev : ℕ) → W ℕ
  pub readdir : Chars → W (ℕ × List (Chars × Stat))
  pub open_file : Chars → (flags : ℕ) → W ℕ
  pub read : Chars → Block → (size offset : ℕ) → W (ℕ × Block)
  pub write : Chars → Block → (size offset : ℕ) → W ℕ
  pub utimens : Chars → W ℕ
  pub rename : (from to : Chars) → W ℕ

-- The fuel, that for the copying loop of `charm_rename`, and `errno` there.
abbrev pub fuse_ops : (fuel rounds errno : ℕ) → FuseOperations
fuse_ops fuel rounds errno = record {
  access = charm_access fuel;
  chown = charm_chown;
  chmod = charm_chmod fuel;
  create = charm_create fuel;
  getattr = charm_getattr fuel;
  mkdir = charm_mkdir fuel;
  rmdir = charm_rmdir fuel;
  unlink = charm_unlink fuel;
  truncate = charm_truncate fuel;
  mknod = charm_mknod fuel;
  readdir = charm_readdir fuel;
  open_file = charm_open fuel;
  read = charm_read fuel;
  write = charm_write fuel;
  utimens = charm_utimens;
  rename = charm_rename fuel rounds errno;
}

-- The result of `init_file_layer` is not looked at. `given` and `junk` are those of `make_fs`.
unfoldable pub main :
    (given : Bool) (junk : Inode) (ops : FuseOperations) (fuse_main : FuseOperations → W ℕ) → W ℕ
main given junk ops fuse_main = do init_file_layer given junk; fuse_main ops

-- The root directory as `getattr` and `readdir` show it.
abbrev pub root_stat : (junk : Inode) (time d : ℕ) → Stat
root_stat junk time d = record (inode_to_stdbuff (root_with junk time d) no_stat) {
  st_ino = root_inode;
}

abbrev slash : Chars
slash = b'/' ∷ []

module _ (fuel : ℕ) (junk : Inode) (time d : ℕ) (w : World) (g : IsGeometry w.fs.super_block)
    (root : inode_at w.fs root_inode ≡ root_with junk time d) where
  pub resolved_root : get_inode_num_from_path (suc fuel) slash w ≡ done root_inode w
  unfolding get_inode_num_from_path same
  resolved_root = refl

  getattr_root : charm_getattr (suc fuel) slash w ≡ done (0, root_stat junk time d) w
  unfolding charm_getattr
  getattr_root = rw (resolved_root, read_inode-at w.fs root_inode g (omega arith), root) refl

  readdir_root :
      is_dir (root_with junk time d).mode ≡ true
      → IsListing (root_with junk time d) w.fs 0 ((d, dots root_inode) ∷ [])
      → charm_readdir (suc fuel) slash w
        ≡ done (0, (dot, root_stat junk time d) ∷ (dot_dot, root_stat junk time d) ∷ []) w
  readdir_root dir listing =
      charm_readdir_lem (suc fuel) slash w w root_inode ((d, dots root_inode) ∷ []) resolved_root g
        (omega arith) (rw root dir) (rw root refl) (omega arith) (rw root listing) (omega arith)
      ∙ rw root refl

-- With enough memory, `main` calls `fuse_main` with the handlers, in a world in which `getattr` of
-- "/" returns 0 and the members of a directory, and `readdir` of "/" returns 0 and lists "." and
-- ".." for that directory and nothing else; neither changes the world.
pub main_lem :
    (junk : Inode) (w : World) (fuel rounds errno : ℕ)
    → Fits (blank junk)
    → w.now w.calls < 2 ^ 64
    → (w' : World) × (d : ℕ) × ((fuse_main : FuseOperations → W ℕ)
        → main true junk (fuse_ops (suc fuel) rounds errno) fuse_main w
          ≡ fuse_main (fuse_ops (suc fuel) rounds errno) w')
      × ((fuse_ops (suc fuel) rounds errno).getattr (b'/' ∷ []) w'
          ≡ done (0, root_stat junk (w.now w.calls) d) w')
      × ((fuse_ops (suc fuel) rounds errno).readdir (b'/' ∷ []) w'
          ≡ done
              (
                0,
                (dot, root_stat junk (w.now w.calls) d)
                    ∷ (dot_dot, root_stat junk (w.now w.calls) d)
                    ∷ [],
              )
              w')
      × (is_dir (root_stat junk (w.now w.calls) d).st_mode ≡ true)
unfolding main
main_lem junk w fuel rounds errno fits clock =
    let (w', d, run, root, dir, listing, head, map, g) = init_file_layer_lem junk w fits clock in
    (
      w',
      d,
      λ fuse_main. rw run refl,
      getattr_root fuel junk (w.now w.calls) d w' g root,
      readdir_root fuel junk (w.now w.calls) d w' g root dir listing,
      dir,
    )
