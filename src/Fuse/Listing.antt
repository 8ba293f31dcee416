-- ===== src/Fuse/Listing.antt =====
-- What `charm_readdir` lists.
use file_system_fuse.Base.{
  ℕ, zero, suc, ◌+◌, ◌^◌, ◌<◌, ◌≤◌, ◌≡◌, ◌∙◌, refl, ap, true, false, List, [], ◌∷◌, ◌++◌, All,
  length, arith, ◌==◌,
}
use file_system_fuse.Base.Ssize.{slt, minus_one, add_ssize}
use file_system_fuse.Bytes.{Block}
use file_system_fuse.Fs.{Fs}
use file_system_fuse.Disk.{block_size}
use file_system_fuse.FilePath.{Chars}
use file_system_fuse.FreeList.Blocks.{read_dblock-in}
use file_system_fuse.Inode.{Inode}
use file_system_fuse.Inode.Store.{IsGeometry, IsInum, inode_at, read_inode-at}
use file_system_fuse.Directory.{is_dir}
use file_system_fuse.Directory.Records.{Entry, IsRecords, chars, field-in}
use file_system_fuse.Directory.Find.{IsListing}
use file_system_fuse.State.{done}
use file_system_fuse.World.{World}
use file_system_fuse.Resolve.{get_inode_num_from_path}
use file_system_fuse.Fuse.{
  Stat, no_stat, inode_to_stdbuff, read_chars, list_block, list_blocks, charm_readdir,
}

-- What is listed for an entry: its name, and the members of its inode.
abbrev pub shown : Fs → Entry → Chars × Stat
shown s e = (e.name, record (inode_to_stdbuff (inode_at s e.inum) no_stat) { st_ino = e.inum })

abbrev pub listing : Fs → List Entry → List (Chars × Stat)
listing s [] = []
listing s (e ∷ es) = shown s e ∷ listing s es

abbrev pub listings : Fs → List (ℕ × List Entry) → List (Chars × Stat)
listings s [] = []
listings s ((d, es) ∷ rest) = listing s es ++ listings s rest

-- The entries lead to inodes.
abbrev pub AreFiles : List (ℕ × List Entry) → Type 0
AreFiles ds = All (λ p. All (λ e. IsInum e.inum) p.1) ds

read_chars_lem :
    (n p : ℕ) (b : Block) (w : World)
    → p + n ≤ block_size
    → read_chars n p b w ≡ done (chars n b p) w
unfolding read_chars chars
read_chars_lem zero p b w h = refl
read_chars_lem (suc n) p b w h =
    rw (field-in 1 p b w.fs (omega arith), read_chars_lem n (p + 1) b w (omega arith)) refl

module _ (w : World) (g : IsGeometry w.fs.super_block) where
  list_block_lem :
      (fuel p : ℕ) (b : Block) (es : List Entry)
      → IsRecords b p es
      → All (λ e. IsInum e.inum) es
      → block_size < p + fuel
      → list_block fuel p b w ≡ done (listing w.fs es) w
  unfolding list_block
  list_block_lem zero p b [] r f h = absurd (omega arith)
  list_block_lem zero p b (e ∷ es) r f h = absurd (omega (arith, r.0.room, r.0.within))
  list_block_lem (suc fuel) p b [] r f h =
      let end : slt p block_size ≡ false = unfold slt in ground (arith, r) in rw end refl
  list_block_lem (suc fuel) p b (e ∷ es) r f h =
      let record_at = r.0 in
      let more : slt p block_size ≡ true =
        unfold slt in ground (arith, record_at.room, record_at.within) in
      let next : add_ssize p e.size ≡ p + e.size = omega (arith, record_at.within) in
      rw
        (
          more,
          field-in 8 p b w.fs (omega (arith, record_at.room, record_at.within)),
          record_at.inum,
          field-in 8 (p + 8) b w.fs (omega (arith, record_at.room, record_at.within)),
          record_at.size,
          field-in 2 (p + 16) b w.fs (omega (arith, record_at.room, record_at.within)),
          record_at.name_length,
          read_chars_lem (length e.name) (p + 18) b w
              (omega (arith, record_at.room, record_at.within)),
          record_at.name,
          read_inode-at w.fs e.inum g f.0,
          next,
          list_block_lem fuel (p + e.size) b es r.1 f.1 (omega (arith, record_at.room, h)),
        )
        refl

  list_blocks_lem :
      (inode : Inode) (i : ℕ) (ds : List (ℕ × List Entry))
      → IsListing inode w.fs i ds
      → AreFiles ds
      → list_blocks (length ds) i inode w ≡ done (listings w.fs ds) w
  unfolding list_blocks
  list_blocks_lem inode i [] l f = refl
  list_blocks_lem inode i ((d, es) ∷ rest) (run, in_data, records, more) f =
      rw
        (
          run,
          read_dblock-in d w.fs in_data,
          list_block_lem (block_size + 1) 0 (w.fs.disk d) es records f.0 (omega arith),
          list_blocks_lem inode (i + 1) rest more f.1,
        )
        refl

-- For a path that leads to a directory whose blocks hold lists of entries, all for inodes, `readdir`
-- ends, returns 0 and gives to `filler`, in the order of the blocks and of the entries in them, the
-- name of each entry with the members of its inode, and nothing else; it changes nothing after the
-- path is resolved.
pub charm_readdir_lem :
    (fuel : ℕ) (path : Chars) (w w' : World) (inum : ℕ) (ds : List (ℕ × List Entry))
    → get_inode_num_from_path fuel path w ≡ done inum w'
    → IsGeometry w'.fs.super_block
    → IsInum inum
    → is_dir (inode_at w'.fs inum).mode ≡ true
    → (inode_at w'.fs inum).num_blocks ≡ length ds
    → length ds < 2 ^ 63
    → IsListing (inode_at w'.fs inum) w'.fs 0 ds
    → AreFiles ds
    → charm_readdir fuel path w ≡ done (0, listings w'.fs ds) w'
unfolding charm_readdir
charm_readdir_lem fuel path w w' inum ds resolved g valid dir count small l f =
    let found : (inum == minus_one) ≡ false = ground (arith, valid) in
    let inode : Inode = inode_at w'.fs inum in
    let positive : slt inode.num_blocks 0 ≡ false = unfold slt in ground (arith, count, small) in
    let run : list_blocks inode.num_blocks 0 inode w' ≡ done (listings w'.fs ds) w' =
      ap (λ n. list_blocks n 0 inode w') count ∙ list_blocks_lem w' g inode 0 ds l f in
    rw (resolved, found, read_inode-at w'.fs inum g valid, dir, positive, run) refl
