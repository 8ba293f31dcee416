-- ===== src/Operations/NewFile.antt =====
-- The end of `create_new_file` and of `custom_mknod`: the inodes of the directory and of the new file.
use file_system_fuse.Base.{true, ℕ, ◌+◌, ◌^◌, ◌<◌, ◌≡◌, ◌≢◌, ◌∙◌, refl, sym, ap, List, some, arith}
use file_system_fuse.Base.Ssize.{add_ssize}
use file_system_fuse.Fs.{Fs, SuperBlock, ok}
use file_system_fuse.FreeList.{inode_b_count}
use file_system_fuse.Inode.{write_inode, Inode, to_words, tail_words}
use file_system_fuse.Inode.Layout.{Fits, other_tail}
use file_system_fuse.Inode.Store.{
  IsGeometry, IsInum, inode_at, with_inode, read_inode-at, write_inode-at, inode_at_self,
  inode_at_ne, disk_with_inode, super_with_inode,
}
use file_system_fuse.State.{done}
use file_system_fuse.World.{World}
use file_system_fuse.Directory.Records.{Entry}
use file_system_fuse.Directory.Enter.{IsDirectory, IsDirectory-kept}
use file_system_fuse.Resolve.{finish_file}

-- The inode of a directory that was changed.
abbrev pub timed : (time : ℕ) → Inode → Inode
timed time inode = record inode {
  modification_time = time;
  status_change_time = time;
  access_time = time;
}

-- The inode of a file that was made.
abbrev pub created : (time mode : ℕ) → Inode → Inode
created time mode inode = record inode {
  link_count = add_ssize inode.link_count 1;
  mode = mode;
  num_blocks = 0;
  file_size = 0;
  access_time = time;
  modification_time = time;
  creation_time = time;
  status_change_time = time;
}

timed-Fits : (time : ℕ) (inode : Inode) → time < 2 ^ 64 → Fits inode → Fits (timed time inode)
unfolding to_words
timed-Fits time inode h f = record {
  directs = f.directs;
  words = other_tail inode.direct_blocks (tail_words inode) _ f.words (λ t. omega (arith, t, h));
  mode = f.mode;
}

created-Fits :
    (time mode : ℕ) (inode : Inode)
    → time < 2 ^ 64
    → mode < 2 ^ 32
    → Fits inode
    → Fits (created time mode inode)
unfolding to_words
created-Fits time mode inode h k f = record {
  directs = f.directs;
  words = other_tail inode.direct_blocks (tail_words inode) _ f.words (λ t. omega (arith, t, h, k));
  mode = k;
}

IsDirectory-timed :
    {inode : Inode} {s : Fs} {ns : List ℕ} {blk : ℕ → ℕ} {ents : ℕ → List Entry} (time : ℕ)
    → time < 2 ^ 64
    → IsDirectory inode s ns blk ents
    → IsDirectory (timed time inode) s ns blk ents
IsDirectory-timed {inode} time l d =
    let h = d.holds in
    record {
      holds = record {
        list = h.list;
        fits = timed-Fits time inode l h.fits;
        few = h.few;
        at = h.at;
        data_block = h.data_block;
        once = h.once;
        not_free = h.not_free;
      };
      dir = d.dir;
      records = d.records;
    }

-- The file system with the parent written, and with the file written too.
abbrev pub parent_stored : (s : Fs) (parent : ℕ) → Inode → (time : ℕ) → Fs
parent_stored s parent new time = with_inode s parent (timed time new)

abbrev pub both_stored : (s : Fs) (parent child : ℕ) → Inode → (time mode : ℕ) → Fs
both_stored s parent child new time mode =
    with_inode (parent_stored s parent new time) child (created time mode (inode_at s child))

-- What the two writes leave.
pub record Stored (s : Fs) (parent child : ℕ) (new : Inode) (ns : List ℕ) (blk : ℕ → ℕ)
    (ents : ℕ → List Entry) (time mode : ℕ) (t : Fs) : Type 0 where
  pub child_inode : inode_at t child ≡ created time mode (inode_at s child)
  pub parent_inode : inode_at t parent ≡ timed time new
  pub others : (m : ℕ) → m ≢ parent → m ≢ child → inode_at t m ≡ inode_at s m
  pub data_blocks : (a : ℕ) → inode_b_count < a → t.disk a ≡ s.disk a
  pub super_block : t.super_block ≡ s.super_block
  pub directory : IsDirectory (inode_at t parent) t ns blk ents

-- The directory `parent` and the file `child` after an entry was made, with the two inodes written.
module _ (s : Fs) (g : IsGeometry s.super_block) (parent child : ℕ) (parent_valid : IsInum parent)
    (child_valid : IsInum child) (apart : child ≢ parent) {new : Inode} {ns : List ℕ} {blk : ℕ → ℕ}
    {ents : ℕ → List Entry} (d : IsDirectory new s ns blk ents) (time mode : ℕ)
    (clock : time < 2 ^ 64) (small : mode < 2 ^ 32) (fits : Fits (inode_at s child)) where
  abbrev with_parent : Fs
  with_parent = parent_stored s parent new time

  abbrev made : Inode
  made = created time mode (inode_at s child)

  abbrev with_both : Fs
  with_both = both_stored s parent child new time mode

  parent-Fits : Fits (timed time new)
  parent-Fits = timed-Fits time new clock d.holds.fits

  made-Fits : Fits made
  made-Fits = created-Fits time mode (inode_at s child) clock small fits

  g1 : IsGeometry with_parent.super_block
  g1 = rw (super_with_inode s parent (timed time new) g parent_valid parent-Fits) g

  child_read : inode_at with_parent child ≡ inode_at s child
  child_read = inode_at_ne s parent (timed time new) g parent_valid parent-Fits child apart

  child_made : inode_at with_both child ≡ made
  child_made = inode_at_self with_parent child made g1 child_valid made-Fits

  parent_made : inode_at with_both parent ≡ timed time new
  parent_made =
      inode_at_ne with_parent child made g1 child_valid made-Fits parent (λ e. apart (sym e))
      ∙ inode_at_self s parent (timed time new) g parent_valid parent-Fits

  others_made : (m : ℕ) → m ≢ parent → m ≢ child → inode_at with_both m ≡ inode_at s m
  others_made m h k =
      inode_at_ne with_parent child made g1 child_valid made-Fits m k
      ∙ inode_at_ne s parent (timed time new) g parent_valid parent-Fits m h

  data_made : (a : ℕ) → inode_b_count < a → with_both.disk a ≡ s.disk a
  data_made a l =
      disk_with_inode with_parent child made g1 child_valid made-Fits a l
      ∙ disk_with_inode s parent (timed time new) g parent_valid parent-Fits a l

  super_made : with_both.super_block ≡ s.super_block
  super_made =
      super_with_inode with_parent child made g1 child_valid made-Fits
      ∙ super_with_inode s parent (timed time new) g parent_valid parent-Fits

  made-IsDirectory : IsDirectory (inode_at with_both parent) with_both ns blk ents
  made-IsDirectory = rw parent_made (
      IsDirectory-kept (IsDirectory-timed time clock d) data_made
        (ap (λ (b : SuperBlock). b.free_list_head) super_made))

  -- The end of `create_new_file`.
  pub finish_run :
      (w : World)
      → w.fs ≡ s
      → w.now w.calls ≡ time
      → finish_file parent child mode new w
        ≡ done (child, some made) (record w { fs = with_parent; calls = w.calls + 1 })
  unfolding finish_file
  finish_run w e t =
      rw
        (
          e,
          t,
          write_inode-at s parent (timed time new) g parent_valid,
          read_inode-at with_parent child g1 child_valid,
          child_read,
        )
        refl

  -- The end of `custom_mknod`.
  pub store_run : write_inode child made with_parent ≡ ok true with_both
  store_run = write_inode-at with_parent child made g1 child_valid

  pub both-Stored : Stored s parent child new ns blk ents time mode with_both
  both-Stored = record {
    child_inode = child_made;
    parent_inode = parent_made;
    others = others_made;
    data_blocks = data_made;
    super_block = super_made;
    directory = made-IsDirectory;
  }
