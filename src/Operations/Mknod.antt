-- ===== src/Operations/Mknod.antt =====
-- `custom_mknod` in a directory in direct blocks: the new file is in the directory, with its inode.
use file_system_fuse.Base.{
  option-some, ℕ, suc, ◌+◌, ◌^◌, ◌≤◌, ◌<◌, ◌≡◌, ◌≢◌, ◌∙◌, refl, ap, true, false, List, length, All,
  Option, none, some, ◌==◌, if◌then◌else◌, arith,
}
use file_system_fuse.Base.Ssize.{sle, minus_one}
use file_system_fuse.Fs.{Fs, ok}
use file_system_fuse.FilePath.{Chars, same, get_parent_path, get_child_name}
use file_system_fuse.FreeList.{inode_b_count}
use file_system_fuse.FreeList.Chain.{FreeList, free_count, IsDataBlock}
use file_system_fuse.Inode.{
  Inode, direct_b_count, load_inode, inode_num_to_block_id, inode_num_to_offset,
}
use file_system_fuse.Inode.Layout.{Fits}
use file_system_fuse.Inode.Create.{create_new_inode-latest}
use file_system_fuse.Inode.Scan.{advance}
use file_system_fuse.Inode.Store.{IsGeometry, IsInum, inode_at, inode_in_block, read_inode-at}
use file_system_fuse.State.{done}
use file_system_fuse.World.{World, W, with_fs}
use file_system_fuse.Transfer.Holds.{not_data_free}
use file_system_fuse.Directory.{FilePos, max_name_length, find_file, add_new_entry}
use file_system_fuse.Directory.Records.{Entry}
use file_system_fuse.Directory.Names.{number_of}
use file_system_fuse.Directory.Enter.{IsDirectory, IsDirectory-kept, find_file-names}
use file_system_fuse.Directory.Adding.{add_new_entry-Entered, names-missing}
use file_system_fuse.Directory.Names.{names}
use file_system_fuse.Directory.Entered.{Entered}
use file_system_fuse.Resolve.{get_inode_num_from_path, finish_file, enter_file, create_new_file}
use file_system_fuse.Operations.NewFile.{
  created, finish_run, store_run, parent_stored, both_stored, Stored, both-Stored,
}
use file_system_fuse.Operations.{custom_mknod}

-- No inode changes while free blocks and those of a directory do.
inode_at_others :
    {s : Fs} (t : Fs) {ns : List ℕ} (n : ℕ) (blk : ℕ → ℕ)
    → IsGeometry s.super_block
    → t.super_block.inodes_per_block ≡ s.super_block.inodes_per_block
    → FreeList s ns
    → ((k : ℕ) → k < n → IsDataBlock (blk k))
    → ((a : ℕ)
        → a ≢ 0
        → free_count s.disk ns a ≡ 0
        → ((k : ℕ) → k < n → a ≢ blk k)
        → t.disk a ≡ s.disk a)
    → (m : ℕ) → IsInum m
    → inode_at t m ≡ inode_at s m
unfolding inode_at
inode_at_others {s} t n blk g e f in_data kept m v =
    let (first, last, room) = inode_in_block s.super_block m g v in
    let b : ℕ = inode_num_to_block_id s.super_block m in
    let z : b ≢ 0 = omega (arith, first) in
    rw e (
      ap (λ c. load_inode c (inode_num_to_offset s.super_block m))
        (kept b z (not_data_free f b z last)
          (λ k l q. absurd (omega (arith, q, last, in_data k l)))))

module _ (fuel : ℕ) (path parent_path name : Chars) (w w1 w2 : World) (parent : ℕ)
    (split : get_parent_path path ≡ some parent_path)
    (child_split : get_child_name path ≡ some name)
    (parent_there : get_inode_num_from_path (suc fuel) parent_path w ≡ done parent w1)
    (missing : get_inode_num_from_path (suc fuel) path w1 ≡ done minus_one w2)
    (geometry : IsGeometry w2.fs.super_block) (parent_valid : IsInum parent)
    (child_valid : IsInum w2.fs.super_block.latest_inum)
    (apart : w2.fs.super_block.latest_inum ≢ parent)
    (unused : (inode_at w2.fs w2.fs.super_block.latest_inum).allocated ≡ false)
    (fits : Fits (inode_at w2.fs w2.fs.super_block.latest_inum)) {ns : List ℕ} {blk : ℕ → ℕ}
    {ents : ℕ → List Entry} (d : IsDirectory (inode_at w2.fs parent) w2.fs ns blk ents)
    (room : (inode_at w2.fs parent).num_blocks < direct_b_count)
    (head : w2.fs.super_block.free_list_head ≢ 0) (short : length name ≤ max_name_length)
    (bytes : All (λ ch. ch < 256) name)
    (absent : find_file name (inode_at w2.fs parent) w2.fs ≡ ok none w2.fs) (mode dev : ℕ)
    (small : mode < 2 ^ 32) (clock : w2.now w2.calls < 2 ^ 64) where
  abbrev child : ℕ
  child = w2.fs.super_block.latest_inum

  -- The state after the inode number is taken.
  abbrev taken : Fs
  taken = advance 1 w2.fs

  taken-IsDirectory : IsDirectory (inode_at w2.fs parent) taken ns blk ents
  taken-IsDirectory = IsDirectory-kept d (λ a l. refl) refl

  enter_run :
      (new : Inode) (s : Fs)
      → add_new_entry (inode_at w2.fs parent) child name taken ≡ ok (true, new) s
      → enter_file (suc fuel) parent mode (inode_at w2.fs parent) name w2
        ≡ finish_file parent child mode new (record w2 { fs = s })
  unfolding enter_file
  enter_run new s added =
      let is_number : (child == minus_one) ≡ false = ground (arith, child_valid) in
      rw (create_new_inode-latest w2.fs geometry fuel child_valid unused, is_number, added) refl

  create_run :
      create_new_file (suc fuel) path mode w
      ≡ enter_file (suc fuel) parent mode (inode_at w2.fs parent) name w2
  unfolding create_new_file
  create_run =
      let is_number : (parent == minus_one) ≡ false = ground (arith, parent_valid) in
      ap (λ (m : W (ℕ × Option Inode)). m w) (option-some _ _ split)
      ∙ rw
          (
            parent_there,
            is_number,
            missing,
            read_inode-at w2.fs parent geometry parent_valid,
            d.dir,
          )
          (ap (λ (m : W (ℕ × Option Inode)). m w2) (option-some _ _ child_split))

  -- After the entry is made, with the two inodes written.
  module _ {new : Inode} {s : Fs} {ns' : List ℕ} {blk' : ℕ → ℕ} {ents' : ℕ → List Entry}
      (added : add_new_entry (inode_at w2.fs parent) child name taken ≡ ok (true, new) s)
      (e : Entered child name (inode_at w2.fs parent) taken ns blk ents new s ns' blk' ents') where
    abbrev time : ℕ
    time = w2.now w2.calls

    g : IsGeometry s.super_block
    g = record {
      per_block = e.per_block ∙ geometry.per_block;
      count = e.inode_count ∙ geometry.count;
    }

    taken-IsGeometry : IsGeometry taken.super_block
    taken-IsGeometry = record { per_block = geometry.per_block; count = geometry.count }

    taken_inode : (m : ℕ) → inode_at taken m ≡ inode_at w2.fs m
    unfolding inode_at
    taken_inode m = refl

    same_inode : (m : ℕ) → IsInum m → inode_at s m ≡ inode_at w2.fs m
    same_inode m v =
        inode_at_others {s = taken} s (inode_at w2.fs parent).num_blocks blk taken-IsGeometry
          e.per_block taken-IsDirectory.holds.list taken-IsDirectory.holds.data_block e.others m v
        ∙ taken_inode m

    child-Fits : Fits (inode_at s child)
    child-Fits = rw (same_inode child child_valid) fits

    -- The state of the file system at the end.
    abbrev final : Fs
    final = both_stored s parent child new time mode

    stored : Stored s parent child new ns' blk' ents' time mode final
    stored =
        both-Stored s g parent child parent_valid child_valid apart e.directory time mode clock
          small child-Fits

    child_number : sle child minus_one ≡ false
    unfolding sle
    child_number = ground (arith, child_valid)

    mknod_run :
        custom_mknod (suc fuel) path mode dev w
        ≡ done true (record w2 { fs = final; calls = w2.calls + 1 })
    unfolding custom_mknod
    mknod_run =
        rw
          (
            create_run,
            enter_run new s added,
            finish_run s g parent child parent_valid child_valid apart e.directory time mode clock
                small child-Fits (record w2 { fs = s }) refl refl,
            child_number,
          )
          (ap (with_fs (record w2 { fs = parent_stored s parent new time; calls = w2.calls + 1 })) (
            store_run s g parent child parent_valid child_valid apart e.directory time mode clock
              small child-Fits))

    names_made :
        (q : Chars)
        → (r : Option FilePos) × (r' : Option FilePos) × (find_file q (inode_at w2.fs parent) w2.fs
            ≡ ok r w2.fs)
          × (find_file q (inode_at final parent) final ≡ ok r' final)
          × (number_of r' ≡ (if same q name then some child else number_of r))
    names_made q =
        let (r, find, view) = find_file-names d q in
        let (r', find', view') = find_file-names stored.directory q in
        (
          r,
          r',
          find,
          find',
          view'
              ∙ ap (λ (i : Inode). names ents' i.num_blocks 0 q) stored.parent_inode
              ∙ e.view q
              ∙ rw (← view) refl,
        )

  -- Where the parent of a path leads to a directory whose blocks hold lists of entries, are direct
  -- and not free, with a direct block left and a free list in order and not empty, the path leads to
  -- no inode, its last name is short enough, in bytes and that of no entry, and the inode of the next
  -- number is another one than the directory's and not in use: `custom_mknod` returns `true`. The
  -- inode of that number then has the mode, the times, size 0, no blocks and one link more. The
  -- parent is such a directory again, in which `find_file` finds the name with the inode number, and
  -- any other name as before, with the number it had or not at all. No other inode changes, and no
  -- data block that is neither free nor one of the directory.
  pub custom_mknod-Created :
      (fs' : Fs) × (ns' : List ℕ) × (blk' : ℕ → ℕ) × (ents' : ℕ → List Entry) × (custom_mknod
          (suc fuel)
          path
          mode
          dev
          w
        ≡ done true (record w2 { fs = fs'; calls = w2.calls + 1 }))
      × (inode_at fs' child ≡ created (w2.now w2.calls) mode (inode_at w2.fs child))
      × IsDirectory (inode_at fs' parent) fs' ns' blk' ents'
      × ((q : Chars)
          → (r : Option FilePos) × (r' : Option FilePos) × (find_file q
                (inode_at w2.fs parent)
                w2.fs
              ≡ ok r w2.fs)
            × (find_file q (inode_at fs' parent) fs' ≡ ok r' fs')
            × (number_of r' ≡ (if same q name then some child else number_of r)))
      × ((m : ℕ) → IsInum m → m ≢ parent → m ≢ child → inode_at fs' m ≡ inode_at w2.fs m)
      × ((a : ℕ)
          → inode_b_count < a
          → free_count w2.fs.disk ns a ≡ 0
          → ((k : ℕ) → k < (inode_at w2.fs parent).num_blocks → a ≢ blk k)
          → fs'.disk a ≡ w2.fs.disk a)
      × IsGeometry fs'.super_block
  custom_mknod-Created =
      let (new, s, ns', blk', ents', added, e) =
        add_new_entry-Entered taken-IsDirectory child name (omega (arith, child_valid))
          (names-missing name d absent) room head (omega (arith, child_valid)) short bytes in
      (
        final added e,
        ns',
        blk',
        ents',
        mknod_run added e,
        (stored added e).child_inode ∙ ap (created _ mode) (same_inode added e child child_valid),
        (stored added e).directory,
        names_made added e,
        λ m v h k. (stored added e).others m h k ∙ same_inode added e m v,
        λ a l z h. (stored added e).data_blocks a l ∙ e.others a (omega (arith, l)) z h,
        rw (stored added e).super_block (g added e),
      )
