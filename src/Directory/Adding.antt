-- ===== src/Directory/Adding.antt =====
-- `find_file` after `add_new_entry`.
use file_system_fuse.Base.{
  ℕ, zero, suc, ◌+◌, ◌^◌, ◌≤◌, ◌<◌, ◌≡◌, ◌≢◌, ◌∙◌, refl, sym, ap, true, false, List, length, ◌==◌,
  inl, inr, Option, none, some, arith, All, if◌then◌else◌,
}
use file_system_fuse.Base.Ssize.{slt, sle, sub_ssize}
use file_system_fuse.Fs.{Fs, ok, write}
use file_system_fuse.Disk.{block_size}
use file_system_fuse.FilePath.{Chars, same}
use file_system_fuse.FreeList.Blocks.{read_dblock-in, write_dblock-in}
use file_system_fuse.FreeList.Chain.{free_count, IsDataBlock}
use file_system_fuse.FreeList.Create.{create_new_dblock-Allocated}
use file_system_fuse.Inode.{Inode, direct_b_count}
use file_system_fuse.FileMap.Add.{direct_run}
use file_system_fuse.Transfer.Holds.{Holds-IsMapped}
use file_system_fuse.Directory.{
  FilePos, max_name_length, find_file, add_to_last, add_in_new, add_new_entry,
}
use file_system_fuse.Directory.Records.{Entry}
use file_system_fuse.Directory.Place.{place_entry_lem}
use file_system_fuse.Directory.Added.{insert-Inserted}
use file_system_fuse.Directory.Names.{names, number_of}
use file_system_fuse.Directory.Enter.{IsDirectory, find_file-names}
use file_system_fuse.Directory.Entered.{Entered, in_place, in_new, longer, end}

result_eq : (s : Fs) (a b : Option FilePos) → ok a s ≡ ok b s → a ≡ b
result_eq s a b h = cc

module _ {inode : Inode} {s : Fs} {ns : List ℕ} {blk : ℕ → ℕ} {ents : ℕ → List Entry}
    (d : IsDirectory inode s ns blk ents) (inum : ℕ) (name : Chars) (nonzero : inum ≢ 0)
    (absent : names ents inode.num_blocks 0 name ≡ none) (room : inode.num_blocks < direct_b_count)
    (head : s.super_block.free_list_head ≢ 0) (fits : inum < 2 ^ 64)
    (short : length name ≤ max_name_length) (bytes : All (λ ch. ch < 256) name) where
  -- What `add_new_entry` does.
  abbrev pub Outcome : Type 0
  Outcome =
      (new : Inode) × (s' : Fs) × (ns' : List ℕ) × (blk' : ℕ → ℕ) × (ents' : ℕ → List Entry)
      × (add_new_entry inode inum name s ≡ ok (true, new) s')
      × Entered inum name inode s ns blk ents new s' ns' blk' ents'

  positive : (a : ℕ) → IsDataBlock a → sle a 0 ≡ false
  unfolding sle
  positive a h = ground arith

  short_enough : slt max_name_length (length name) ≡ false
  unfolding slt
  short_enough = ground (arith, short)

  -- Where the last block has no room, or there is none.
  take_block : add_to_last inode inum name s ≡ ok none s → Outcome
  unfolding add_new_entry add_in_new
  take_block skipped =
      let (e, t, ms, run, al) = create_new_dblock-Allocated s ns d.holds.list head in
      (
        longer d inum name nonzero absent room fits short bytes al,
        end d inum name nonzero absent room fits short bytes al,
        ms,
        _,
        _,
        rw
            (
              d.dir,
              short_enough,
              skipped,
              run,
              positive e al.data_block,
              write_dblock-in e _ t al.data_block,
              direct_run inode e _ d.holds.fits.directs room,
            )
            refl,
        in_new d inum name nonzero absent room fits short bytes al,
      )

  last_block : (k : ℕ) → inode.num_blocks ≡ suc k → Outcome
  unfolding add_new_entry add_to_last
  last_block k e =
      let f = Holds-IsMapped d.holds in
      let below : k < inode.num_blocks = omega (arith, e) in
      let some_block : (inode.num_blocks == 0) ≡ false = ground (arith, e) in
      let last : sub_ssize inode.num_blocks 1 ≡ k = omega (arith, e, room) in
      elim (place_entry_lem inum name s fits short bytes (block_size + 1) 0 (s.disk (blk k))
        (ents k) (d.records k below) (omega arith)) [
          | inl (none_free, run) ↦ take_block (
              rw
                (
                  some_block,
                  last,
                  f.lookup s (λ m a h. refl) k below,
                  positive (blk k) (f.data_block k below),
                  read_dblock-in (blk k) s (f.data_block k below),
                  run,
                )
                refl)
          | inr (es, c, inserted, run, records, kept) ↦ (
            inode,
            record s { disk = write s.disk (blk k) c },
            ns,
            blk,
            _,
            rw
                (
                  d.dir,
                  short_enough,
                  some_block,
                  last,
                  f.lookup s (λ m a h. refl) k below,
                  positive (blk k) (f.data_block k below),
                  read_dblock-in (blk k) s (f.data_block k below),
                  run,
                  write_dblock-in (blk k) c s (f.data_block k below),
                )
                refl,
            in_place d inum name nonzero absent k below c
                (insert-Inserted inum name (ents k) es inserted) records,
          )
        ]

  entered_from : (n : ℕ) → inode.num_blocks ≡ n → Outcome
  unfolding add_to_last
  entered_from zero e =
      let none_yet : (inode.num_blocks == 0) ≡ true = ground (arith, e) in
      take_block (rw none_yet refl)
  entered_from (suc k) e = last_block k e

  pub add_new_entry-Entered : Outcome
  add_new_entry-Entered = entered_from inode.num_blocks refl

-- A name that `find_file` does not find leads nowhere.
pub names-missing :
    {inode : Inode} {s : Fs} {ns : List ℕ} {blk : ℕ → ℕ} {ents : ℕ → List Entry} (name : Chars)
    → IsDirectory inode s ns blk ents
    → find_file name inode s ≡ ok none s
    → names ents inode.num_blocks 0 name ≡ none
names-missing {s = s} name d missing =
    let (r, run, view) = find_file-names d name in
    sym view ∙ ap number_of (result_eq s r none (sym run ∙ missing))

-- In a directory whose blocks hold lists of entries, are direct and not free, with a direct block
-- left and a free list in order and not empty, where `find_file` finds no entry of a name:
-- `add_new_entry` of the name succeeds and leaves such a directory, in which `find_file` finds the
-- name with the inode number, and any other name as before, with the number it had or not at all.
-- No block changes that is neither free nor one of the directory, but for the super block, whose
-- constants stay.
pub find_file-add_new_entry :
    {inode : Inode} {s : Fs} {ns : List ℕ} {blk : ℕ → ℕ} {ents : ℕ → List Entry} (inum : ℕ)
    (name : Chars)
    → IsDirectory inode s ns blk ents
    → inode.num_blocks < direct_b_count
    → s.super_block.free_list_head ≢ 0
    → inum ≢ 0
    → inum < 2 ^ 64
    → length name ≤ max_name_length
    → All (λ ch. ch < 256) name
    → find_file name inode s ≡ ok none s
    → (new : Inode) × (s' : Fs) × (ns' : List ℕ) × (blk' : ℕ → ℕ) × (ents' : ℕ → List Entry)
      × (add_new_entry inode inum name s ≡ ok (true, new) s')
      × IsDirectory new s' ns' blk' ents'
      × ((q : Chars)
          → (r : Option FilePos) × (r' : Option FilePos) × (find_file q inode s ≡ ok r s)
            × (find_file q new s' ≡ ok r' s')
            × (number_of r' ≡ (if same q name then some inum else number_of r)))
      × ((a : ℕ)
          → a ≢ 0
          → free_count s.disk ns a ≡ 0
          → ((k : ℕ) → k < inode.num_blocks → a ≢ blk k)
          → s'.disk a ≡ s.disk a)
      × (s'.super_block.inodes_per_block ≡ s.super_block.inodes_per_block)
      × (s'.super_block.inode_count ≡ s.super_block.inode_count)
find_file-add_new_entry inum name d room head nonzero fits short bytes missing =
    let (new, s', ns', blk', ents', run, e) =
      add_new_entry-Entered d inum name nonzero (names-missing name d missing) room head fits short
        bytes in
    (
      new,
      s',
      ns',
      blk',
      ents',
      run,
      e.directory,
      λ q.
          let (r, find, view) = find_file-names d q in
          let (r', find', view') = find_file-names e.directory q in
          (r, r', find, find', view' ∙ e.view q ∙ rw (← view) refl),
      e.others,
      e.per_block,
      e.inode_count,
    )
