-- ===== src/Directory/Enter.antt =====
-- `add_new_entry` of a directory in direct blocks, as a change of the function from names to inode
-- numbers.
use file_system_fuse.Base.{
  ℕ, zero, suc, ◌+◌, ◌^◌, ◌≤◌, ◌<◌, ◌≡◌, ◌≢◌, ◌∙◌, refl, sym, ap, true, List, length, Option, arith,
}
use file_system_fuse.Bytes.{Block}
use file_system_fuse.Fs.{Fs, ok, write}
use file_system_fuse.Disk.Laws.{write_ne}
use file_system_fuse.FilePath.{Chars, same}
use file_system_fuse.FreeList.Chain.{free_count}
use file_system_fuse.FreeList.{inode_b_count}
use file_system_fuse.FreeList.Same.{FreeList-kept, free_count-kept}
use file_system_fuse.Inode.Layout.{other_tail}
use file_system_fuse.Inode.{to_words, tail_words, Inode}
use file_system_fuse.Transfer.Holds.{Holds, Holds-IsMapped}
use file_system_fuse.Directory.{FilePos, is_dir, find_file}
use file_system_fuse.Directory.Records.{Entry, IsRecords}
use file_system_fuse.Directory.Find.{IsListing, lookup_all, find_file_lem}
use file_system_fuse.Directory.Names.{names, number_of, pages, names-lookup_all}

-- A directory in direct blocks, none of them free, that hold these lists of entries.
pub record IsDirectory (inode : Inode) (s : Fs) (ns : List ℕ) (blk : ℕ → ℕ) (ents : ℕ → List Entry)
    : Type 0 where
  pub holds : Holds inode s ns blk
  pub dir : is_dir inode.mode ≡ true
  pub records : (k : ℕ) → k < inode.num_blocks → IsRecords (s.disk (blk k)) 0 (ents k)

length-pages : (blk : ℕ → ℕ) (ents : ℕ → List Entry) (n i : ℕ) → length (pages blk ents n i) ≡ n
length-pages blk ents zero i = refl
length-pages blk ents (suc n) i = ap suc (length-pages blk ents n (i + 1))

module _ {inode : Inode} {s : Fs} {ns : List ℕ} {blk : ℕ → ℕ} {ents : ℕ → List Entry}
    (d : IsDirectory inode s ns blk ents) where
  pages-IsListing : (n i : ℕ) → i + n ≤ inode.num_blocks → IsListing inode s i (pages blk ents n i)
  pages-IsListing zero i l = tt
  pages-IsListing (suc n) i l =
      let f = Holds-IsMapped d.holds in
      let below : i < inode.num_blocks = omega (arith, l) in
      (
        f.lookup s (λ m a h. refl) i below,
        f.data_block i below,
        d.records i below,
        pages-IsListing n (i + 1) (omega (arith, l)),
      )

  -- `find_file` finds what the function from names to numbers says.
  pub find_file-names :
      (q : Chars)
      → (r : Option FilePos) × (find_file q inode s ≡ ok r s)
        × (number_of r ≡ names ents inode.num_blocks 0 q)
  find_file-names q =
      let few = d.holds.few in
      let ds = pages blk ents inode.num_blocks 0 in
      let count : length ds ≡ inode.num_blocks = length-pages blk ents inode.num_blocks 0 in
      (
        lookup_all q s 0 ds,
        find_file_lem q inode s ds d.dir (sym count) (rw count (omega (arith, few)))
            (pages-IsListing inode.num_blocks 0 (omega arith)),
        names-lookup_all q s blk ents inode.num_blocks 0 (λ k l u. d.records k (omega (arith, u))),
      )

-- A file keeps its blocks when one of them is written.
pub Holds-write :
    {inode : Inode} {s : Fs} {ns : List ℕ} {blk : ℕ → ℕ} (h : Holds inode s ns blk) (k : ℕ)
    (c : Block)
    → k < inode.num_blocks
    → Holds inode (record s { disk = write s.disk (blk k) c }) ns blk
Holds-write {s = s} {ns = ns} {blk = blk} h k c below =
    let t : Fs = record s { disk = write s.disk (blk k) c } in
    let kept : (a : ℕ) → a ≢ 0 → 0 < free_count s.disk ns a → t.disk a ≡ s.disk a = λ a z l.
      write_ne s.disk (blk k) a c (λ e.
        let used : free_count s.disk ns a ≡ 0 = rw e (h.not_free k below) in
        absurd (omega (arith, used, l))) in
    record {
      list = FreeList-kept h.list t kept refl;
      fits = h.fits;
      few = h.few;
      at = h.at;
      data_block = h.data_block;
      once = h.once;
      not_free = λ j l. free_count-kept h.list t kept (blk j) ∙ h.not_free j l;
    }

-- The size of a file does not matter to its blocks.
pub Holds-resized :
    {inode : Inode} {s : Fs} {ns : List ℕ} {blk : ℕ → ℕ} (size : ℕ)
    → size < 2 ^ 64
    → Holds inode s ns blk
    → Holds (record inode { file_size = size }) s ns blk
unfolding to_words
Holds-resized {inode} size l h = record {
  list = h.list;
  fits = record {
    directs = h.fits.directs;
    words =
        other_tail inode.direct_blocks (tail_words inode) _ h.fits.words (λ t. omega (arith, t, l));
    mode = h.fits.mode;
  };
  few = h.few;
  at = h.at;
  data_block = h.data_block;
  once = h.once;
  not_free = h.not_free;
}

-- A directory stays one while its blocks and the free list do.
pub IsDirectory-kept :
    {inode : Inode} {s t : Fs} {ns : List ℕ} {blk : ℕ → ℕ} {ents : ℕ → List Entry}
    → IsDirectory inode s ns blk ents
    → ((a : ℕ) → inode_b_count < a → t.disk a ≡ s.disk a)
    → t.super_block.free_list_head ≡ s.super_block.free_list_head
    → IsDirectory inode t ns blk ents
IsDirectory-kept {t = t} {blk = blk} d same e =
    let h = d.holds in
    let kept =
      λ (a : ℕ) (z : a ≢ 0) (l : 0 < free_count _ _ a). same a (h.list.data_blocks a z l).0 in
    record {
      holds = record {
        list = FreeList-kept h.list t kept e;
        fits = h.fits;
        few = h.few;
        at = h.at;
        data_block = h.data_block;
        once = h.once;
        not_free = λ j l. free_count-kept h.list t kept (blk j) ∙ h.not_free j l;
      };
      dir = d.dir;
      records = λ k l. rw (same (blk k) (h.data_block k l).0) (d.records k l);
    }
