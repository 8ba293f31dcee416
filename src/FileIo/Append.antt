-- ===== src/FileIo/Append.antt =====
-- `custom_write` past the end of a file that stays in its direct blocks: blocks are added first.
use file_system_fuse.Base.{
  ℕ, ◌+◌, ◌-◌, ◌*◌, ◌/◌, ◌%◌, ◌^◌, ◌<◌, ◌≤◌, ◌≡◌, ◌≢◌, ◌⊎◌, ◌∙◌, refl, ap, inl, inr, false, ◌&&◌,
  ltb, leb, Bool-cases, arith, List,
}
use file_system_fuse.Bytes.{Block}
use file_system_fuse.Bytes.Words.{byte-zero}
use file_system_fuse.Fs.{Fs, SuperBlock}
use file_system_fuse.Disk.{block_size}
use file_system_fuse.FreeList.{inode_b_count}
use file_system_fuse.FreeList.Chain.{free_count}
use file_system_fuse.FreeList.Same.{FreeList-kept, free_count-kept}
use file_system_fuse.Inode.{Inode, direct_b_count, to_words, tail_words}
use file_system_fuse.Inode.Layout.{other_tail, Fits}
use file_system_fuse.Inode.Store.{IsGeometry, IsInum, inode_at, with_inode}
use file_system_fuse.Transfer.Content.{IsMapped, content}
use file_system_fuse.Transfer.Holds.{Holds, Holds-IsMapped, IsGeometry-Kept, inode_at-Kept}
use file_system_fuse.Transfer.Grow.{Grown}
use file_system_fuse.Transfer.Write.{Written}
use file_system_fuse.FileIo.Stored.{FileWritten, with_inode-FileWritten}

-- The inode of a file that was made longer.
abbrev pub lengthened : (time size : ℕ) → Inode → Inode
lengthened time size inode = record inode {
  file_size = size;
  access_time = time;
  modification_time = time;
  status_change_time = time;
}

lengthened-Fits :
    (time size : ℕ) (inode : Inode)
    → time < 2 ^ 64
    → size < 2 ^ 64
    → Fits inode
    → Fits (lengthened time size inode)
unfolding to_words
lengthened-Fits time size inode h k f = record {
  directs = f.directs;
  words = other_tail inode.direct_blocks (tail_words inode) _ f.words (λ t. omega (arith, t, h, k));
  mode = f.mode;
}

-- Outside of the bytes that are written.
abbrev pub IsOutside : (offset nbytes k : ℕ) → Type 0
IsOutside offset nbytes k = (k < offset) ⊎ (offset + nbytes ≤ k)

-- `new` in `s'` is the file that was `inode` in `s`, with `m` blocks more and the bytes put in.
pub record Appended (inum m : ℕ) (inode : Inode) (blk : ℕ → ℕ) (offset nbytes time : ℕ)
    (buff : Block) (s : Fs) (ns : List ℕ) (s' : Fs) (ns' : List ℕ) (blk' : ℕ → ℕ) : Type 0 where
  pub bytes : (k : ℕ) → k < nbytes → content s' blk' (offset + k) ≡ buff k
  pub old :
      (k : ℕ)
      → k / block_size < inode.num_blocks
      → IsOutside offset nbytes k
      → content s' blk' k ≡ content s blk k
  pub gap :
      (k : ℕ)
      → inode.num_blocks ≤ k / block_size
      → k / block_size < inode.num_blocks + m
      → IsOutside offset nbytes k
      → content s' blk' k % 256 ≡ 0
  pub members :
      (directs : List ℕ) × (inode_at s' inum
        ≡ lengthened time
            (offset + nbytes)
            (record inode { direct_blocks = directs; num_blocks = inode.num_blocks + m }))
  pub holds : Holds (inode_at s' inum) s' ns' blk'
  pub inodes : (j : ℕ) → IsInum j → j ≢ inum → inode_at s' j ≡ inode_at s j
  pub others :
      (a : ℕ)
      → inode_b_count < a
      → free_count s.disk ns a ≡ 0
      → ((k : ℕ) → k < inode.num_blocks → a ≢ blk k)
      → s'.disk a ≡ s.disk a

module _ {s : Fs} {ns : List ℕ} {blk : ℕ → ℕ} (inum offset nbytes : ℕ) (buff : Block)
    (g : IsGeometry s.super_block) (valid : IsInum inum) (h : Holds (inode_at s inum) s ns blk)
    (small : offset + nbytes < direct_b_count * block_size) where
  abbrev pub inode : Inode
  inode = inode_at s inum

  module _ {m : ℕ} {new : Inode} {s1 : Fs} {ms : List ℕ} {blk' : ℕ → ℕ}
      (grow : Grown m inode s ns blk new s1 ms blk')
      (long : (offset + nbytes) / block_size < inode.num_blocks + m) (time : ℕ)
      (clock : time < 2 ^ 64) where
    abbrev pub last : Inode
    last = lengthened time (offset + nbytes) new

    pub new_count : new.num_blocks ≡ inode.num_blocks + m
    new_count = ap (λ (i : Inode). i.num_blocks) grow.members

    pub mapped : IsMapped new s1 new.num_blocks blk'
    mapped = Holds-IsMapped grow.holds

    pub g1 : IsGeometry s1.super_block
    g1 = IsGeometry-Kept g grow.kept

    last-Fits : Fits last
    last-Fits =
        lengthened-Fits time (offset + nbytes) new clock (omega (arith, small)) grow.holds.fits

    module _ {s2 : Fs} (written : Written new.num_blocks blk' offset nbytes buff s1 s2) where
      abbrev pub end : Fs
      end = with_inode s2 inum last

      file : FileWritten inum new.num_blocks blk' offset nbytes last buff s1 end
      file =
          with_inode-FileWritten s1 s2 new.num_blocks blk' g1 inum offset nbytes last buff valid
            last-Fits mapped written

      -- A block that was free or in use before the write, but is none of the file.
      unwritten :
          (a : ℕ)
          → inode_b_count < a
          → ((k : ℕ) → k < new.num_blocks → a ≢ blk' k)
          → end.disk a ≡ s1.disk a
      unwritten = file.blocks

      free_same : (a : ℕ) → a ≢ 0 → 0 < free_count s1.disk ms a → end.disk a ≡ s1.disk a
      free_same a z l = unwritten a (grow.holds.list.data_blocks a z l).0 λ k b e.
          let used : free_count s1.disk ms a ≡ 0 = rw e (grow.holds.not_free k b) in
          absurd (omega (arith, used, l))

      end-Holds : Holds (inode_at end inum) end ms blk'
      end-Holds = rw file.inode record {
        list =
            FreeList-kept grow.holds.list end free_same
              (ap (λ (b : SuperBlock). b.free_list_head) file.super);
        fits = last-Fits;
        few = grow.holds.few;
        at = grow.holds.at;
        data_block = grow.holds.data_block;
        once = grow.holds.once;
        not_free =
            λ k l. free_count-kept grow.holds.list end free_same (blk' k) ∙ grow.holds.not_free k l;
      }

      out : {k : ℕ} → IsOutside offset nbytes k → (leb offset k && ltb k (offset + nbytes)) ≡ false
      out (inl l) = ground (arith, l)
      out (inr l) = ground (arith, l)

      -- A byte outside of those that are written.
      kept_byte :
          (k : ℕ)
          → k / block_size < new.num_blocks
          → IsOutside offset nbytes k
          → content end blk' k ≡ content s1 blk' k
      kept_byte k l o = file.bytes k l ∙ rw (out o) refl

      old_byte :
          (k : ℕ)
          → k / block_size < inode.num_blocks
          → IsOutside offset nbytes k
          → content end blk' k ≡ content s blk k
      old_byte k l o =
          let q : ℕ = k / block_size in
          let z : blk q ≢ 0 = omega (arith, h.data_block q l) in
          kept_byte k (omega (arith, l, new_count)) o
          ∙ ap (λ a. s1.disk a (k % block_size)) (grow.before q l)
          ∙ ap (λ (b : Block). b (k % block_size)) (grow.kept.held (blk q) z (h.not_free q l)).0

      gap_byte :
          (k : ℕ)
          → inode.num_blocks ≤ k / block_size
          → k / block_size < inode.num_blocks + m
          → IsOutside offset nbytes k
          → content end blk' k % 256 ≡ 0
      gap_byte k l r o = rw (kept_byte k (omega (arith, r, new_count)) o) (
          byte-zero (s1.disk (blk' (k / block_size))) (k % block_size)
            (grow.zeros (k / block_size) l r (k % block_size / 8) (omega arith)))

      new_byte : (k : ℕ) → k < nbytes → content end blk' (offset + k) ≡ buff k
      new_byte k l =
          let back : offset + k - offset ≡ k = omega arith in
          let below : (offset + k) / block_size < new.num_blocks =
            omega (arith, l, long, new_count) in
          file.bytes (offset + k) below ∙ ground (arith, l, ap buff back)

      apart :
          (a : ℕ)
          → free_count s.disk ns a ≡ 0
          → ((k : ℕ) → k < inode.num_blocks → a ≢ blk k)
          → (k : ℕ) → k < new.num_blocks
          → a ≢ blk' k
      apart a f ne k l e = elim (Bool-cases (ltb k inode.num_blocks)) [
        | inl b ↦
            let b' : k < inode.num_blocks = ground (arith, b) in ne k b' (e ∙ grow.before k b')
        | inr b ↦
            let free : 0 < free_count s.disk ns a =
              rw e (grow.taken k (ground (arith, b)) (omega (arith, l, new_count))) in
            absurd (omega (arith, f, free))
      ]

      pub end-Appended : Appended inum m inode blk offset nbytes time buff s ns end ms blk'
      end-Appended = record {
        bytes = new_byte;
        old = old_byte;
        gap = gap_byte;
        members =
            (new.direct_blocks, file.inode ∙ ap (lengthened time (offset + nbytes)) grow.members);
        holds = end-Holds;
        inodes = λ j v ne. file.inodes j v ne ∙ inode_at-Kept g h.list grow.kept j v;
        others =
            λ a l f ne. unwritten a l (apart a f ne) ∙ (grow.kept.held a (omega (arith, l)) f).0;
      }
