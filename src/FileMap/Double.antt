-- ===== src/FileMap/Double.antt =====
-- Blocks of a file in the range of the double indirect block.
use file_system_fuse.Base.{
  ℕ, ◌-◌, ◌/◌, ◌%◌, ◌<◌, ◌≤◌, ◌^◌, ◌≡◌, ◌≢◌, ◌∙◌, ◌==◌, refl, ap, true, false, Bool-cases, inl, inr,
  ==→eq, ==→ne, arith,
}
use file_system_fuse.Base.Ssize.{slt, sle}
use file_system_fuse.Bytes.{Block, word, set_word}
use file_system_fuse.Bytes.Words.{word-set_self, word-set_ne}
use file_system_fuse.Fs.{Fs, ok}
use file_system_fuse.Disk.Laws.{write_self, write_ne}
use file_system_fuse.FreeList.Chain.{IsDataBlock}
use file_system_fuse.Inode.{Inode, direct_b_count}
use file_system_fuse.FileMap.{
  single_count, single_end, double_end, read_address, read_through, fblock_num_to_dblock_num,
  write_dblock_to_inode,
}
use file_system_fuse.FileMap.Lookup.{read_addresses-in, with_address, write_address-in}

-- The single indirect block of block `k` of the file, as the double indirect block has it.
abbrev pub single_of : Inode → ℕ → Fs → ℕ
single_of inode k s = word (s.disk inode.double_indirect) ((k - single_end) / single_count)

-- Block `k` lies in the range, and the two blocks of addresses on the way to it are data blocks.
pub record InDouble (inode : Inode) (k : ℕ) (s : Fs) : Type 0 where
  pub low : single_end ≤ k
  pub high : k < double_end
  pub inside : k ≤ inode.num_blocks
  pub big : inode.num_blocks < 2 ^ 63
  pub outer : IsDataBlock inode.double_indirect
  pub inner : IsDataBlock (single_of inode k s)
  pub apart : inode.double_indirect ≢ single_of inode k s

positive : (n : ℕ) → IsDataBlock n → sle n 0 ≡ false
unfolding sle
positive n h = ground arith

module _ (inode : Inode) (k : ℕ) (s : Fs) (r : InDouble inode k s) where
  -- The tests on the way to the range.
  tests :
      (slt inode.num_blocks k ≡ false)
      × (slt k direct_b_count ≡ false)
      × (slt k single_end ≡ false)
      × (slt k double_end ≡ true)
      × ((inode.double_indirect == 0) ≡ false)
  unfolding slt
  tests = (
    ground (arith, r.inside, r.high, r.big),
    ground (arith, r.low, r.high),
    ground (arith, r.low, r.high),
    ground (arith, r.high),
    ground (arith, r.outer),
  )

  lookup_double :
      fblock_num_to_dblock_num inode k s
      ≡ ok (word (s.disk (single_of inode k s)) ((k - single_end) % single_count)) s
  unfolding fblock_num_to_dblock_num read_through read_address
  lookup_double =
      rw
        (
          tests.0,
          tests.1,
          tests.2,
          tests.3,
          tests.4,
          read_addresses-in inode.double_indirect s r.outer,
          positive (single_of inode k s) r.inner,
          read_addresses-in (single_of inode k s) s r.inner,
        )
        refl

  abbrev replaced : ℕ → Fs
  replaced d = with_address (single_of inode k s) ((k - single_end) % single_count) d s

  write_double : (d : ℕ) → write_dblock_to_inode inode k d s ≡ ok (true, inode) (replaced d)
  unfolding write_dblock_to_inode read_address
  write_double d =
      rw
        (
          tests.0,
          tests.1,
          tests.2,
          tests.3,
          tests.4,
          read_addresses-in inode.double_indirect s r.outer,
          positive (single_of inode k s) r.inner,
          write_address-in (single_of inode k s) ((k - single_end) % single_count) d s r.inner,
        )
        refl

  -- The double indirect block stays, and with it the way to every block of the range.
  replaced-single : (d j : ℕ) → single_of inode j (replaced d) ≡ single_of inode j s
  replaced-single d j =
      ap (λ (b : Block). word b ((j - single_end) / single_count))
        (write_ne s.disk (single_of inode k s) inode.double_indirect _ r.apart)

  replaced-InDouble : (d j : ℕ) → InDouble inode j s → InDouble inode j (replaced d)
  replaced-InDouble d j q = record {
    low = q.low;
    high = q.high;
    inside = q.inside;
    big = q.big;
    outer = q.outer;
    inner = rw (replaced-single d j) q.inner;
    apart = rw (replaced-single d j) q.apart;
  }

abbrev last_index : ℕ → ℕ
last_index k = (k - single_end) % single_count

kept_last :
    (inode : Inode) (k d : ℕ) (s : Fs) (r : InDouble inode k s)
    → d < 2 ^ 64
    → word
        ((replaced inode k s r d).disk (single_of inode k (replaced inode k s r d)))
        (last_index k)
      ≡ d
kept_last inode k d s r fits =
    let single : ℕ = single_of inode k s in
    rw
      (
        replaced-single inode k s r d k,
        write_self s.disk single (set_word (s.disk single) (last_index k) d),
      )
      (word-set_self (s.disk single) (last_index k) d fits)

kept_other :
    (inode : Inode) (k d : ℕ) (s : Fs) (r : InDouble inode k s) (j : ℕ)
    → InDouble inode j s
    → j ≢ k
    → ((j - single_end) / single_count ≢ (k - single_end) / single_count
        → single_of inode j s ≢ single_of inode k s)
    → word
        ((replaced inode k s r d).disk (single_of inode j (replaced inode k s r d)))
        (last_index j)
      ≡ word (s.disk (single_of inode j s)) (last_index j)
kept_other inode k d s r j q ne different =
    let single : ℕ = single_of inode k s in
    let changed : Block = set_word (s.disk single) (last_index k) d in
    rw (replaced-single inode k s r d j) (elim (Bool-cases (single_of inode j s == single)) [
      | inl e ↦
          let same : single_of inode j s ≡ single = ==→eq _ _ e in
          elim (Bool-cases ((j - single_end) / single_count == (k - single_end) / single_count)) [
            | inl f ↦
                let equal = ==→eq _ _ f in
                rw (same, write_self s.disk single changed)
                  (word-set_ne (s.disk single) (last_index k) (last_index j) d
                    (omega (arith, ne, q.low, r.low, equal)))
            | inr f ↦ absurd (different (==→ne _ _ f) same)
          ]
      | inr e ↦ rw (write_ne s.disk single (single_of inode j s) changed (==→ne _ _ e)) refl
    ])

-- For a block number in the range of the double indirect block and up to the file's number of blocks,
-- which is less than 2 ^ 63, where that block and the single indirect
-- block of the place are data blocks already, and not the same: `write_dblock_to_inode` succeeds and
-- leaves the inode as it is, and lookup then finds the new data block at its place. At any other
-- place of the range for which this holds too, lookup finds what it found before, as long as a
-- different entry of the double indirect block holds a different single indirect block.
pub write_dblock_to_inode-double :
    (inode : Inode) (k d : ℕ) (s : Fs)
    → InDouble inode k s
    → d < 2 ^ 64
    → (s' : Fs) × (write_dblock_to_inode inode k d s ≡ ok (true, inode) s')
      × (fblock_num_to_dblock_num inode k s' ≡ ok d s')
      × ((j : ℕ)
          → InDouble inode j s
          → j ≢ k
          → ((j - single_end) / single_count ≢ (k - single_end) / single_count
              → single_of inode j s ≢ single_of inode k s)
          → (v : ℕ) × (fblock_num_to_dblock_num inode j s ≡ ok v s)
            × (fblock_num_to_dblock_num inode j s' ≡ ok v s'))
write_dblock_to_inode-double inode k d s r fits = (
  replaced inode k s r d,
  write_double inode k s r d,
  lookup_double inode k (replaced inode k s r d) (replaced-InDouble inode k s r d k r)
      ∙ ap (λ v. ok v (replaced inode k s r d)) (kept_last inode k d s r fits),
  λ j q ne different. (
    word (s.disk (single_of inode j s)) ((j - single_end) % single_count),
    lookup_double inode j s q,
    lookup_double inode j (replaced inode k s r d) (replaced-InDouble inode k s r d j q)
        ∙ ap (λ v. ok v (replaced inode k s r d)) (kept_other inode k d s r j q ne different),
  ),
)
