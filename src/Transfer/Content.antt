-- ===== src/Transfer/Content.antt =====
-- The bytes of a file, as the blocks that its inode leads to hold them.
use file_system_fuse.Base.{
  ℕ, ◌+◌, ◌*◌, ◌-◌, ◌/◌, ◌%◌, ◌≤◌, ◌<◌, ◌≡◌, ◌≢◌, refl, ap₂, Bool-cases, inl, inr, false, ◌&&◌,
  some, if◌then◌else◌, ltb, leb, arith,
}
use file_system_fuse.Base.Ssize.{sle}
use file_system_fuse.Bytes.{Block}
use file_system_fuse.Fs.{Fs, ok}
use file_system_fuse.Disk.{block_size}
use file_system_fuse.Disk.Laws.{read_block-in}
use file_system_fuse.FreeList.{inode_b_count, read_dblock}
use file_system_fuse.FreeList.Chain.{IsDataBlock}
use file_system_fuse.FreeList.Free.{valid_dblock}
use file_system_fuse.Inode.{Inode}
use file_system_fuse.FileMap.{fblock_num_to_dblock_num}
use file_system_fuse.Transfer.{paste, read_fblock}

-- Outside of the first `n` of the blocks the two disks are the same.
abbrev pub SameOutside : (n : ℕ) (blk : ℕ → ℕ) → Fs → Fs → Type 0
SameOutside n blk s s' = (m : ℕ) → ((j : ℕ) → j < n → m ≢ blk j) → s'.disk m ≡ s.disk m

-- So are the data blocks outside of them.
abbrev pub SameData : (n : ℕ) (blk : ℕ → ℕ) → Fs → Fs → Type 0
SameData n blk s s' =
    (m : ℕ) → inode_b_count < m → ((j : ℕ) → j < n → m ≢ blk j) → s'.disk m ≡ s.disk m

-- The inode leads to these `n` data blocks, all different, and still does so whatever is written to
-- them and to the blocks of inodes.
pub record IsMapped (inode : Inode) (s : Fs) (n : ℕ) (blk : ℕ → ℕ) : Type 0 where
  pub data_block : (k : ℕ) → k < n → IsDataBlock (blk k)
  pub once : (j k : ℕ) → j < n → k < n → j ≢ k → blk j ≢ blk k
  pub lookup :
      (s' : Fs)
      → SameData n blk s s'
      → (k : ℕ) → k < n
      → fblock_num_to_dblock_num inode k s' ≡ ok (blk k) s'

-- Byte `k` of the file.
abbrev pub content : Fs → (ℕ → ℕ) → ℕ → ℕ
content s blk k = s.disk (blk (k / block_size)) (k % block_size)

positive : (n : ℕ) → IsDataBlock n → sle n 0 ≡ false
unfolding sle
positive n h = ground arith

module _ {inode : Inode} {s : Fs} {n : ℕ} {blk : ℕ → ℕ} (f : IsMapped inode s n blk) where
  pub read_fblock_lem :
      (s' : Fs)
      → SameOutside n blk s s'
      → (k : ℕ) → k < n
      → read_fblock inode k s' ≡ ok (some (blk k, s'.disk (blk k))) s'
  unfolding read_fblock read_dblock
  read_fblock_lem s' o k l =
      rw
        (
          f.lookup s' (λ m d h. o m h) k l,
          positive (blk k) (f.data_block k l),
          valid_dblock (blk k) (f.data_block k l),
          read_block-in (blk k) _ s' (f.data_block k l).1,
        )
        refl

-- A piece that lies in one block, put behind the bytes that the buffer has already.
pub paste-content :
    (s : Fs) (blk : ℕ → ℕ) (offset m from size q : ℕ) (start buff : Block)
    → offset + m ≡ q * block_size + from
    → from + size ≤ block_size
    → ((k : ℕ) → buff k ≡ (if ltb k m then content s blk (offset + k) else start k))
    → (k : ℕ)
    → paste buff m (s.disk (blk q)) from size k
      ≡ (if ltb k (m + size) then content s blk (offset + k) else start k)
unfolding paste
paste-content s blk offset m from size q start buff at fits has k =
    elim (Bool-cases (leb m k && ltb k (m + size))) [
      | inl h ↦ rw h (inside (ground (arith, h)) (ground (arith, h)))
      | inr h ↦ rw h (ground (arith, h, has k))
    ]
  where
    inside :
        m ≤ k
        → k < m + size
        → s.disk (blk q) (from + (k - m))
          ≡ (if ltb k (m + size) then content s blk (offset + k) else start k)
    inside l u =
        let e : (offset + k) / block_size ≡ q = omega (arith, at, fits, l, u) in
        let f : (offset + k) % block_size ≡ from + (k - m) = omega (arith, at, fits, l, u) in
        let byte : content s blk (offset + k) ≡ s.disk (blk q) (from + (k - m)) =
          ap₂ (λ a b. s.disk (blk a) b) e f in
        ground (arith, byte, l, u)
