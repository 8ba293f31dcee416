-- ===== src/Inode/Scan.antt =====
-- The loops of `create_new_inode`: how each ends.
use file_system_fuse.Base.{
  ap, ltb, subst, ℕ, zero, suc, ◌+◌, ◌-◌, ◌*◌, ◌/◌, ◌%◌, ◌^◌, ◌<◌, ◌≤◌, ◌≡◌, ◌⊎◌, true, false, inl,
  inr, arith, ◌==◌, Bool-cases, if◌then◌else◌, ap, subst, ltb,
}
use file_system_fuse.Base.Ssize.{minus_one, add_ssize}
use file_system_fuse.Bytes.{Block, zero_block}
use file_system_fuse.Fs.{Fs, ok}
use file_system_fuse.Disk.{block_size}
use file_system_fuse.Disk.Laws.{read_block-in}
use file_system_fuse.FreeList.{inode_b_count}
use file_system_fuse.Inode.{
  Inode, inode_size, load_inode, inode_num_to_block_id, inode_num_to_offset, scan_block,
  scan_inodes, create_new_inode,
}
use file_system_fuse.Inode.Store.{IsGeometry, IsInum, valid_inum, inode_at}

-- The state in which `latest_inum` has grown by `k`.
abbrev pub advance : ℕ → Fs → Fs
advance k s = record s {
  super_block = record (s.super_block) { latest_inum = add_ssize s.super_block.latest_inum k };
}

-- How the loop over one block ends that starts after `v` visits: at the first inode that is not
-- allocated, or with all `n` visited.
abbrev pub BlockScanned : (n o v : ℕ) → Block → Type 0
BlockScanned n o v b =
    ((i : ℕ) × (i < n)
      × ((load_inode b (o + i)).allocated ≡ false)
      × ((j : ℕ) → j < i → (load_inode b (o + j)).allocated ≡ true)
      × (scan_block n o (v % 2 ^ 64) b ≡ (true, (v + i + 1) % 2 ^ 64)))
    ⊎ (((j : ℕ) → j < n → (load_inode b (o + j)).allocated ≡ true)
        × (scan_block n o (v % 2 ^ 64) b ≡ (false, (v + n) % 2 ^ 64)))

first_then :
    (b : Block) (o i : ℕ)
    → (load_inode b o).allocated ≡ true
    → ((j : ℕ) → j < i → (load_inode b (o + 1 + j)).allocated ≡ true)
    → (j : ℕ) → j < suc i
    → (load_inode b (o + j)).allocated ≡ true
first_then b o i h rest zero l = subst (λ p. (load_inode b p).allocated ≡ true) (omega arith) h
first_then b o i h rest (suc j) l =
    subst (λ p. (load_inode b p).allocated ≡ true) (omega arith) (rest j (omega (arith, l)))

pub scan_block_lem : (n o v : ℕ) (b : Block) → BlockScanned n o v b
unfolding scan_block
scan_block_lem zero o v b =
    inr ((λ j l. absurd (omega (arith, l))), ap (λ (m : ℕ). (false, m)) (omega arith))
scan_block_lem (suc n) o v b =
    let one : add_ssize (v % 2 ^ 64) 1 ≡ (v + 1) % 2 ^ 64 = omega arith in
    elim (Bool-cases (load_inode b o).allocated) [
      | inl h ↦ elim (scan_block_lem n (o + 1) (v + 1) b) [
        | inl (i, l, free, before, run) ↦ inl (
          suc i,
          omega (arith, l),
          subst (λ p. (load_inode b p).allocated ≡ false) (omega arith) free,
          first_then b o i h before,
          rw (h, one, run) (ap (λ (m : ℕ). (true, m)) (omega arith)),
        )
        | inr (before, run) ↦
            inr (
              first_then b o n h before,
              rw (h, one, run) (ap (λ (m : ℕ). (false, m)) (omega arith)),
            )
      ]
      | inr h ↦ inl (
        0,
        omega arith,
        subst (λ p. (load_inode b p).allocated ≡ false) (omega arith) h,
        (λ j l. absurd (omega (arith, l))),
        rw (h, one) (ap (λ (m : ℕ). (true, m)) (omega arith)),
      )
    ]

-- One round of the `while` loop.
pub scan_round :
    (fuel block_id offset visited : ℕ) (s : Fs)
    → block_id ≤ inode_b_count
    → let sb = s.super_block in
      let (free, visited') =
        scan_block (sb.inodes_per_block - offset) offset visited (s.disk block_id) in
      scan_inodes (suc fuel) block_id offset visited s ≡ (
        if visited == sb.inode_count
        then ok minus_one s
        else if free
        then ok sb.latest_inum (advance visited' s)
        else scan_inodes fuel (block_id % inode_b_count + 1) 0 visited' s)
unfolding scan_inodes
scan_round fuel block_id offset visited s r =
    ground (arith, read_block-in block_id zero_block s (omega arith))

pub create_run :
    (s : Fs) (fuel : ℕ)
    → IsGeometry s.super_block
    → IsInum s.super_block.latest_inum
    → create_new_inode fuel s
      ≡ scan_inodes fuel
          (inode_num_to_block_id s.super_block s.super_block.latest_inum)
          (inode_num_to_offset s.super_block s.super_block.latest_inum)
          0
          s
unfolding create_new_inode
create_run s fuel g v = rw (valid_inum s.super_block s.super_block.latest_inum g v)

pub ok-value : {a b : ℕ} {s t : Fs} → ok a s ≡ ok b t → b ≡ a
ok-value h = cc

pub ok-state : {a b : ℕ} {s t : Fs} → ok a s ≡ ok b t → t ≡ s
ok-state h = cc

pub ltb-false : (a b : ℕ) → ltb a b ≡ false → b ≤ a
ltb-false a b h = ground arith

-- The number of inodes on the disk.
abbrev pub inode_total : ℕ
inode_total = inode_b_count * (block_size / inode_size)

-- The inode that is visited after `i` others, from the latest number on and around.
abbrev pub visited_inode : Fs → ℕ → Inode
visited_inode s i = inode_at s ((s.super_block.latest_inum + i) % inode_total)

-- The first `i` inodes visited are allocated.
abbrev pub AllBefore : Fs → ℕ → Type 0
AllBefore s i = (j : ℕ) → j < i → (visited_inode s j).allocated ≡ true

-- After `i` inodes that are allocated comes one that is not.
pub record IsFirstFree (s : Fs) (i : ℕ) : Type 0 where
  pub within : i < inode_total
  pub before : AllBefore s i
  pub free : (visited_inode s i).allocated ≡ false
