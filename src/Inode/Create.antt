-- ===== src/Inode/Create.antt =====
-- `create_new_inode`: the number that it returns is always the latest one, and that only grows.
use file_system_fuse.Base.{
  ap₂, subst, ℕ, suc, ◌+◌, ◌*◌, ◌^◌, ◌<◌, ◌≤◌, ◌≡◌, ◌∙◌, ◌⊎◌, true, false, inl, inr, arith,
  Bool-cases, sym, subst,
}
use file_system_fuse.Base.Ssize.{slt, minus_one}
use file_system_fuse.Fs.{SuperBlock, Fs, ok}
use file_system_fuse.Inode.{is_valid_inum, scan_inodes, create_new_inode}
use file_system_fuse.Inode.Store.{IsGeometry, IsInum, valid_inum, inode_at}
use file_system_fuse.Inode.Scan.{
  advance, create_run, IsFirstFree, AllBefore, inode_total, ok-value, ok-state,
}
use file_system_fuse.Inode.Visit.{block_at, offset_at, Ended, scan_inodes-found, scan_inodes_lem}

module _ (s : Fs) (g : IsGeometry s.super_block) where
  start_run :
      (fuel : ℕ)
      → IsInum s.super_block.latest_inum
      → create_new_inode fuel s ≡ scan_inodes fuel (block_at s g 0) (offset_at s g 0) 0 s
  start_run fuel v =
      create_run s fuel g v
      ∙ ap₂ (λ (b : ℕ) (o : ℕ). scan_inodes fuel b o 0 s) (rw (g.per_block) (omega (arith, v)))
          (rw (g.per_block) (omega (arith, v)))

  -- With the constants of the super block as `init_superblock` sets them, from a valid latest number
  -- on, with some inode not allocated: `create_new_inode` returns, within one round for each 21 inodes
  -- before the first such one and one more; the number that it returns is the latest one, which grows
  -- by the number of inodes visited, that first one included. Nothing else changes.
  pub create_new_inode-first :
      (fuel i : ℕ)
      → IsInum s.super_block.latest_inum
      → IsFirstFree s i
      → i ≤ fuel * 21
      → create_new_inode (suc fuel) s ≡ ok s.super_block.latest_inum (advance (i + 1) s)
  create_new_inode-first fuel i v f l =
      start_run (suc fuel) v
      ∙ scan_inodes-found s g fuel i 0 f (λ j k. absurd (omega (arith, k))) (omega arith)
          (omega (arith, l, g.per_block))

  -- If the inode of the latest number is not allocated, one round is enough.
  pub create_new_inode-latest :
      (fuel : ℕ)
      → IsInum s.super_block.latest_inum
      → (inode_at s s.super_block.latest_inum).allocated ≡ false
      → create_new_inode (suc fuel) s ≡ ok s.super_block.latest_inum (advance 1 s)
  create_new_inode-latest fuel v free =
      create_new_inode-first fuel 0 v
        (record {
          within = omega arith;
          before = λ j k. absurd (omega (arith, k));
          free = subst (λ n. (inode_at s n).allocated ≡ false) (omega (arith, v)) free;
        })
        (omega arith)

is_valid_inum-IsInum :
    (sb : SuperBlock) (n : ℕ) → IsGeometry sb → n < 2 ^ 64 → is_valid_inum sb n ≡ true → IsInum n
unfolding is_valid_inum slt
is_valid_inum-IsInum sb n g b h = ground arith

pub create_refused :
    (s : Fs) (fuel : ℕ)
    → is_valid_inum s.super_block s.super_block.latest_inum ≡ false
    → create_new_inode fuel s ≡ ok minus_one s
unfolding create_new_inode
create_refused s fuel h = rw h

-- What `create_new_inode` ends in.
abbrev pub Created : Fs → ℕ → Fs → Type 0
Created s ans s' =
    ((ans ≡ minus_one)
      × (s' ≡ s)
      × ((¬ (IsInum s.super_block.latest_inum)) ⊎ AllBefore s inode_total))
    ⊎ ((i : ℕ) × IsFirstFree s i
        × IsInum ans
        × (ans ≡ s.super_block.latest_inum)
        × (s' ≡ advance (i + 1) s))

with_IsInum :
    (s s' : Fs) (g : IsGeometry s.super_block) (ans : ℕ)
    → IsInum s.super_block.latest_inum
    → Ended s g ans s'
    → Created s ans s'
with_IsInum s s' g ans v (inl (e, f, all)) = inl (e, f, inr all)
with_IsInum s s' g ans v (inr (i, first, e, f)) = inr (i, first, rw e v, e, f)

-- Where `create_new_inode` returns, with the constants of the super block as `init_superblock` sets
-- them, the latest number a 64-bit pattern, and the inodes visited from it on and around: either it returns -1 and changes nothing, and the latest number is not valid or all inodes are
-- allocated; or it returns the latest number, which is valid, and some inode is the first that is
-- not allocated. Then `latest_inum` has grown by the number of inodes visited, that one included,
-- and nothing else has changed.
pub create_new_inode-Created :
    (fuel : ℕ) (s s' : Fs) (ans : ℕ)
    → IsGeometry s.super_block
    → s.super_block.latest_inum < 2 ^ 64
    → create_new_inode fuel s ≡ ok ans s'
    → Created s ans s'
create_new_inode-Created fuel s s' ans g b h =
    let latest : ℕ = s.super_block.latest_inum in
    elim (Bool-cases (is_valid_inum s.super_block latest)) [
      | inl valid ↦
          let v = is_valid_inum-IsInum s.super_block latest g b valid in
          with_IsInum s s' g ans v (
            scan_inodes_lem s g fuel 0 ans s' (λ j k. absurd (omega (arith, k)))
              (sym (start_run s g fuel v) ∙ h))
      | inr bad ↦
          let out = sym (create_refused s fuel bad) ∙ h in
          inl (
            ok-value out,
            ok-state out,
            inl (λ v. ground (arith, bad, valid_inum s.super_block latest g v)),
          )
    ]
