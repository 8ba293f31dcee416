-- ===== src/Truncate/Overrun.antt =====
-- A file that is cut off within the range of its double indirect block.
use file_system_fuse.Base.{
  ℕ, zero, suc, ◌+◌, ◌-◌, ◌/◌, ◌%◌, ◌<◌, ◌≤◌, ◌^◌, ◌≡◌, ◌∙◌, Bool, true, arith, ltb, inl, inr,
  Bool-cases,
}
use file_system_fuse.Base.Ssize.{sle-leb}
use file_system_fuse.Bytes.{Block}
use file_system_fuse.Fs.{and_then, pure, Fs, M, ok, fault}
use file_system_fuse.FreeList.{dblocks_per_block}
use file_system_fuse.Inode.{Inode, direct_b_count}
use file_system_fuse.FileMap.{single_count, single_end, double_end}
use file_system_fuse.Release.{remove_range, remove_single_indirect}
use file_system_fuse.FileMap.{address_at}
use file_system_fuse.FreeList.Ends.{Ends, bind-Ends, if-Ends, pure-Ends, free_dblock-Ends}
use file_system_fuse.FreeList.Chain.{IsDataBlock}
use file_system_fuse.FreeList.{free_dblock}
use file_system_fuse.Bytes.{word}
use file_system_fuse.Base.{◌⊎◌, ◌==◌, refl, false}
use file_system_fuse.Base.Ssize.{sle}
use file_system_fuse.Release.{remove_loop, remove_listed}
use file_system_fuse.FileMap.Lookup.{read_addresses-in}
use file_system_fuse.Truncate.{count_to_free, cut_boundary, cut_double, remove_dblocks_from_inode}

address_at-out :
    (buff : Block) (i : ℕ) (s : Fs) → dblocks_per_block ≤ i → address_at buff i s ≡ fault
unfolding address_at
address_at-out buff i s h = ground arith

-- What a block of addresses holds: 0 or a data block.
abbrev pub IsAddress : ℕ → Type 0
IsAddress d = (d ≡ 0) ⊎ IsDataBlock d

remove_loop-Ends : (n i : ℕ) (buff : Block) → Ends (remove_loop n i buff free_dblock)
unfolding remove_loop
remove_loop-Ends zero i buff = pure-Ends tt
remove_loop-Ends (suc n) i buff = if-Ends (word buff i == 0) _ _ (pure-Ends tt) (
    bind-Ends (free_dblock (word buff i)) _ (free_dblock-Ends (word buff i))
      (λ freed. remove_loop-Ends n (i + 1) buff))

remove_single_indirect-Ends : (d : ℕ) → IsAddress d → Ends (remove_single_indirect d)
unfolding remove_single_indirect remove_listed sle
remove_single_indirect-Ends d (inl z) s = (true, s, rw z refl)
remove_single_indirect-Ends d (inr in_data) s =
    let positive : sle d 0 ≡ false = unfold sle in ground (arith, in_data) in
    let (u, t, loop) = remove_loop-Ends dblocks_per_block 0 (s.disk d) s in
    let (freed, t', last) = free_dblock-Ends d t in
    (true, t', rw (positive, read_addresses-in d s in_data, loop, last) refl)

address_at-in :
    (buff : Block) (i : ℕ) (s : Fs)
    → i < dblocks_per_block
    → address_at buff i s ≡ ok (word buff i) s
unfolding address_at
address_at-in buff i s h = ground arith

-- A loop within the block of addresses ends, and one that goes on behind it is a fault.
module _ (buff : Block) (first : ℕ) (free_one : ℕ → M Bool)
    (ends : (j : ℕ) → first ≤ j → j < dblocks_per_block → Ends (free_one (word buff j))) where
  remove_range-Ends :
      (n i : ℕ) → first ≤ i → i + n ≤ dblocks_per_block → Ends (remove_range n i buff free_one)
  unfolding remove_range
  remove_range-Ends zero i b l s = (tt, s, refl)
  remove_range-Ends (suc n) i b l s =
      let (freed, t, run) = ends i b (omega (arith, l)) s in
      let (u, t', rest) = remove_range-Ends n (i + 1) (omega (arith, b)) (omega (arith, l)) t in
      (u, t', rw (address_at-in buff i s (omega (arith, l)), run) rest)

  remove_range-out :
      (n i : ℕ) (s : Fs)
      → first ≤ i
      → i ≤ dblocks_per_block
      → dblocks_per_block < i + n
      → remove_range n i buff free_one s ≡ fault
  unfolding remove_range
  remove_range-out zero i s b l h = absurd (omega (arith, l, h))
  remove_range-out (suc n) i s b l h = elim (Bool-cases (ltb i dblocks_per_block)) [
    | inl inside ↦
        let within : i < dblocks_per_block = ground (arith, inside) in
        let (freed, t, run) = ends i b within s in
        rw (address_at-in buff i s within, run)
          (remove_range-out n (i + 1) t (omega (arith, b)) (omega (arith, within))
            (omega (arith, h)))
    | inr outside ↦ rw (address_at-out buff i s (ground (arith, outside))) refl
  ]

cut_boundary-Ends :
    (offset single : ℕ)
    → offset < single_count
    → IsDataBlock single
    → Ends (cut_boundary offset single)
unfolding cut_boundary
cut_boundary-Ends offset single small in_data s = elim (Bool-cases (offset == 0)) [
  | inl e ↦
      let (freed, t, run) = remove_single_indirect-Ends single (inr in_data) s in
      (tt, t, rw (e, run) refl)
  | inr e ↦
      let (u, t, run) =
        remove_range-Ends (s.disk single) offset free_dblock
          (λ j l h. free_dblock-Ends (word (s.disk single) j)) (single_count - offset) offset
          (omega arith) (omega (arith, small)) s in
      (u, t, rw (e, read_addresses-in single s in_data) run)
]

-- A file that ends in the range of its double indirect block, at most.
module _ (inode : Inode) (f : ℕ) (s : Fs) (above : single_end < f) (range : f ≤ double_end)
    (below : f < inode.num_blocks) (big : inode.num_blocks < 2 ^ 63) where
  run_double :
      remove_dblocks_from_inode inode f s
      ≡ and_then
          (cut_double (record inode { num_blocks = f }) f inode.num_blocks s)
          (λ done. pure (true, done))
  unfolding remove_dblocks_from_inode
  run_double = ground (
    arith,
    sle-leb inode.num_blocks f,
    sle-leb f direct_b_count,
    sle-leb f single_end,
    sle-leb f double_end,
  )

  abbrev double_offset : ℕ
  double_offset = (f - single_end) / single_count

  abbrev total : ℕ
  total = inode.num_blocks - single_end

  abbrev rounds : ℕ
  rounds = count_to_free double_offset (total / single_count) total - 1

  -- A file with more than 512 blocks behind the range of its single indirect block is cut off within
  -- the range of its double indirect block, where the whole single indirect blocks of that range
  -- before the cut and those of the whole file, which has less than 2 ^ 63 blocks, are fewer than 512
  -- together. The double indirect block and the single
  -- indirect block of the cut are data blocks, and the addresses behind that one are 0 or data blocks.
  -- Then the part at the cut and the loop up to the last of the 512 addresses end well, but the loop
  -- goes on and reads the address behind the end of the buffer: `remove_dblocks_from_inode` faults.
  pub remove_dblocks_from_inode-overruns :
      dblocks_per_block < inode.num_blocks - single_end
      → (inode.num_blocks - single_end) / single_count < single_count - double_offset
      → IsDataBlock inode.double_indirect
      → IsDataBlock (word (s.disk inode.double_indirect) double_offset)
      → ((j : ℕ)
          → double_offset < j
          → j < dblocks_per_block
          → IsAddress (word (s.disk inode.double_indirect) j))
      → (s₁ : Fs) × (s₂ : Fs) × (cut_boundary
            ((f - single_end) % single_count)
            (word (s.disk inode.double_indirect) double_offset)
            s
          ≡ ok tt s₁)
        × (remove_range
              (dblocks_per_block - (double_offset + 1))
              (double_offset + 1)
              (s.disk inode.double_indirect)
              remove_single_indirect
              s₁
            ≡ ok tt s₂)
        × (address_at (s.disk inode.double_indirect) dblocks_per_block s₂ ≡ fault)
        × (remove_dblocks_from_inode inode f s ≡ fault)
  unfolding cut_double
  remove_dblocks_from_inode-overruns h k outer boundary rest =
      let buff : Block = s.disk inode.double_indirect in
      let offset : ℕ = (f - single_end) % single_count in
      let (u, s₁, run) =
        cut_boundary-Ends offset (word buff double_offset) (omega arith) boundary s in
      let ends : (j : ℕ)
          → double_offset + 1 ≤ j
          → j < dblocks_per_block
          → Ends (remove_single_indirect (word buff j)) =
        λ j l m. remove_single_indirect-Ends (word buff j) (rest j (omega (arith, l)) m) in
      let more : dblocks_per_block < double_offset + 1 + rounds = ground (arith, h, k) in
      let (u', s₂, loop) =
        remove_range-Ends buff (double_offset + 1) remove_single_indirect ends
          (dblocks_per_block - (double_offset + 1)) (double_offset + 1) (omega arith)
          (omega (arith, k)) s₁ in
      (
        s₁,
        s₂,
        run,
        loop,
        address_at-out buff dblocks_per_block s₂ (omega arith),
        run_double
            ∙ rw
                (
                  read_addresses-in inode.double_indirect s outer,
                  address_at-in buff double_offset s (omega (arith, k)),
                  run,
                  remove_range-out buff (double_offset + 1) remove_single_indirect ends
                      (count_to_free double_offset ((inode.num_blocks - single_end) / single_count)
                          (inode.num_blocks - single_end)
                        - 1)
                      (double_offset + 1) s₁ (omega arith) (omega (arith, k)) more,
                )
                refl,
      )
