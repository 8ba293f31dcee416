-- ===== src/Inode/Visit.antt =====
-- The inodes that `create_new_inode` visits: from the latest number on and around.
use file_system_fuse.Base.{
  ap₂, ap, ltb, subst, ℕ, zero, suc, ◌+◌, ◌-◌, ◌*◌, ◌/◌, ◌%◌, ◌^◌, ◌<◌, ◌≤◌, ◌≡◌, ◌∙◌, ◌⊎◌, refl,
  true, false, inl, inr, arith, ◌==◌, Bool-cases, sym, ap, subst, ltb,
}
use file_system_fuse.Base.Ssize.{minus_one}
use file_system_fuse.Fs.{Fs, ok}
use file_system_fuse.FreeList.{inode_b_count}
use file_system_fuse.Inode.{load_inode, inode_num_to_block_id, inode_num_to_offset, scan_inodes}
use file_system_fuse.Inode.Store.{IsGeometry, inode_at}
use file_system_fuse.Inode.Scan.{
  advance, scan_block_lem, scan_round, ok-value, ok-state, inode_total, visited_inode, AllBefore,
  IsFirstFree, ltb-false,
}

module _ (s : Fs) (g : IsGeometry s.super_block) where
  -- Where the loop stands after `v` inodes.
  abbrev place : ℕ → ℕ
  place v = (s.super_block.latest_inum + v) % inode_total

  abbrev pub block_at : ℕ → ℕ
  block_at v = 1 + place v / 21

  abbrev pub offset_at : ℕ → ℕ
  offset_at v = place v % 21

  abbrev rest_at : ℕ → ℕ
  rest_at v = s.super_block.inodes_per_block - offset_at v

  visited-load :
      (v j : ℕ)
      → j < rest_at v
      → visited_inode s (v + j) ≡ load_inode (s.disk (block_at v)) (offset_at v + j)
  unfolding inode_at
  visited-load v j l =
      let same_block : inode_num_to_block_id s.super_block
            ((s.super_block.latest_inum + (v + j)) % inode_total)
          ≡ block_at v =
        rw (g.per_block) (omega (arith, l, g.per_block)) in
      let same_offset : inode_num_to_offset s.super_block
            ((s.super_block.latest_inum + (v + j)) % inode_total)
          ≡ offset_at v + j =
        rw (g.per_block) (omega (arith, l, g.per_block)) in
      rw (same_block, same_offset) refl

  AllBefore-more :
      (v n : ℕ)
      → n ≤ rest_at v
      → AllBefore s v
      → ((j : ℕ) → j < n → (load_inode (s.disk (block_at v)) (offset_at v + j)).allocated ≡ true)
      → AllBefore s (v + n)
  AllBefore-more v n u before more j l = elim (Bool-cases (ltb j v)) [
    | inl e ↦ before j (ground (arith, e))
    | inr e ↦
        let split : j ≡ v + (j - v) = ground (arith, e) in
        subst (λ p. (visited_inode s p).allocated ≡ true) (sym split)
          (rw (visited-load v (j - v) (omega (arith, l, u, split)))
            (more (j - v) (omega (arith, l, split))))
  ]

  -- The next block, which is visited from its start.
  next_place :
      (v : ℕ)
      → (block_at v % inode_b_count + 1 ≡ block_at (v + rest_at v))
        × (0 ≡ offset_at (v + rest_at v))
  next_place v = rw (g.per_block) (omega arith)

  -- A free inode is found where it stands.
  found_here :
      (i v k : ℕ)
      → IsFirstFree s i
      → AllBefore s v
      → k < rest_at v
      → v ≤ i
      → (load_inode (s.disk (block_at v)) (offset_at v + k)).allocated ≡ false
      → ((j : ℕ) → j < k → (load_inode (s.disk (block_at v)) (offset_at v + j)).allocated ≡ true)
      → v + k ≡ i
  found_here i v k f before l u free more = elim (Bool-cases (ltb (v + k) i)) [
    | inl e ↦
        let other = f.before (v + k) (ground (arith, e)) in
        let here : (visited_inode s (v + k)).allocated ≡ false = rw (visited-load v k l) free in
        absurd (ground (arith, other, here))
    | inr e ↦ elim (Bool-cases (ltb i (v + k))) [
      | inl e' ↦
          let other = AllBefore-more v k (omega (arith, l)) before more i (ground (arith, e')) in
          absurd (ground (arith, other, f.free))
      | inr e' ↦ ground (arith, e, e')
    ]
  ]

  next_scan :
      (fuel v m : ℕ)
      → scan_inodes fuel (block_at v % inode_b_count + 1) 0 m s
        ≡ scan_inodes fuel (block_at (v + rest_at v)) (offset_at (v + rest_at v)) m s
  next_scan fuel v m =
      ap₂ (λ (b : ℕ) (o : ℕ). scan_inodes fuel b o m s) (next_place v).0 (next_place v).1

  advance_wrapped : (k : ℕ) → advance (k % 2 ^ 64) s ≡ advance k s
  advance_wrapped k =
      ap (λ (n : ℕ). record s { super_block = record (s.super_block) { latest_inum = n } })
        (omega arith)

  -- A free inode behind those of a block is not in it.
  past_block : (i v n : ℕ) → IsFirstFree s i → AllBefore s (v + n) → v + n ≤ i
  past_block i v n f all = elim (Bool-cases (ltb i (v + n))) [
    | inl e ↦ absurd (ground (arith, all i (ground (arith, e)), f.free))
    | inr e ↦ ground (arith, e)
  ]

  -- A round of the loop, with what the rounds after it do.
  found_round :
      (fuel i v : ℕ)
      → IsFirstFree s i
      → AllBefore s v
      → v ≤ i
      → (AllBefore s (v + rest_at v)
          → v + rest_at v ≤ i
          → scan_inodes fuel (block_at v % inode_b_count + 1) 0 ((v + rest_at v) % 2 ^ 64) s
            ≡ ok s.super_block.latest_inum (advance (i + 1) s))
      → scan_inodes (suc fuel) (block_at v) (offset_at v) (v % 2 ^ 64) s
        ≡ ok s.super_block.latest_inum (advance (i + 1) s)
  found_round fuel i v f before l later =
      let low : block_at v ≤ inode_b_count = omega arith in
      let more : (v % 2 ^ 64 == s.super_block.inode_count) ≡ false =
        ground (arith, g.count, f.within, l) in
      scan_round fuel (block_at v) (offset_at v) (v % 2 ^ 64) s low
      ∙ elim (scan_block_lem (rest_at v) (offset_at v) v (s.disk (block_at v))) [
        | inl (k, m, free, all, run) ↦
            let here = found_here i v k f before m l free all in
            rw (run, more, here) (ap (ok s.super_block.latest_inum) (advance_wrapped (i + 1)))
        | inr (all, run) ↦
            let visited = AllBefore-more v (rest_at v) (omega arith) before all in
            rw (run, more) (later visited (past_block i v (rest_at v) f visited))
      ]

  pub scan_inodes-found :
      (fuel i v : ℕ)
      → IsFirstFree s i
      → AllBefore s v
      → v ≤ i
      → i < v + rest_at v + fuel * 21
      → scan_inodes (suc fuel) (block_at v) (offset_at v) (v % 2 ^ 64) s
        ≡ ok s.super_block.latest_inum (advance (i + 1) s)
  scan_inodes-found zero i v f before l u =
      found_round zero i v f before l (λ all l'. absurd (omega (arith, u, l')))
  scan_inodes-found (suc fuel) i v f before l u = found_round (suc fuel) i v f before l (λ all l'.
      next_scan (suc fuel) v ((v + rest_at v) % 2 ^ 64)
      ∙ scan_inodes-found fuel i (v + rest_at v) f all l'
          (omega (arith, u, (next_place v).1, g.per_block)))

  -- After all inodes the loop comes to the same ones again.
  first-within : (i : ℕ) → AllBefore s i → (visited_inode s i).allocated ≡ false → i < inode_total
  first-within i before free = elim (Bool-cases (ltb i inode_total)) [
    | inl e ↦ ground (arith, e)
    | inr e ↦
        let again : (visited_inode s i).allocated ≡ true =
          subst (λ n. (inode_at s n).allocated ≡ true) (omega (arith, ltb-false i inode_total e))
            (before (i - inode_total) (omega (arith, ltb-false i inode_total e))) in
        absurd (ground (arith, again, free))
  ]

  -- What a run of the loop ends in.
  abbrev pub Ended : ℕ → Fs → Type 0
  Ended ans s' =
      ((ans ≡ minus_one) × (s' ≡ s) × AllBefore s inode_total)
      ⊎ ((i : ℕ) × IsFirstFree s i × (ans ≡ s.super_block.latest_inum) × (s' ≡ advance (i + 1) s))

  pub scan_inodes_lem :
      (fuel v ans : ℕ) (s' : Fs)
      → AllBefore s v
      → scan_inodes fuel (block_at v) (offset_at v) (v % 2 ^ 64) s ≡ ok ans s'
      → Ended ans s'
  scan_inodes_lem zero v ans s' before h = unfold scan_inodes in cc
  scan_inodes_lem (suc fuel) v ans s' before h =
      let low : block_at v ≤ inode_b_count = omega arith in
      let round = scan_round fuel (block_at v) (offset_at v) (v % 2 ^ 64) s low in
      elim (Bool-cases (v % 2 ^ 64 == s.super_block.inode_count)) [
        | inl e ↦
            let out : ok minus_one s ≡ ok ans s' = sym (round ∙ rw e refl) ∙ h in
            inl (ok-value out, ok-state out, λ j l. before j (ground (arith, e, g.count)))
        | inr e ↦ elim (scan_block_lem (rest_at v) (offset_at v) v (s.disk (block_at v))) [
          | inl (k, m, free, all, run) ↦
              let out : ok s.super_block.latest_inum (advance ((v + k + 1) % 2 ^ 64) s)
                  ≡ ok ans s' =
                sym (round ∙ rw (e, run) refl) ∙ h in
              inr (
                v + k,
                record {
                  within =
                      first-within (v + k) (AllBefore-more v k (omega (arith, m)) before all)
                        (rw (visited-load v k m) free);
                  before = AllBefore-more v k (omega (arith, m)) before all;
                  free = rw (visited-load v k m) free;
                },
                ok-value out,
                ok-state out ∙ advance_wrapped (v + k + 1),
              )
          | inr (all, run) ↦
              scan_inodes_lem fuel (v + rest_at v) ans s'
                (AllBefore-more v (rest_at v) (omega arith) before all)
                (sym (next_scan fuel v ((v + rest_at v) % 2 ^ 64))
                  ∙ sym (round ∙ rw (e, run) refl)
                  ∙ h)
        ]
      ]
