-- ===== src/History/Calls.antt =====
-- What the calls do after any history, in terms of the blocks that are held.
use file_system_fuse.Base.{ℕ, ◌<◌, ◌≡◌, ◌≢◌, ◌⊎◌, refl, List, [], ◌∷◌, some, true, inl, inr, arith}
use file_system_fuse.Base.Ssize.{minus_one}
use file_system_fuse.Bytes.{Block}
use file_system_fuse.Fs.{Fs, Disk, ok, write}
use file_system_fuse.Disk.Laws.{write_self, write_ne, read_block-in}
use file_system_fuse.FreeList.{create_new_dblock, read_dblock, write_dblock, free_dblock}
use file_system_fuse.FreeList.Chain.{IsChain, free_count, node_count, IsDataBlock, IsZero}
use file_system_fuse.FreeList.Free.{free_dblock-Freed, valid_dblock}
use file_system_fuse.History.{IsWithout, History, freed, written}
use file_system_fuse.History.Owned.{
  Owned, History-Owned, create_cases, held_not_free, write_dblock-in,
}

-- Every block of `held` reads the same in both states.
abbrev pub Keeps : Fs → Fs → List ℕ → Type 0
Keeps s s' held = (m : ℕ) → 0 < node_count held m → s'.disk m ≡ s.disk m

empty_chain :
    (d : Disk) (head : ℕ) (ns : List ℕ) (a : ℕ)
    → IsChain d head ns
    → head ≡ 0
    → free_count d ns a ≡ 0
unfolding free_count
empty_chain d head [] a c z = refl
empty_chain d head (n ∷ ns) a c z = absurd (omega (arith, c.0, c.1))

-- With an empty free list all data blocks are held.
pub full_held :
    (s : Fs) (held : List ℕ) (o : Owned s held)
    → s.super_block.free_list_head ≡ 0
    → (a : ℕ) → IsDataBlock a
    → node_count held a ≡ 1
full_held s held o z a i =
    omega (
      arith,
      o.shared a i,
      empty_chain s.disk s.super_block.free_list_head o.nodes a o.list.chain z,
    )

-- After any history `create_new_dblock` returns. Either it returns -1, changes nothing, and each
-- data block is held; or it returns a data block that is not held, which reads as zeros, and no
-- block that is held changes.
pub create_new_dblock-fresh :
    (s : Fs) (held : List ℕ)
    → History s held
    → ((create_new_dblock s ≡ ok minus_one s) × ((a : ℕ) → IsDataBlock a → node_count held a ≡ 1))
      ⊎ ((ans : ℕ) × (s' : Fs) × (create_new_dblock s ≡ ok ans s')
          × IsDataBlock ans
          × (node_count held ans ≡ 0)
          × IsZero (s'.disk ans)
          × Keeps s s' held)
create_new_dblock-fresh s held h =
    let o = History-Owned h in
    elim (create_cases o) [
      | inl (z, run) ↦ inl (run, full_held s held o z)
      | inr (ans, s', ns', run, al) ↦ inr (
        ans,
        s',
        run,
        al.data_block,
        ground (arith, o.shared ans al.data_block, al.taken ans (omega (arith, al.data_block))),
        al.zeros,
        λ m k. al.others m (omega (arith, o.data_blocks m k)) (held_not_free o m k).1,
      )
    ]

-- After any history, with a free list that is not empty, a block that is held can be given back:
-- `free_dblock` succeeds, the block is held no more, and no block that is still held changes.
pub free_dblock-returned :
    (s : Fs) (held rest : List ℕ) (d : ℕ)
    → History s held
    → s.super_block.free_list_head ≢ 0
    → IsWithout d held rest
    → (s' : Fs) × (free_dblock d s ≡ ok true s')
      × History s' rest
      × (node_count rest d ≡ 0)
      × Keeps s s' rest
free_dblock-returned s held rest d h head w =
    let o = History-Owned h in
    let pos : 0 < node_count held d = ground (arith, w d) in
    let (s', ns', run, fr) =
      free_dblock-Freed s o.nodes d o.list head (o.data_blocks d pos) (held_not_free o d pos).0 in
    let gone : node_count rest d ≡ 0 = ground (arith, w d, o.shared d (o.data_blocks d pos)) in
    (
      s',
      run,
      freed s held d h head w run,
      gone,
      λ m k.
          let was : 0 < node_count held m = omega (arith, w m) in
          let apart : m ≢ d = ground (arith, gone) in
          fr.others m (omega (arith, o.data_blocks m was)) apart (held_not_free o m was).1,
    )

-- After any history, what is written to a block that is held is read back, the blocks that are held
-- stay so, and no other block changes.
pub read-write_dblock :
    (s : Fs) (held : List ℕ) (d : ℕ) (b : Block)
    → History s held
    → 0 < node_count held d
    → (s' : Fs) × (write_dblock d b s ≡ ok true s')
      × (read_dblock d s' ≡ ok (some b) s')
      × History s' held
      × ((m : ℕ) → m ≢ d → s'.disk m ≡ s.disk m)
unfolding read_dblock
read-write_dblock s held d b h pos =
    let i : IsDataBlock d = (History-Owned h).data_blocks d pos in
    let run = write_dblock-in d b s i in
    (
      record s { disk = write s.disk d b },
      run,
      rw
          (
            valid_dblock d i,
            read_block-in d _ (record s { disk = write s.disk d b }) i.1,
            write_self s.disk d b,
          )
          refl,
      written s d b h pos run,
      λ m apart. write_ne s.disk d m b apart,
    )
