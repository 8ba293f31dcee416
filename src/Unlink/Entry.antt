-- ===== src/Unlink/Entry.antt =====
-- What `custom_unlink` does to the block of a directory that the entry is in.
use file_system_fuse.Base.{
  zero_add, leb, subst, ℕ, ◌+◌, ◌≤◌, ◌<◌, ◌≡◌, ◌∙◌, ◌⊎◌, refl, sym, true, false, List, ◌∷◌,
  if◌then◌else◌, ◌==◌, inl, inr, Bool-cases, arith, some,
}
use file_system_fuse.Base.Ssize.{minus_one, add_ssize}
use file_system_fuse.Bytes.{Block, load}
use file_system_fuse.Fs.{Fs, write}
use file_system_fuse.Disk.{block_size}
use file_system_fuse.FreeList.Chain.{IsDataBlock}
use file_system_fuse.FreeList.Blocks.{write_dblock-in}
use file_system_fuse.FilePath.{Chars}
use file_system_fuse.Inode.{Inode}
use file_system_fuse.Directory.{FilePos, size_at, found}
use file_system_fuse.Directory.Records.{Entry, IsRecord, IsRecords, field-in}
use file_system_fuse.Directory.Find.{lookup}
use file_system_fuse.Directory.Place.{used}
use file_system_fuse.State.{done, crash}
use file_system_fuse.World.{World}
use file_system_fuse.Unlink.{grow_record, remove_entry}
use file_system_fuse.Unlink.Merge.{
  listed, without, merge, is_hit, listed-merge, joined, merged_block, merge-IsRecords,
}
use file_system_fuse.Unlink.First.{
  replaced, replaced-IsRecords, replace_first-run, replace_first-clash,
}

-- The place that `find_file` gives for a record of the block.
abbrev pub place_at : Fs → (d i start_pos prev_entry : ℕ) → FilePos
place_at s d i start_pos prev_entry = record {
  dblock = s.disk d;
  dblock_num = d;
  fblock_num = i;
  start_pos = start_pos;
  prev_entry = prev_entry;
}

-- The world with another content of a block.
abbrev pub with_block : World → (d : ℕ) → Block → World
with_block w d c = record w { fs = record (w.fs) { disk = write w.fs.disk d c } }

module _ (w : World) (inode : Inode) (d i : ℕ) (in_data : IsDataBlock d) where
  module _ (name : Chars) (e : Entry) (es : List Entry) (r : IsRecord (w.fs.disk d) 0 e)
      (rs : IsRecords (w.fs.disk d) (0 + e.size) es) where
    kept :
        is_hit name e ≡ false
        → (if e.inum == 0
            then without name (listed es)
            else (e.inum, e.name) ∷ without name (listed es))
          ≡ without name (listed (e ∷ es))
    unfolding listed without
    kept miss = ground (arith, miss)

    -- An entry behind the first is found by name and removed: the block then holds the entries in
    -- use that it held, in their order, without the first of the name.
    pub remove_later :
        (pos before : ℕ)
        → is_hit name e ≡ false
        → lookup name 0 minus_one (e ∷ es) ≡ found pos before
        → (c : Block) × (es' : List Entry) × (remove_entry inode (place_at w.fs d i pos before) w
            ≡ done (some inode) (with_block w d c))
          × IsRecords c 0 es'
          × (listed es' ≡ without name (listed (e ∷ es)))
    unfolding remove_entry grow_record lookup
    remove_later pos before miss h =
        let run : lookup name 0 minus_one (e ∷ es) ≡ lookup name (0 + e.size) 0 es = rw miss refl in
        let b : Block = w.fs.disk d in
        let (merged, late, room, fits, inside) =
          merge-IsRecords name b 0 pos before e es r rs (sym run ∙ h) in
        let behind : (before == minus_one) ≡ false = ground (arith, room, inside) in
        let sum : add_ssize (load 8 b (before + size_at)) (load 8 b (pos + size_at))
            ≡ joined name b before pos =
          omega (arith, fits) in
        (
          merged_block name b before pos,
          merge name e es,
          rw
              (
                field-in 8 (pos + size_at) b w.fs (omega (arith, inside)),
                behind,
                field-in 8 (before + size_at) b w.fs (omega (arith, room, inside)),
                sum,
                write_dblock-in d (merged_block name b before pos) w.fs in_data,
              )
              refl,
          merged,
          listed-merge name e es ∙ kept miss,
        )

  -- The first of several entries is found by name and removed: the block then holds the entries in
  -- use that it held, in their order, without the first of the name; or the second record does not
  -- fit into the first, and the copy has no defined behaviour.
  pub remove_first :
      (name : Chars) (e e2 : Entry) (es : List Entry)
      → IsRecords (w.fs.disk d) 0 (e ∷ e2 ∷ es)
      → is_hit name e ≡ true
      → ((c : Block) × (es' : List Entry) × (remove_entry inode (place_at w.fs d i 0 minus_one) w
            ≡ done (some inode) (with_block w d c))
          × IsRecords c 0 es'
          × (listed es' ≡ without name (listed (e ∷ e2 ∷ es))))
        ⊎ ((e.size < used e2) × (remove_entry inode (place_at w.fs d i 0 minus_one) w ≡ crash))
  unfolding remove_entry listed without
  remove_first name e e2 es (r, (r2, rs)) hit =
      let b : Block = w.fs.disk d in
      let second : IsRecord b e.size e2 = subst (λ p. IsRecord b p e2) (zero_add e.size) r2 in
      let not_all : (e.size == block_size) ≡ false = ground (arith, r2.room, r2.within) in
      elim (Bool-cases (leb (used e2) e.size)) [
        | inl fits ↦
            let apart : used e2 ≤ e.size = ground (arith, fits) in
            inl (
              replaced b e e2 r second apart,
              record e2 { size = e2.size + e.size } ∷ es,
              rw
                  (
                    field-in 8 size_at b w.fs (omega arith),
                    r.size,
                    not_all,
                    replace_first-run b e e2 r second apart w.fs,
                    write_dblock-in d (replaced b e e2 r second apart) w.fs in_data,
                  )
                  refl,
              replaced-IsRecords b e e2 r second apart es rs,
              ground (arith, hit),
            )
        | inr clash ↦
            let more : e.size < used e2 = ground (arith, clash) in
            inr (
              more,
              rw
                  (
                    field-in 8 size_at b w.fs (omega arith),
                    r.size,
                    not_all,
                    replace_first-clash b e e2 w.fs second more,
                  )
                  refl,
            )
      ]
