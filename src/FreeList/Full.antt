-- ===== src/FreeList/Full.antt =====
-- A block that is given back while the free list is empty.
use file_system_fuse.Base.{
  sym, inl, inr, Bool-cases, ==→eq, ==→ne, ℕ, zero, suc, ◌+◌, ◌≤◌, ◌≡◌, ◌≢◌, ◌∙◌, refl, true, arith,
  ◌==◌, ne→==, eq→==,
}
use file_system_fuse.Bytes.{Block, word, set_word, zero_block}
use file_system_fuse.Bytes.Words.{word-set_self, word-set_ne, word-zero}
use file_system_fuse.Fs.{Fs, write, ok}
use file_system_fuse.Disk.Laws.{write_self, write_ne, write_block-in, read_block-in}
use file_system_fuse.FreeList.{free_dblock, insert_free, create_new_dblock, put_entry, take_entry}
use file_system_fuse.FreeList.Chain.{IsDataBlock, super_image, set_free_list_head_lem}
use file_system_fuse.FreeList.Free.{valid_dblock}

-- The first round of each loop decides.
put_entry-first :
    (n i d : ℕ) (b : Block) → word b i ≡ 0 → put_entry (suc n) i d b ≡ (true, set_word b i d)
unfolding put_entry
put_entry-first n i d b h = rw (eq→== (word b i) 0 h)

take_entry-first :
    (n i : ℕ) (b : Block) → word b i ≢ 0 → take_entry (suc n) i b ≡ (word b i, set_word b i 0)
unfolding take_entry
take_entry-first n i b h = rw (ne→== (word b i) 0 h)

take_entry-skip :
    (n i : ℕ) (b : Block) → ((j : ℕ) → i ≤ j → word b j ≡ 0) → take_entry n i b ≡ (0, b)
unfolding take_entry
take_entry-skip zero i b h = refl
take_entry-skip (suc n) i b h =
    rw (eq→== (word b i) 0 (h i (omega arith)))
      (take_entry-skip n (i + 1) b (λ j l. h j (omega arith)))

module _ (s : Fs) (d : ℕ) (in_data : IsDataBlock d) (full : s.super_block.free_list_head ≡ 0) where
  abbrev cleared : Fs
  cleared = record s { disk = write s.disk d zero_block }

  abbrev headed : Fs
  headed = record {
    disk = write cleared.disk 0 (super_image cleared d);
    super_block = record (s.super_block) { free_list_head = d };
  }

  -- The block is its own entry.
  abbrev knot : Block
  knot = set_word zero_block 1 d

  abbrev freed : Fs
  freed = record headed { disk = write headed.disk d knot }

  d_ne_zero : d ≢ 0
  d_ne_zero = omega arith

  headed_read : headed.disk d ≡ zero_block
  headed_read =
      write_ne cleared.disk 0 d (super_image cleared d) d_ne_zero ∙ write_self s.disk d zero_block

  free_run : free_dblock d s ≡ ok true freed
  unfolding free_dblock insert_free
  free_run = ground (
    arith,
    valid_dblock d in_data,
    full,
    headed_read,
    write_block-in d zero_block s in_data.1,
    set_free_list_head_lem d cleared,
    read_block-in d zero_block headed in_data.1,
    put_entry-first 510 1 d zero_block (word-zero 1),
    write_block-in d knot headed in_data.1,
  )

  knot_entry : word knot 1 ≡ d
  knot_entry = word-set_self zero_block 1 d (omega arith)

  abbrev emptied : Fs
  emptied = record freed { disk = write freed.disk d (set_word knot 1 0) }

  create_run : create_new_dblock freed ≡ ok d emptied
  unfolding create_new_dblock
  create_run = ground (
    arith,
    d_ne_zero,
    knot_entry,
    write_self headed.disk d knot,
    read_block-in d zero_block freed in_data.1,
    take_entry-first 510 1 knot,
    write_block-in d (set_word knot 1 0) freed in_data.1,
  )

  no_entry : (j : ℕ) → 1 ≤ j → word (set_word knot 1 0) j ≡ 0
  no_entry j l = elim (Bool-cases (j == 1)) [
    | inl e ↦ rw (==→eq j 1 e) (word-set_self knot 1 0 (omega arith))
    | inr e ↦
        let other : 1 ≢ j = λ same. ==→ne j 1 e (sym same) in
        word-set_ne knot 1 j 0 other ∙ word-set_ne zero_block 1 j d other ∙ word-zero j
  ]

  next_word : word (set_word knot 1 0) 0 ≡ 0
  next_word =
      word-set_ne knot 1 0 0 (omega arith)
      ∙ word-set_ne zero_block 1 0 d (omega arith)
      ∙ word-zero 0

  abbrev unheaded : Fs
  unheaded = record {
    disk = write emptied.disk 0 (super_image emptied 0);
    super_block = record (emptied.super_block) { free_list_head = 0 };
  }

  again : Fs
  again = record unheaded { disk = write unheaded.disk d (set_word (set_word knot 1 0) 0 0) }

  create_again : create_new_dblock emptied ≡ ok d again
  unfolding create_new_dblock again
  create_again = ground (
    arith,
    d_ne_zero,
    write_self freed.disk d (set_word knot 1 0),
    read_block-in d zero_block emptied in_data.1,
    take_entry-skip 511 1 (set_word knot 1 0) no_entry,
    next_word,
    set_free_list_head_lem 0 emptied,
    write_block-in d (set_word (set_word knot 1 0) 0 0) unheaded in_data.1,
  )

-- After a data block is given back while the free list is empty, the next two calls of
-- `create_new_dblock` both return that block: it is handed out twice.
pub free_dblock-twice :
    (s : Fs) (d : ℕ)
    → IsDataBlock d
    → s.super_block.free_list_head ≡ 0
    → (t u v : Fs) × (free_dblock d s ≡ ok true t)
      × (create_new_dblock t ≡ ok d u)
      × (create_new_dblock u ≡ ok d v)
free_dblock-twice s d i full = (
  freed s d i full,
  emptied s d i full,
  again s d i full,
  free_run s d i full,
  create_run s d i full,
  create_again s d i full,
)
