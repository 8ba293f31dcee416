-- ===== src/Directory/Find.antt =====
-- `find_file` against the first entry of a name in the lists of entries.
use file_system_fuse.Base.{
  ℕ, zero, suc, ◌+◌, ◌^◌, ◌<◌, ◌≡◌, ◌≢◌, ◌⊎◌, ◌∙◌, refl, ap, true, false, not, ◌&&◌, List, [], ◌∷◌,
  ◌==◌, if◌then◌else◌, length, inl, inr, Bool-cases, Option, none, some, arith,
}
use file_system_fuse.Base.Ssize.{slt, sle, add_ssize, minus_one}
use file_system_fuse.Bytes.{Block}
use file_system_fuse.Fs.{Fs, ok}
use file_system_fuse.Disk.{block_size}
use file_system_fuse.Disk.Laws.{read_block-in}
use file_system_fuse.FreeList.{read_dblock}
use file_system_fuse.FreeList.Chain.{IsDataBlock}
use file_system_fuse.FreeList.Free.{valid_dblock}
use file_system_fuse.Inode.{Inode}
use file_system_fuse.FilePath.{Chars, same}
use file_system_fuse.FileMap.{fblock_num_to_dblock_num}
use file_system_fuse.Directory.{
  size_at, is_dir, Search, found, past_end, broken, FilePos, search_block, search_blocks, find_file,
}
use file_system_fuse.Directory.Records.{Entry, IsRecord, IsRecords, field-in, is_entry_lem}

-- The first entry in use that has the name; the entries start at `p`, behind the one at `prev`.
unfoldable pub lookup : Chars → (p prev : ℕ) → List Entry → Search
lookup name p prev [] = past_end
lookup name p prev (e ∷ es) =
    let rest = lookup name (p + e.size) p es in
    if not (e.inum == 0) && same name e.name then found p prev else rest

-- From block `i` of the file on, the directory has these data blocks, with these entries.
abbrev pub IsListing : Inode → Fs → ℕ → List (ℕ × List Entry) → Type 0
IsListing inode s i [] = Unit {0}
IsListing inode s i ((d, es) ∷ rest) =
    (fblock_num_to_dblock_num inode i s ≡ ok d s)
    × IsDataBlock d
    × IsRecords (s.disk d) 0 es
    × IsListing inode s (i + 1) rest

-- The place in block `i` that a search of it ends at, or what `rest` is.
unfoldable pub place : Search → Block → (d i : ℕ) → Option FilePos → Option FilePos
place (found start_pos prev_entry) b d i rest = some (record {
  dblock = b;
  dblock_num = d;
  fblock_num = i;
  start_pos = start_pos;
  prev_entry = prev_entry;
})
place past_end b d i rest = rest
place broken b d i rest = none

-- The first block with an entry of the name.
unfoldable pub lookup_all : Chars → Fs → ℕ → List (ℕ × List Entry) → Option FilePos
lookup_all name s i [] = none
lookup_all name s i ((d, es) ∷ rest) =
    place (lookup name 0 minus_one es) (s.disk d) d i (lookup_all name s (i + 1) rest)

lookup_all-cons :
    (name : Chars) (s : Fs) (i d : ℕ) (es : List Entry) (rest : List (ℕ × List Entry))
    → lookup_all name s i ((d, es) ∷ rest)
      ≡ place (lookup name 0 minus_one es) (s.disk d) d i (lookup_all name s (i + 1) rest)
unfolding lookup_all
lookup_all-cons name s i d es rest = refl

module _ (name : Chars) (b : Block) (s : Fs) where
  search_round :
      (fuel p prev : ℕ) (e : Entry)
      → IsRecord b p e
      → search_block (suc fuel) p prev name b s ≡ (
          if not (e.inum == 0) && same name e.name
          then ok (found p prev) s
          else search_block fuel (p + e.size) p name b s)
  unfolding search_block
  search_round fuel p prev e r =
      let inside : slt p block_size ≡ true = unfold slt in ground (arith, r.room, r.within) in
      let sized : sle e.size 0 ≡ false = unfold sle in ground (arith, r.room, r.within) in
      let sum : add_ssize p e.size ≡ p + e.size = omega (arith, r.room, r.within) in
      rw (inside, is_entry_lem name p b s e r)
        (elim (Bool-cases (not (e.inum == 0) && same name e.name)) [
          | inl h ↦ rw h refl
          | inr h ↦
              rw
                (
                  h,
                  field-in 8 (p + size_at) b s (omega (arith, r.room, r.within)),
                  r.size,
                  sized,
                  sum,
                )
                refl
        ])

  -- With fuel for as many bytes as are left, the search of a block ends as `lookup` says.
  pub search_block_lem :
      (fuel p prev : ℕ) (es : List Entry)
      → IsRecords b p es
      → block_size < p + fuel
      → search_block fuel p prev name b s ≡ ok (lookup name p prev es) s
  unfolding lookup search_block
  search_block_lem zero p prev [] r u = absurd (omega arith)
  search_block_lem (suc fuel) p prev [] r u =
      let past : slt p block_size ≡ false = unfold slt in ground (arith, r) in rw past refl
  search_block_lem zero p prev (e ∷ es) (r, rs) u = absurd (omega (arith, r.within))
  search_block_lem (suc fuel) p prev (e ∷ es) (r, rs) u =
      search_round fuel p prev e r
      ∙ ground (arith, search_block_lem fuel (p + e.size) p es rs (omega (arith, r.room)))

pub lookup-broken : (name : Chars) (p prev : ℕ) (es : List Entry) → lookup name p prev es ≢ broken
unfolding lookup
lookup-broken name p prev [] h = cc
lookup-broken name p prev (e ∷ es) h = ground (arith, h, lookup-broken name (p + e.size) p es)

pub Search-cases :
    (x : Search)
    → ((start_pos : ℕ) × (prev_entry : ℕ) × (x ≡ found start_pos prev_entry))
      ⊎ ((x ≡ past_end) ⊎ (x ≡ broken))
Search-cases (found start_pos prev_entry) = inl (start_pos, prev_entry, refl)
Search-cases past_end = inr (inl refl)
Search-cases broken = inr (inr refl)

search_blocks_lem :
    (name : Chars) (inode : Inode) (s : Fs) (i : ℕ) (ds : List (ℕ × List Entry))
    → IsListing inode s i ds
    → search_blocks (length ds) i name inode s ≡ ok (lookup_all name s i ds) s
unfolding search_blocks lookup_all place read_dblock
search_blocks_lem name inode s i [] l = refl
search_blocks_lem name inode s i ((d, es) ∷ rest) (run, in_data, records, more) =
    let positive : sle d 0 ≡ false = unfold sle in ground (arith, in_data) in
    rw
      (
        run,
        positive,
        valid_dblock d in_data,
        read_block-in d _ s in_data.1,
        search_block_lem name (s.disk d) s (block_size + 1) 0 minus_one es records (omega arith),
        lookup_all-cons name s i d es rest,
      )
      (elim (Search-cases (lookup name 0 minus_one es)) [
        | inl (start_pos, prev_entry, e) ↦ rw e refl
        | inr (inl e) ↦ rw e (search_blocks_lem name inode s (i + 1) rest more)
        | inr (inr e) ↦ absurd (lookup-broken name 0 minus_one es e)
      ])

-- In a directory whose blocks hold lists of entries, `find_file` returns the place of the first
-- entry in use that has the name, with the entry before it in its block, and none if there is no
-- such entry; it changes nothing.
pub find_file_lem :
    (name : Chars) (inode : Inode) (s : Fs) (ds : List (ℕ × List Entry))
    → is_dir inode.mode ≡ true
    → inode.num_blocks ≡ length ds
    → length ds < 2 ^ 63
    → IsListing inode s 0 ds
    → find_file name inode s ≡ ok (lookup_all name s 0 ds) s
unfolding find_file
find_file_lem name inode s ds dir count small l =
    let positive : slt inode.num_blocks 0 ≡ false = unfold slt in ground (arith, count, small) in
    rw (dir, positive)
      (ap (λ n. search_blocks n 0 name inode s) count ∙ search_blocks_lem name inode s 0 ds l)
