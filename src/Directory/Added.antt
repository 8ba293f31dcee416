-- ===== src/Directory/Added.antt =====
-- An entry that `add_new_entry` places in a block is found there by the search of `find_file`.
use file_system_fuse.Base.{
  Option-cases, ℕ, ◌+◌, ◌-◌, ◌^◌, ◌≤◌, ◌<◌, ◌≡◌, ◌≢◌, ◌⊎◌, ◌∙◌, refl, sym, ap, false, not, ◌&&◌,
  List, [], ◌∷◌, length, ◌==◌, leb, inl, inr, Bool-cases, none, some, arith, All,
}
use file_system_fuse.Base.Ssize.{minus_one}
use file_system_fuse.Bytes.{Block, load}
use file_system_fuse.Fs.{Fs, ok}
use file_system_fuse.Disk.{block_size}
use file_system_fuse.FilePath.{same_refl, Chars, same}
use file_system_fuse.Directory.{
  name_at, found, past_end, search_block, place_entry, placed, no_room, max_name_length,
}
use file_system_fuse.Directory.Records.{Entry, IsRecords}
use file_system_fuse.Directory.Find.{lookup, search_block_lem}
use file_system_fuse.Directory.Place.{used, insert, place_entry_lem}

pub some-value : {a b : List Entry} → some a ≡ some b → a ≡ b
some-value h = cc

pub none-some : {a : List Entry} → none ≢ some a
none-some h = cc

-- The entry is put behind one with room, and the others are as they were.
pub data Inserted (inum : ℕ) (name : Chars) : List Entry → List Entry → Type 0 where
  here :
      (e : Entry) (size : ℕ) (es : List Entry)
      → Inserted inum name
          (e ∷ es)
          (record e { size = used e } ∷ record { inum = inum; size = size; name = name } ∷ es)
  later :
      (e : Entry) {es es' : List Entry}
      → Inserted inum name es es'
      → Inserted inum name (e ∷ es) (e ∷ es')

pub insert-Inserted :
    (inum : ℕ) (name : Chars) (es es' : List Entry)
    → insert inum name es ≡ some es'
    → Inserted inum name es es'
unfolding insert
insert-Inserted inum name [] es' h = absurd cc
insert-Inserted inum name (e ∷ es) es' h =
    elim (Bool-cases (leb (name_at + length name) (e.size - used e))) [
      | inl fit ↦
          let run : insert inum name (e ∷ es)
              ≡ some (
                  record e { size = used e }
                  ∷ record { inum = inum; size = e.size - used e; name = name }
                  ∷ es) =
            rw fit refl in
          rw (some-value (sym h ∙ run)) (here e (e.size - used e) es)
      | inr full ↦ elim (Option-cases (insert inum name es)) [
        | inl skipped ↦
            let run : insert inum name (e ∷ es) ≡ none = rw (full, skipped) refl in
            absurd (none-some (sym run ∙ h))
        | inr (rest, inserted) ↦
            let run : insert inum name (e ∷ es) ≡ some (e ∷ rest) = rw (full, inserted) refl in
            rw (some-value (sym h ∙ run)) (later e (insert-Inserted inum name es rest inserted))
      ]
    ]

found_past : {pos before : ℕ} → found pos before ≢ past_end
found_past h = cc

-- If no entry is found, the first is not one.
lookup-past_end :
    (name : Chars) (p prev : ℕ) (e : Entry) (es : List Entry)
    → lookup name p prev (e ∷ es) ≡ past_end
    → ((not (e.inum == 0) && same name e.name) ≡ false) × (lookup name (p + e.size) p es ≡ past_end)
unfolding lookup
lookup-past_end name p prev e es h = elim (Bool-cases (not (e.inum == 0) && same name e.name)) [
  | inl hit ↦
      let run : lookup name p prev (e ∷ es) ≡ found p prev = rw hit refl in
      absurd (found_past (sym run ∙ h))
  | inr miss ↦
      let run : lookup name p prev (e ∷ es) ≡ lookup name (p + e.size) p es = rw miss refl in
      (miss, sym run ∙ h)
]

insert-none :
    (inum : ℕ) (name : Chars) (es : List Entry)
    → insert inum name es ≡ none
    → All (λ e. e.size - used e < name_at + length name) es
unfolding insert
insert-none inum name [] h = tt
insert-none inum name (e ∷ es) h =
    elim (Bool-cases (leb (name_at + length name) (e.size - used e))) [
      | inl fit ↦
          let run : insert inum name (e ∷ es)
              ≡ some (
                  record e { size = used e }
                  ∷ record { inum = inum; size = e.size - used e; name = name }
                  ∷ es) =
            rw fit refl in
          absurd (none-some (sym h ∙ run))
      | inr full ↦ elim (Option-cases (insert inum name es)) [
        | inl skipped ↦ (ground (arith, full), insert-none inum name es skipped)
        | inr (rest, inserted) ↦
            let run : insert inum name (e ∷ es) ≡ some (e ∷ rest) = rw (full, inserted) refl in
            absurd (none-some (sym h ∙ run))
      ]
    ]

module _ (inum : ℕ) (name : Chars) (nonzero : inum ≢ 0) (c : Block) where
  -- The new entry is the first of its name.
  lookup-Inserted :
      {es es' : List Entry} (p prev : ℕ)
      → Inserted inum name es es'
      → lookup name p prev es ≡ past_end
      → IsRecords c p es'
      → (pos : ℕ) × (before : ℕ) × (lookup name p prev es' ≡ found pos before)
        × (load 8 c pos ≡ inum)
  unfolding lookup
  lookup-Inserted p prev (here e size es) absent (r, (r', rs)) =
      let miss = (lookup-past_end name p prev e es absent).0 in
      let used_inum : (inum == 0) ≡ false = ground (arith, nonzero) in
      (p + used e, p, rw (miss, used_inum, same_refl name) refl, r'.inum)
  lookup-Inserted p prev (later e {es} i) absent (r, rs) =
      let (miss, more) = lookup-past_end name p prev e es absent in
      let (pos, before, run, kept) = lookup-Inserted (p + e.size) p i more rs in
      (pos, before, rw miss run, kept)

-- On a block with a list of entries, none of them in use of the name, the loop of `add_new_entry`
-- either finds no room, and no entry has it, or places the entry; then the search of `find_file`
-- finds, by the name, a record with the inode number.
pub search-place_entry :
    (inum : ℕ) (name : Chars) (s : Fs) (b : Block) (es : List Entry)
    → inum ≢ 0
    → inum < 2 ^ 64
    → length name ≤ max_name_length
    → All (λ ch. ch < 256) name
    → IsRecords b 0 es
    → lookup name 0 minus_one es ≡ past_end
    → ((place_entry (block_size + 1) 0 inum name b s ≡ ok no_room s)
        × All (λ e. e.size - used e < name_at + length name) es)
      ⊎ ((c : Block) × (pos : ℕ) × (before : ℕ) × (place_entry (block_size + 1) 0 inum name b s
            ≡ ok (placed c) s)
          × (search_block (block_size + 1) 0 minus_one name c s ≡ ok (found pos before) s)
          × (load 8 c pos ≡ inum))
search-place_entry inum name s b es nonzero fits short bytes r absent =
    elim (place_entry_lem inum name s fits short bytes (block_size + 1) 0 b es r (omega arith)) [
      | inl (skipped, run) ↦ inl (run, insert-none inum name es skipped)
      | inr (es', c, inserted, run, rs', kept) ↦
          let (pos, before, at, there) =
            lookup-Inserted inum name nonzero c 0 minus_one
              (insert-Inserted inum name es es' inserted) absent rs' in
          inr (
            c,
            pos,
            before,
            run,
            search_block_lem name c s (block_size + 1) 0 minus_one es' rs' (omega arith)
                ∙ ap (λ end. ok end s) at,
            there,
          )
    ]
