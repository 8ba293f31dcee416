-- ===== src/Directory/Records.antt =====
-- What a block of a directory stands for: a list of entries.
use file_system_fuse.Base.{
  ℕ, zero, suc, ◌+◌, ◌≤◌, ◌≡◌, ◌⊎◌, sym, refl, ap, true, false, not, ◌&&◌, List, [], ◌∷◌, ◌==◌,
  if◌then◌else◌, length, inl, inr, Bool-cases, ==→eq, arith,
}
use file_system_fuse.Bytes.{Block, load}
use file_system_fuse.Fs.{Fs, ok, pure}
use file_system_fuse.Disk.{block_size}
use file_system_fuse.FilePath.{Chars, same}
use file_system_fuse.Directory.{size_at, length_at, name_at, access, field, matches, is_entry}

-- An entry that is not in use has the inode number 0.
pub record Entry : Type 0 where
  pub inum : ℕ
  pub size : ℕ
  pub name : Chars

-- The characters in the `n` bytes at `p`.
unfoldable pub chars : ℕ → Block → ℕ → Chars
chars zero b p = []
chars (suc n) b p = load 1 b p ∷ chars n b (p + 1)

-- The record at `p` is that of the entry, and lies within the block.
pub record IsRecord (b : Block) (p : ℕ) (e : Entry) : Type 0 where
  pub inum : load 8 b p ≡ e.inum
  pub size : load 8 b (p + size_at) ≡ e.size
  pub name_length : load 2 b (p + length_at) ≡ length e.name
  pub name : chars (length e.name) b (p + name_at) ≡ e.name
  pub room : name_at + length e.name ≤ e.size
  pub within : p + e.size ≤ block_size

-- From `p` on the block has the records of the entries, up to its end.
abbrev pub IsRecords : Block → ℕ → List Entry → Type 0
IsRecords b p [] = p ≡ block_size
IsRecords b p (e ∷ es) = IsRecord b p e × IsRecords b (p + e.size) es

pub same-length : (xs ys : Chars) → same xs ys ≡ true → length xs ≡ length ys
unfolding same
same-length [] [] h = refl
same-length [] (y ∷ ys) h = absurd (ground arith)
same-length (x ∷ xs) [] h = absurd (ground arith)
same-length (x ∷ xs) (y ∷ ys) h = elim (Bool-cases (y == x)) [
  | inl e ↦ ap suc (same-length xs ys (ground (arith, e, h)))
  | inr e ↦ absurd (ground (arith, e, h))
]

pub field-in :
    (n p : ℕ) (b : Block) (s : Fs) → p + n ≤ block_size → field n p b s ≡ ok (load n b p) s
unfolding field access
field-in n p b s h = ground arith

pub matches-same :
    (name : Chars) (p : ℕ) (b : Block) (s : Fs)
    → p + length name ≤ block_size
    → matches name p b s ≡ ok (same name (chars (length name) b p)) s
unfolding matches same chars
matches-same [] p b s h = refl
matches-same (c ∷ cs) p b s h =
    rw (field-in 1 p b s (omega arith)) (ground (arith, matches-same cs (p + 1) b s (omega arith)))

-- Names of different lengths differ.
same-false : (xs ys : Chars) → (length ys == length xs) ≡ false → same xs ys ≡ false
same-false xs ys h = elim (Bool-cases (same xs ys)) [
  | inl e ↦ absurd (ground (arith, h, same-length xs ys e))
  | inr e ↦ e
]

-- A record is found to be one of a name just where its entry is in use and has the name.
pub is_entry_lem :
    (name : Chars) (p : ℕ) (b : Block) (s : Fs) (e : Entry)
    → IsRecord b p e
    → is_entry name p b s ≡ ok (not (e.inum == 0) && same name e.name) s
unfolding is_entry
is_entry_lem name p b s e r = elim (Bool-cases (e.inum == 0)) [
  | inl z ↦ rw (field-in 8 p b s (omega (arith, r.room, r.within)), r.inum, z) refl
  | inr z ↦
      rw
        (
          field-in 8 p b s (omega (arith, r.room, r.within)),
          r.inum,
          z,
          field-in 2 (p + length_at) b s (omega (arith, r.room, r.within)),
          r.name_length,
        )
        (compared (Bool-cases (length e.name == length name)))
]
  where
    compared :
        ((length e.name == length name) ≡ true) ⊎ ((length e.name == length name) ≡ false)
        → (if length e.name == length name then matches name (p + name_at) b else pure false) s
          ≡ ok (same name e.name) s
    compared (inl l) =
        let k : length name ≡ length e.name = sym (==→eq _ _ l) in
        rw (l, matches-same name (p + name_at) b s (omega (arith, r.room, r.within, k)), k, r.name)
          refl
    compared (inr l) = rw (l, same-false name e.name l) refl
