-- ===== src/Unlink/Merge.antt =====
-- The removal of an entry from the list of the entries of a block: its record becomes a part of the
-- one before it.
use file_system_fuse.Base.{
  ℕ, ◌+◌, ◌≤◌, ◌≡◌, ◌≢◌, ◌∙◌, refl, sym, subst, ap, ap₂, not, ◌&&◌, List, [], ◌∷◌, if◌then◌else◌,
  ◌==◌, inl, inr, Bool-cases, arith, Bool,
}
use file_system_fuse.Bytes.{Block, load, store}
use file_system_fuse.Bytes.Words.{store_byte}
use file_system_fuse.Disk.{block_size}
use file_system_fuse.FilePath.{Chars, same}
use file_system_fuse.Directory.{name_at, size_at, found, past_end}
use file_system_fuse.Directory.Records.{Entry, IsRecord, IsRecords}
use file_system_fuse.Directory.Find.{lookup}
use file_system_fuse.Directory.Write.{IsRecord-Agree, IsRecords-Agree, resized-IsRecord}

-- What a list of entries is for: the inode numbers and names of those in use.
unfoldable pub listed : List Entry → List (ℕ × Chars)
listed [] = []
listed (e ∷ es) = let rest = listed es in if e.inum == 0 then rest else (e.inum, e.name) ∷ rest

-- The list without the first member of the name.
unfoldable pub without : Chars → List (ℕ × Chars) → List (ℕ × Chars)
without name [] = []
without name ((i, n) ∷ l) = let rest = without name l in if same name n then l else (i, n) ∷ rest

abbrev pub is_hit : Chars → Entry → Bool
is_hit name e = not (e.inum == 0) && same name e.name

-- The first entry of the name behind `e` becomes a part of the one before it.
unfoldable pub merge : Chars → Entry → List Entry → List Entry
merge name e [] = e ∷ []
merge name e (e2 ∷ es) =
    let rest = merge name e2 es in
    if is_hit name e2 then record e { size = e.size + e2.size } ∷ es else e ∷ rest

abbrev with_entry : Entry → List (ℕ × Chars) → List (ℕ × Chars)
with_entry e l = if e.inum == 0 then l else (e.inum, e.name) ∷ l

pub listed-merge :
    (name : Chars) (e : Entry) (es : List Entry)
    → listed (merge name e es) ≡ with_entry e (without name (listed es))
unfolding listed merge without
listed-merge name e [] = refl
listed-merge name e (e2 ∷ es) = ground (arith, listed-merge name e2 es)

found-positions : {p q p' q' : ℕ} → found p q ≡ found p' q' → (p ≡ p') × (q ≡ q')
found-positions h = (cc, cc)

past-found : {p q : ℕ} → past_end ≢ found p q
past-found h = cc

module _ (name : Chars) (b : Block) where
  -- The size of the record before the entry, and that of its own.
  abbrev pub joined : (before pos : ℕ) → ℕ
  joined before pos = load 8 b (before + size_at) + load 8 b (pos + size_at)

  abbrev pub merged_block : (before pos : ℕ) → Block
  merged_block before pos = store 8 b (before + size_at) (joined before pos)

  merge_here :
      (p : ℕ) (e e2 : Entry) (es : List Entry)
      → IsRecord b p e
      → IsRecord b (p + e.size) e2
      → IsRecords b (p + e.size + e2.size) es
      → IsRecords (merged_block p (p + e.size)) p (record e { size = e.size + e2.size } ∷ es)
        × (p ≤ p)
        × (p + name_at ≤ p + e.size)
        × (p + joined p (p + e.size) ≤ block_size)
        × (p + e.size + name_at ≤ block_size)
  merge_here p e e2 es r r2 rs =
      let sum : joined p (p + e.size) ≡ e.size + e2.size = ap₂ (λ m n. m + n) r.size r2.size in
      let next : p + (e.size + e2.size) ≡ p + e.size + e2.size = omega arith in
      let changed : Block = store 8 b (p + size_at) (e.size + e2.size) in
      let same : changed ≡ merged_block p (p + e.size) = ap (store 8 b (p + size_at)) (sym sum) in
      (
        subst (λ c. IsRecords c p (record e { size = e.size + e2.size } ∷ es)) same
            (
              resized-IsRecord b p (e.size + e2.size) e r (omega (arith, r.room))
                  (omega (arith, r2.within)),
              rw next (
                  IsRecords-Agree b changed (p + e.size + e2.size) es
                    (λ q l u.
                      store_byte 8 b (p + size_at) (e.size + e2.size) q (omega (arith, l, r.room)))
                    rs),
            ),
        omega arith,
        omega (arith, r.room),
        omega (arith, sum, r2.within),
        omega (arith, r2.room, r2.within),
      )

  pub merge-IsRecords :
      (p pos before : ℕ) (e : Entry) (es : List Entry)
      → IsRecord b p e
      → IsRecords b (p + e.size) es
      → lookup name (p + e.size) p es ≡ found pos before
      → IsRecords (merged_block before pos) p (merge name e es)
        × (p ≤ before)
        × (before + name_at ≤ pos)
        × (before + joined before pos ≤ block_size)
        × (pos + name_at ≤ block_size)
  unfolding merge lookup
  merge-IsRecords p pos before e [] r rs h = absurd (past-found h)
  merge-IsRecords p pos before e (e2 ∷ es) r (r2, rs) h = elim (Bool-cases (is_hit name e2)) [
    | inl hit ↦
        let run : lookup name (p + e.size) p (e2 ∷ es) ≡ found (p + e.size) p = rw hit refl in
        let (at, behind) = found-positions (sym run ∙ h) in
        rw (sym at, sym behind, hit) (merge_here p e e2 es r r2 rs)
    | inr miss ↦
        let run : lookup name (p + e.size) p (e2 ∷ es)
            ≡ lookup name (p + e.size + e2.size) (p + e.size) es =
          rw miss refl in
        let (records, late, room, fits, inside) =
          merge-IsRecords (p + e.size) pos before e2 es r2 rs (sym run ∙ h) in
        rw miss (
          (
            IsRecord-Agree b (merged_block before pos) p e
                (λ q l u. store_byte 8 b (before + size_at) _ q (omega (arith, late, u))) r,
            records,
          ),
          omega (arith, late),
          room,
          fits,
          inside,
        )
  ]
