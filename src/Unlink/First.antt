-- ===== src/Unlink/First.antt =====
-- The first record of a block gives its place to the second.
use file_system_fuse.Base.{
  ℕ, zero, suc, ◌+◌, ◌*◌, ◌%◌, ◌≤◌, ◌<◌, ◌≡◌, ◌∙◌, refl, ap, ap₂, true, false, List, ◌∷◌, length,
  arith, ltb, leb,
}
use file_system_fuse.Bytes.{Block, load, store}
use file_system_fuse.Bytes.Words.{store_byte}
use file_system_fuse.Disk.{block_size}
use file_system_fuse.Fs.{Fs, ok, fault}
use file_system_fuse.Directory.{name_at, size_at, length_at, access}
use file_system_fuse.Directory.Records.{Entry, IsRecord, IsRecords, chars, field-in}
use file_system_fuse.Directory.Write.{
  Agree, load-Agree, chars-Agree, IsRecords-Agree, resized-IsRecord,
}
use file_system_fuse.Directory.Place.{used}
use file_system_fuse.Unlink.{add_ssize, copy_down, grow_record, replace_first}

-- A block seen from `from` on.
abbrev seen_from : ℕ → Block → Block
seen_from from b q = b (from + q)

load-seen_from : (n p from : ℕ) (b : Block) → load n (seen_from from b) p ≡ load n b (from + p)
unfolding load
load-seen_from zero p from b = refl
load-seen_from (suc n) p from b =
    let next : from + (p + 1) ≡ from + p + 1 = omega arith in
    ap (λ v. b (from + p) % 256 + 256 * v)
      (load-seen_from n (p + 1) from b ∙ ap (λ o. load n b o) next)

chars-seen_from : (n p from : ℕ) (b : Block) → chars n (seen_from from b) p ≡ chars n b (from + p)
unfolding chars
chars-seen_from zero p from b = refl
chars-seen_from (suc n) p from b =
    let next : from + (p + 1) ≡ from + p + 1 = omega arith in
    ap₂ (λ x xs. x ∷ xs) (load-seen_from 1 p from b)
      (chars-seen_from n (p + 1) from b ∙ ap (λ o. chars n b o) next)

module _ (b : Block) (e e2 : Entry) (r : IsRecord b 0 e) (r2 : IsRecord b e.size e2)
    (apart : used e2 ≤ e.size) where
  abbrev copied : Block
  copied = copy_down e.size (used e2) b

  copied-Agree : (p n : ℕ) → p + n ≤ used e2 → Agree p (p + n) (seen_from e.size b) copied
  unfolding copy_down
  copied-Agree p n h q l u = ground (arith, h, l, u)

  copied-load : (n p : ℕ) → p + n ≤ used e2 → load n copied p ≡ load n b (e.size + p)
  copied-load n p h =
      load-Agree n p (seen_from e.size b) copied (copied-Agree p n h) ∙ load-seen_from n p e.size b

  copied-out : (q : ℕ) → used e2 ≤ q → copied q ≡ b q
  unfolding copy_down
  copied-out q h = ground (arith, h)

  add_zero : e.size + 0 ≡ e.size
  add_zero = omega arith

  -- The head of the second record is at the start of the block.
  copied-IsRecord : IsRecord copied 0 e2
  copied-IsRecord = record {
    inum = copied-load 8 0 (omega arith) ∙ ap (load 8 b) add_zero ∙ r2.inum;
    size = copied-load 8 size_at (omega arith) ∙ r2.size;
    name_length = copied-load 2 length_at (omega arith) ∙ r2.name_length;
    name =
        chars-Agree (length e2.name) name_at (seen_from e.size b) copied
          (copied-Agree name_at (length e2.name) (omega arith))
        ∙ chars-seen_from (length e2.name) name_at e.size b
        ∙ r2.name;
    room = r2.room;
    within = omega (arith, r2.within);
  }

  abbrev pub replaced : Block
  replaced = store 8 copied size_at (e2.size + e.size)

  -- The second record is at the start, and has the size of both.
  replaced-IsRecord : IsRecord replaced 0 (record e2 { size = e2.size + e.size })
  replaced-IsRecord =
      resized-IsRecord copied 0 (e2.size + e.size) e2 copied-IsRecord (omega (arith, r2.room))
        (omega (arith, r2.within))

  pub replaced-IsRecords :
      (es : List Entry)
      → IsRecords b (0 + e.size + e2.size) es
      → IsRecords replaced 0 (record e2 { size = e2.size + e.size } ∷ es)
  replaced-IsRecords es rs =
      let next : 0 + (e2.size + e.size) ≡ 0 + e.size + e2.size = omega arith in
      (
        replaced-IsRecord,
        rw next (
            IsRecords-Agree b replaced (0 + e.size + e2.size) es
              (λ q l u.
                store_byte 8 copied size_at (e2.size + e.size) q (omega (arith, l, r2.room))
                ∙ copied-out q (omega (arith, l, r2.room)))
              rs),
      )

  pub replace_first-run : (s : Fs) → replace_first e.size b s ≡ ok replaced s
  unfolding replace_first grow_record access
  replace_first-run s =
      let room : leb (e.size + name_at + length e2.name) block_size ≡ true =
        ground (arith, r2.room, r2.within) in
      let clear : ltb e.size (name_at + length e2.name) ≡ false = ground (arith, apart) in
      let sum : add_ssize e2.size e.size ≡ e2.size + e.size = omega (arith, r2.within) in
      rw
        (
          field-in 2 (e.size + length_at) b s (omega (arith, r2.room, r2.within)),
          r2.name_length,
          room,
          clear,
          field-in 8 size_at copied s (omega arith),
          copied-IsRecord.size,
          sum,
        )
        refl

-- The copy is not defined where the second record does not fit in the first.
pub replace_first-clash :
    (b : Block) (e e2 : Entry) (s : Fs)
    → IsRecord b e.size e2
    → e.size < used e2
    → replace_first e.size b s ≡ fault
unfolding replace_first access
replace_first-clash b e e2 s r2 clash =
    let room : leb (e.size + name_at + length e2.name) block_size ≡ true =
      ground (arith, r2.room, r2.within) in
    let clear : ltb e.size (name_at + length e2.name) ≡ true = ground (arith, clash) in
    rw
      (
        field-in 2 (e.size + length_at) b s (omega (arith, r2.room, r2.within)),
        r2.name_length,
        room,
        clear,
      )
      refl
