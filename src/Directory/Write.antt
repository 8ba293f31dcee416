-- ===== src/Directory/Write.antt =====
-- What `put_record` and writes elsewhere do to the records of a block.
use file_system_fuse.Base.{
  ◌⊎◌, ℕ, zero, suc, ◌+◌, ◌%◌, ◌^◌, ◌≤◌, ◌<◌, ◌≡◌, ◌⊎◌, ◌∙◌, refl, ap₂, List, [], ◌∷◌, length,
  arith, All,
}
use file_system_fuse.Bytes.{Block, put, load, store}
use file_system_fuse.Bytes.Words.{store_byte, load-congr, load-store, load-store-Apart}
use file_system_fuse.Disk.{block_size}
use file_system_fuse.FilePath.{Chars}
use file_system_fuse.Directory.{size_at, length_at, name_at, put_chars, put_record}
use file_system_fuse.Directory.Records.{Entry, IsRecord, IsRecords, chars}

-- The two blocks have the same bytes from `lo` up to and without `hi`.
abbrev pub Agree : (lo hi : ℕ) → Block → Block → Type 0
Agree lo hi b c = (q : ℕ) → lo ≤ q → q < hi → c q ≡ b q

pub load-Agree : (n p : ℕ) (b c : Block) → Agree p (p + n) b c → load n c p ≡ load n b p
load-Agree n p b c a = load-congr n c b p a

pub chars-Agree : (n p : ℕ) (b c : Block) → Agree p (p + n) b c → chars n c p ≡ chars n b p
unfolding chars
chars-Agree zero p b c a = refl
chars-Agree (suc n) p b c a =
    ap₂ (λ x xs. x ∷ xs) (load-Agree 1 p b c (λ q l u. a q (omega arith) (omega arith)))
      (chars-Agree n (p + 1) b c (λ q l u. a q (omega arith) (omega arith)))

pub IsRecord-Agree :
    (b c : Block) (p : ℕ) (e : Entry) → Agree p (p + e.size) b c → IsRecord b p e → IsRecord c p e
IsRecord-Agree b c p e a r = record {
  inum = load-Agree 8 p b c (λ q l u. a q (omega arith) (omega (arith, r.room))) ∙ r.inum;
  size =
      load-Agree 8 (p + size_at) b c (λ q l u. a q (omega arith) (omega (arith, r.room))) ∙ r.size;
  name_length =
      load-Agree 2 (p + length_at) b c (λ q l u. a q (omega arith) (omega (arith, r.room)))
      ∙ r.name_length;
  name =
      chars-Agree (length e.name) (p + name_at) b c
        (λ q l u. a q (omega arith) (omega (arith, r.room)))
      ∙ r.name;
  room = r.room;
  within = r.within;
}

pub IsRecords-Agree :
    (b c : Block) (p : ℕ) (es : List Entry)
    → Agree p block_size b c
    → IsRecords b p es
    → IsRecords c p es
IsRecords-Agree b c p [] a r = r
IsRecords-Agree b c p (e ∷ es) a (r, rs) = (
  IsRecord-Agree b c p e (λ q l u. a q l (omega (arith, r.within))) r,
  IsRecords-Agree b c (p + e.size) es (λ q l u. a q (omega arith) u) rs,
)

-- A record with another size, with room for its name and within the block.
pub resized-IsRecord :
    (b : Block) (p size : ℕ) (e : Entry)
    → IsRecord b p e
    → name_at + length e.name ≤ size
    → p + size ≤ block_size
    → IsRecord (store 8 b (p + size_at) size) p (record e { size = size })
resized-IsRecord b p size e r room within = record {
  inum = load-store-Apart 8 8 b (p + size_at) p size (omega arith) ∙ r.inum;
  size = load-store 8 b (p + size_at) size (omega (arith, within));
  name_length =
      load-store-Apart 8 2 b (p + size_at) (p + length_at) size (omega arith) ∙ r.name_length;
  name =
      chars-Agree (length e.name) (p + name_at) b (store 8 b (p + size_at) size)
        (λ q l u. store_byte 8 b (p + size_at) size q (omega arith))
      ∙ r.name;
  room = room;
  within = within;
}

put_chars-out :
    (b : Block) (p : ℕ) (cs : Chars) (q : ℕ)
    → (q < p) ⊎ (p + length cs ≤ q)
    → put_chars b p cs q ≡ b q
unfolding put_chars put
put_chars-out b p [] q h = refl
put_chars-out b p (c ∷ cs) q h = ground (arith, h, put_chars-out b (p + 1) cs q)

put_first : (p v : ℕ) (d : Block) → v < 256 → load 1 (put d p v) p ≡ v
unfolding load put
put_first p v d k = ground arith

put_later : (p v : ℕ) (d : Block) (q : ℕ) → p < q → put d p v q ≡ d q
unfolding put
put_later p v d q k = ground arith

chars-put_chars :
    (b : Block) (p : ℕ) (cs : Chars)
    → All (λ c. c < 256) cs
    → chars (length cs) (put_chars b p cs) p ≡ cs
unfolding chars put_chars
chars-put_chars b p [] h = refl
chars-put_chars b p (c ∷ cs) (h, hs) =
    ap₂ (λ x xs. x ∷ xs) (put_first p c (put_chars b (p + 1) cs) h)
      (chars-Agree (length cs) (p + 1) (put_chars b (p + 1) cs) (put (put_chars b (p + 1) cs) p c)
          (λ q l u. put_later p c (put_chars b (p + 1) cs) q (omega arith))
        ∙ chars-put_chars b (p + 1) cs hs)

module _ (b : Block) (p inum size : ℕ) (name : Chars) where
  -- The block before the name is put.
  abbrev headed : Block
  headed =
      store 2 (store 8 (store 8 b p inum) (p + size_at) size) (p + length_at) (length name % 2 ^ 16)

  -- Only the bytes of the record change.
  pub put_record-out :
      (q : ℕ) → (q < p) ⊎ (p + name_at + length name ≤ q) → put_record b p inum size name q ≡ b q
  unfolding put_record
  put_record-out q h =
      put_chars-out headed (p + name_at) name q (omega (arith, h))
      ∙ store_byte 2 _ (p + length_at) (length name % 2 ^ 16) q (omega (arith, h))
      ∙ store_byte 8 _ (p + size_at) size q (omega (arith, h))
      ∙ store_byte 8 b p inum q (omega (arith, h))

  kept :
      (n o : ℕ) → o + n ≤ p + name_at → load n (put_record b p inum size name) o ≡ load n headed o
  unfolding put_record
  kept n o h =
      load-Agree n o headed (put_chars headed (p + name_at) name)
        (λ q l u. put_chars-out headed (p + name_at) name q (omega arith))

  -- The record that is put is there.
  pub put_record-IsRecord :
      inum < 2 ^ 64
      → size < 2 ^ 64
      → length name < 2 ^ 16
      → All (λ c. c < 256) name
      → name_at + length name ≤ size
      → p + size ≤ block_size
      → IsRecord
          (put_record b p inum size name)
          p
          (record { inum = inum; size = size; name = name })
  unfolding put_record
  put_record-IsRecord inum_fits size_fits short bytes room within = record {
    inum =
        kept 8 p (omega arith)
        ∙ load-store-Apart 2 8 _ (p + length_at) p (length name % 2 ^ 16) (omega arith)
        ∙ load-store-Apart 8 8 _ (p + size_at) p size (omega arith)
        ∙ load-store 8 b p inum inum_fits;
    size =
        kept 8 (p + size_at) (omega arith)
        ∙ load-store-Apart 2 8 _ (p + length_at) (p + size_at) (length name % 2 ^ 16) (omega arith)
        ∙ load-store 8 _ (p + size_at) size size_fits;
    name_length =
        kept 2 (p + length_at) (omega arith)
        ∙ load-store 2 _ (p + length_at) (length name % 2 ^ 16) (omega arith)
        ∙ omega arith;
    name = chars-put_chars headed (p + name_at) name bytes;
    room = room;
    within = within;
  }
