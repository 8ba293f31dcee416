-- ===== src/Transfer/Read.antt =====
-- Reading the bytes of a file.
use file_system_fuse.Base.{
  sym, ℕ, zero, suc, ◌+◌, ◌*◌, ◌-◌, ◌/◌, ◌%◌, ◌^◌, ◌≤◌, ◌<◌, ◌≡◌, ◌∙◌, refl, ap, true, false, some,
  ◌==◌, if◌then◌else◌, ltb, leb, inl, inr, Bool-cases, arith,
}
use file_system_fuse.Base.Ssize.{slt, add_ssize}
use file_system_fuse.Bytes.{Block}
use file_system_fuse.Fs.{Fs, ok}
use file_system_fuse.Disk.{block_size}
use file_system_fuse.Inode.{Inode}
use file_system_fuse.Directory.{access}
use file_system_fuse.Transfer.{
  paste, Span, span, rounds, piece_from, piece_size, read_one, read_loop, read_span,
}
use file_system_fuse.Transfer.Content.{IsMapped, content, read_fblock_lem, paste-content}

-- The buffer has the first `m` of the bytes from `offset` on, and is `start` behind them.
abbrev pub Filled : Fs → (blk : ℕ → ℕ) → (offset m : ℕ) → Block → Block → Type 0
Filled s blk offset m start buff =
    (k : ℕ) → buff k ≡ (if ltb k m then content s blk (offset + k) else start k)

module _ {inode : Inode} {s : Fs} {n : ℕ} {blk : ℕ → ℕ} (f : IsMapped inode s n blk)
    (offset nbytes : ℕ) (small : offset + nbytes < 2 ^ 63)
    (long : (offset + nbytes) / block_size < n) (start : Block) where
  abbrev sp : Span
  sp = span offset nbytes

  -- What the members of the span are.
  nblocks_lem : sp.nblocks ≡ (offset + nbytes) / block_size - offset / block_size + 1
  nblocks_lem = omega (arith, small)

  pub rounds_lem : rounds sp.nblocks ≡ (offset + nbytes) / block_size - offset / block_size + 1
  unfolding slt
  rounds_lem = ground (arith, small, nblocks_lem)

  rest_lem : sp.rest ≡ (offset + nbytes) % block_size
  rest_lem = omega (arith, small)

  -- How far the bytes go before round `i`, when `left` rounds are left.
  abbrev pub reached : (left i : ℕ) → ℕ
  reached left i =
      if left == 0
      then offset + nbytes
      else if i == 0
      then offset
      else (offset / block_size + i) * block_size

  -- Round `i` goes on where the last one ended, and stays in its block.
  pub piece_lem :
      (left i m : ℕ)
      → i + suc left ≡ (offset + nbytes) / block_size - offset / block_size + 1
      → 0 < i + left
      → offset + m ≡ reached (suc left) i
      → (offset + m ≡ (offset / block_size + i) * block_size + piece_from sp i)
        × (piece_from sp i + piece_size sp i ≤ block_size)
        × (offset + (m + piece_size sp i) ≡ reached left (i + 1))
        × (add_ssize m (piece_size sp i) ≡ m + piece_size sp i)
        × (add_ssize (offset / block_size) i ≡ offset / block_size + i)
        × (offset / block_size + i < n)
  piece_lem left i m e many at = (
    ground (arith, at),
    ground (arith, rest_lem),
    ground (arith, at, e, many, small, rest_lem, nblocks_lem),
    ground (arith, at, e, many, small, rest_lem, nblocks_lem),
    omega (arith, e, small),
    omega (arith, e, long),
  )

  read_round :
      (left i m : ℕ) (buff : Block)
      → add_ssize (offset / block_size) i ≡ offset / block_size + i
      → add_ssize m (piece_size sp i) ≡ m + piece_size sp i
      → offset / block_size + i < n
      → read_loop (suc left) i sp inode m buff s
        ≡ read_loop left
            (i + 1)
            sp
            inode
            (m + piece_size sp i)
            (paste buff m
              (s.disk (blk (offset / block_size + i)))
              (piece_from sp i)
              (piece_size sp i))
            s
  unfolding read_loop
  read_round left i m buff index sum below =
      rw (index, read_fblock_lem f s (λ q o. refl) (offset / block_size + i) below, sum) refl

  -- From round `i`, before which `m` bytes were read.
  read_loop_lem :
      (left i m : ℕ) (buff : Block)
      → i + left ≡ (offset + nbytes) / block_size - offset / block_size + 1
      → 1 < i + left
      → Filled s blk offset m start buff
      → offset + m ≡ reached left i
      → (buff' : Block) × (read_loop left i sp inode m buff s ≡ ok (some nbytes, buff') s)
        × Filled s blk offset nbytes start buff'
  unfolding read_loop
  read_loop_lem zero i m buff e many has at =
      let all : m ≡ nbytes = omega (arith, at) in (buff, rw all refl, λ k. rw (sym all) (has k))
  read_loop_lem (suc left) i m buff e many has at =
      let (begin, fits, end, sum, index, below) = piece_lem left i m e (omega (arith, many)) at in
      let (buff', run, filled) =
        read_loop_lem left (i + 1) (m + piece_size sp i)
          (paste buff m (s.disk (blk (offset / block_size + i))) (piece_from sp i)
            (piece_size sp i))
          (omega (arith, e)) (omega (arith, many))
          (paste-content s blk offset m (piece_from sp i) (piece_size sp i)
            (offset / block_size + i) start buff begin fits has)
          end in
      (buff', read_round left i m buff index sum below ∙ run, filled)

  -- The bytes lie in one block.
  pub in_one : (sp.nblocks == 1) ≡ true → sp.top + nbytes < block_size
  in_one e = ground (arith, e, nblocks_lem)

  pub in_many :
      (sp.nblocks == 1) ≡ false → 1 < (offset + nbytes) / block_size - offset / block_size + 1
  in_many e = ground (arith, e, nblocks_lem)

  read_one_lem :
      (sp.nblocks == 1) ≡ true
      → read_one sp nbytes inode start s
        ≡ ok (some nbytes, paste start 0 (s.disk (blk (offset / block_size))) sp.top nbytes) s
  unfolding read_one access
  read_one_lem e =
      let room : leb (sp.top + nbytes) block_size ≡ true = ground (arith, in_one e) in
      rw
        (
          read_fblock_lem f s (λ q o. refl) (offset / block_size) (omega (arith, in_one e, long)),
          room,
        )
        refl

-- With the blocks of the bytes mapped, reading fills the buffer with the bytes of the file.
pub read_span_lem :
    {inode : Inode} {s : Fs} {n : ℕ} {blk : ℕ → ℕ} (f : IsMapped inode s n blk) (offset nbytes : ℕ)
    → offset + nbytes < 2 ^ 63
    → (offset + nbytes) / block_size < n
    → (start : Block)
    → (buff : Block) × (read_span (span offset nbytes) nbytes inode start s
        ≡ ok (some nbytes, buff) s)
      × Filled s blk offset nbytes start buff
unfolding read_span
read_span_lem {inode} {s} {n} {blk} f offset nbytes small long start =
    elim (Bool-cases ((span offset nbytes).nblocks == 1)) [
      | inl e ↦ (
        paste start 0 (s.disk (blk (offset / block_size))) (offset % block_size) nbytes,
        rw e (read_one_lem f offset nbytes small long start e),
        λ k.
            paste-content s blk offset 0 (offset % block_size) nbytes (offset / block_size) start
              start (omega arith) (omega (arith, in_one f offset nbytes small long start e))
              (λ j. ground arith) k
            ∙ ground arith,
      )
      | inr e ↦
          let (buff, run, filled) =
            read_loop_lem f offset nbytes small long start
              ((offset + nbytes) / block_size - offset / block_size + 1) 0 0 start (omega arith)
              (omega (arith, in_many f offset nbytes small long start e)) (λ k. ground arith)
              (ground arith) in
          (
            buff,
            rw e (
                ap (λ r. read_loop r 0 (span offset nbytes) inode 0 start s)
                  (rounds_lem f offset nbytes small long start)
                ∙ run),
            filled,
          )
    ]
