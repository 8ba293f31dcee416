-- ===== src/Transfer/Write.antt =====
-- Writing the bytes of a file in place.
use file_system_fuse.Base.{
  zero_add, ℕ, zero, suc, ◌+◌, ◌*◌, ◌-◌, ◌/◌, ◌%◌, ◌^◌, ◌≤◌, ◌<◌, ◌≡◌, ◌≢◌, ◌∙◌, refl, sym, ap,
  subst, true, ◌&&◌, ◌==◌, if◌then◌else◌, ltb, leb, inl, inr, Bool-cases, ==→eq, ==→ne, arith,
}
use file_system_fuse.Base.Ssize.{add_ssize}
use file_system_fuse.Bytes.{Block}
use file_system_fuse.Fs.{Fs, ok, write}
use file_system_fuse.Disk.{block_size}
use file_system_fuse.Disk.Laws.{write_self, write_ne}
use file_system_fuse.FreeList.{write_dblock}
use file_system_fuse.FreeList.Blocks.{write_dblock-in}
use file_system_fuse.Inode.{Inode}
use file_system_fuse.Directory.{access}
use file_system_fuse.Transfer.{
  paste, Span, span, piece_from, piece_size, write_one, write_loop, write_span,
}
use file_system_fuse.Transfer.Content.{IsMapped, SameOutside, content, read_fblock_lem}
use file_system_fuse.Transfer.Read.{reached, piece_lem, rounds_lem, in_one, in_many}

-- In `s'` the first `m` bytes of the buffer are in the file from `offset` on, and nothing else has
-- changed.
pub record Written (n : ℕ) (blk : ℕ → ℕ) (offset m : ℕ) (buff : Block) (s s' : Fs) : Type 0 where
  pub bytes :
      (k : ℕ)
      → k / block_size < n
      → content s' blk k
        ≡ (if leb offset k && ltb k (offset + m) then buff (k - offset) else content s blk k)
  pub outside : SameOutside n blk s s'
  pub super : s'.super_block ≡ s.super_block

module _ {inode : Inode} {s : Fs} {n : ℕ} {blk : ℕ → ℕ} (f : IsMapped inode s n blk) (offset : ℕ)
    (buff : Block) where
  -- A piece is put into one block.
  abbrev pub with_piece : (q from m size : ℕ) → Fs → Fs
  with_piece q from m size t = record t {
    disk = write t.disk (blk q) (paste (t.disk (blk q)) from buff m size);
  }

  module _ (q from m size : ℕ) (t : Fs) (below : q < n) (at : offset + m ≡ q * block_size + from)
      (fits : from + size ≤ block_size) (w : Written n blk offset m buff s t) where
    piece : Block
    piece = paste (t.disk (blk q)) from buff m size

    in_piece :
        (k : ℕ)
        → k / block_size ≡ q
        → piece (k % block_size) ≡ (
            if leb offset k && ltb k (offset + (m + size))
            then buff (k - offset)
            else content s blk k)
    unfolding piece paste
    in_piece k e =
        let old = ap (λ a. t.disk (blk a) (k % block_size)) (sym e) ∙ w.bytes k (rw e below) in
        elim (Bool-cases (leb from (k % block_size) && ltb (k % block_size) (from + size))) [
          | inl h ↦
              let index : m + (k % block_size - from) ≡ k - offset = ground (arith, at, e, h) in
              let new : (leb offset k && ltb k (offset + (m + size))) ≡ true =
                ground (arith, at, e, h) in
              rw (h, new) (ap buff index)
          | inr h ↦ rw h (old ∙ ground (arith, at, e, h, fits))
        ]

    beside_piece :
        (k : ℕ)
        → k / block_size ≢ q
        → (if leb offset k && ltb k (offset + m) then buff (k - offset) else content s blk k) ≡ (
            if leb offset k && ltb k (offset + (m + size))
            then buff (k - offset)
            else content s blk k)
    beside_piece k ne = ground (arith, at, fits, ne)

    pub with_piece-Written : Written n blk offset (m + size) buff s (with_piece q from m size t)
    unfolding piece
    with_piece-Written = record {
      bytes = λ k l. elim (Bool-cases (k / block_size == q)) [
        | inl e ↦
            let here : k / block_size ≡ q = ==→eq _ _ e in
            ap (λ a. write t.disk (blk q) piece (blk a) (k % block_size)) here
            ∙ ap (λ (b : Block). b (k % block_size)) (write_self t.disk (blk q) piece)
            ∙ in_piece k here
        | inr e ↦
            let there : k / block_size ≢ q = ==→ne _ _ e in
            ap (λ (b : Block). b (k % block_size))
              (write_ne t.disk (blk q) (blk (k / block_size)) piece
                (f.once (k / block_size) q l below there))
            ∙ w.bytes k l
            ∙ beside_piece k there
      ];
      outside = λ p h. write_ne t.disk (blk q) p piece (h q below) ∙ w.outside p h;
      super = w.super;
    }

  write_dblock_lem :
      (q : ℕ) (b : Block) (t : Fs)
      → q < n
      → write_dblock (blk q) b t ≡ ok true (record t { disk = write t.disk (blk q) b })
  write_dblock_lem q b t below = write_dblock-in (blk q) b t (f.data_block q below)

  pub start-Written : Written n blk offset 0 buff s s
  start-Written = record { bytes = λ k l. ground arith; outside = λ p h. refl; super = refl }

  module _ (nbytes : ℕ) (small : offset + nbytes < 2 ^ 63)
      (long : (offset + nbytes) / block_size < n) where
    write_one_lem :
        ((span offset nbytes).nblocks == 1) ≡ true
        → write_one (span offset nbytes) nbytes inode buff s
          ≡ ok true (with_piece (offset / block_size) (offset % block_size) 0 nbytes s)
    unfolding write_one access
    write_one_lem e =
        let one : offset % block_size + nbytes < block_size =
          in_one f offset nbytes small long buff e in
        let room : leb (offset % block_size + nbytes) block_size ≡ true = ground (arith, one) in
        let below : offset / block_size < n = omega (arith, one, long) in
        rw (read_fblock_lem f s (λ q o. refl) (offset / block_size) below, room)
          (write_dblock_lem (offset / block_size) _ s below)

    write_round :
        (left i m : ℕ) (t : Fs)
        → SameOutside n blk s t
        → add_ssize (offset / block_size) i ≡ offset / block_size + i
        → add_ssize m (piece_size (span offset nbytes) i) ≡ m + piece_size (span offset nbytes) i
        → offset / block_size + i < n
        → write_loop (suc left) i (span offset nbytes) inode m buff t
          ≡ write_loop left
              (i + 1)
              (span offset nbytes)
              inode
              (m + piece_size (span offset nbytes) i)
              buff
              (with_piece
                (offset / block_size + i)
                (piece_from (span offset nbytes) i)
                m
                (piece_size (span offset nbytes) i)
                t)
    unfolding write_loop
    write_round left i m t o index sum below =
        rw
          (
            index,
            read_fblock_lem f t o (offset / block_size + i) below,
            write_dblock_lem (offset / block_size + i)
                (paste (t.disk (blk (offset / block_size + i))) (piece_from (span offset nbytes) i)
                  buff m (piece_size (span offset nbytes) i))
                t below,
            sum,
          )
          refl

    -- From round `i`, before which `m` bytes were written.
    write_loop_lem :
        (left i m : ℕ) (t : Fs)
        → i + left ≡ (offset + nbytes) / block_size - offset / block_size + 1
        → 1 < i + left
        → Written n blk offset m buff s t
        → offset + m ≡ reached f offset nbytes small long buff left i
        → (t' : Fs) × (write_loop left i (span offset nbytes) inode m buff t ≡ ok true t')
          × Written n blk offset nbytes buff s t'
    unfolding write_loop
    write_loop_lem zero i m t e many w at =
        let all : m ≡ nbytes = omega (arith, at) in (t, refl, rw (sym all) w)
    write_loop_lem (suc left) i m t e many w at =
        let (begin, fits, end, sum, index, below) =
          piece_lem f offset nbytes small long buff left i m e (omega (arith, many)) at in
        let sp : Span = span offset nbytes in
        let q : ℕ = offset / block_size + i in
        let (t', run, done) =
          write_loop_lem left (i + 1) (m + piece_size sp i)
            (with_piece q (piece_from sp i) m (piece_size sp i) t) (omega (arith, e))
            (omega (arith, many))
            (with_piece-Written q (piece_from sp i) m (piece_size sp i) t below begin fits w) end in
        (t', write_round left i m t w.outside index sum below ∙ run, done)

    -- With the blocks of the bytes mapped, writing puts the buffer into the file, and changes
    -- nothing else.
    pub write_span_lem :
        (s' : Fs) × (write_span (span offset nbytes) nbytes inode buff s ≡ ok true s')
        × Written n blk offset nbytes buff s s'
    unfolding write_span
    write_span_lem = elim (Bool-cases ((span offset nbytes).nblocks == 1)) [
      | inl e ↦
          let one : offset % block_size + nbytes < block_size =
            in_one f offset nbytes small long buff e in
          (
            with_piece (offset / block_size) (offset % block_size) 0 nbytes s,
            rw e (write_one_lem e),
            subst
                (λ size.
                  Written n blk offset size buff s
                    (with_piece (offset / block_size) (offset % block_size) 0 nbytes s))
                (zero_add nbytes)
                (with_piece-Written (offset / block_size) (offset % block_size) 0 nbytes s
                  (omega (arith, one, long)) (omega arith) (omega (arith, one)) start-Written),
          )
      | inr e ↦
          let (s', run, done) =
            write_loop_lem ((offset + nbytes) / block_size - offset / block_size + 1) 0 0 s
              (omega arith) (omega (arith, in_many f offset nbytes small long buff e)) start-Written
              (ground arith) in
          (
            s',
            rw e (
                ap (λ r. write_loop r 0 (span offset nbytes) inode 0 buff s)
                  (rounds_lem f offset nbytes small long buff)
                ∙ run),
            done,
          )
    ]

-- The inode leads to the same blocks after a write to them.
pub IsMapped-Written :
    {inode : Inode} {s s' : Fs} {n : ℕ} {blk : ℕ → ℕ} (offset m : ℕ) (buff : Block)
    → IsMapped inode s n blk
    → Written n blk offset m buff s s'
    → IsMapped inode s' n blk
IsMapped-Written offset m buff f w = record {
  data_block = f.data_block;
  once = f.once;
  lookup = λ t o k l. f.lookup t (λ p d h. o p d h ∙ w.outside p h) k l;
}
