-- ===== src/Disk/Laws.antt =====
-- What reading and writing blocks of the disk does, at every block id.
use file_system_fuse.Base.{
  ℕ, ◌^◌, ◌≤◌, ◌<◌, ◌≡◌, ◌≢◌, refl, Bool, true, false, Option, none, some, ◌||◌, arith,
}
use file_system_fuse.Base.Ssize.{slt, sle}
use file_system_fuse.Bytes.{Block}
use file_system_fuse.Fs.{Fs, Disk, ok, write}
use file_system_fuse.Disk.{block_count, read_block, write_block}

pub out_of_range : ℕ → Bool
out_of_range n = slt n 0 || sle block_count n

out_of_range-false : (n : ℕ) → n < block_count → out_of_range n ≡ false
unfolding out_of_range slt sle
out_of_range-false n h = ground arith

out_of_range-true : (n : ℕ) → n < 2 ^ 64 → block_count ≤ n → out_of_range n ≡ true
unfolding out_of_range slt sle
out_of_range-true n h k = ground arith

pub read_block-in :
    (n : ℕ) (b : Block) (s : Fs)
    → n < block_count
    → read_block n (some b) s ≡ ok (some (s.disk n)) s
unfolding read_block out_of_range
read_block-in n b s h = rw (out_of_range-false n h)

pub write_block-in :
    (n : ℕ) (b : Block) (s : Fs)
    → n < block_count
    → write_block n (some b) s ≡ ok true (record s { disk = write s.disk n b })
unfolding write_block out_of_range
write_block-in n b s h = rw (out_of_range-false n h)

pub read_block-out :
    (n : ℕ) (b : Option Block) (s : Fs)
    → n < 2 ^ 64
    → block_count ≤ n
    → read_block n b s ≡ ok none s
unfolding read_block out_of_range
read_block-out n none s h k = refl
read_block-out n (some b) s h k = rw (out_of_range-true n h k)

pub write_block-out :
    (n : ℕ) (b : Option Block) (s : Fs)
    → n < 2 ^ 64
    → block_count ≤ n
    → write_block n b s ≡ ok false s
unfolding write_block out_of_range
write_block-out n none s h k = refl
write_block-out n (some b) s h k = rw (out_of_range-true n h k)

pub write_self : (d : Disk) (n : ℕ) (b : Block) → write d n b n ≡ b
unfolding write
write_self d n b = ground arith

pub write_ne : (d : Disk) (n m : ℕ) (b : Block) → m ≢ n → write d n b m ≡ d m
unfolding write
write_ne d n m b h = ground arith
