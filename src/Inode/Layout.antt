-- ===== src/Inode/Layout.antt =====
-- The bytes of an inode: reading back what was written, and where the inodes of a block lie.
use file_system_fuse.Base.{
  ℕ, List, [], ◌∷◌, ◌++◌, sym, ap, ◌*◌, ◌^◌, ◌<◌, ◌≡◌, ◌≢◌, ◌∙◌, arith, length, All, length-append,
  take-append, drop-append,
}
use file_system_fuse.Bytes.{Block, load_words, store_words}
use file_system_fuse.Bytes.Words.{load_words-store_words, load_words-store-Apart}
use file_system_fuse.Inode.{
  tail_words, Inode, direct_b_count, inode_words, inode_size, to_words, from_words, load_inode,
  store_inode,
}

-- An inode that a `struct iNode` can hold.
pub record Fits (i : Inode) : Type 0 where
  pub directs : length i.direct_blocks ≡ direct_b_count
  pub words : All (λ w. w < 2 ^ 64) (to_words i)
  pub mode : i.mode < 2 ^ 32

-- The words of an inode fit if its array's did and the other members do.
pub other_tail :
    (xs ys zs : List ℕ)
    → All (λ w. w < 2 ^ 64) (xs ++ ys)
    → (All (λ w. w < 2 ^ 64) ys → All (λ w. w < 2 ^ 64) zs)
    → All (λ w. w < 2 ^ 64) (xs ++ zs)
other_tail [] ys zs h k = k h
other_tail (x ∷ xs) ys zs (b, h) k = (b, other_tail xs ys zs h k)

length-to_words : (i : Inode) → Fits i → length (to_words i) ≡ inode_words
unfolding to_words
length-to_words i f = omega (arith, length-append i.direct_blocks (tail_words i), f.directs)

from_words-to_words : (i : Inode) → Fits i → from_words (to_words i) ≡ i
unfolding to_words from_words
from_words-to_words i f =
    rw
      (
        take-append direct_b_count i.direct_blocks _ f.directs,
        drop-append direct_b_count i.direct_blocks _ f.directs,
      )
      (ground arith)

pub load-store_inode :
    (b : Block) (o : ℕ) (i : Inode) → Fits i → load_inode (store_inode b o i) o ≡ i
unfolding load_inode store_inode
load-store_inode b o i f =
    ap
      (λ n.
        from_words (load_words n (store_words b (inode_size * o) (to_words i)) (inode_size * o)))
      (sym (length-to_words i f))
    ∙ ap from_words (load_words-store_words b (inode_size * o) (to_words i) f.words)
    ∙ from_words-to_words i f

pub load-store_inode_ne :
    (b : Block) (o p : ℕ) (i : Inode)
    → Fits i
    → o ≢ p
    → load_inode (store_inode b o i) p ≡ load_inode b p
unfolding load_inode store_inode
load-store_inode_ne b o p i f h = ap from_words (
    load_words-store-Apart inode_words b (inode_size * o) (to_words i) (inode_size * p)
      (ground (arith, length-to_words i f)))
