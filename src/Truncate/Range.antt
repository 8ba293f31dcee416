-- ===== src/Truncate/Range.antt =====
-- A loop that frees a range of addresses puts exactly those blocks on the free list.
use file_system_fuse.Base.{
  ap, ℕ, zero, suc, ◌+◌, ◌<◌, ◌≤◌, ◌≡◌, ◌≢◌, ◌∙◌, refl, List, [], ◌∷◌, false, inl, inr, Bool-cases,
  ==→eq, ==→ne, ◌==◌, arith,
}
use file_system_fuse.Base.Ssize.{sle, slt}
use file_system_fuse.Bytes.{Block, word}
use file_system_fuse.Fs.{Fs, ok}
use file_system_fuse.FreeList.{dblocks_per_block, free_dblock, is_invalid_dblock}
use file_system_fuse.FreeList.Entries.{is, listed}
use file_system_fuse.FreeList.Chain.{FreeList, free_count, node-le-free, IsDataBlock}
use file_system_fuse.FreeList.Free.{Freed, free_dblock-Freed}
use file_system_fuse.Release.{remove_range}
use file_system_fuse.FileMap.{address_at}

-- A state with its free list: in order, and not empty.
pub record HasFree (s : Fs) (ns : List ℕ) : Type 0 where
  pub list : FreeList s ns
  pub head : s.super_block.free_list_head ≢ 0

-- From `s` the blocks listed at the `n` indices from `i` on have been given back.
pub record Removed (n i : ℕ) (buff : Block) (s : Fs) (ns : List ℕ) (s' : Fs) (ns' : List ℕ)
    : Type 0 where
  pub has_free : HasFree s' ns'
  pub given :
      (a : ℕ) → a ≢ 0 → free_count s'.disk ns' a ≡ listed n i buff a + free_count s.disk ns a
  pub others :
      (m : ℕ) → m ≢ 0 → free_count s.disk ns m ≡ 0 → listed n i buff m ≡ 0 → s'.disk m ≡ s.disk m

-- The list is not empty while something is on it.
head_of_free :
    (s : Fs) (ns : List ℕ) (a : ℕ)
    → FreeList s ns
    → 0 < free_count s.disk ns a
    → s.super_block.free_list_head ≢ 0
unfolding free_count
head_of_free s [] a f h = absurd (omega arith)
head_of_free s (n ∷ ns) a f h = λ e. f.chain.1 (ground (arith, f.chain.0))

-- 0 is no block.
pub free_dblock-zero : (s : Fs) → free_dblock 0 s ≡ ok false s
unfolding free_dblock is_invalid_dblock sle slt
free_dblock-zero s = refl

-- What the addresses must be: data blocks or 0, each block at most once and not free.
abbrev pub Removable : (n i : ℕ) → Block → Fs → List ℕ → Type 0
Removable n i buff s ns =
    ((j : ℕ) → i ≤ j → j < i + n → word buff j ≢ 0 → IsDataBlock (word buff j))
    × ((a : ℕ) → a ≢ 0 → listed n i buff a + free_count s.disk ns a ≤ 1)

-- One round that frees the block `d`, before the rest of the loop.
cons-Removed :
    (n i d : ℕ) (buff : Block) (s s₁ s' : Fs) (ns ns₁ ns' : List ℕ)
    → word buff i ≡ d
    → d ≢ 0
    → Freed s ns d s₁ ns₁
    → Removed n (i + 1) buff s₁ ns₁ s' ns'
    → Removed (suc n) i buff s ns s' ns'
unfolding listed
cons-Removed n i d buff s s₁ s' ns ns₁ ns' e h fr done = record {
  has_free = done.has_free;
  given = λ a k. omega (arith, ap (is a) e, done.given a k, fr.given a k);
  others = λ m k free out.
      let apart : m ≢ d = ground (arith, e) in
      done.others m k (ground (arith, fr.given m k)) (omega arith)
      ∙ fr.others m k apart (omega (arith, node-le-free s.disk ns m));
}

pub remove_range-Removed :
    (n i : ℕ) (buff : Block) (s : Fs) (ns : List ℕ)
    → i + n ≤ dblocks_per_block
    → HasFree s ns
    → Removable n i buff s ns
    → (s' : Fs) × (ns' : List ℕ) × (remove_range n i buff free_dblock s ≡ ok tt s')
      × Removed n i buff s ns s' ns'
unfolding remove_range address_at listed
remove_range-Removed zero i buff s ns l f r =
    (s, ns, refl, record { has_free = f; given = λ a h. omega arith; others = λ m h k e. refl })
remove_range-Removed (suc n) i buff s ns l f r = elim (Bool-cases (word buff i == 0)) [
  | inl e ↦
      let z : word buff i ≡ 0 = ==→eq _ _ e in
      let (s', ns', run, done) =
        remove_range-Removed n (i + 1) buff s ns (omega arith) f
          ((λ j a b h. r.0 j (omega arith) (omega arith) h), (λ a h. omega (arith, r.1 a h))) in
      (
        s',
        ns',
        ground (arith, z, free_dblock-zero s, run),
        record {
          has_free = done.has_free;
          given = λ a h. ground (arith, z, done.given a h);
          others = λ m h k e. done.others m h k (omega arith);
        },
      )
  | inr e ↦
      let h : word buff i ≢ 0 = ==→ne _ _ e in
      let unused : free_count s.disk ns (word buff i) ≡ 0 = ground (arith, r.1 (word buff i) h) in
      let (s₁, ns₁, run₁, fr) =
        free_dblock-Freed s ns (word buff i) f.list f.head (r.0 i (omega arith) (omega arith) h)
          unused in
      let head =
        head_of_free s₁ ns₁ (word buff i) fr.order (ground (arith, fr.given (word buff i) h)) in
      let (s', ns', run, done) =
        remove_range-Removed n (i + 1) buff s₁ ns₁ (omega arith)
          (record { list = fr.order; head = head })
          (
            (λ j a b k. r.0 j (omega arith) (omega arith) k),
            (λ a k. omega (arith, r.1 a k, fr.given a k)),
          ) in
      (
        s',
        ns',
        ground (arith, run₁, run),
        cons-Removed n i (word buff i) buff s s₁ s' ns ns₁ ns' refl h fr done,
      )
]
