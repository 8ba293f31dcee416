-- ===== src/FreeList/Entries.antt =====
-- The two loops over the entries of a node, in terms of how often a block stands among them.
use file_system_fuse.Base.{
  ℕ, zero, suc, ◌+◌, ◌^◌, ◌≤◌, ◌<◌, ◌≡◌, refl, ◌≢◌, ap₂, true, false, inl, inr, arith, ◌==◌,
  if◌then◌else◌, Bool-cases, ==→ne,
}
use file_system_fuse.Bytes.{Block, word, set_word}
use file_system_fuse.Bytes.Words.{word-lt, word-set_self, word-set_ne}
use file_system_fuse.FreeList.{take_entry, put_entry}

-- 1 if the two are equal, and 0 if not.
abbrev pub is : ℕ → ℕ → ℕ
is a b = if a == b then 1 else 0

-- How often `a` is one of the `n` words of the block from index `i` on.
unfoldable pub listed : (n i : ℕ) → Block → ℕ → ℕ
listed zero i b a = 0
listed (suc n) i b a = is a (word b i) + listed n (i + 1) b a

pub listed-congr :
    (n i : ℕ) (b c : Block) (a : ℕ)
    → ((j : ℕ) → i ≤ j → j < i + n → word b j ≡ word c j)
    → listed n i b a ≡ listed n i c a
unfolding listed
listed-congr zero i b c a h = refl
listed-congr (suc n) i b c a h =
    ap₂ (λ x y. is a x + y) (h i (omega arith) (omega arith))
      (listed-congr n (i + 1) b c a (λ j l u. h j (omega arith) (omega arith)))

pub listed-pos : (n i : ℕ) (b : Block) (j : ℕ) → i ≤ j → j < i + n → 0 < listed n i b (word b j)
unfolding listed
listed-pos zero i b j l u = absurd (omega arith)
listed-pos (suc n) i b j l u = ground (arith, listed-pos n (i + 1) b j)

pub listed-zero :
    (n i : ℕ) (b : Block) (a : ℕ)
    → a ≢ 0
    → ((j : ℕ) → i ≤ j → j < i + n → word b j ≡ 0)
    → listed n i b a ≡ 0
unfolding listed
listed-zero zero i b a h z = refl
listed-zero (suc n) i b a h z =
    ground (arith, z i, listed-zero n (i + 1) b a h (λ j l u. z j (omega arith) (omega arith)))

-- Words that are 0 behind the entries do not matter.
pub listed-padded :
    (n more i : ℕ) (b : Block) (a : ℕ)
    → a ≢ 0
    → ((j : ℕ) → i + n ≤ j → j < i + n + more → word b j ≡ 0)
    → listed (n + more) i b a ≡ listed n i b a
unfolding listed
listed-padded zero more i b a h z =
    let start : 0 + more ≡ more = omega arith in
    rw start (listed-zero more i b a h (λ j l u. z j (omega (arith, l)) (omega (arith, u))))
listed-padded (suc n) more i b a h z =
    let ih =
      listed-padded n more (i + 1) b a h (λ j l u. z j (omega (arith, l)) (omega (arith, u))) in
    let next : suc n + more ≡ suc (n + more) = omega arith in rw (next, ih) refl

-- A write below the index is not among the entries.
listed-set_below :
    (n i : ℕ) (b : Block) (j v a : ℕ) → j < i → listed n i (set_word b j v) a ≡ listed n i b a
listed-set_below n i b j v a h =
    listed-congr n i (set_word b j v) b a (λ k l u. word-set_ne b j k v (omega arith))

-- The words below the loop's index stay.
pub take_entry-below :
    (n i : ℕ) (b : Block) (j : ℕ) → j < i → word (take_entry n i b).1 j ≡ word b j
unfolding take_entry
take_entry-below zero i b j h = refl
take_entry-below (suc n) i b j h = elim (Bool-cases (word b i == 0)) [
  | inl e ↦ rw e (take_entry-below n (i + 1) b j (omega arith))
  | inr e ↦ rw e (word-set_ne b i j 0 (omega arith))
]

-- Where the loop finds nothing, the entries are 0 and the buffer is as before.
pub take_entry-none :
    (n i : ℕ) (b : Block)
    → (take_entry n i b).0 ≡ 0
    → ((take_entry n i b).1 ≡ b) × ((j : ℕ) → i ≤ j → j < i + n → word b j ≡ 0)
unfolding take_entry
take_entry-none zero i b h = (refl, λ j l u. absurd (omega arith))
take_entry-none (suc n) i b h = elim (Bool-cases (word b i == 0)) [
  | inl e ↦
      let ih = take_entry-none n (i + 1) b (rw e at h) in
      (rw e (ih.0), λ j l u. ground (arith, ih.1 j))
  | inr e ↦ absurd (==→ne _ _ e (rw e at h))
]

-- Otherwise it takes one entry away.
pub listed-take_entry :
    (n i : ℕ) (b : Block) (a : ℕ)
    → (take_entry n i b).0 ≢ 0
    → a ≢ 0
    → listed n i b a ≡ is a (take_entry n i b).0 + listed n i (take_entry n i b).1 a
unfolding take_entry listed
listed-take_entry zero i b a h k = absurd (h refl)
listed-take_entry (suc n) i b a h k = elim (Bool-cases (word b i == 0)) [
  | inl e ↦
      let ih = listed-take_entry n (i + 1) b a (rw e at h) k in
      let low = take_entry-below n (i + 1) b i (omega arith) in rw e (ground (arith, ih, low))
  | inr e ↦
      rw (e, word-set_self b i 0 (omega arith), listed-set_below n (i + 1) b i 0 a (omega arith))
        (ground arith)
]

pub take_entry-lt : (n i : ℕ) (b : Block) → (take_entry n i b).0 < 2 ^ 64
unfolding take_entry
take_entry-lt zero i b = omega arith
take_entry-lt (suc n) i b = ground (arith, take_entry-lt n (i + 1) b, word-lt b i)

pub put_entry-below :
    (n i d : ℕ) (b : Block) (j : ℕ) → j < i → word (put_entry n i d b).1 j ≡ word b j
unfolding put_entry
put_entry-below zero i d b j h = refl
put_entry-below (suc n) i d b j h = elim (Bool-cases (word b i == 0)) [
  | inl e ↦ rw e (word-set_ne b i j d (omega arith))
  | inr e ↦ rw e (put_entry-below n (i + 1) d b j (omega arith))
]

-- Where the loop finds no room, no entry is 0.
pub put_entry-full :
    (n i d : ℕ) (b : Block)
    → (put_entry n i d b).0 ≡ false
    → (j : ℕ) → i ≤ j
    → j < i + n
    → word b j ≢ 0
unfolding put_entry
put_entry-full zero i d b h j l u = absurd (omega arith)
put_entry-full (suc n) i d b h j l u = elim (Bool-cases (word b i == 0)) [
  | inl e ↦ cc (rw e at h)
  | inr e ↦ ground (arith, put_entry-full n (i + 1) d b (rw e at h) j)
]

-- Otherwise the block is one more entry.
pub listed-put_entry :
    (n i d : ℕ) (b : Block) (a : ℕ)
    → (put_entry n i d b).0 ≡ true
    → a ≢ 0
    → d < 2 ^ 64
    → listed n i (put_entry n i d b).1 a ≡ is a d + listed n i b a
unfolding put_entry listed
listed-put_entry zero i d b a h k l = cc
listed-put_entry (suc n) i d b a h k l = elim (Bool-cases (word b i == 0)) [
  | inl e ↦
      rw (e, word-set_self b i d l, listed-set_below n (i + 1) b i d a (omega arith)) (ground arith)
  | inr e ↦
      let ih = listed-put_entry n (i + 1) d b a (rw e at h) k l in
      let low = put_entry-below n (i + 1) d b i (omega arith) in rw e (ground (arith, ih, low))
]
