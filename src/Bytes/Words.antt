-- ===== src/Bytes/Words.antt =====
-- Reading back what was stored in a block, and what a store leaves alone.
use native.Mathlib.Nat.{pow-suc}
use file_system_fuse.Base.{
  sym, ap, ℕ, zero, suc, ◌+◌, ◌*◌, ◌/◌, ◌%◌, ◌^◌, ◌≤◌, ◌<◌, ◌≡◌, refl, ◌≢◌, ◌⊎◌, ap₂, ◌∙◌, List, [],
  ◌∷◌, arith, length, All, ne→==,
}
use file_system_fuse.Bytes.{
  Block, zero_block, put, load, store, word, set_word, load_words, store_words,
}

put_ne : (b : Block) (o v p : ℕ) → p ≢ o → put b o v p ≡ b p
unfolding put
put_ne b o v p h = rw (ne→== p o h)

-- The two intervals are disjoint.
abbrev pub Apart : (o m p n : ℕ) → Type 0
Apart o m p n = (o + m ≤ p) ⊎ (p + n ≤ o)

pub store_byte : (n : ℕ) (b : Block) (o v p : ℕ) → Apart o n p 1 → store n b o v p ≡ b p
unfolding store
store_byte zero b o v p h = refl
store_byte (suc n) b o v p h =
    put_ne _ o _ p (omega arith) ∙ store_byte n b (o + 1) (v / 256) p (omega arith)

pub load-congr :
    (n : ℕ) (b c : Block) (o : ℕ)
    → ((p : ℕ) → o ≤ p → p < o + n → b p ≡ c p)
    → load n b o ≡ load n c o
unfolding load
load-congr zero b c o h = refl
load-congr (suc n) b c o h =
    ground (arith, h o, load-congr n b c (o + 1) (λ p l u. h p (omega arith) (omega arith)))

-- A store elsewhere is not seen.
pub load-store-Apart :
    (m n : ℕ) (b : Block) (o p v : ℕ) → Apart o m p n → load n (store m b o v) p ≡ load n b p
load-store-Apart m n b o p v h =
    load-congr n (store m b o v) b p (λ q l u. store_byte m b o v q (omega arith))

pub load-lt : (n : ℕ) (b : Block) (o : ℕ) → load n b o < 256 ^ n
unfolding load
load-lt zero b o = omega arith
load-lt (suc n) b o = rw (pow-suc 256 n) (omega (arith, load-lt n b (o + 1)))

load-put : (n : ℕ) (b : Block) (o p v : ℕ) → o < p → load n (put b o v) p ≡ load n b p
load-put n b o p v h = load-congr n (put b o v) b p (λ q l u. put_ne b o v q (omega arith))

-- A number that fits comes back.
pub load-store : (n : ℕ) (b : Block) (o v : ℕ) → v < 256 ^ n → load n (store n b o v) o ≡ v
unfolding load store put
load-store zero b o v h = omega arith
load-store (suc n) b o v h =
    rw
      (
        load-put n (store n b (o + 1) (v / 256)) o (o + 1) (v % 256) (omega arith),
        load-store n b (o + 1) (v / 256) (fits (pow-suc 256 n)),
      )
      (ground arith)
  where
    fits : 256 ^ suc n ≡ 256 ^ n * 256 → v / 256 < 256 ^ n
    fits e = omega arith

-- The words of a block.
pub word-lt : (b : Block) (i : ℕ) → word b i < 2 ^ 64
unfolding word
word-lt b i = load-lt 8 b (8 * i)

pub word-set_self : (b : Block) (i v : ℕ) → v < 2 ^ 64 → word (set_word b i v) i ≡ v
unfolding word set_word
word-set_self b i v h = load-store 8 b (8 * i) v h

pub word-set_ne : (b : Block) (i j v : ℕ) → i ≢ j → word (set_word b i v) j ≡ word b j
unfolding word set_word
word-set_ne b i j v h = load-store-Apart 8 8 b (8 * i) (8 * j) v (ground arith)

load-zero : (n o : ℕ) → load n zero_block o ≡ 0
unfolding load
load-zero zero o = refl
load-zero (suc n) o = omega (arith, load-zero n (o + 1))

pub word-zero : (i : ℕ) → word zero_block i ≡ 0
unfolding word
word-zero i = load-zero 8 (8 * i)

-- Structs.
load_words-store :
    (n : ℕ) (b : Block) (o p v : ℕ) → o + 8 ≤ p → load_words n (store 8 b o v) p ≡ load_words n b p
unfolding load_words
load_words-store zero b o p v h = refl
load_words-store (suc n) b o p v h =
    ap₂ ◌∷◌ (load-store-Apart 8 8 b o p v (omega arith))
      (load_words-store n b o (p + 8) v (omega arith))

load-store_words :
    (b : Block) (o : ℕ) (vs : List ℕ) (p : ℕ)
    → Apart o (8 * length vs) p 8
    → load 8 (store_words b o vs) p ≡ load 8 b p
unfolding store_words
load-store_words b o [] p h = refl
load-store_words b o (v ∷ vs) p h =
    load-store-Apart 8 8 (store_words b (o + 8) vs) o p v (omega arith)
    ∙ load-store_words b (o + 8) vs p (omega arith)

pub load_words-store-Apart :
    (n : ℕ) (b : Block) (o : ℕ) (vs : List ℕ) (p : ℕ)
    → Apart o (8 * length vs) p (8 * n)
    → load_words n (store_words b o vs) p ≡ load_words n b p
unfolding load_words
load_words-store-Apart zero b o vs p h = refl
load_words-store-Apart (suc n) b o vs p h =
    ap₂ ◌∷◌ (load-store_words b o vs p (omega arith))
      (load_words-store-Apart n b o vs (p + 8) (omega arith))

pub load_words-store_words :
    (b : Block) (o : ℕ) (vs : List ℕ)
    → All (λ v. v < 2 ^ 64) vs
    → load_words (length vs) (store_words b o vs) o ≡ vs
unfolding load_words store_words
load_words-store_words b o [] h = refl
load_words-store_words b o (v ∷ vs) h = ap₂ ◌∷◌ (load-store 8 (store_words b (o + 8) vs) o v h.0) (
    load_words-store (length vs) (store_words b (o + 8) vs) o (o + 8) v (omega arith)
    ∙ load_words-store_words b (o + 8) vs h.1)

-- The bytes of a number that is 0.
load-eq_zero : (n : ℕ) (b : Block) (o : ℕ) → load n b o ≡ 0 → (j : ℕ) → j < n → b (o + j) % 256 ≡ 0
unfolding load
load-eq_zero zero b o h j l = absurd (omega arith)
load-eq_zero (suc n) b o h zero l = let e : o + 0 ≡ o = omega arith in rw e (omega (arith, h))
load-eq_zero (suc n) b o h (suc j) l =
    let e : o + suc j ≡ o + 1 + j = omega arith in
    rw e (load-eq_zero n b (o + 1) (omega (arith, h)) j (omega arith))

pub byte-zero : (b : Block) (p : ℕ) → word b (p / 8) ≡ 0 → b p % 256 ≡ 0
unfolding word
byte-zero b p h =
    let e : 8 * (p / 8) + p % 8 ≡ p = omega arith in
    ap (λ i. b i % 256) (sym e) ∙ load-eq_zero 8 b (8 * (p / 8)) h (p % 8) (omega arith)
