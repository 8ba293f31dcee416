-- ===== src/Bytes.antt =====
-- A block of the disk, and the C code's accesses to one through `memcpy` and casts.
-- A block is the function from an offset to the byte there. A number of several bytes is stored
-- with its least significant byte first, as on the machines that the program is built for.
pub mod Words
use file_system_fuse.Base.{ℕ, zero, suc, ◌+◌, ◌*◌, ◌/◌, ◌%◌, List, [], ◌∷◌, ◌==◌, if◌then◌else◌}

abbrev pub Block : Type 0
Block = ℕ → ℕ

-- `memset(buff, 0, BLOCK_SIZE)`
abbrev pub zero_block : Block
zero_block _ = 0

unfoldable pub put : Block → ℕ → ℕ → Block
put b o v p = if p == o then v else b p

-- The number in the `n` bytes at `o`.
unfoldable pub load : ℕ → Block → ℕ → ℕ
load zero b o = 0
load (suc n) b o = b o % 256 + 256 * load n b (o + 1)

unfoldable pub store : ℕ → Block → ℕ → ℕ → Block
store zero b o v = b
store (suc n) b o v = put (store n b (o + 1) (v / 256)) o (v % 256)

-- `((ssize_t*) buff)[i]`
unfoldable pub word : Block → ℕ → ℕ
word b i = load 8 b (8 * i)

-- `((ssize_t*) buff)[i] = v`
unfoldable pub set_word : Block → ℕ → ℕ → Block
set_word b i v = store 8 b (8 * i) v

-- A `struct` of 8-byte slots at `o`, as `memcpy` reads and writes it.
unfoldable pub load_words : ℕ → Block → ℕ → List ℕ
load_words zero b o = []
load_words (suc n) b o = load 8 b o ∷ load_words n b (o + 8)

unfoldable pub store_words : Block → ℕ → List ℕ → Block
store_words b o [] = b
store_words b o (v ∷ vs) = store 8 (store_words b (o + 8) vs) o v
