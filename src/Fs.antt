-- ===== src/Fs.antt =====
-- The state that the layers share, and the commands over it: the memory of the disk
-- (`m_ptr` of lib/disk_layer.c) and the super block in memory (`super_block` of
-- lib/block_layer.c). A command faults where the C code has no defined behaviour, and a
-- loop that takes fuel may run out of it.
use mathlib.Core.Option.{Option, none, some}
use file_system_fuse.Base.{◌≡◌, refl, ◌≡◌, ℕ, ◌==◌, if◌then◌else◌}
use file_system_fuse.Bytes.{Block}

-- `struct superBlock`
pub record SuperBlock : Type 0 where
  pub inode_count : ℕ
  pub latest_inum : ℕ
  pub inodes_per_block : ℕ
  pub free_list_head : ℕ

-- The block at each block id.
abbrev pub Disk : Type 0
Disk = ℕ → Block

pub record Fs : Type 0 where
  pub disk : Disk
  pub super_block : SuperBlock

pub data Run {ℓ} (A : Type ℓ) : Type ℓ where
  ok : A → Fs → Run A
  fault : Run A
  out_of_fuel : Run A

abbrev pub M {ℓ} : Type ℓ → Type ℓ
M A = Fs → Run A

abbrev pub pure {ℓ} : {A : Type ℓ} → A → M A
pure = ok

abbrev pub and_then {ℓ κ} : {A : Type ℓ} {B : Type κ} → Run A → (A → M B) → Run B
and_then (ok a s) k = k a s
and_then fault k = fault
and_then out_of_fuel k = out_of_fuel

infixl 5 ◌>>=◌ ◌>>◌
abbrev pub ◌>>=◌ {ℓ κ} : {A : Type ℓ} {B : Type κ} → M A → (A → M B) → M B
m >>= k = λ s. and_then (m s) k

abbrev pub ◌>>◌ {ℓ κ} : {A : Type ℓ} {B : Type κ} → M A → M B → M B
m >> n = m >>= λ _. n

abbrev pub get_super : M SuperBlock
get_super s = ok s.super_block s

abbrev pub set_super : SuperBlock → M (Unit {0})
set_super sb s = ok tt (record s { super_block = sb })

-- A use of a pointer that may be null.
abbrev pub deref {ℓ} : {A : Type ℓ} → Option A → M A
deref none s = fault
deref (some a) s = ok a s

unfoldable pub write : Disk → ℕ → Block → Disk
write d n b m = if m == n then b else d m

-- A run that ends has a first part that ends.
pub and_then-eq-ok {ℓ κ} :
    {A : Type ℓ} {B : Type κ} (m : Run A) (k : A → M B) {b : B} {t : Fs}
    → and_then m k ≡ ok b t
    → (a : A) × (s : Fs) × (m ≡ ok a s) × (k a s ≡ ok b t)
and_then-eq-ok (ok a s) k h = (a, s, refl, h)
and_then-eq-ok fault k h = cc
and_then-eq-ok out_of_fuel k h = cc
