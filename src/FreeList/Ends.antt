-- ===== src/FreeList/Ends.antt =====
-- Commands of the block layer that end well in every state, whatever they return.
use file_system_fuse.Base.{
  ℕ, ◌≡◌, refl, Bool, true, false, Option, none, some, if◌then◌else◌, ◌||◌, ◌==◌, ◌-◌, not,
}
use file_system_fuse.Base.Ssize.{slt, sle}
use file_system_fuse.Bytes.{Block, zero_block}
use file_system_fuse.Fs.{Fs, M, ok, pure, ◌>>=◌, get_super}
use file_system_fuse.Disk.{block_count, scratch, read_block, write_block}
use file_system_fuse.FreeList.{
  dblocks_per_block, put_entry, set_free_list_head, write_superblock, insert_free, free_dblock,
  is_invalid_dblock,
}

abbrev pub Ends {ℓ} : {A : Type ℓ} → M A → Type ℓ
Ends m = (s : Fs) → (a : _) × (t : Fs) × (m s ≡ ok a t)

pub bind-Ends {ℓ κ} :
    {A : Type ℓ} {B : Type κ} (m : M A) (k : A → M B)
    → Ends m
    → ((a : A) → Ends (k a))
    → Ends (m >>= k)
bind-Ends m k h r s = let (a, t, run) = h s in let (b, u, rest) = r a t in (b, u, rw run rest)

pub if-Ends {ℓ} : {A : Type ℓ} (b : Bool) (m n : M A) → Ends m → Ends n → Ends (if b then m else n)
if-Ends true m n h k = h
if-Ends false m n h k = k

option-Ends {ℓ κ} :
    {A : Type ℓ} {B : Type κ} (o : Option A) (m : M B) (k : A → M B)
    → Ends m
    → ((a : A) → Ends (k a))
    → Ends (elim o as (λ _. M B) [ none ↦ m | some a ↦ k a ])
option-Ends none m k h r = h
option-Ends (some a) m k h r = r a

pub pure-Ends {ℓ} : {A : Type ℓ} (a : A) → Ends (pure a)
pure-Ends a s = (a, s, refl)

get_super-Ends : Ends get_super
get_super-Ends s = (s.super_block, s, refl)

if_ok {ℓ} :
    {A : Type ℓ} (c : Bool) (a b : A) (s t : Fs)
    → (x : A) × (u : Fs) × ((if c then ok a s else ok b t) ≡ ok x u)
if_ok true a b s t = (a, s, refl)
if_ok false a b s t = (b, t, refl)

read_block-Ends : (n : ℕ) (b : Option Block) → Ends (read_block n b)
unfolding read_block
read_block-Ends n none s = (none, s, refl)
read_block-Ends n (some b) s = if_ok (slt n 0 || sle block_count n) _ _ s s

write_block-Ends : (n : ℕ) (b : Option Block) → Ends (write_block n b)
unfolding write_block
write_block-Ends n none s = (false, s, refl)
write_block-Ends n (some b) s = if_ok (slt n 0 || sle block_count n) _ _ s _

set_free_list_head-Ends : (n : ℕ) → Ends (set_free_list_head n)
unfolding set_free_list_head write_superblock
set_free_list_head-Ends n s = write_block-Ends 0 _ _

insert_free-Ends : (d : ℕ) → Ends (insert_free d)
unfolding insert_free
insert_free-Ends d = bind-Ends get_super _ get_super-Ends (λ sb.
    bind-Ends (read_block sb.free_list_head scratch) _ (read_block-Ends _ scratch) (λ found.
      option-Ends found _ _ (pure-Ends false) (λ b.
        if-Ends (put_entry (dblocks_per_block - 1) 1 d b).0 _ _ (write_block-Ends _ _) (
          bind-Ends (set_free_list_head d) _ (set_free_list_head-Ends d)
            (λ written. if-Ends written _ _ (write_block-Ends _ _) (pure-Ends false))))))

-- `free_dblock` of anything.
pub free_dblock-Ends : (d : ℕ) → Ends (free_dblock d)
unfolding free_dblock
free_dblock-Ends d = if-Ends (is_invalid_dblock d) _ _ (pure-Ends false) (
    bind-Ends (write_block d (some zero_block)) _ (write_block-Ends _ _) (λ u.
      bind-Ends get_super _ get_super-Ends (λ sb.
        if-Ends (not (sb.free_list_head == 0)) _ _ (insert_free-Ends d) (
          bind-Ends (set_free_list_head d) _ (set_free_list_head-Ends d)
            (λ written. if-Ends written _ _ (insert_free-Ends d) (pure-Ends false))))))
