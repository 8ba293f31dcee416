-- ===== src/Reads.antt =====
-- Commands of the block layer that change nothing, whatever they return.
use file_system_fuse.Base.{
  sym, ℕ, zero, suc, ◌≡◌, refl, sym, subst, ◌+◌, ◌-◌, ◌/◌, ◌%◌, ◌||◌, get_elem?, length, Bool, true,
  false, Option, none, some, if◌then◌else◌, ◌==◌, not, [], ◌∷◌, ltb, leb,
}
use file_system_fuse.Base.Ssize.{minus_one, add_ssize, slt, sle}
use file_system_fuse.Bytes.{Block}
use file_system_fuse.Fs.{Fs, Run, M, ok, fault, out_of_fuel, and_then, ◌>>=◌, deref, pure}
use file_system_fuse.Disk.{block_size, scratch, block_count, read_block}
use file_system_fuse.FreeList.{dblocks_per_block, read_dblock, is_invalid_dblock}
use file_system_fuse.FilePath.{Chars}
use file_system_fuse.Inode.{inode_num_to_block_id, direct_b_count, Inode, is_valid_inum, read_inode}
use file_system_fuse.FileMap.{
  single_end, double_end, single_count, double_count, read_addresses, address_at, read_address,
  read_through, fblock_num_to_dblock_num,
}
use file_system_fuse.Directory.{
  FilePos, found, past_end, broken, size_at, length_at, name_at, access, field, matches, is_entry,
  search_block, search_blocks, find_file, is_dir,
}

-- The state after the run is `s`, if the run ends.
abbrev pub Kept {ℓ} : {A : Type ℓ} → Fs → Run A → Type 0
Kept s (ok a s') = s' ≡ s
Kept s fault = Unit
Kept s out_of_fuel = Unit

abbrev pub Reads {ℓ} : {A : Type ℓ} → M A → Type 0
Reads m = (s : Fs) → Kept s (m s)

and_then-Kept {ℓ κ} :
    {A : Type ℓ} {B : Type κ} (s : Fs) (r : Run A) (k : A → M B)
    → Kept s r
    → ((a : A) → Reads (k a))
    → Kept s (and_then r k)
and_then-Kept s (ok a s') k h r = subst (λ t. Kept s (k a t)) (sym h) (r a s)
and_then-Kept s fault k h r = tt
and_then-Kept s out_of_fuel k h r = tt

pub bind-Reads {ℓ κ} :
    {A : Type ℓ} {B : Type κ} (m : M A) (k : A → M B)
    → Reads m
    → ((a : A) → Reads (k a))
    → Reads (m >>= k)
bind-Reads m k h r s = and_then-Kept s (m s) k (h s) r

pub if-Reads {ℓ} :
    {A : Type ℓ} (b : Bool) (m n : M A) → Reads m → Reads n → Reads (if b then m else n)
if-Reads true m n h k = h
if-Reads false m n h k = k

option-Reads {ℓ κ} :
    {A : Type ℓ} {B : Type κ} (o : Option A) (m : M B) (k : A → M B)
    → Reads m
    → ((a : A) → Reads (k a))
    → Reads (elim o as (λ _. M B) [ none ↦ m | some a ↦ k a ])
option-Reads none m k h r = h
option-Reads (some a) m k h r = r a

if-Kept {ℓ} :
    {A : Type ℓ} (b : Bool) (s : Fs) (r r' : Run A)
    → Kept s r
    → Kept s r'
    → Kept s (if b then r else r')
if-Kept true s r r' h k = h
if-Kept false s r r' h k = k

pub read_block-Reads : (n : ℕ) (b : Option Block) → Reads (read_block n b)
unfolding read_block
read_block-Reads n none s = refl
read_block-Reads n (some b) s = if-Kept (slt n 0 || sle block_count n) s _ _ refl refl

deref-Reads {ℓ} : {A : Type ℓ} (a : Option A) → Reads (deref a)
deref-Reads none s = tt
deref-Reads (some a) s = refl

access-Reads : (end : ℕ) → Reads (access end)
unfolding access
access-Reads end s = if-Kept (leb end block_size) s _ _ refl tt

pub field-Reads : (n p : ℕ) (b : Block) → Reads (field n p b)
unfolding field
field-Reads n p b = bind-Reads _ _ (access-Reads (p + n)) (λ _ s. refl)

pub read_inode-Reads : (n : ℕ) → Reads (read_inode n)
unfolding read_inode
read_inode-Reads n s =
    if-Reads (not (is_valid_inum s.super_block n)) _ _ (λ t. refl)
      (bind-Reads _ _ (read_block-Reads (inode_num_to_block_id s.super_block n) scratch)
        (λ found. option-Reads found _ _ (λ t. refl) (λ buff t. refl)))
      s

read_addresses-Reads : (n : ℕ) → Reads (read_addresses n)
unfolding read_addresses read_dblock
read_addresses-Reads n =
    bind-Reads _ _ (if-Reads (is_invalid_dblock n) _ _ (λ t. refl) (read_block-Reads n scratch))
      deref-Reads

read_address-Reads : (n i : ℕ) → Reads (read_address n i)
unfolding read_address
read_address-Reads n i = bind-Reads _ _ (read_addresses-Reads n) (λ b s. refl)

read_through-Reads : (n i j : ℕ) → Reads (read_through n i j)
unfolding read_through
read_through-Reads n i j =
    bind-Reads _ _ (read_address-Reads n i)
      (λ single. if-Reads (sle single 0) _ _ (λ t. refl) (read_address-Reads single j))

address_at-Reads : (b : Block) (i : ℕ) → Reads (address_at b i)
unfolding address_at
address_at-Reads b i s = if-Kept (ltb i dblocks_per_block) s _ _ refl tt

-- Looking up a block of a file changes nothing.
pub lookup-Reads : (inode : Inode) (k : ℕ) → Reads (fblock_num_to_dblock_num inode k)
unfolding fblock_num_to_dblock_num
lookup-Reads inode k =
    if-Reads (slt inode.num_blocks k) _ _ (λ s. refl)
      (if-Reads (slt k direct_b_count) _ _ (deref-Reads (get_elem? inode.direct_blocks k)) (
        if-Reads (slt k single_end) _ _
          (if-Reads (inode.single_indirect == 0) _ _ (λ s. refl)
            (read_address-Reads inode.single_indirect (k - direct_b_count)))
          (if-Reads (slt k double_end) _ _
            (if-Reads (inode.double_indirect == 0) _ _ (λ s. refl)
              (read_through-Reads inode.double_indirect ((k - single_end) / single_count)
                ((k - single_end) % single_count)))
            (if-Reads (inode.triple_indirect == 0) _ _ (λ s. refl)
              (bind-Reads _ _ (read_addresses-Reads inode.triple_indirect) (λ triples.
                bind-Reads _ _ (address_at-Reads triples ((k - double_end) / double_count))
                  (λ double.
                    if-Reads (sle double 0) _ _ (λ s. refl)
                      (read_through-Reads double ((k - double_end) / single_count % single_count)
                        ((k - double_end) % single_count)))))))))

matches-Reads : (name : Chars) (p : ℕ) (b : Block) → Reads (matches name p b)
unfolding matches
matches-Reads [] p b = λ s. refl
matches-Reads (c ∷ cs) p b =
    bind-Reads _ _ (field-Reads 1 p b)
      (λ stored. if-Reads (stored == c) _ _ (matches-Reads cs (p + 1) b) (λ s. refl))

is_entry-Reads : (name : Chars) (p : ℕ) (b : Block) → Reads (is_entry name p b)
unfolding is_entry
is_entry-Reads name p b = bind-Reads _ _ (field-Reads 8 p b) (λ inum.
    if-Reads (inum == 0) _ _ (λ s. refl)
      (bind-Reads _ _ (field-Reads 2 (p + length_at) b)
        (λ n. if-Reads (n == length name) _ _ (matches-Reads name (p + name_at) b) (λ s. refl))))

search_block-Reads :
    (fuel p prev : ℕ) (name : Chars) (b : Block) → Reads (search_block fuel p prev name b)
unfolding search_block
search_block-Reads zero p prev name b = λ s. tt
search_block-Reads (suc fuel) p prev name b =
    if-Reads (not (slt p block_size)) _ _ (λ s. refl)
      (bind-Reads _ _ (is_entry-Reads name p b) (λ hit.
        if-Reads hit _ _ (λ s. refl)
          (bind-Reads _ _ (field-Reads 8 (p + size_at) b) (λ next.
            if-Reads (sle next 0) _ _ (λ s. refl)
              (search_block-Reads fuel (add_ssize p next) p name b)))))

search_blocks-Reads :
    (n i : ℕ) (name : Chars) (inode : Inode) → Reads (search_blocks n i name inode)
unfolding search_blocks read_addresses
search_blocks-Reads zero i name inode = λ s. refl
search_blocks-Reads (suc n) i name inode = bind-Reads _ _ (lookup-Reads inode i) (λ d.
    if-Reads (sle d 0) _ _ (λ s. refl)
      (bind-Reads _ _ (read_addresses-Reads d) (λ b.
        bind-Reads _ _ (search_block-Reads (block_size + 1) 0 minus_one name b) (λ end.
          elim end
            as (λ e. Reads (elim e as (λ _. M (Option FilePos)) [
              | found start_pos prev_entry ↦ pure (
                  some (record {
                    dblock = b;
                    dblock_num = d;
                    fblock_num = i;
                    start_pos = start_pos;
                    prev_entry = prev_entry;
                  }))
              | past_end ↦ search_blocks n (i + 1) name inode
              | broken ↦ pure none
            ])) [
              | found start_pos prev_entry ↦ (λ s. refl)
              | past_end ↦ search_blocks-Reads n (i + 1) name inode
              | broken ↦ (λ s. refl)
            ]))))

-- The search of a directory changes nothing.
pub find_file-Reads : (name : Chars) (inode : Inode) → Reads (find_file name inode)
unfolding find_file
find_file-Reads name inode =
    if-Reads (not (is_dir inode.mode)) _ _ (λ s. refl)
      (search_blocks-Reads (if slt inode.num_blocks 0 then 0 else inode.num_blocks) 0 name inode)
