-- ===== src/Resolve/Kept.antt =====
-- Path resolution changes the cache only.
use file_system_fuse.Base.{
  ℕ, zero, suc, ◌≡◌, ◌∙◌, refl, subst, Bool, true, false, Option, none, some, if◌then◌else◌, ◌==◌,
  [], ◌∷◌,
}
use file_system_fuse.Base.Ssize.{minus_one, slt}
use file_system_fuse.Fs.{Run, M, ok, fault, out_of_fuel}
use file_system_fuse.FilePath.{Chars, same, get_parent_path, get_child_name}
use file_system_fuse.Inode.{read_inode}
use file_system_fuse.Directory.{find_file, field}
use file_system_fuse.State.{Outcome, Cmd, done, crash, no_fuel, bind, ◌>>=◌}
use file_system_fuse.Cache.{Cache, get_cache, set_cache}
use file_system_fuse.World.{World, W, on_fs, on_cache, need, with_fs, with_cache}
use file_system_fuse.Reads.{Kept, Reads, read_inode-Reads, find_file-Reads, field-Reads}
use file_system_fuse.Resolve.{resolve_child, get_inode_num_from_path}

-- The state of the block layer after the command is that of `w`, if the command ends.
abbrev pub FsKept {ℓ} : {A : Type ℓ} → World → Outcome World A → Type 0
FsKept w (done a w') = w'.fs ≡ w.fs
FsKept w crash = Unit
FsKept w no_fuel = Unit

abbrev pub KeepsFs {ℓ} : {A : Type ℓ} → W A → Type 0
KeepsFs m = (w : World) → FsKept w (m w)

FsKept-eq {ℓ} :
    {A : Type ℓ} (w w' : World) (o : Outcome World A) → w'.fs ≡ w.fs → FsKept w' o → FsKept w o
FsKept-eq w w' (done a v) h e = e ∙ h
FsKept-eq w w' crash h e = tt
FsKept-eq w w' no_fuel h e = tt

bind-FsKept {ℓ κ} :
    {A : Type ℓ} {B : Type κ} (w : World) (r : Outcome World A) (k : A → W B)
    → FsKept w r
    → ((a : A) → KeepsFs (k a))
    → FsKept w (bind r k)
bind-FsKept w (done a w') k h r = FsKept-eq w w' (k a w') h (r a w')
bind-FsKept w crash k h r = tt
bind-FsKept w no_fuel k h r = tt

pub bind-KeepsFs {ℓ κ} :
    {A : Type ℓ} {B : Type κ} (m : W A) (k : A → W B)
    → KeepsFs m
    → ((a : A) → KeepsFs (k a))
    → KeepsFs (m >>= k)
bind-KeepsFs m k h r w = bind-FsKept w (m w) k (h w) r

pub if-KeepsFs {ℓ} :
    {A : Type ℓ} (b : Bool) (m n : W A) → KeepsFs m → KeepsFs n → KeepsFs (if b then m else n)
if-KeepsFs true m n h k = h
if-KeepsFs false m n h k = k

pub option-KeepsFs {ℓ κ} :
    {A : Type ℓ} {B : Type κ} (o : Option A) (m : W B) (k : A → W B)
    → KeepsFs m
    → ((a : A) → KeepsFs (k a))
    → KeepsFs (elim o as (λ _. W B) [ none ↦ m | some a ↦ k a ])
option-KeepsFs none m k h r = h
option-KeepsFs (some a) m k h r = r a

with_fs-FsKept {ℓ} : {A : Type ℓ} (w : World) (r : Run A) → Kept w.fs r → FsKept w (with_fs w r)
with_fs-FsKept w (ok a s) h = h
with_fs-FsKept w fault h = tt
with_fs-FsKept w out_of_fuel h = tt

pub on_fs-KeepsFs {ℓ} : {A : Type ℓ} (m : M A) → Reads m → KeepsFs (on_fs m)
on_fs-KeepsFs m h w = with_fs-FsKept w (m w.fs) (h w.fs)

with_cache-FsKept {ℓ} : {A : Type ℓ} (w : World) (r : Outcome Cache A) → FsKept w (with_cache w r)
with_cache-FsKept w (done a c) = refl
with_cache-FsKept w crash = tt
with_cache-FsKept w no_fuel = tt

pub on_cache-KeepsFs {ℓ} : {A : Type ℓ} (m : Cmd Cache A) → KeepsFs (on_cache m)
on_cache-KeepsFs m w = with_cache-FsKept w (m w.cache)

pub need-KeepsFs {ℓ} : {A : Type ℓ} (a : Option A) → KeepsFs (need a)
need-KeepsFs none w = tt
need-KeepsFs (some a) w = refl

resolve_child-KeepsFs : (path : Chars) (n : ℕ) → KeepsFs (resolve_child path n)
unfolding resolve_child
resolve_child-KeepsFs path n =
    if-KeepsFs (n == minus_one) _ _ (λ w. refl)
      (bind-KeepsFs _ _ (on_fs-KeepsFs (read_inode n) (read_inode-Reads n)) (λ read.
        option-KeepsFs (get_child_name path) _ _ (λ w. refl)
          (λ name. bind-KeepsFs _ _ (need-KeepsFs read) (λ inode.
            bind-KeepsFs _ _ (on_fs-KeepsFs (find_file name inode) (find_file-Reads name inode))
              (λ file.
                option-KeepsFs file _ _ (λ w. refl)
                  (λ pos.
                    bind-KeepsFs _ _
                      (on_fs-KeepsFs (field 8 pos.start_pos pos.dblock)
                        (field-Reads 8 pos.start_pos pos.dblock))
                      (λ inum.
                        bind-KeepsFs _ _ (on_cache-KeepsFs (set_cache (some path) inum))
                          (λ _ w. refl))))))))

pub get_inode_num_from_path-KeepsFs :
    (fuel : ℕ) (path : Chars) → KeepsFs (get_inode_num_from_path fuel path)
unfolding get_inode_num_from_path
get_inode_num_from_path-KeepsFs zero path = λ w. tt
get_inode_num_from_path-KeepsFs (suc fuel) path =
    if-KeepsFs (same path (b'/' ∷ [])) _ _ (λ w. refl)
      (bind-KeepsFs _ _ (on_cache-KeepsFs (get_cache (some path))) (λ cached.
        if-KeepsFs (slt 0 cached) _ _ (λ w. refl)
          (option-KeepsFs (get_parent_path path) _ _ (λ w. refl)
            (λ parent.
              bind-KeepsFs _ _ (get_inode_num_from_path-KeepsFs fuel parent)
                (resolve_child-KeepsFs path)))))

-- Looking up the inode of a path changes no block and not the super block in memory, whatever it
-- returns.
pub resolution_reads :
    (fuel : ℕ) (path : Chars) (w w' : World) (n : ℕ)
    → get_inode_num_from_path fuel path w ≡ done n w'
    → w'.fs ≡ w.fs
resolution_reads fuel path w w' n h =
    subst (FsKept w) h (get_inode_num_from_path-KeepsFs fuel path w)
