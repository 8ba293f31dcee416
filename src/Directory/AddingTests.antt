-- ===== src/Directory/AddingTests.antt =====
-- The name "f" is entered in a directory with the entry ".".
use file_system_fuse.Base.{
  ℕ, zero, suc, ◌+◌, ◌<◌, ◌≡◌, ◌≢◌, ◌∙◌, refl, true, List, [], ◌∷◌, Option, none, some, arith,
  get_elem?, if◌then◌else◌,
}
use file_system_fuse.Fs.{Fs, ok, write}
use file_system_fuse.Disk.Laws.{write_self, write_ne}
use file_system_fuse.FilePath.{Chars, same}
use file_system_fuse.FreeList.Chain.{free_count}
use file_system_fuse.FreeList.Same.{FreeList-kept, free_count-kept}
use file_system_fuse.FreeList.Samples.{one_free, one_count, one_free-FreeList}
use file_system_fuse.Inode.{Inode, to_words}
use file_system_fuse.Transfer.Holds.{Holds}
use file_system_fuse.Directory.{FilePos, find_file, add_new_entry}
use file_system_fuse.Directory.Records.{Entry, IsRecords}
use file_system_fuse.Directory.Names.{names, number, number_of}
use file_system_fuse.Directory.Enter.{IsDirectory, find_file-names}
use file_system_fuse.Directory.Adding.{find_file-add_new_entry}
use file_system_fuse.Directory.Tests.{dot, listing, root, dot-IsRecord}

abbrev pub disk_of_dot : Fs
disk_of_dot = record one_free { disk = write one_free.disk 2_600 listing }

kept :
    (a : ℕ)
    → a ≢ 0
    → 0 < free_count one_free.disk (2_561 ∷ []) a
    → disk_of_dot.disk a ≡ one_free.disk a
kept a z l = write_ne one_free.disk 2_600 a listing (λ e. ground (arith, l, one_count a z, e))

abbrev pub block : ℕ → ℕ
block k = 2_600 + k

abbrev pub entries : ℕ → List Entry
entries k = dot ∷ []

free : (k : ℕ) → free_count disk_of_dot.disk (2_561 ∷ []) (block k) ≡ 0
free k =
    free_count-kept one_free-FreeList disk_of_dot kept (block k)
    ∙ ground (arith, one_count (block k))

root-Holds : Holds root disk_of_dot (2_561 ∷ []) block
unfolding to_words
root-Holds = record {
  list = FreeList-kept one_free-FreeList disk_of_dot kept refl;
  fits = record { directs = refl; words = omega arith; mode = omega arith };
  few = omega arith;
  at = first;
  data_block = λ k l. (omega (arith, l), omega (arith, l));
  once = λ j k l m h. omega (arith, h);
  not_free = λ k l. free k;
}
  where
    first : (k : ℕ) → k < 1 → get_elem? root.direct_blocks k ≡ some (block k)
    first zero l = refl
    first (suc k) l = ground (arith, l)

pub root-IsDirectory : IsDirectory root disk_of_dot (2_561 ∷ []) block entries
root-IsDirectory = record { holds = root-Holds; dir = refl; records = at_first }
  where
    at_first : (k : ℕ) → k < 1 → IsRecords (disk_of_dot.disk (block k)) 0 (entries k)
    at_first zero l = rw (write_self one_free.disk 2_600 listing) (dot-IsRecord, omega arith)
    at_first (suc k) l = ground (arith, l)

abbrev pub f : Chars
f = b'f' ∷ []

pub none_of : (r : Option FilePos) → number_of r ≡ none → r ≡ none
none_of none h = refl
none_of (some pos) h = absurd (ground arith)

f_missing : find_file f root disk_of_dot ≡ ok none disk_of_dot
unfolding names number same
f_missing =
    let (r, run, view) = find_file-names root-IsDirectory f in run ∙ rw (none_of r view) refl

find_file-add_new_entry_example :
    (new : Inode) × (s' : Fs) × (ns' : List ℕ) × (blk' : ℕ → ℕ) × (ents' : ℕ → List Entry)
    × (add_new_entry root 5 f disk_of_dot ≡ ok (true, new) s')
    × IsDirectory new s' ns' blk' ents'
    × ((q : Chars)
        → (r : Option FilePos) × (r' : Option FilePos) × (find_file q root disk_of_dot
            ≡ ok r disk_of_dot)
          × (find_file q new s' ≡ ok r' s')
          × (number_of r' ≡ (if same q f then some 5 else number_of r)))
    × ((a : ℕ)
        → a ≢ 0
        → free_count disk_of_dot.disk (2_561 ∷ []) a ≡ 0
        → ((k : ℕ) → k < 1 → a ≢ block k)
        → s'.disk a ≡ disk_of_dot.disk a)
    × (s'.super_block.inodes_per_block ≡ 21)
    × (s'.super_block.inode_count ≡ 53_760)
find_file-add_new_entry_example =
    find_file-add_new_entry 5 f root-IsDirectory (omega arith) (omega arith) (omega arith)
      (omega arith) (omega arith) (omega arith, tt) f_missing
