-- ===== src/FreeList/Tests.antt =====
-- The theorems about the free list at small lists, and runs of its loops.
use file_system_fuse.Base.{ℕ, ◌≡◌, refl, List, [], ◌∷◌, true, arith}
use file_system_fuse.Bytes.{load, store, put, word, set_word, zero_block}
use file_system_fuse.Fs.{Fs, ok}
use file_system_fuse.FreeList.{take_entry, put_entry, create_new_dblock, free_dblock}
use file_system_fuse.FreeList.Create.{Allocated, create_new_dblock-Allocated}
use file_system_fuse.FreeList.Free.{Freed, free_dblock-Freed}
use file_system_fuse.FreeList.Samples.{one_free, none_free, one_count, one_free-FreeList}
use file_system_fuse.FreeList.Full.{free_dblock-twice}

-- The first entry that is not 0 is taken, and put back to the first that is 0.
take_entry_run : word (take_entry 3 1 (set_word zero_block 2 2_600)).1 2 ≡ 0
unfolding load store put word set_word take_entry put_entry
take_entry_run = refl

put_entry_run : word (put_entry 3 1 2_700 (set_word zero_block 1 2_600)).1 2 ≡ 2_700
unfolding load store put word set_word take_entry put_entry
put_entry_run = refl

create_new_dblock-Allocated_example :
    (ans : ℕ) × (s' : Fs) × (ns' : List ℕ) × (create_new_dblock one_free ≡ ok ans s')
    × Allocated one_free (2_561 ∷ []) ans s' ns'
create_new_dblock-Allocated_example =
    create_new_dblock-Allocated one_free (2_561 ∷ []) one_free-FreeList (omega arith)

free_dblock-Freed_example :
    (s' : Fs) × (ns' : List ℕ) × (free_dblock 2_600 one_free ≡ ok true s')
    × Freed one_free (2_561 ∷ []) 2_600 s' ns'
free_dblock-Freed_example =
    free_dblock-Freed one_free (2_561 ∷ []) 2_600 one_free-FreeList (omega arith) (omega arith)
      (one_count 2_600 (omega arith))

free_dblock-twice_example :
    (t u v : Fs) × (free_dblock 2_600 none_free ≡ ok true t)
    × (create_new_dblock t ≡ ok 2_600 u)
    × (create_new_dblock u ≡ ok 2_600 v)
free_dblock-twice_example = free_dblock-twice none_free 2_600 (omega arith) refl
