-- ===== src/History/Tests.antt =====
-- The theorems about histories: a new file system, and one from which a block was handed out.
use file_system_fuse.Base.{ℕ, ◌≡◌, ◌⊎◌, refl, [], ◌∷◌, true, inl, inr, arith}
use file_system_fuse.Base.Ssize.{minus_one}
use file_system_fuse.Fs.{Fs, ok}
use file_system_fuse.FreeList.{create_new_dblock}
use file_system_fuse.FreeList.Chain.{node_count, IsDataBlock, IsZero}
use file_system_fuse.Inode.{Inode, to_words}
use file_system_fuse.Inode.Layout.{Fits}
use file_system_fuse.MakeFs.{blank}
use file_system_fuse.MakeFs.Made.{make_fs-Made}
use file_system_fuse.History.{History, made, created}
use file_system_fuse.History.Owned.{Owned, History-Owned}
use file_system_fuse.History.Calls.{Keeps, create_new_dblock-fresh}

abbrev before : Fs
before = record {
  disk = λ _ _. 7;
  super_block = record {
    inode_count = 0;
    latest_inum = 0;
    inodes_per_block = 0;
    free_list_head = 0;
  };
}

abbrev stack : Inode
stack = record {
  direct_blocks = [];
  single_indirect = 9;
  double_indirect = 9;
  triple_indirect = 9;
  link_count = 9;
  file_size = 9;
  num_blocks = 9;
  allocated = true;
  user_id = 9;
  group_id = 9;
  mode = 9;
  access_time = 9;
  creation_time = 9;
  modification_time = 9;
  status_change_time = 9;
}

stack-Fits : Fits (blank stack)
unfolding to_words
stack-Fits = record { directs = refl; words = omega arith; mode = omega arith }

abbrev new_fs : Fs
new_fs = (make_fs-Made stack before stack-Fits).0

new_History : History new_fs []
new_History = made before stack stack-Fits (make_fs-Made stack before stack-Fits).2

create_new_dblock-fresh_example :
    ((create_new_dblock new_fs ≡ ok minus_one new_fs)
      × ((a : ℕ) → IsDataBlock a → node_count [] a ≡ 1))
    ⊎ ((ans : ℕ) × (s' : Fs) × (create_new_dblock new_fs ≡ ok ans s')
        × IsDataBlock ans
        × (node_count [] ans ≡ 0)
        × IsZero (s'.disk ans)
        × Keeps new_fs s' [])
create_new_dblock-fresh_example = create_new_dblock-fresh new_fs [] new_History

-- The first block that is handed out.
first : (ans : ℕ) × (s' : Fs) × (create_new_dblock new_fs ≡ ok ans s') × IsDataBlock ans
unfolding node_count
first = elim (create_new_dblock-fresh new_fs [] new_History) [
  | inl (run, all) ↦ absurd (omega (arith, all 2_561 (omega arith)))
  | inr x ↦ (x.0, x.1, x.2, x.3)
]

one_History : History first.1 (first.0 ∷ [])
one_History = created new_fs first.0 new_History first.2 (omega (arith, first.3))

History-Owned_example : Owned first.1 (first.0 ∷ [])
History-Owned_example = History-Owned one_History
