-- ===== src/MakeFs/Tests.antt =====
-- `make_fs` on any memory, with zeros on the stack.
use file_system_fuse.Base.{ℕ, ◌≡◌, refl, List, [], true, arith}
use file_system_fuse.Fs.{Fs, ok}
use file_system_fuse.Inode.{Inode, to_words}
use file_system_fuse.Inode.Layout.{Fits}
use file_system_fuse.MakeFs.{blank, make_fs}
use file_system_fuse.MakeFs.Made.{Made, make_fs-Made}

abbrev before : Fs
before = record {
  disk = λ _ _. 7;
  super_block = record {
    inode_count = 0;
    latest_inum = 0;
    inodes_per_block = 0;
    free_list_head = 0;
  };
}

abbrev stack : Inode
stack = record {
  direct_blocks = [];
  single_indirect = 9;
  double_indirect = 9;
  triple_indirect = 9;
  link_count = 9;
  file_size = 9;
  num_blocks = 9;
  allocated = true;
  user_id = 9;
  group_id = 9;
  mode = 9;
  access_time = 9;
  creation_time = 9;
  modification_time = 9;
  status_change_time = 9;
}

stack-Fits : Fits (blank stack)
unfolding to_words
stack-Fits = record { directs = refl; words = omega arith; mode = omega arith }

make_fs-Made_example :
    (s' : Fs) × (ns : List ℕ) × (make_fs true stack before ≡ ok true s') × Made stack s' ns
make_fs-Made_example = make_fs-Made stack before stack-Fits
