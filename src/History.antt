-- ===== src/History.antt =====
-- The life of the data blocks of lib/block_layer.c: the calls that a file layer makes on a new file
-- system, and the blocks that it holds in between.
pub mod Owned
pub mod Calls
mod Tests
use file_system_fuse.Base.{ℕ, ◌+◌, ◌<◌, ◌≡◌, ◌≢◌, List, [], ◌∷◌, true}
use file_system_fuse.Base.Ssize.{minus_one}
use file_system_fuse.Bytes.{Block}
use file_system_fuse.Fs.{Fs, ok}
use file_system_fuse.FreeList.{create_new_dblock, write_dblock, free_dblock}
use file_system_fuse.FreeList.Entries.{is}
use file_system_fuse.FreeList.Chain.{node_count}
use file_system_fuse.Inode.{Inode}
use file_system_fuse.Inode.Layout.{Fits}
use file_system_fuse.MakeFs.{blank, make_fs}

-- The list `rest` is `held` without one `d`, in any order.
abbrev pub IsWithout : ℕ → List ℕ → List ℕ → Type 0
IsWithout d held rest = (a : ℕ) → node_count held a ≡ is a d + node_count rest a

-- The states that calls lead to, each with the blocks that were handed out and not given back. A
-- block is given back only if it is held and the free list is not empty.
pub data History : Fs → List ℕ → Type 0 where
  made :
      (s : Fs) {s' : Fs} (junk : Inode)
      → Fits (blank junk)
      → make_fs true junk s ≡ ok true s'
      → History s' []
  created :
      (s : Fs) {s' : Fs} {held : List ℕ} (ans : ℕ)
      → History s held
      → create_new_dblock s ≡ ok ans s'
      → ans ≢ minus_one
      → History s' (ans ∷ held)
  refused :
      (s : Fs) {s' : Fs} {held : List ℕ}
      → History s held
      → create_new_dblock s ≡ ok minus_one s'
      → History s' held
  freed :
      (s : Fs) {s' : Fs} (held : List ℕ) {rest : List ℕ} (d : ℕ)
      → History s held
      → s.super_block.free_list_head ≢ 0
      → IsWithout d held rest
      → free_dblock d s ≡ ok true s'
      → History s' rest
  written :
      (s : Fs) {s' : Fs} {held : List ℕ} (d : ℕ) (b : Block)
      → History s held
      → 0 < node_count held d
      → write_dblock d b s ≡ ok true s'
      → History s' held
