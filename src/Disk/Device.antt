-- ===== src/Disk/Device.antt =====
-- lib/disk_layer.c with include/disk_layer.h, in the configuration with `DISK`: the disk is a block
-- device, reached by `open`, `lseek`, `read`, `write` and `close`, which are a parameter: what they
-- do and what POSIX says of them is the record `Device`. A number that the code keeps in an `int`,
-- an `off_t` or an `ssize_t` is its 64-bit pattern.
pub mod Laws
pub mod Runs
pub mod Session
mod Tests
pub mod Bounds
use Prim.Native.String.{String}
use file_system_fuse.Base.{
  ℕ, zero, suc, ◌+◌, ◌*◌, ◌/◌, ◌%◌, ◌^◌, ◌≤◌, ◌<◌, ◌≡◌, ◌≢◌, ◌⊎◌, Bool, true, false, not, ◌||◌,
  Option, none, some, ◌==◌, if◌then◌else◌,
}
use file_system_fuse.Base.Ssize.{minus_one, slt, sle, add_ssize}
use file_system_fuse.Bytes.{Block, zero_block}
use file_system_fuse.State.{Cmd, done, return, ◌>>=◌, ◌>>◌, get, put}

-- `BLOCK_DEVICE`
abbrev pub block_device : String
block_device = "/dev/vdb"

-- `FS_SIZE`
abbrev pub fs_size : ℕ
fs_size = 1_073_741_824

-- `BLOCK_SIZE`
abbrev pub block_size : ℕ
block_size = 4096

-- `BLOCK_COUNT`
abbrev pub block_count : ℕ
block_count = fs_size / block_size

-- `O_RDWR` and `SEEK_SET` of the system's headers.
abbrev pub o_rdwr : ℕ
o_rdwr = 2

abbrev pub seek_set : ℕ
seek_set = 0

-- A device: its bytes, the offset of each file descriptor, and the calls. A call may fail, with -1,
-- and `read` and `write` may transfer fewer bytes than asked for.
pub record Device : Type 1 where
  pub State : Type 0
  pub bytes : State → ℕ → ℕ
  pub offset : State → ℕ → ℕ
  pub open_file : String → ℕ → State → ℕ × State
  pub lseek : ℕ → ℕ → ℕ → State → ℕ × State
  pub read : ℕ → Block → ℕ → State → ℕ × Block × State
  pub write : ℕ → Block → ℕ → State → ℕ × State
  pub close : ℕ → State → ℕ × State
  pub open-bytes :
      (path : String) (flags : ℕ) (s : State) → bytes (open_file path flags s).1 ≡ bytes s
  pub lseek-bytes : (fd o whence : ℕ) (s : State) → bytes (lseek fd o whence s).1 ≡ bytes s
  pub lseek-offset :
      (fd o : ℕ) (s : State)
      → (lseek fd o seek_set s).0 ≢ minus_one
      → offset (lseek fd o seek_set s).1 fd ≡ o
  pub read-bytes : (fd : ℕ) (b : Block) (n : ℕ) (s : State) → bytes (read fd b n s).2 ≡ bytes s
  pub read-buffer :
      (fd : ℕ) (b : Block) (n : ℕ) (s : State) (i : ℕ)
      → (read fd b n s).0 ≢ minus_one
      → i < (read fd b n s).0
      → (read fd b n s).1 i ≡ bytes s (offset s fd + i)
  pub write-in :
      (fd : ℕ) (b : Block) (n : ℕ) (s : State) (i : ℕ)
      → (write fd b n s).0 ≢ minus_one
      → i < (write fd b n s).0
      → bytes (write fd b n s).1 (offset s fd + i) ≡ b i
  pub write-out :
      (fd : ℕ) (b : Block) (n : ℕ) (s : State) (p : ℕ)
      → (p < offset s fd) ⊎ (offset s fd + n ≤ p)
      → bytes (write fd b n s).1 p ≡ bytes s p
  pub close-bytes : (fd : ℕ) (s : State) → bytes (close fd s).1 ≡ bytes s

-- `m_ptr`, the file descriptor, with what the device keeps.
pub record Mounted (dev : Device) : Type 0 where
  pub m_ptr : ℕ
  pub device : dev.State

module _ (dev : Device) where
  -- A call of the device.
  abbrev pub call {ℓ} : {A : Type ℓ} → (dev.State → A × dev.State) → Cmd (Mounted dev) A
  call f s = let (a, t) = f s.device in done a (record s { device = t })

  abbrev pub seek : ℕ → Cmd (Mounted dev) ℕ
  seek o s = call (dev.lseek s.m_ptr o seek_set) s

  -- How many bytes were read, and the buffer then.
  abbrev pub fill : Block → Cmd (Mounted dev) (ℕ × Block)
  fill b s =
      let (n, b', t) = dev.read s.m_ptr b block_size s.device in
      done (n, b') (record s { device = t })

  abbrev pub flush : Block → Cmd (Mounted dev) ℕ
  flush b s = call (dev.write s.m_ptr b block_size) s

  -- The product as an `unsigned long`.
  abbrev pub offset_of : ℕ → ℕ
  offset_of block_id = block_size * block_id % 2 ^ 64

  -- The buffer as it is filled, or `none` where the function returns false.
  unfoldable pub read_block : ℕ → Option Block → Cmd (Mounted dev) (Option Block)
  read_block block_id none = return none
  read_block block_id (some buffer) =
      if slt block_id 0 || sle block_count block_id then return none else do
        status ← seek (offset_of block_id)
        if status == minus_one then return none else do
          (n, filled) ← fill buffer
          if not (n == block_size) then return none else return (some filled)

  unfoldable pub write_block : ℕ → Option Block → Cmd (Mounted dev) Bool
  write_block block_id none = return false
  write_block block_id (some buffer) =
      if slt block_id 0 || sle block_count block_id then return false else do
        status ← seek (offset_of block_id)
        if status == minus_one
            then return false
            else do n ← flush buffer; if not (n == block_size) then return false else return true

  -- The loop of `alloc_memory`, with the rounds left.
  unfoldable pub clear_blocks : ℕ → ℕ → Block → Cmd (Mounted dev) Bool
  clear_blocks zero i buff = return true
  clear_blocks (suc n) i buff =
      let rest = clear_blocks n (add_ssize i 1) buff in
      do written ← write_block i (some buff); if not written then return false else rest

  unfoldable pub alloc_memory : Cmd (Mounted dev) Bool
  alloc_memory = do
    fd ← call (dev.open_file block_device o_rdwr)
    s ← get
    put (record s { m_ptr = fd })
    if fd == minus_one then return false else clear_blocks block_count 0 zero_block

  unfoldable pub dealloc_memory : Cmd (Mounted dev) Bool
  dealloc_memory s =
      let (n, t) = dev.close s.m_ptr s.device in
      if not (n == 0)
      then done false (record s { device = t })
      else done true (record s { device = t })
