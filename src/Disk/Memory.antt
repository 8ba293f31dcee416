-- ===== src/Disk/Memory.antt =====
-- lib/disk_layer.c in the configuration without `DISK`: `dealloc_memory`, with `free_memory`. It does
-- not reset `m_ptr`, which the type `Memory` keeps apart from the memory itself.
use file_system_fuse.Base.{Bool, true, false, ◌≡◌, refl}
use file_system_fuse.Fs.{Disk}
use file_system_fuse.State.{Cmd, done, crash, return, ◌>>=◌, ◌>>◌, get}

-- What `m_ptr` points to.
pub data Memory : Type 0 where
  null : Memory
  live : Disk → Memory
  freed : Memory

-- The argument is the pointer `m_ptr`, whose memory is the state.
free_memory : Memory → Cmd Memory (Unit {0})
free_memory null m = done tt m
free_memory (live d) m = done tt freed
free_memory freed m = crash

dealloc : Memory → Cmd Memory Bool
unfolding free_memory
dealloc null = return false
dealloc ptr = do free_memory ptr; return true

dealloc_memory : Cmd Memory Bool
unfolding dealloc
dealloc_memory = do ptr ← get; dealloc ptr

dealloc_memory_null : dealloc_memory null ≡ done false null
unfolding dealloc_memory
dealloc_memory_null = refl

dealloc_memory_live : (d : Disk) → dealloc_memory (live d) ≡ done true freed
unfolding dealloc_memory
dealloc_memory_live d = refl

-- The second call frees the memory again.
dealloc_memory_twice : (d : Disk) → (dealloc_memory >> dealloc_memory) (live d) ≡ crash
unfolding dealloc_memory
dealloc_memory_twice d = refl
