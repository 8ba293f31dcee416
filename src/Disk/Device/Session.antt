-- ===== src/Disk/Device/Session.antt =====
-- lib/disk_layer.c with `DISK`: `alloc_memory`, and what calls of `read_block` and `write_block`
-- after it return.
use file_system_fuse.Base.{
  ℕ, zero, suc, ◌+◌, ◌*◌, ◌<◌, ◌≡◌, ◌≢◌, inl, inr, refl, Bool, true, false, not, Option, none, some,
  ◌==◌, if◌then◌else◌, Bool-cases, ==→eq, ==→ne, arith, ◌∙◌, List,
}
use file_system_fuse.Base.Ssize.{minus_one, add_ssize}
use file_system_fuse.Bytes.{Block, zero_block}
use file_system_fuse.Fs.{Disk}
use file_system_fuse.State.{Cmd, return, ◌>>=◌}
use file_system_fuse.Disk.Device.{
  block_size, block_count, block_device, o_rdwr, Device, Mounted, write_block, clear_blocks,
  alloc_memory,
}
use file_system_fuse.Disk.Device.Laws.{Ends, content, DidWrite, IsSound, write_block-DidWrite}
use file_system_fuse.Disk.Device.Runs.{
  stopped, Op, AreInRange, SameBlock, SameBlocks, SameDisk, replay, replayed, Ends-bind, Ends-map,
  run, Agrees, run-Agrees, after_save, stopped,
}

next : (k i : ℕ) → suc k + i ≡ block_count → add_ssize i 1 ≡ suc i
next k i h = omega arith

before : (m i j : ℕ) → m ≢ i → m < suc i → j < block_size → block_size * m + j < block_size * i
before m i j h l k = ground arith

abbrev pub zeros : Disk
zeros _ = zero_block

module _ (dev : Device) where
  abbrev IsClear : ℕ → Mounted dev → Type 0
  IsClear i s = (m : ℕ) → m < i → SameBlock (content dev s m) zero_block

  record Cleared (r : Bool) (t : Mounted dev) : Type 0 where
    clear : r ≡ true → IsClear block_count t
    succeeds : IsSound dev → r ≡ true

  IsClear-DidWrite :
      (i : ℕ) (s t : Mounted dev)
      → DidWrite dev i zero_block s true t
      → IsClear i s
      → IsClear (suc i) t
  IsClear-DidWrite i s t p h m l j k = elim (Bool-cases (m == i)) [
    | inl e ↦ rw (==→eq m i e) (p.result refl j k)
    | inr e ↦
        p.outside (block_size * m + j) (inl (before m i j (==→ne m i e) l k))
        ∙ h m (ground arith) j k
  ]

  after_write-Cleared :
      (k i : ℕ) (s : Mounted dev) (rest : Cmd (Mounted dev) Bool) (r : Bool) (t : Mounted dev)
      → DidWrite dev i zero_block s r t
      → (IsClear (suc i) t → Ends (rest t) Cleared)
      → IsClear i s
      → Ends ((if not r then return false else rest) t) Cleared
  after_write-Cleared k i s rest false t p h c = record { clear = λ e. cc; succeeds = p.succeeds }
  after_write-Cleared k i s rest true t p h c = h (IsClear-DidWrite i s t p c)

  clear_blocks-Cleared :
      (k i : ℕ) (s : Mounted dev)
      → k + i ≡ block_count
      → IsClear i s
      → Ends (clear_blocks dev k i zero_block s) Cleared
  unfolding clear_blocks
  clear_blocks-Cleared zero i s h c = record {
    clear = λ _ m l. c m (ground arith);
    succeeds = λ _. refl;
  }
  clear_blocks-Cleared (suc k) i s h c = rw (next k i h) (
      Ends-bind (write_block dev i (some zero_block) s) _ _
        (write_block-DidWrite dev i zero_block s (omega arith))
        λ r t p.
          after_write-Cleared k i s (clear_blocks dev k (suc i) zero_block) r t p
            (clear_blocks-Cleared k (suc i) t (omega arith)) c)

  alloc_memory-Cleared : (s : Mounted dev) → Ends (alloc_memory dev s) Cleared
  unfolding alloc_memory
  alloc_memory-Cleared s =
      elim (Bool-cases ((dev.open_file block_device o_rdwr s.device).0 == minus_one)) [
        | inl e ↦
            rw e record { clear = λ e. cc; succeeds = λ v. absurd (v.opens s.device (==→eq _ _ e)) }
        | inr e ↦
            rw e (clear_blocks-Cleared block_count 0 _ (omega arith) (λ m l. absurd (omega arith)))
      ]

  -- `alloc_memory`, and then the calls.
  unfoldable pub session : List Op → Cmd (Mounted dev) (Option (List Block))
  session ops = alloc_memory dev >>= after_save dev (run dev ops)

  stopped_or_run :
      (ops : List Op) (r : Bool) (t : Mounted dev)
      → AreInRange ops
      → Cleared r t
      → Ends (after_save dev (run dev ops) r t) (Agrees dev ops zeros)
  unfolding after_save
  stopped_or_run ops false t l p = stopped dev ops zeros t (λ v. ground (arith, p.succeeds v))
  stopped_or_run ops true t l p = run-Agrees dev ops zeros t l (p.clear refl)

  pub session-Agrees :
      (ops : List Op) (s : Mounted dev)
      → AreInRange ops
      → Ends (session ops s) (Agrees dev ops zeros)
  unfolding session
  session-Agrees ops s l =
      Ends-bind (alloc_memory dev s) _ _ (alloc_memory-Cleared s) (λ r t. stopped_or_run ops r t l)

  -- After `alloc_memory`, calls of `read_block` and `write_block` on block ids in range always end; if
  -- all report success, what was read is what the same calls read from an array of blocks that is
  -- zero at first, and the device then holds that array.
  pub session_refines :
      (ops : List Op) (s : Mounted dev)
      → AreInRange ops
      → Ends (session ops s) λ r t.
        (bs : List Block)
        → r ≡ some bs
        → SameBlocks bs (replay ops zeros) × SameDisk (content dev t) (replayed ops zeros)
  session_refines ops s l =
      Ends-map (session ops s) _ (session-Agrees ops s l)
        λ r t a bs e. (a.answers bs e, a.disk bs e)

  -- On a device whose calls never fail nor transfer too few bytes, `alloc_memory` and then calls of
  -- `read_block` and `write_block` on block ids in range all succeed, and what was read is what the
  -- same calls read from an array of blocks that is zero at first.
  pub session_completes :
      (ops : List Op) (s : Mounted dev)
      → IsSound dev
      → AreInRange ops
      → Ends
          (session ops s)
          λ r t. (bs : List Block) × (r ≡ some bs) × SameBlocks bs (replay ops zeros)
  session_completes ops s v l = Ends-map (session ops s) _ (session-Agrees ops s l) completed
    where
      completed :
          (r : Option (List Block)) (t : Mounted dev)
          → Agrees dev ops zeros r t
          → (bs : List Block) × (r ≡ some bs) × SameBlocks bs (replay ops zeros)
      completed none t a = absurd (a.completes v refl)
      completed (some bs) t a = (bs, refl, a.answers bs refl)
