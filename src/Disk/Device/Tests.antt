-- ===== src/Disk/Device/Tests.antt =====
-- Runs of lib/disk_layer.c with `DISK` on a device that is memory, and instances of the theorems.
use file_system_fuse.Base.{
  ℕ, ◌+◌, ◌-◌, ◌^◌, ◌≤◌, ◌<◌, ◌≡◌, ◌⊎◌, refl, false, ◌&&◌, Option, none, some, ltb, leb,
  if◌then◌else◌, arith, List, [], ◌∷◌,
}
use file_system_fuse.Base.Ssize.{slt, sle}
use file_system_fuse.Base.Ssize.{slt, sle}
use file_system_fuse.Bytes.{Block, zero_block}
use file_system_fuse.State.{Outcome, Cmd, done, crash, no_fuel, return, ◌>>=◌}
use file_system_fuse.Disk.Device.{block_count, Device, Mounted, read_block, write_block}
use file_system_fuse.Disk.Device.Laws.{Ends, content, IsSound}
use file_system_fuse.Disk.Device.Runs.{Op, load, save, SameBlocks, SameDisk, replay, replayed}
use file_system_fuse.Disk.Device.Session.{session, zeros, session_refines, session_completes}

-- A device with one offset, that is memory.
record Ram : Type 0 where
  cells : ℕ → ℕ
  at : ℕ

-- The bytes of `b` at `o`, over `n` bytes.
abbrev over : (ℕ → ℕ) → ℕ → Block → ℕ → ℕ → ℕ
over f o b n p = if leb o p && ltb p (o + n) then b (p - o) else f p

over_in : (f : ℕ → ℕ) (o : ℕ) (b : Block) (n i : ℕ) → i < n → over f o b n (o + i) ≡ b i
over_in f o b n i h = let e : o + i - o ≡ i = omega arith in ground (arith, e)

over_out : (f : ℕ → ℕ) (o : ℕ) (b : Block) (n p : ℕ) → (p < o) ⊎ (o + n ≤ p) → over f o b n p ≡ f p
over_out f o b n p h = ground arith

abbrev ram : Device
ram = record {
  State = Ram;
  bytes = λ s. s.cells;
  offset = λ s _. s.at;
  open_file = λ _ _ s. (3, s);
  lseek = λ _ o _ s. (o, record s { at = o });
  read = λ _ _ n s. (n, (λ i. s.cells (s.at + i)), record s { at = s.at + n });
  write = λ _ b n s. (n, record { cells = over s.cells s.at b n; at = s.at + n });
  close = λ _ s. (0, s);
  open-bytes = λ _ _ _. refl;
  lseek-bytes = λ _ _ _ _. refl;
  lseek-offset = λ _ _ _ _. refl;
  read-bytes = λ _ _ _ _. refl;
  read-buffer = λ _ _ _ _ _ _ _. refl;
  write-in = λ _ b n s i _ h. over_in s.cells s.at b n i h;
  write-out = λ _ b n s p h. over_out s.cells s.at b n p h;
  close-bytes = λ _ _. refl;
}

ram-IsSound : IsSound ram
ram-IsSound = record {
  opens = λ _ e. absurd (omega arith);
  seeks = λ _ _ _ _. refl;
  reads = λ _ _ _ _ _. refl;
  writes = λ _ _ _ _ _. refl;
}

-- A device with other bytes on it, before it is opened.
abbrev blank : Mounted ram
blank = record { m_ptr = 0; device = record { cells = λ p. p; at = 0 } }

abbrev sevens : Block
sevens _ = 7

byte_at : ℕ → Option Block → ℕ
byte_at i none = 0
byte_at i (some b) = b i

result : {S A : Type 0} → Outcome S A → Option A
result (done a s) = some a
result crash = none
result no_fuel = none

write_then_read : Cmd (Mounted ram) (ℕ × ℕ)
unfolding byte_at result
write_then_read = do
  ok ← write_block ram 3 (some sevens)
  b ← read_block ram 3 (some zero_block)
  c ← read_block ram 4 (some zero_block)
  return (byte_at 5 b, byte_at 5 c)

-- Block 3 is written and blocks 3 and 4 are read.
written_and_read : result (write_then_read blank) ≡ some (7, 16389)
unfolding write_then_read read_block write_block slt sle
written_and_read = refl

-- A block id out of range is refused.
refused : write_block ram block_count (some sevens) blank ≡ done false blank
unfolding write_block slt sle
refused = refl

abbrev calls : List Op
calls = save 3 sevens ∷ load 3 ∷ load 4 ∷ []

session_refines_example : Ends (session ram calls blank) λ r t.
    (bs : List Block)
    → r ≡ some bs
    → SameBlocks bs (replay calls (zeros)) × SameDisk (content ram t) (replayed calls (zeros))
session_refines_example = session_refines ram calls blank (omega arith)

session_completes_example :
    Ends
      (session ram calls blank)
      λ r t. (bs : List Block) × (r ≡ some bs) × SameBlocks bs (replay calls (zeros))
session_completes_example = session_completes ram calls blank ram-IsSound (omega arith)

-- The last call is of a block id out of range.
abbrev stray : List Op
stray = save 3 sevens ∷ save (2 ^ 64 - 1) sevens ∷ []
