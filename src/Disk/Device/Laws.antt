-- ===== src/Disk/Device/Laws.antt =====
-- lib/disk_layer.c with `DISK`: what `read_block` and `write_block` do to the bytes of the device,
-- whatever its calls return.
use file_system_fuse.Base.{
  ℕ, ◌+◌, ◌*◌, ◌%◌, ◌^◌, ◌≤◌, ◌<◌, ◌≡◌, ◌≢◌, ◌⊎◌, inl, inr, refl, Bool, true, false, not, ◌||◌,
  Option, none, some, ◌==◌, Bool-cases, ==→eq, arith, ◌∙◌,
}
use file_system_fuse.Base.Ssize.{minus_one, slt, sle}
use file_system_fuse.Bytes.{Block}
use file_system_fuse.Fs.{Disk}
use file_system_fuse.State.{Outcome, done, crash, no_fuel}
use file_system_fuse.Disk.Device.{
  fs_size, block_size, block_device, o_rdwr, block_count, seek_set, Device, Mounted, read_block,
  write_block,
}

pub out_of_range : ℕ → Bool
out_of_range n = slt n 0 || sle block_count n

pub lt_of_in_range : (n : ℕ) → n < 2 ^ 64 → out_of_range n ≡ false → n < block_count
unfolding out_of_range slt sle
lt_of_in_range n h e = ground arith

pub in_range : (n : ℕ) → n < block_count → out_of_range n ≡ false
unfolding out_of_range slt sle
in_range n h = ground arith

pub offset_in_range : (n : ℕ) → n < block_count → block_size * n % 2 ^ 64 ≡ block_size * n
offset_in_range n h = omega arith

pub ne_of_test : (a b : ℕ) → (a == b) ≡ false → a ≢ b
ne_of_test a b h = ground arith

pub eq_of_test : (a b : ℕ) → not (a == b) ≡ false → a ≡ b
eq_of_test a b h = ground arith

pub ne_of_not : (a b : ℕ) → not (a == b) ≡ true → a ≢ b
ne_of_not a b h = ground arith

-- A command that ends, so that its result and state have the property.
abbrev pub Ends : {S A : Type 0} → Outcome S A → (A → S → Type 0) → Type 0
Ends (done a s) P = P a s
Ends crash P = ⊥
Ends no_fuel P = ⊥

-- The device works within its size, which is enough: no call fails or transfers less than asked for.
pub record IsSound (dev : Device) : Type 0 where
  pub opens : (s : dev.State) → (dev.open_file block_device o_rdwr s).0 ≢ minus_one
  pub seeks : (fd o : ℕ) (s : dev.State) → o < fs_size → (dev.lseek fd o seek_set s).0 ≡ o
  pub reads :
      (fd : ℕ) (b : Block) (n : ℕ) (s : dev.State)
      → dev.offset s fd + n ≤ fs_size
      → (dev.read fd b n s).0 ≡ n
  pub writes :
      (fd : ℕ) (b : Block) (n : ℕ) (s : dev.State)
      → dev.offset s fd + n ≤ fs_size
      → (dev.write fd b n s).0 ≡ n

module _ (dev : Device) where
  -- The bytes of the blocks.
  abbrev pub content : Mounted dev → Disk
  content s n i = dev.bytes s.device (block_size * n + i)

  -- What a call of `read_block` returns and leaves.
  pub record DidRead (n : ℕ) (s : Mounted dev) (r : Option Block) (t : Mounted dev) : Type 0 where
    pub handle : t.m_ptr ≡ s.m_ptr
    pub kept : dev.bytes t.device ≡ dev.bytes s.device
    pub result : (b : Block) → r ≡ some b → (i : ℕ) → i < block_size → b i ≡ content s n i
    pub succeeds : IsSound dev → r ≢ none

  -- What a call of `write_block` returns and leaves.
  pub record DidWrite (n : ℕ) (b : Block) (s : Mounted dev) (r : Bool) (t : Mounted dev)
      : Type 0 where
    pub handle : t.m_ptr ≡ s.m_ptr
    pub outside :
        (p : ℕ)
        → (p < block_size * n) ⊎ (block_size * n + block_size ≤ p)
        → dev.bytes t.device p ≡ dev.bytes s.device p
    pub result : r ≡ true → (i : ℕ) → i < block_size → content t n i ≡ b i
    pub succeeds : IsSound dev → r ≡ true

  pub read_block-out :
      (n : ℕ) (b : Block) (s : Mounted dev)
      → out_of_range n ≡ true
      → read_block dev n (some b) s ≡ done none s
  unfolding read_block out_of_range
  read_block-out n b s h = rw h refl

  pub write_block-out :
      (n : ℕ) (b : Block) (s : Mounted dev)
      → out_of_range n ≡ true
      → write_block dev n (some b) s ≡ done false s
  unfolding write_block out_of_range
  write_block-out n b s h = rw h refl

  module _ (n : ℕ) (b : Block) (s : Mounted dev) (h : n < block_count) where
    -- The device after the call of `lseek`.
    abbrev seeking : ℕ × dev.State
    seeking = dev.lseek s.m_ptr (block_size * n % 2 ^ 64) seek_set s.device

    sought : seeking.0 ≢ minus_one → dev.offset seeking.1 s.m_ptr ≡ block_size * n
    sought e = dev.lseek-offset _ _ _ e ∙ offset_in_range n h

    seeks_in : IsSound dev → seeking.0 ≢ minus_one
    seeks_in v e =
        let q : seeking.0 ≡ block_size * n % 2 ^ 64 = v.seeks _ _ _ (omega arith) in
        absurd (omega arith)

    abbrev reading : ℕ × Block × dev.State
    reading = dev.read s.m_ptr b block_size seeking.1

    filled :
        seeking.0 ≢ minus_one
        → reading.0 ≡ block_size
        → (i : ℕ) → i < block_size
        → reading.1 i ≡ content s n i
    filled e f i l =
        dev.read-buffer s.m_ptr b block_size seeking.1 i (ground arith) (ground arith)
        ∙ rw (sought e, dev.lseek-bytes s.m_ptr (block_size * n % 2 ^ 64) seek_set s.device) refl

    reads_all : IsSound dev → reading.0 ≡ block_size
    reads_all v = v.reads _ _ _ _ (rw (sought (seeks_in v)) (omega arith))

    pub read_block-DidRead : Ends (read_block dev n (some b) s) (DidRead n s)
    unfolding read_block out_of_range
    read_block-DidRead = rw (in_range n h) (elim (Bool-cases (seeking.0 == minus_one)) [
      | inl e ↦ rw e record {
        handle = refl;
        kept = dev.lseek-bytes _ _ _ _;
        result = λ b e. cc;
        succeeds = λ v. absurd (seeks_in v (==→eq _ _ e));
      }
      | inr e ↦ elim (Bool-cases (not (reading.0 == block_size))) [
        | inl f ↦
            rw (e, f)
              record {
                handle = refl;
                kept = dev.read-bytes _ _ _ _ ∙ dev.lseek-bytes _ _ _ _;
                result = λ b e. cc;
                succeeds = λ v. absurd (ne_of_not _ _ f (reads_all v));
              }
        | inr f ↦
            rw (e, f)
              record {
                handle = refl;
                kept = dev.read-bytes _ _ _ _ ∙ dev.lseek-bytes _ _ _ _;
                result = λ c g i l.
                    let q : reading.1 ≡ c = cc in
                    rw (← q) (filled (ne_of_test _ _ e) (eq_of_test _ _ f) i l);
                succeeds = λ _. λ e. cc;
              }
      ]
    ])

    abbrev writing : ℕ × dev.State
    writing = dev.write s.m_ptr b block_size seeking.1

    written_outside :
        seeking.0 ≢ minus_one
        → (p : ℕ) → (p < block_size * n) ⊎ (block_size * n + block_size ≤ p)
        → dev.bytes writing.1 p ≡ dev.bytes s.device p
    written_outside e p l =
        dev.write-out s.m_ptr b block_size seeking.1 p (rw (sought e) l)
        ∙ rw (dev.lseek-bytes s.m_ptr (block_size * n % 2 ^ 64) seek_set s.device) refl

    written_in :
        seeking.0 ≢ minus_one
        → writing.0 ≡ block_size
        → (i : ℕ) → i < block_size
        → dev.bytes writing.1 (block_size * n + i) ≡ b i
    written_in e f i l =
        rw (← sought e)
          (dev.write-in s.m_ptr b block_size seeking.1 i (ground arith) (ground arith))

    writes_all : IsSound dev → writing.0 ≡ block_size
    writes_all v = v.writes _ _ _ _ (rw (sought (seeks_in v)) (omega arith))

    pub write_block-DidWrite : Ends (write_block dev n (some b) s) (DidWrite n b s)
    unfolding write_block out_of_range
    write_block-DidWrite = rw (in_range n h) (elim (Bool-cases (seeking.0 == minus_one)) [
      | inl e ↦ rw e record {
        handle = refl;
        outside =
            λ p l. rw (dev.lseek-bytes s.m_ptr (block_size * n % 2 ^ 64) seek_set s.device) refl;
        result = λ e. cc;
        succeeds = λ v. absurd (seeks_in v (==→eq _ _ e));
      }
      | inr e ↦ elim (Bool-cases (not (writing.0 == block_size))) [
        | inl f ↦
            rw (e, f)
              record {
                handle = refl;
                outside = written_outside (ne_of_test _ _ e);
                result = λ e. cc;
                succeeds = λ v. absurd (ne_of_not _ _ f (writes_all v));
              }
        | inr f ↦
            rw (e, f)
              record {
                handle = refl;
                outside = written_outside (ne_of_test _ _ e);
                result = λ _. written_in (ne_of_test _ _ e) (eq_of_test _ _ f);
                succeeds = λ _. refl;
              }
      ]
    ])
