-- ===== src/Disk/Device/Runs.antt =====
-- lib/disk_layer.c with `DISK`: sequences of calls, from `alloc_memory` on, against the same calls on
-- an array of blocks.
use file_system_fuse.Base.{
  ℕ, ◌+◌, ◌*◌, ◌≤◌, ◌<◌, ◌≡◌, ◌≢◌, ◌⊎◌, inl, inr, refl, Bool, true, false, not, Option, none, some,
  ◌==◌, if◌then◌else◌, Bool-cases, ==→eq, ==→ne, arith, ◌∙◌, List, [], ◌∷◌,
}
use file_system_fuse.Bytes.{Block, zero_block}
use file_system_fuse.Fs.{Disk, write}
use file_system_fuse.State.{Outcome, Cmd, done, crash, no_fuel, return, bind, ◌>>=◌}
use file_system_fuse.Disk.Device.{block_size, block_count, Device, Mounted, read_block, write_block}
use file_system_fuse.Disk.Device.Laws.{
  Ends, content, DidRead, DidWrite, IsSound, read_block-DidRead, write_block-DidWrite,
}

-- A call on a block.
pub data Op : Type 0 where
  load : ℕ → Op
  save : ℕ → Block → Op

abbrev pub block_of : Op → ℕ
block_of (load n) = n
block_of (save n b) = n

abbrev pub AreInRange : List Op → Type 0
AreInRange [] = Unit
AreInRange (op ∷ ops) = (block_of op < block_count) × AreInRange ops

-- What the calls read from an array of blocks.
unfoldable pub replay : List Op → Disk → List Block
replay [] d = []
replay (load n ∷ ops) d = d n ∷ replay ops d
replay (save n b ∷ ops) d = replay ops (write d n b)

-- The array after the calls.
unfoldable pub replayed : List Op → Disk → Disk
replayed [] d = d
replayed (load n ∷ ops) d = replayed ops d
replayed (save n b ∷ ops) d = replayed ops (write d n b)

abbrev pub SameBlock : Block → Block → Type 0
SameBlock b c = (i : ℕ) → i < block_size → b i ≡ c i

abbrev pub SameBlocks : List Block → List Block → Type 0
SameBlocks [] [] = Unit
SameBlocks (b ∷ bs) (c ∷ cs) = SameBlock b c × SameBlocks bs cs
SameBlocks [] (c ∷ cs) = ⊥
SameBlocks (b ∷ bs) [] = ⊥

abbrev pub SameDisk : Disk → Disk → Type 0
SameDisk d e = (n : ℕ) → n < block_count → SameBlock (d n) (e n)

pub Ends-bind :
    {S A B : Type 0} (m : Outcome S A) (k : A → Cmd S B) {P : A → S → Type 0} (Q : B → S → Type 0)
    → Ends m P
    → ((a : A) (t : S) → P a t → Ends (k a t) Q)
    → Ends (bind m k) Q
Ends-bind (done a s) k Q p f = f a s p
Ends-bind crash k Q p f = absurd p
Ends-bind no_fuel k Q p f = absurd p

pub Ends-map :
    {S A : Type 0} (m : Outcome S A) {P : A → S → Type 0} (Q : A → S → Type 0)
    → Ends m P
    → ((a : A) (t : S) → P a t → Q a t)
    → Ends m Q
Ends-map (done a s) Q p f = f a s p
Ends-map crash Q p f = p
Ends-map no_fuel Q p f = p

apart :
    (m n i : ℕ)
    → m ≢ n
    → i < block_size
    → (block_size * m + i < block_size * n) ⊎ (block_size * n + block_size ≤ block_size * m + i)
apart m n i h k = ground arith

module _ (dev : Device) where
  abbrev pub stop : {A : Type 0} → Cmd (Mounted dev) (Option A)
  stop = return none

  unfoldable pub put_first : Block → Option (List Block) → Cmd (Mounted dev) (Option (List Block))
  put_first b none = return none
  put_first b (some bs) = return (some (b ∷ bs))

  unfoldable pub after_load :
      Cmd (Mounted dev) (Option (List Block))
      → Option Block
      → Cmd (Mounted dev) (Option (List Block))
  unfolding put_first
  after_load rest none = return none
  after_load rest (some b) = rest >>= put_first b

  unfoldable pub after_save :
      Cmd (Mounted dev) (Option (List Block)) → Bool → Cmd (Mounted dev) (Option (List Block))
  after_save rest written = if not written then return none else rest

  -- The calls in turn, up to the first that fails: what was read, or `none` after a failure.
  unfoldable pub run : List Op → Cmd (Mounted dev) (Option (List Block))
  unfolding after_load after_save
  run [] = return (some [])
  run (load n ∷ ops) = read_block dev n (some zero_block) >>= after_load (run ops)
  run (save n b ∷ ops) = write_block dev n (some b) >>= after_save (run ops)

  -- What the calls returned and left agrees with the array; on a sound device none fails.
  pub record Agrees (ops : List Op) (d : Disk) (r : Option (List Block)) (t : Mounted dev)
      : Type 0 where
    pub answers : (bs : List Block) → r ≡ some bs → SameBlocks bs (replay ops d)
    pub disk : (bs : List Block) → r ≡ some bs → SameDisk (content dev t) (replayed ops d)
    pub completes : IsSound dev → r ≢ none

  pub stopped : (ops : List Op) (d : Disk) (t : Mounted dev) → ¬ IsSound dev → Agrees ops d none t
  stopped ops d t e = record {
    answers = λ bs e. cc;
    disk = λ bs e. cc;
    completes = λ v. absurd (e v);
  }

  put_first-Agrees :
      (n : ℕ) (ops : List Op) (d : Disk) (b : Block) (r : Option (List Block)) (t : Mounted dev)
      → SameBlock b (d n)
      → Agrees ops d r t
      → Ends (put_first b r t) (Agrees (load n ∷ ops) d)
  unfolding put_first replay replayed
  put_first-Agrees n ops d b none t p a = stopped _ _ _ (λ v. a.completes v refl)
  put_first-Agrees n ops d b (some bs) t p a = record {
    answers = λ cs e. let q : b ∷ bs ≡ cs = cc in rw (← q) (p, a.answers bs refl);
    disk = λ cs e. a.disk bs refl;
    completes = λ v e. cc;
  }

  -- A block that was written, in an array that agreed.
  saved-SameDisk :
      (n : ℕ) (b : Block) (d : Disk) (s : Mounted dev) (t : Mounted dev)
      → DidWrite dev n b s true t
      → SameDisk (content dev s) d
      → SameDisk (content dev t) (write d n b)
  unfolding write
  saved-SameDisk n b d s t p h m l i k = elim (Bool-cases (m == n)) [
    | inl e ↦ rw e (rw (==→eq m n e) (p.result refl i k))
    | inr e ↦
        let q : m ≢ n = ==→ne m n e in
        rw e (p.outside (block_size * m + i) (apart m n i q k) ∙ h m l i k)
  ]

  after_load-Agrees :
      (n : ℕ) (ops : List Op) (d : Disk) (s : Mounted dev) (r : Option Block) (t : Mounted dev)
      → n < block_count
      → DidRead dev n s r t
      → SameDisk (content dev s) d
      → (SameDisk (content dev t) d → Ends (run ops t) (Agrees ops d))
      → Ends (after_load (run ops) r t) (Agrees (load n ∷ ops) d)
  unfolding after_load
  after_load-Agrees n ops d s none t l p q h = stopped _ _ _ (λ v. p.succeeds v refl)
  after_load-Agrees n ops d s (some b) t l p q h =
      Ends-bind (run ops t) (put_first b) _ (h (λ m k i j. rw (p.kept, content) (q m k i j)))
        (λ r u a. put_first-Agrees n ops d b r u (λ i k. p.result b refl i k ∙ q n l i k) a)

  after_save-Agrees :
      (n : ℕ) (b : Block) (ops : List Op) (d : Disk) (s : Mounted dev) (r : Bool) (t : Mounted dev)
      → DidWrite dev n b s r t
      → SameDisk (content dev s) d
      → (SameDisk (content dev t) (write d n b) → Ends (run ops t) (Agrees ops (write d n b)))
      → Ends (after_save (run ops) r t) (Agrees (save n b ∷ ops) d)
  unfolding after_save replay replayed
  after_save-Agrees n b ops d s false t p q h = stopped _ _ _ (λ v. ground (arith, p.succeeds v))
  after_save-Agrees n b ops d s true t p q h =
      Ends-map (run ops t) _ (h (saved-SameDisk n b d s t p q))
        (λ r u a. record { answers = a.answers; disk = a.disk; completes = a.completes })

  pub run-Agrees :
      (ops : List Op) (d : Disk) (s : Mounted dev)
      → AreInRange ops
      → SameDisk (content dev s) d
      → Ends (run ops s) (Agrees ops d)
  unfolding run replay replayed
  run-Agrees [] d s l h = record {
    answers = λ bs e. let q : [] ≡ bs = cc in rw (← q) tt;
    disk = λ bs e. h;
    completes = λ v e. cc;
  }
  run-Agrees (load n ∷ ops) d s l h =
      Ends-bind (read_block dev n (some zero_block) s) (after_load (run ops)) _
        (read_block-DidRead dev n zero_block s l.0)
        (λ r t p. after_load-Agrees n ops d s r t l.0 p h (run-Agrees ops d t l.1))
  run-Agrees (save n b ∷ ops) d s l h =
      Ends-bind (write_block dev n (some b) s) (after_save (run ops)) _
        (write_block-DidWrite dev n b s l.0)
        (λ r t p. after_save-Agrees n b ops d s r t p h (run-Agrees ops (write d n b) t l.1))
