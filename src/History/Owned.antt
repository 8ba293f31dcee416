-- ===== src/History/Owned.antt =====
-- What every history keeps: each data block is free or held, and is so once.
use file_system_fuse.Base.{
  ℕ, ◌+◌, ◌<◌, ◌≡◌, ◌≢◌, ◌⊎◌, ◌∙◌, sym, List, [], ◌∷◌, true, inl, inr, arith, ◌==◌, Bool-cases,
  ==→eq, ==→ne,
}
use file_system_fuse.Base.Ssize.{minus_one}
use file_system_fuse.Bytes.{Block}
use file_system_fuse.Fs.{Fs, ok, write}
use file_system_fuse.Disk.Laws.{write_ne, write_block-in}
use file_system_fuse.FreeList.{create_new_dblock, write_dblock}
use file_system_fuse.FreeList.Chain.{
  free_count, node_count, node-le-free, free_count-write, IsChain-write, IsDataBlock, FreeList,
}
use file_system_fuse.FreeList.Create.{
  Allocated, create_new_dblock-Allocated, create_new_dblock-full,
}
use file_system_fuse.FreeList.Free.{Freed, free_dblock-Freed, valid_dblock}
use file_system_fuse.MakeFs.Made.{make_fs-Made}
use file_system_fuse.History.{IsWithout, History, made, created, refused, freed, written}

-- The free list is in order, and each data block is free or held, and is so once; only data blocks
-- are held.
pub record Owned (s : Fs) (held : List ℕ) : Type 0 where
  pub nodes : List ℕ
  pub list : FreeList s nodes
  pub shared : (a : ℕ) → IsDataBlock a → free_count s.disk nodes a + node_count held a ≡ 1
  pub data_blocks : (a : ℕ) → 0 < node_count held a → IsDataBlock a

pub ok-value {ℓ} : {A : Type ℓ} {a b : A} {s t : Fs} → ok a s ≡ ok b t → a ≡ b
ok-value h = cc

pub ok-state {ℓ} : {A : Type ℓ} {a b : A} {s t : Fs} → ok a s ≡ ok b t → s ≡ t
ok-state h = cc

made-Owned :
    {s : Fs} {ns : List ℕ}
    → FreeList s ns
    → ((a : ℕ) → IsDataBlock a → free_count s.disk ns a ≡ 1)
    → Owned s []
unfolding node_count
made-Owned {s} {ns} f once = record {
  nodes = ns;
  list = f;
  shared = λ a h. omega (arith, once a h);
  data_blocks = λ a h. absurd (omega arith);
}

Allocated-Owned :
    {s s' : Fs} {held ns' : List ℕ} (ans : ℕ) (o : Owned s held)
    → Allocated s o.nodes ans s' ns'
    → Owned s' (ans ∷ held)
unfolding node_count
Allocated-Owned {s} {s'} {held} {ns'} ans o al = record {
  nodes = ns';
  list = al.order;
  shared = λ a h. omega (arith, o.shared a h, al.taken a (omega arith));
  data_blocks = λ a h. elim (Bool-cases (a == ans)) [
    | inl e ↦ rw (==→eq a ans e) al.data_block
    | inr e ↦ o.data_blocks a (ground (arith, e))
  ];
}

Freed-Owned :
    {s s' : Fs} {held rest ns' : List ℕ} (d : ℕ) (o : Owned s held)
    → IsWithout d held rest
    → Freed s o.nodes d s' ns'
    → Owned s' rest
Freed-Owned {s} {s'} {held} {rest} {ns'} d o w fr = record {
  nodes = ns';
  list = fr.order;
  shared = λ a h. omega (arith, o.shared a h, fr.given a (omega arith), w a);
  data_blocks = λ a h. o.data_blocks a (omega (arith, w a));
}

-- A block that is held is not free.
pub held_not_free :
    {s : Fs} {held : List ℕ} (o : Owned s held) (d : ℕ)
    → 0 < node_count held d
    → (free_count s.disk o.nodes d ≡ 0) × (node_count o.nodes d ≡ 0)
held_not_free {s} o d h =
    omega (arith, o.shared d (o.data_blocks d h), node-le-free s.disk o.nodes d)

written-Owned :
    {s : Fs} {held : List ℕ} (d : ℕ) (b : Block) (o : Owned s held)
    → 0 < node_count held d
    → Owned (record s { disk = write s.disk d b }) held
written-Owned {s} {held} d b o h =
    let out = (held_not_free o d h).1 in
    let same : (a : ℕ) → free_count (write s.disk d b) o.nodes a ≡ free_count s.disk o.nodes a =
      λ a. free_count-write s.disk d b o.nodes a out in
    record {
      nodes = o.nodes;
      list = record {
        chain = IsChain-write s.disk d b s.super_block.free_list_head o.nodes out o.list.chain;
        once = λ a k. rw (same a) (o.list.once a k);
        data_blocks = λ a k l. o.list.data_blocks a k (omega (arith, same a));
        clean = λ a k l n.
            let apart : a ≢ d = ground (arith, same a, (held_not_free o d h).0) in
            rw (write_ne s.disk d a b apart) (o.list.clean a k (omega (arith, same a)) n);
      };
      shared = λ a k. omega (arith, same a, o.shared a k);
      data_blocks = o.data_blocks;
    }

pub write_dblock-in :
    (d : ℕ) (b : Block) (s : Fs)
    → IsDataBlock d
    → write_dblock d b s ≡ ok true (record s { disk = write s.disk d b })
unfolding write_dblock
write_dblock-in d b s i = rw (valid_dblock d i) (write_block-in d b s i.1)

-- The two cases of `create_new_dblock`.
pub create_cases :
    {s : Fs} {held : List ℕ} (o : Owned s held)
    → ((s.super_block.free_list_head ≡ 0) × (create_new_dblock s ≡ ok minus_one s))
      ⊎ ((ans : ℕ) × (s' : Fs) × (ns' : List ℕ) × (create_new_dblock s ≡ ok ans s')
          × Allocated s o.nodes ans s' ns')
create_cases {s} o = elim (Bool-cases (s.super_block.free_list_head == 0)) [
  | inl e ↦ let z = ==→eq _ _ e in inl (z, create_new_dblock-full s z)
  | inr e ↦ inr (create_new_dblock-Allocated s o.nodes o.list (==→ne _ _ e))
]

-- After any history each data block is free or held, and is so once.
pub History-Owned : {s : Fs} {held : List ℕ} → History s held → Owned s held
History-Owned (made s junk fits run) =
    let (t, ns, run', m) = make_fs-Made junk s fits in
    rw (ok-state (sym run ∙ run'))
      (made-Owned m.list (λ a h. ground (arith, m.all_free a (omega (arith, h)))))
History-Owned (created s ans h run ne) = elim (create_cases (History-Owned h)) [
  | inl (z, run') ↦ absurd (ne (ok-value (sym run ∙ run')))
  | inr (ans', t, ns', run', al) ↦
      rw (ok-state (sym run ∙ run'), ok-value (sym run ∙ run'))
        (Allocated-Owned ans' (History-Owned h) al)
]
History-Owned (refused s h run) = elim (create_cases (History-Owned h)) [
  | inl (z, run') ↦ rw (ok-state (sym run ∙ run')) (History-Owned h)
  | inr (ans', t, ns', run', al) ↦ absurd (omega (arith, al.data_block, ok-value (sym run ∙ run')))
]
History-Owned (freed s held d h head w run) =
    let o = History-Owned h in
    let pos : 0 < node_count held d = ground (arith, w d) in
    let (t, ns', run', fr) =
      free_dblock-Freed s o.nodes d o.list head (o.data_blocks d pos) (held_not_free o d pos).0 in
    rw (ok-state (sym run ∙ run')) (Freed-Owned d o w fr)
History-Owned (written s d b h pos run) =
    let o = History-Owned h in
    rw (ok-state (sym run ∙ write_dblock-in d b s (o.data_blocks d pos))) (written-Owned d b o pos)
