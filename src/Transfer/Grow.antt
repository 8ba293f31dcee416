-- ===== src/Transfer/Grow.antt =====
-- The loop of `custom_write` that adds blocks, for a file that stays in its direct blocks.
use file_system_fuse.Base.{
  ℕ, zero, suc, ◌+◌, ◌^◌, ◌≤◌, ◌<◌, ◌≡◌, ◌≢◌, ◌∙◌, refl, sym, ap, ap₂, true, false, inl, inr,
  Bool-cases, ==→eq, ==→ne, none, some, List, [], ◌∷◌, ◌++◌, arith, set, length-set,
  get_elem?-set_self, get_elem?-set_ne, All, ◌==◌, if◌then◌else◌,
}
use file_system_fuse.Base.Ssize.{sle}
use file_system_fuse.Fs.{Fs, ok}
use file_system_fuse.FreeList.{create_new_dblock}
use file_system_fuse.FreeList.Chain.{IsDataBlock, IsZero, free_count}
use file_system_fuse.FreeList.Create.{
  Allocated, create_new_dblock-Allocated, create_new_dblock-full,
}
use file_system_fuse.Inode.{Inode, direct_b_count, to_words, tail_words}
use file_system_fuse.Inode.Layout.{Fits, other_tail}
use file_system_fuse.FileMap.Add.{new_direct, direct_run}
use file_system_fuse.Transfer.{add_blocks}
use file_system_fuse.Transfer.Holds.{Holds, Kept, Kept-refl, Kept-trans, Allocated-Kept}

-- `new` has the blocks of `inode` and `m` more, which are zero.
pub record Grown (m : ℕ) (inode : Inode) (s : Fs) (ns : List ℕ) (blk : ℕ → ℕ) (new : Inode)
    (s' : Fs) (ns' : List ℕ) (blk' : ℕ → ℕ) : Type 0 where
  pub holds : Holds new s' ns' blk'
  pub kept : Kept s ns s' ns'
  pub members :
      new ≡ record inode { direct_blocks = new.direct_blocks; num_blocks = inode.num_blocks + m }
  pub before : (k : ℕ) → k < inode.num_blocks → blk' k ≡ blk k
  pub zeros : (k : ℕ) → inode.num_blocks ≤ k → k < inode.num_blocks + m → IsZero (s'.disk (blk' k))
  pub taken :
      (k : ℕ) → inode.num_blocks ≤ k → k < inode.num_blocks + m → 0 < free_count s.disk ns (blk' k)

-- One block more.
abbrev pub extend : (ℕ → ℕ) → ℕ → ℕ → ℕ → ℕ
extend blk n d k = if k == n then d else blk k

All-set :
    (xs ys : List ℕ) (i v : ℕ)
    → v < 2 ^ 64
    → All (λ w. w < 2 ^ 64) (xs ++ ys)
    → All (λ w. w < 2 ^ 64) (set xs i v ++ ys)
All-set [] ys i v h a = a
All-set (x ∷ xs) ys zero v h (a, rest) = (h, rest)
All-set (x ∷ xs) ys (suc i) v h (a, rest) = (a, All-set xs ys i v h rest)

module _ {inode : Inode} {s : Fs} {ns : List ℕ} {blk : ℕ → ℕ} (h : Holds inode s ns blk)
    (room : inode.num_blocks < direct_b_count) {d : ℕ} {t : Fs} {ms : List ℕ}
    (al : Allocated s ns d t ms) where
  abbrev pub new : Inode
  new = new_direct inode d s h.fits.directs

  word_size : d < 2 ^ 64
  word_size = omega (arith, al.data_block)

  new-Fits : Fits new
  unfolding to_words
  new-Fits = record {
    directs = length-set inode.direct_blocks inode.num_blocks d ∙ h.fits.directs;
    words =
        other_tail (set inode.direct_blocks inode.num_blocks d) (tail_words inode) (tail_words new)
          (All-set inode.direct_blocks (tail_words inode) inode.num_blocks d word_size h.fits.words)
          (λ a. omega (arith, a));
    mode = h.fits.mode;
  }

  nonzero : d ≢ 0
  nonzero = omega (arith, al.data_block)

  -- The new block was free once.
  pub was_free : free_count s.disk ns d ≡ 1
  was_free = ground (arith, al.taken d nonzero, h.list.once d nonzero)

  not_free : free_count t.disk ms d ≡ 0
  not_free = ground (arith, al.taken d nonzero, was_free)

  pub fresh : (k : ℕ) → k < inode.num_blocks → blk k ≢ d
  fresh k l e =
      let free : free_count s.disk ns (blk k) ≡ 1 = rw e was_free in
      absurd (omega (arith, free, h.not_free k l))

  still : (k : ℕ) → k < inode.num_blocks → free_count t.disk ms (blk k) ≡ 0
  still k l =
      ((Allocated-Kept al).held (blk k) (omega (arith, h.data_block k l)) (h.not_free k l)).1

  pub new_count : new.num_blocks ≡ inode.num_blocks + 1
  new_count = omega (arith, room)

  below : (k : ℕ) → k < new.num_blocks → (k == inode.num_blocks) ≡ false → k < inode.num_blocks
  below k l e = let ne = ==→ne _ _ e in omega (arith, l, ne, new_count)

  pub new-Holds : Holds new t ms (extend blk inode.num_blocks d)
  new-Holds = record {
    list = al.order;
    fits = new-Fits;
    few = omega (arith, room, new_count);
    at = λ k l. elim (Bool-cases (k == inode.num_blocks)) [
      | inl e ↦ rw e (
          rw (==→eq _ _ e) (
            get_elem?-set_self inode.direct_blocks inode.num_blocks d
              (omega (arith, h.fits.directs, room))))
      | inr e ↦ rw e (
          get_elem?-set_ne inode.direct_blocks inode.num_blocks k d (λ q. ==→ne _ _ e (sym q))
          ∙ h.at k (below k l e))
    ];
    data_block = λ k l. elim (Bool-cases (k == inode.num_blocks)) [
      | inl e ↦ rw e al.data_block
      | inr e ↦ rw e (h.data_block k (below k l e))
    ];
    once = λ j k l m ne. elim (Bool-cases (j == inode.num_blocks)) [
      | inl e ↦ elim (Bool-cases (k == inode.num_blocks)) [
        | inl f ↦ absurd (ne (==→eq _ _ e ∙ sym (==→eq _ _ f)))
        | inr f ↦ rw (e, f) (λ q. fresh k (below k m f) (sym q))
      ]
      | inr e ↦ elim (Bool-cases (k == inode.num_blocks)) [
        | inl f ↦ rw (e, f) (fresh j (below j l e))
        | inr f ↦ rw (e, f) (h.once j k (below j l e) (below k m f) ne)
      ]
    ];
    not_free = λ k l. elim (Bool-cases (k == inode.num_blocks)) [
      | inl e ↦ rw e not_free
      | inr e ↦ rw e (still k (below k l e))
    ];
  }

  pub step-Grown : Grown 1 inode s ns blk new t ms (extend blk inode.num_blocks d)
  step-Grown = record {
    holds = new-Holds;
    kept = Allocated-Kept al;
    members = ap (λ c. record new { num_blocks = c }) new_count;
    before = λ k l. let e : (k == inode.num_blocks) ≡ false = ground (arith, l) in rw e refl;
    zeros = λ k l m. let e : (k == inode.num_blocks) ≡ true = ground (arith, l, m) in rw e al.zeros;
    taken = λ k l m.
        let e : (k == inode.num_blocks) ≡ true = ground (arith, l, m) in
        rw e (omega (arith, was_free));
  }

-- What is free after a block was added was so before.
was_taken :
    {m : ℕ} {inode new : Inode} {s t : Fs} {ns ms : List ℕ} {blk b : ℕ → ℕ}
    → Grown m inode s ns blk new t ms b
    → (a : ℕ) → a ≢ 0
    → 0 < free_count t.disk ms a
    → 0 < free_count s.disk ns a
was_taken {s = s} {ns = ns} p a z l = elim (Bool-cases (free_count s.disk ns a == 0)) [
  | inl e ↦ absurd (omega (arith, l, (p.kept.held a z (==→eq _ _ e)).1))
  | inr e ↦ omega (arith, ==→ne _ _ e)
]

Grown-step :
    {m : ℕ} {inode new last : Inode} {s t u : Fs} {ns ms ks : List ℕ} {blk b c : ℕ → ℕ}
    → Grown 1 inode s ns blk new t ms b
    → Grown m new t ms b last u ks c
    → Grown (suc m) inode s ns blk last u ks c
Grown-step {m} {inode} {new} {last} {b = b} {c = c} p q =
    let n1 : new.num_blocks ≡ inode.num_blocks + 1 = ap (λ (i : Inode). i.num_blocks) p.members in
    record {
      holds = q.holds;
      kept = Kept-trans p.kept q.kept;
      members =
          q.members
          ∙ ap₂ (λ (i : Inode) c. record i { direct_blocks = last.direct_blocks; num_blocks = c })
              p.members (omega (arith, n1));
      before = λ k l. q.before k (omega (arith, n1, l)) ∙ p.before k l;
      zeros = λ k l r. elim (Bool-cases (k == inode.num_blocks)) [
        | inl e ↦
            let in_new : k < new.num_blocks = omega (arith, n1, ==→eq _ _ e) in
            let own = p.holds.data_block k in
            rw
              (
                q.before k in_new,
                (q.kept.held (b k) (omega (arith, own in_new)) (p.holds.not_free k in_new)).0,
              )
              (p.zeros k l (omega (arith, n1, in_new)))
        | inr e ↦ q.zeros k (omega (arith, n1, l, ==→ne _ _ e)) (omega (arith, n1, r))
      ];
      taken = λ k l r. elim (Bool-cases (k == inode.num_blocks)) [
        | inl e ↦
            let in_new : k < new.num_blocks = omega (arith, n1, ==→eq _ _ e) in
            rw (q.before k in_new) (p.taken k l (omega (arith, n1, in_new)))
        | inr e ↦
            was_taken p (c k)
              (omega (
                arith,
                q.holds.data_block k
                    (omega (arith, ap (λ (i : Inode). i.num_blocks) q.members, n1, r)),
              ))
              (q.taken k (omega (arith, n1, l, ==→ne _ _ e)) (omega (arith, n1, r)))
      ];
    }

-- Either the blocks are added, or the free list is empty and none are left.
pub data Result (m : ℕ) (inode : Inode) (s : Fs) (ns : List ℕ) (blk : ℕ → ℕ) : Type 0 where
  grown :
      (new : Inode) (s' : Fs) (ns' : List ℕ) (blk' : ℕ → ℕ)
      → add_blocks m inode s ≡ ok (some new) s'
      → Grown m inode s ns blk new s' ns' blk'
      → Result m inode s ns blk
  full :
      (s' : Fs)
      → add_blocks m inode s ≡ ok none s'
      → s'.super_block.free_list_head ≡ 0
      → Result m inode s ns blk

none-Grown :
    {inode : Inode} {s : Fs} {ns : List ℕ} {blk : ℕ → ℕ}
    → Holds inode s ns blk
    → Grown 0 inode s ns blk inode s ns blk
none-Grown {inode} {s} {ns} h = record {
  holds = h;
  kept = Kept-refl s ns;
  members = ap (λ c. record inode { num_blocks = c }) (omega arith);
  before = λ k l. refl;
  zeros = λ k l r. absurd (omega arith);
  taken = λ k l r. absurd (omega arith);
}

data_block_pos : (d : ℕ) → IsDataBlock d → sle d 0 ≡ false
unfolding sle
data_block_pos d h = ground arith

-- One round of the loop.
round :
    (m : ℕ) {inode : Inode} {s : Fs} {ns : List ℕ} {blk : ℕ → ℕ} (h : Holds inode s ns blk)
    (room : inode.num_blocks < direct_b_count) {d : ℕ} {t : Fs} {ms : List ℕ}
    → create_new_dblock s ≡ ok d t
    → (al : Allocated s ns d t ms) → add_blocks (suc m) inode s ≡ add_blocks m (new h room al) t
unfolding add_blocks
round m {inode} h room {d} {t} run al =
    rw (run, data_block_pos d al.data_block, direct_run inode d t h.fits.directs room) refl

more :
    (m : ℕ) {inode : Inode} {s : Fs} {ns : List ℕ} {blk : ℕ → ℕ} (h : Holds inode s ns blk)
    (room : inode.num_blocks < direct_b_count) {d : ℕ} {t : Fs} {ms : List ℕ}
    → create_new_dblock s ≡ ok d t
    → (al : Allocated s ns d t ms) → Result m (new h room al) t ms (extend blk inode.num_blocks d)
    → Result (suc m) inode s ns blk
more m h room run al (grown last u ks c rest g) =
    grown last u ks c (round m h room run al ∙ rest) (Grown-step (step-Grown h room al) g)
more m h room run al (full u rest e) = full u (round m h room run al ∙ rest) e

stops :
    (m : ℕ) (inode : Inode) (s : Fs)
    → s.super_block.free_list_head ≡ 0
    → add_blocks (suc m) inode s ≡ ok none s
unfolding add_blocks sle
stops m inode s e = rw (create_new_dblock-full s e) refl

pub add_blocks_lem :
    (m : ℕ) {inode : Inode} {s : Fs} {ns : List ℕ} {blk : ℕ → ℕ}
    → Holds inode s ns blk
    → inode.num_blocks + m ≤ direct_b_count
    → Result m inode s ns blk
unfolding add_blocks
add_blocks_lem zero {inode} {s} {ns} {blk} h l = grown inode s ns blk refl (none-Grown h)
add_blocks_lem (suc m) {inode} {s} {ns} h l =
    elim (Bool-cases (s.super_block.free_list_head == 0)) [
      | inl e ↦ full s (stops m inode s (==→eq _ _ e)) (==→eq _ _ e)
      | inr e ↦
          let (d, t, ms, run, al) = create_new_dblock-Allocated s ns h.list (==→ne _ _ e) in
          let room : inode.num_blocks < direct_b_count = omega (arith, l) in
          more m h room run al (add_blocks_lem m (new-Holds h room al) (omega (arith, l, room)))
    ]
