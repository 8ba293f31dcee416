-- ===== src/Directory/Entered.antt =====
-- `add_new_entry` of a directory in direct blocks: the name is then found, and all others lead where
-- they led.
use file_system_fuse.Base.{
  zero_add, ℕ, suc, ◌^◌, ◌≤◌, ◌<◌, ◌≡◌, ◌≢◌, ◌∙◌, refl, sym, ap, subst, true, false, List, [], ◌∷◌,
  length, ◌==◌, inl, inr, Bool-cases, ==→eq, ==→ne, none, some, arith, All, if◌then◌else◌,
}
use file_system_fuse.Base.Ssize.{add_ssize}
use file_system_fuse.Bytes.{Block, zero_block}
use file_system_fuse.Fs.{Fs, write}
use file_system_fuse.Disk.{block_size}
use file_system_fuse.Disk.Laws.{write_self, write_ne}
use file_system_fuse.FilePath.{Chars, same_refl, same}
use file_system_fuse.FreeList.Chain.{free_count}
use file_system_fuse.FreeList.Create.{Allocated}
use file_system_fuse.Inode.{Inode, direct_b_count}
use file_system_fuse.Transfer.Grow.{was_free, fresh, new, new-Holds, extend}
use file_system_fuse.Transfer.Holds.{Holds, Allocated-Kept}
use file_system_fuse.Directory.{max_name_length, put_record}
use file_system_fuse.Directory.Records.{Entry, IsRecords}
use file_system_fuse.Directory.Write.{put_record-IsRecord}
use file_system_fuse.Directory.Added.{Inserted}
use file_system_fuse.Directory.Names.{
  number-names, same-eq, ApartFrom, number, names, names_self, names_more, names-congr,
  number-Inserted_self, number-Inserted_ne,
}
use file_system_fuse.Directory.Enter.{IsDirectory, Holds-resized, Holds-write}

-- The lists of entries with another one for block `k`.
abbrev pub put_at : (ℕ → List Entry) → ℕ → List Entry → ℕ → List Entry
put_at ents k es j = if j == k then es else ents j

put_at_self : (ents : ℕ → List Entry) (k : ℕ) (es : List Entry) → put_at ents k es k ≡ es
put_at_self ents k es = ground arith

put_at_ne : (ents : ℕ → List Entry) (k : ℕ) (es : List Entry) → ApartFrom k ents (put_at ents k es)
put_at_ne ents k es j h = ground (arith, h)

-- The directory `new` in `s'` is the one that was `inode` in `s`, with the name entered.
pub record Entered (inum : ℕ) (name : Chars) (inode : Inode) (s : Fs) (ns : List ℕ) (blk : ℕ → ℕ)
    (ents : ℕ → List Entry) (new : Inode) (s' : Fs) (ns' : List ℕ) (blk' : ℕ → ℕ)
    (ents' : ℕ → List Entry) : Type 0 where
  pub directory : IsDirectory new s' ns' blk' ents'
  pub view :
      (q : Chars)
      → names ents' new.num_blocks 0 q
        ≡ (if same q name then some inum else names ents inode.num_blocks 0 q)
  pub others :
      (a : ℕ)
      → a ≢ 0
      → free_count s.disk ns a ≡ 0
      → ((k : ℕ) → k < inode.num_blocks → a ≢ blk k)
      → s'.disk a ≡ s.disk a
  pub per_block : s'.super_block.inodes_per_block ≡ s.super_block.inodes_per_block
  pub inode_count : s'.super_block.inode_count ≡ s.super_block.inode_count

module _ {inode : Inode} {s : Fs} {ns : List ℕ} {blk : ℕ → ℕ} {ents : ℕ → List Entry}
    (d : IsDirectory inode s ns blk ents) (inum : ℕ) (name : Chars) (nonzero : inum ≢ 0)
    (absent : names ents inode.num_blocks 0 name ≡ none) where
  -- Block `k` has a list with the entry inserted.
  module _ (k : ℕ) (below : k < inode.num_blocks) (c : Block) {es : List Entry}
      (ins : Inserted inum name (ents k) es) (records : IsRecords c 0 es) where
    pub in_place :
        Entered inum name inode s ns blk ents inode
          (record s { disk = write s.disk (blk k) c })
          ns
          blk
          (put_at ents k es)
    in_place = record {
      directory = record {
        holds = Holds-write d.holds k c below;
        dir = d.dir;
        records = λ j l. elim (Bool-cases (j == k)) [
          | inl e ↦ rw (e, ==→eq j k e, write_self s.disk (blk k) c) records
          | inr e ↦
              rw (e, write_ne s.disk (blk k) (blk j) c (d.holds.once j k l below (==→ne j k e)))
                (d.records j l)
        ];
      };
      view = λ q. elim (Bool-cases (same q name)) [
        | inl e ↦
            let p : q ≡ name = same-eq q name e in
            let here : number name (put_at ents k es k) ≡ some inum =
              ap (number name) (put_at_self ents k es)
              ∙ number-Inserted_self inum name nonzero ins (
                  number-names name ents k inode.num_blocks 0 (omega arith) (omega (arith, below))
                    absent) in
            rw (e, p)
              (names_self name ents (put_at ents k es) inum k inode.num_blocks 0
                (put_at_ne ents k es) here (omega arith) (omega (arith, below)) absent)
        | inr e ↦ rw e (
            names-congr q ents (put_at ents k es) inode.num_blocks 0 λ j l u.
              elim (Bool-cases (j == k)) [
                | inl f ↦ rw (f, ==→eq j k f) (number-Inserted_ne inum name q e ins)
                | inr f ↦ rw f refl
              ])
      ];
      others = λ a z f ne. write_ne s.disk (blk k) a c (ne k below);
      per_block = refl;
      inode_count = refl;
    }

  -- A block `e` is taken for the entry.
  module _ (room : inode.num_blocks < direct_b_count) (fits : inum < 2 ^ 64)
      (short : length name ≤ max_name_length) (bytes : All (λ ch. ch < 256) name) {e : ℕ} {t : Fs}
      {ms : List ℕ} (al : Allocated s ns e t ms) where
    abbrev pub fresh_block : Block
    fresh_block = put_record zero_block 0 inum block_size name

    abbrev pub only : List Entry
    only = record { inum = inum; size = block_size; name = name } ∷ []

    only-IsRecords : IsRecords fresh_block 0 only
    only-IsRecords = (
      put_record-IsRecord zero_block 0 inum block_size name fits (omega arith)
          (omega (arith, short)) bytes (omega (arith, short)) (omega arith),
      omega arith,
    )

    abbrev pub longer : Inode
    longer = record (new d.holds room al) { file_size = add_ssize inode.file_size block_size }

    abbrev pub end : Fs
    end = record t { disk = write t.disk e fresh_block }

    abbrev ents0 : ℕ → List Entry
    ents0 = put_at ents inode.num_blocks []

    abbrev pub ents1 : ℕ → List Entry
    ents1 = put_at ents inode.num_blocks only

    own : (inode.num_blocks == inode.num_blocks) ≡ true
    own = ground arith

    count : longer.num_blocks ≡ suc inode.num_blocks
    count = omega (arith, room)

    longer-Holds : Holds longer end ms (extend blk inode.num_blocks e)
    longer-Holds =
        let h1 =
          Holds-write (new-Holds d.holds room al) inode.num_blocks fresh_block
            (omega (arith, room)) in
        let at : extend blk inode.num_blocks e inode.num_blocks ≡ e = rw own refl in
        Holds-resized (add_ssize inode.file_size block_size) (omega arith) (
          subst
            (λ a.
              Holds (new d.holds room al) (record t { disk = write t.disk a fresh_block }) ms
                (extend blk inode.num_blocks e))
            at h1)

    end-IsRecords :
        (k : ℕ)
        → k < longer.num_blocks
        → IsRecords (end.disk (extend blk inode.num_blocks e k)) 0 (ents1 k)
    end-IsRecords k l = elim (Bool-cases (k == inode.num_blocks)) [
      | inl f ↦ rw (f, write_self t.disk e fresh_block) only-IsRecords
      | inr f ↦
          let below : k < inode.num_blocks = omega (arith, l, count, ==→ne k inode.num_blocks f) in
          let z : blk k ≢ 0 = omega (arith, d.holds.data_block k below) in
          rw
            (
              f,
              write_ne t.disk e (blk k) fresh_block (fresh d.holds room al k below),
              ((Allocated-Kept al).held (blk k) z (d.holds.not_free k below)).0,
            )
            (d.records k below)
    ]

    -- Without the new entry the names lead where they did.
    names_before :
        (q : Chars) → names ents0 (suc inode.num_blocks) 0 q ≡ names ents inode.num_blocks 0 q
    names_before q =
        names_more q ents0 inode.num_blocks 0
          (ap ents0 (zero_add inode.num_blocks) ∙ put_at_self ents inode.num_blocks [])
        ∙ names-congr q ents ents0 inode.num_blocks 0
            (λ j l u. ap (number q) (put_at_ne ents inode.num_blocks [] j (omega (arith, u))))

    number-only : number name only ≡ some inum
    unfolding number
    number-only =
        let z : (inum == 0) ≡ false = ground (arith, nonzero) in rw (z, same_refl name) refl

    number-same :
        (q : Chars) → same q name ≡ false → (j : ℕ) → number q (ents1 j) ≡ number q (ents0 j)
    unfolding number
    number-same q n j = elim (Bool-cases (j == inode.num_blocks)) [
      | inl f ↦
          rw f (elim (Bool-cases (inum == 0)) [ inl z ↦ rw (n, z) refl | inr z ↦ rw (n, z) refl ])
      | inr f ↦ rw f refl
    ]

    not_taken : (a : ℕ) → a ≢ 0 → free_count s.disk ns a ≡ 0 → a ≢ e
    not_taken a z f same_block =
        let once : free_count s.disk ns a ≡ 1 = rw same_block (was_free d.holds room al) in
        absurd (omega (arith, f, once))

    view_new :
        (q : Chars)
        → names ents1 (suc inode.num_blocks) 0 q
          ≡ (if same q name then some inum else names ents inode.num_blocks 0 q)
    view_new q = elim (Bool-cases (same q name)) [
      | inl f ↦
          let p : q ≡ name = same-eq q name f in
          rw (f, p)
            (names_self name ents0 ents1 inum inode.num_blocks (suc inode.num_blocks) 0
              (λ j h.
                put_at_ne ents inode.num_blocks only j h
                ∙ sym (put_at_ne ents inode.num_blocks [] j h))
              (ap (number name) (put_at_self ents inode.num_blocks only) ∙ number-only)
              (omega arith) (omega arith) (names_before name ∙ absent))
      | inr f ↦ rw f (
          names-congr q ents0 ents1 (suc inode.num_blocks) 0 (λ j l u. number-same q f j)
          ∙ names_before q)
    ]

    pub in_new :
        Entered inum name inode s ns blk ents longer end ms (extend blk inode.num_blocks e) ents1
    in_new = record {
      directory = record { holds = longer-Holds; dir = d.dir; records = end-IsRecords };
      view = λ q. ap (λ n. names ents1 n 0 q) count ∙ view_new q;
      others = λ a z f ne.
          write_ne t.disk e a fresh_block (not_taken a z f) ∙ ((Allocated-Kept al).held a z f).0;
      per_block = al.per_block;
      inode_count = al.inode_count;
    }
