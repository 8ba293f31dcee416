-- ===== src/Operations/Root.antt =====
-- The file system that `init_file_layer` makes.
use file_system_fuse.Base.{
  ℕ, ◌+◌, ◌^◌, ◌<◌, ◌≡◌, ◌≢◌, ◌∙◌, refl, ap, true, List, [], ◌∷◌, some, arith,
}
use file_system_fuse.Fs.{Fs, ok}
use file_system_fuse.FreeList.Chain.{IsDataBlock, FreeList, free_count}
use file_system_fuse.Inode.{Inode, to_words, read_inode}
use file_system_fuse.Inode.Layout.{Fits}
use file_system_fuse.Inode.Store.{
  super_with_inode, IsGeometry, super_with_inode, inode_at, with_inode, read_inode-at,
  write_inode-at, inode_at_self, disk_with_inode,
}
use file_system_fuse.MakeFs.{blank, make_fs}
use file_system_fuse.MakeFs.Made.{Made, make_fs-Made}
use file_system_fuse.Directory.{is_dir}
use file_system_fuse.Directory.Records.{IsRecords}
use file_system_fuse.FileMap.{fblock_num_to_dblock_num}
use file_system_fuse.FileMap.Lookup.{lookup_direct}
use file_system_fuse.Directory.Find.{IsListing}
use file_system_fuse.State.{done}
use file_system_fuse.Cache.{create_cache}
use file_system_fuse.World.{World}
use file_system_fuse.Resolve.{root_inode}
use file_system_fuse.Operations.{add_dots, cache_size, root_of, init_file_layer}
use file_system_fuse.Operations.Dots.{dots, add_dots_lem}

-- A list that holds a block has a head.
some_head :
    (s : Fs) (ns : List ℕ) (a : ℕ)
    → FreeList s ns
    → 0 < free_count s.disk ns a
    → s.super_block.free_list_head ≢ 0
unfolding free_count
some_head s [] a f h = absurd (omega (arith, h))
some_head s (n ∷ ns) a f h = omega (arith, f.chain.0, f.chain.1)

-- The root directory with its block.
abbrev pub root_with : (junk : Inode) (time d : ℕ) → Inode
root_with junk time d = record (root_of time (blank junk)) {
  direct_blocks = d ∷ 0 ∷ 0 ∷ 0 ∷ 0 ∷ 0 ∷ 0 ∷ 0 ∷ 0 ∷ 0 ∷ [];
  num_blocks = 1;
  file_size = 4_096;
}

root_with-Fits :
    (junk : Inode) (time d : ℕ)
    → Fits (blank junk)
    → time < 2 ^ 64
    → d < 2 ^ 64
    → Fits (root_with junk time d)
unfolding to_words root_of
root_with-Fits junk time d f h k = record {
  directs = refl;
  words = omega (arith, f.words, h, k);
  mode = omega arith;
}

module _ (junk : Inode) (w : World) (fits : Fits (blank junk)) (clock : w.now w.calls < 2 ^ 64)
    (s1 : Fs) (ns : List ℕ) (made : make_fs true junk w.fs ≡ ok true s1) (m : Made junk s1 ns) where
  head_set : s1.super_block.free_list_head ≢ 0
  head_set = some_head s1 ns 3_000 m.list (ground (arith, m.all_free 3_000))

  read_root : read_inode root_inode s1 ≡ ok (some (blank junk)) s1
  read_root =
      read_inode-at s1 root_inode m.geometry (omega arith)
      ∙ ap (λ i. ok (some i) s1) (m.inodes root_inode (omega arith))

  -- The world before the entries are made.
  abbrev begun : World
  begun = record w { fs = s1; calls = w.calls + 1 }

  root_dots :
      (d : ℕ) × (s2 : Fs) × (add_dots root_inode (root_of (w.now w.calls) (blank junk)) begun
        ≡ done (true, root_with junk (w.now w.calls) d) (record begun { fs = s2 }))
      × IsDataBlock d
      × IsRecords (s2.disk d) 0 (dots root_inode)
      × IsGeometry s2.super_block
  unfolding root_of
  root_dots =
      let (d, s2, run, in_data, records, per_block, count, kept) =
        add_dots_lem root_inode (omega arith) (root_of (w.now w.calls) (blank junk)) refl refl refl
          begun ns m.list head_set in
      (
        d,
        s2,
        run,
        in_data,
        records,
        record { per_block = per_block ∙ m.geometry.per_block; count = count ∙ m.geometry.count },
      )

  -- The world with the root written and an empty cache.
  abbrev ended : (s2 : Fs) → (d : ℕ) → World
  ended s2 d = record begun {
    fs = with_inode s2 root_inode (root_with junk (w.now w.calls) d);
    cache = record (w.cache) { head = 0; tail = 0; size = 0; capacity = cache_size; map = λ _. 0 };
  }

  module _ (d : ℕ) (s2 : Fs)
      (run : add_dots root_inode (root_of (w.now w.calls) (blank junk)) begun
        ≡ done (true, root_with junk (w.now w.calls) d) (record begun { fs = s2 }))
      (in_data : IsDataBlock d) (records : IsRecords (s2.disk d) 0 (dots root_inode))
      (g : IsGeometry s2.super_block) where
    new-Fits : Fits (root_with junk (w.now w.calls) d)
    new-Fits = root_with-Fits junk (w.now w.calls) d fits clock (omega (arith, in_data))

    init_run : init_file_layer true junk w ≡ done true (ended s2 d)
    unfolding init_file_layer create_cache
    init_run =
        rw
          (
            made,
            read_root,
            run,
            write_inode-at s2 root_inode (root_with junk (w.now w.calls) d) g (omega arith),
          )
          refl

    own : inode_at (ended s2 d).fs root_inode ≡ root_with junk (w.now w.calls) d
    own = inode_at_self s2 root_inode (root_with junk (w.now w.calls) d) g (omega arith) new-Fits

    ended-IsGeometry : IsGeometry (ended s2 d).fs.super_block
    ended-IsGeometry =
        rw
          (super_with_inode s2 root_inode (root_with junk (w.now w.calls) d) g (omega arith)
            new-Fits)
          g

    lookup_root :
        (t : Fs) → fblock_num_to_dblock_num (root_with junk (w.now w.calls) d) 0 t ≡ ok d t
    unfolding root_of
    lookup_root t =
        lookup_direct (root_with junk (w.now w.calls) d) 0 t (omega arith) (omega arith) d
          (omega arith) refl

    root-IsListing :
        IsListing (root_with junk (w.now w.calls) d) (ended s2 d).fs 0 ((d, dots root_inode) ∷ [])
    root-IsListing = (
      lookup_root (ended s2 d).fs,
      in_data,
      rw
          (disk_with_inode s2 root_inode (root_with junk (w.now w.calls) d) g (omega arith) new-Fits
            d in_data.0)
          records,
      tt,
    )

    root_dir : is_dir (root_with junk (w.now w.calls) d).mode ≡ true
    unfolding root_of
    root_dir = refl

-- With enough memory, `init_file_layer` returns true and makes a file system whose root is a
-- directory with one block, that holds the entries "." and ".." for the root itself and nothing
-- else; the cache is empty and the super block has its constants.
pub init_file_layer_lem :
    (junk : Inode) (w : World)
    → Fits (blank junk)
    → w.now w.calls < 2 ^ 64
    → (w' : World) × (d : ℕ) × (init_file_layer true junk w ≡ done true w')
      × (inode_at w'.fs root_inode ≡ root_with junk (w.now w.calls) d)
      × (is_dir (root_with junk (w.now w.calls) d).mode ≡ true)
      × IsListing (root_with junk (w.now w.calls) d) w'.fs 0 ((d, dots root_inode) ∷ [])
      × (w'.cache.head ≡ 0)
      × ((i : ℕ) → w'.cache.map i ≡ 0)
      × IsGeometry w'.fs.super_block
init_file_layer_lem junk w fits clock =
    let (s1, ns, made, m) = make_fs-Made junk w.fs fits in
    let (d, s2, run, in_data, records, g) = root_dots junk w fits clock s1 ns made m in
    (
      ended junk w fits clock s1 ns made m s2 d,
      d,
      init_run junk w fits clock s1 ns made m d s2 run in_data records g,
      own junk w fits clock s1 ns made m d s2 run in_data records g,
      root_dir junk w fits clock s1 ns made m d s2 run in_data records g,
      root-IsListing junk w fits clock s1 ns made m d s2 run in_data records g,
      refl,
      λ i. refl,
      ended-IsGeometry junk w fits clock s1 ns made m d s2 run in_data records g,
    )
