-- ===== src/Cache/Evict.antt =====
-- When the cache is full, the node at its end is freed, but the map keeps its address.
use file_system_fuse.Base.{
  ==→ne, ==→eq, ℕ, suc, ◌+◌, ◌<◌, ◌≡◌, ◌≢◌, ◌∙◌, refl, sym, ap, true, Option, none, some, inl, inr,
  Bool-cases, ◌==◌, arith, eq→==, ne→==,
}
use file_system_fuse.Base.Ssize.{slt, add_ssize, sub_ssize}
use file_system_fuse.FilePath.{Chars}
use file_system_fuse.State.{done, crash}
use file_system_fuse.Cache.{
  Node, Cache, update, load_node, store_node, set_next, delete_node, free_node, find_node,
  hash_index, find_key, new_node, add_front, set_cache, get_cache,
}
use file_system_fuse.Cache.Lookup.{above, index, first, set_prev-in}

-- A node that is linked and was not freed.
abbrev pub IsLive : Cache → ℕ → Node → Type 0
IsLive c p n = (0 < p) × (p < c.fresh) × (c.node p ≡ some n)

update_ne : {A : Type 0} (f : ℕ → A) (p q : ℕ) (v : A) → q ≢ p → update f p v q ≡ f q
unfolding update
update_ne f p q v h = rw (ne→== q p h) refl

update_self : {A : Type 0} (f : ℕ → A) (p : ℕ) (v : A) → update f p v p ≡ v
unfolding update
update_self f p v = rw (eq→== p p refl) refl

load_node-in : (c : Cache) (p : ℕ) (n : Node) → 0 < p → c.node p ≡ some n → load_node p c ≡ done n c
unfolding load_node
load_node-in c p n h e = rw (ne→== p 0 (omega (arith, h)), e) refl

free_node-in :
    (c : Cache) (p : ℕ) (n : Node)
    → 0 < p
    → c.node p ≡ some n
    → free_node p c ≡ done tt (record c { node = update c.node p none })
unfolding free_node store_node
free_node-in c p n h e = rw (load_node-in c p n h e) refl

load_node-freed : (c : Cache) (p : ℕ) → c.node p ≡ none → load_node p c ≡ crash
unfolding load_node
load_node-freed c p freed = elim (Bool-cases (p == 0)) [
  | inl e ↦ rw e refl
  | inr e ↦ rw (e, freed) refl
]

find_node-freed :
    (n p : ℕ) (key : Chars) (c : Cache)
    → 0 < p
    → c.node p ≡ none
    → find_node (suc n) p key c ≡ crash
unfolding find_node
find_node-freed n p key c h freed =
    rw (ne→== p 0 (omega (arith, h)), load_node-freed c p freed) refl

-- A search that starts at a node that was freed.
get_cache-freed :
    (c : Cache) (key : Chars)
    → c.capacity ≢ 0
    → 0 < c.fresh
    → 0 < c.map (index c key)
    → c.node (c.map (index c key)) ≡ none
    → get_cache (some key) c ≡ crash
unfolding get_cache find_key hash_index
get_cache-freed c key some_place h p freed =
    let (n, more) = above 0 c.fresh h in
    let search : find_node c.fresh (c.map (index c key)) key c ≡ crash =
      ap (λ m. find_node m (c.map (index c key)) key c) more
      ∙ find_node-freed n (c.map (index c key)) key c p freed in
    rw (ne→== c.capacity 0 some_place, search) refl

module _ (c : Cache) (key : Chars) (value : ℕ) (some_place : c.capacity ≢ 0)
    (unknown : find_key key c ≡ done 0 c) (full : slt c.capacity (add_ssize c.size 1) ≡ true)
    (head last before : Node) (head_live : IsLive c c.head head) (last_live : IsLive c c.tail last)
    (before_live : IsLive c last.prev before) (end : last.next ≡ 0) (two : c.tail ≢ c.head)
    (acyclic : last.prev ≢ c.tail) where
  -- The nodes with the new one in front.
  abbrev linked : ℕ → Option Node
  linked =
      update (update c.node c.fresh (some (first c key value))) c.head
        (some (record head { prev = c.fresh }))

  -- The cache before the last node is deleted.
  abbrev grown : Cache
  grown = record c { node = linked; fresh = c.fresh + 1; head = c.fresh; size = add_ssize c.size 1 }

  last_linked : linked c.tail ≡ some last
  last_linked =
      update_ne _ c.head c.tail _ two
      ∙ update_ne c.node c.fresh c.tail _ (omega (arith, last_live.1))
      ∙ last_live.2

  before_linked : (n : Node) × (linked last.prev ≡ some n)
  before_linked = elim (Bool-cases (last.prev == c.head)) [
    | inl e ↦ (record head { prev = c.fresh }, ap linked (==→eq _ _ e) ∙ update_self _ c.head _)
    | inr e ↦ (
      before,
      update_ne _ c.head last.prev _ (==→ne _ _ e)
          ∙ update_ne c.node c.fresh last.prev _ (omega (arith, before_live.1))
          ∙ before_live.2,
    )
  ]

  -- The last node is freed, and nothing in the map changes.
  delete_last :
      (node : ℕ → Option Node) × (node c.tail ≡ none)
      × (delete_node c.tail grown ≡ done tt (record grown { node = node; tail = last.prev }))
  unfolding delete_node set_next store_node
  delete_last =
      let (n, there) = before_linked in
      let changed : ℕ → Option Node =
        update linked last.prev (some (record n { next = last.next })) in
      let still : changed c.tail ≡ some last =
        update_ne linked last.prev c.tail _ (λ e. acyclic (sym e)) ∙ last_linked in
      (
        update changed c.tail none,
        update_self changed c.tail none,
        rw
            (
              load_node-in grown c.tail last last_live.0 last_linked,
              ne→== c.tail c.fresh (omega (arith, last_live.1)),
              eq→== c.tail c.tail refl,
              ne→== last.prev 0 (omega (arith, before_live.0)),
              load_node-in (record grown { tail = last.prev }) last.prev n before_live.0 there,
              eq→== last.next 0 end,
            )
            (free_node-in (record grown { node = changed; tail = last.prev }) c.tail last
              last_live.0 still),
      )

  -- A key that is not found is put into a full cache of at least two live nodes. Then the search of a
  -- key whose place in the map has the address of the last node, and is not the place of the new key,
  -- uses memory that was freed.
  pub get_cache-evicted :
      (other : Chars)
      → c.map (index c other) ≡ c.tail
      → index c other ≢ index c key
      → (c' : Cache) × (set_cache (some key) value c ≡ done tt c')
        × (get_cache (some other) c' ≡ crash)
  unfolding set_cache hash_index add_front new_node
  get_cache-evicted other mapped apart =
      let (node, gone, run) = delete_last in
      let c' : Cache = record grown {
        node = node;
        tail = last.prev;
        size = sub_ssize (add_ssize c.size 1) 1;
        map = update c.map (index c key) c.fresh;
      } in
      let place : c'.map (index c' other) ≡ c.tail =
        update_ne c.map (index c key) (index c other) c.fresh apart ∙ mapped in
      (
        c',
        rw
            (
              ne→== c.capacity 0 some_place,
              unknown,
              ne→== c.head 0 (omega (arith, head_live.0)),
              set_prev-in
                  (record c {
                    node = update c.node c.fresh (some (first c key value));
                    fresh = c.fresh + 1;
                  })
                  c.head c.fresh head (omega (arith, head_live.0))
                  (update_ne c.node c.fresh c.head _ (omega (arith, head_live.1)) ∙ head_live.2),
              ne→== c.tail 0 (omega (arith, last_live.0)),
              full,
              run,
            )
            refl,
        get_cache-freed c' other some_place (omega arith) (rw place last_live.0) (rw place gone),
      )
