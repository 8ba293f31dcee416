-- ===== src/Cache/Lookup.antt =====
-- The search for a key that was put into the cache.
use file_system_fuse.Base.{
  ℕ, zero, suc, ◌+◌, ◌%◌, ◌<◌, ◌≡◌, ◌≢◌, ◌∙◌, ◌⊎◌, refl, ap, false, Option, some, inl, inr,
  Bool-cases, ◌==◌, if◌then◌else◌, arith, eq→==, ne→==,
}
use file_system_fuse.Base.Ssize.{slt, add_ssize}
use file_system_fuse.FilePath.{Chars, same_refl}
use file_system_fuse.State.{return, done}
use file_system_fuse.Cache.{
  Node, Cache, djb2_hash, update, load_node, store_node, set_prev, find_node, hash_index, find_key,
  move_to_front, new_node, add_front, set_cache, get_cache,
}

abbrev pub index : Cache → Chars → ℕ
index c key = djb2_hash key % c.capacity

-- The place of the key in the map is the head, which has the key.
record IsFront (c : Cache) (key : Chars) (value next : ℕ) : Type 0 where
  some_place : (c.capacity == 0) ≡ false
  mapped : c.map (index c key) ≡ c.head
  real : (c.head == 0) ≡ false
  made : c.head < c.fresh
  node : c.node c.head ≡ some (record { key = key; value = value; prev = 0; next = next })

pub above : (m n : ℕ) → m < n → (k : ℕ) × (n ≡ suc k)
above m zero h = absurd (omega (arith, h))
above m (suc n) h = (n, refl)

load_front :
    (c : Cache) (key : Chars) (value next : ℕ)
    → IsFront c key value next
    → load_node c.head c ≡ done (record { key = key; value = value; prev = 0; next = next }) c
unfolding load_node
load_front c key value next f = rw (f.real, f.node) refl

find_node-front :
    (c : Cache) (key : Chars) (value next n : ℕ)
    → IsFront c key value next
    → find_node (suc n) c.head key c ≡ done c.head c
unfolding find_node
find_node-front c key value next n f =
    rw (f.real, load_front c key value next f, same_refl key) refl

find_key-front :
    (c : Cache) (key : Chars) (value next : ℕ)
    → IsFront c key value next
    → find_key key c ≡ done c.head c
unfolding find_key hash_index
find_key-front c key value next f =
    let (n, more) = above c.head c.fresh f.made in
    rw (f.some_place, f.mapped)
      (ap (λ m. find_node m c.head key c) more ∙ find_node-front c key value next n f)

get_cache-front :
    (c : Cache) (key : Chars) (value next : ℕ)
    → IsFront c key value next
    → get_cache (some key) c ≡ done value c
unfolding get_cache move_to_front
get_cache-front c key value next f =
    rw
      (
        find_key-front c key value next f,
        f.real,
        eq→== c.head c.head refl,
        load_front c key value next f,
      )
      refl

pub set_prev-in :
    (c : Cache) (p q : ℕ) (n : Node)
    → p ≢ 0
    → c.node p ≡ some n
    → set_prev p q c ≡ done tt (record c { node = update c.node p (some (record n { prev = q })) })
unfolding set_prev load_node store_node
set_prev-in c p q n h e = rw (ne→== p 0 h, e) refl

-- The new node behind which the head goes.
abbrev pub first : Cache → Chars → (value : ℕ) → Node
first c key value = record { key = key; value = value; prev = 0; next = c.head }

module _ (c : Cache) (key : Chars) (value : ℕ) (some_place : c.capacity ≢ 0)
    (unknown : find_key key c ≡ done 0 c) (real : c.fresh ≢ 0)
    (room : slt c.capacity (add_ssize c.size 1) ≡ false) where
  -- Behind the new node, and with its address in the map.
  abbrev pub fronted : (node : ℕ → Option Node) → (tail : ℕ) → Cache
  fronted node tail = record c {
    node = node;
    fresh = c.fresh + 1;
    head = c.fresh;
    tail = tail;
    size = add_ssize c.size 1;
    map = update c.map (index c key) c.fresh;
  }

  IsFront-fronted :
      (node : ℕ → Option Node) (tail : ℕ)
      → node c.fresh ≡ some (first c key value)
      → IsFront (fronted node tail) key value c.head
  unfolding update
  IsFront-fronted node tail h = record {
    some_place = ne→== c.capacity 0 some_place;
    mapped = rw (eq→== (index c key) (index c key) refl) refl;
    real = ne→== c.fresh 0 real;
    made = omega arith;
    node = h;
  }

  -- With an empty cache, or a head that was not freed.
  module _
      (good : (c.head ≡ 0)
        ⊎ ((n : Node) × (0 < c.head) × (c.head < c.fresh) × (c.node c.head ≡ some n))) where
    -- With the new node made.
    abbrev made : (node : ℕ → Option Node) → Cache
    made node = record c { node = node; fresh = c.fresh + 1 }

    linked :
        (node : ℕ → Option Node) × (node c.fresh ≡ some (first c key value))
        × ((if c.head == 0 then return tt else set_prev c.head c.fresh)
              (made (update c.node c.fresh (some (first c key value))))
            ≡ done tt (made node))
    unfolding update
    linked = elim good [
      | inl null ↦ (
        update c.node c.fresh (some (first c key value)),
        rw (eq→== c.fresh c.fresh refl) refl,
        rw (eq→== c.head 0 null) refl,
      )
      | inr (n, positive, below, there) ↦
          let old : update c.node c.fresh (some (first c key value)) c.head ≡ some n =
            rw (ne→== c.head c.fresh (omega (arith, below))) there in
          (
            update (update c.node c.fresh (some (first c key value))) c.head
                (some (record n { prev = c.fresh })),
            rw (ne→== c.fresh c.head (omega (arith, below)), eq→== c.fresh c.fresh refl) refl,
            rw (ne→== c.head 0 (omega (arith, positive))) (
                set_prev-in (made (update c.node c.fresh (some (first c key value)))) c.head c.fresh
                  n (omega (arith, positive)) old),
          )
    ]

    add_front-run :
        (node : ℕ → Option Node) × (tail : ℕ) × (node c.fresh ≡ some (first c key value))
        × (add_front key (index c key) value c ≡ done tt (fronted node tail))
    unfolding add_front new_node
    add_front-run =
        let (node, there, run) = linked in
        elim (Bool-cases (c.tail == 0)) [
          | inl e ↦ (node, c.fresh, there, rw (run, e, room) refl)
          | inr e ↦ (node, c.tail, there, rw (run, e, room) refl)
        ]

    -- In a cache that is empty or has a live head, a key that is not found is put in while there is
    -- room, and is then found with its value.
    pub get_cache-set_cache :
        (c' : Cache) × (set_cache (some key) value c ≡ done tt c')
        × (get_cache (some key) c' ≡ done value c')
    unfolding set_cache hash_index
    get_cache-set_cache =
        let (node, tail, there, run) = add_front-run in
        (
          fronted node tail,
          rw (ne→== c.capacity 0 some_place, unknown) run,
          get_cache-front (fronted node tail) key value c.head (IsFront-fronted node tail there),
        )
