-- ===== src/Cache.antt =====
-- lib/lru_cache.c: the cache from paths to inode numbers, with its nodes at addresses. `malloc`
-- gives a fresh address, and an address that was freed is never given again. What reads or writes
-- through a null pointer, or through one to a node that was freed, crashes.
pub mod Lookup
pub mod Evict
mod Tests
use file_system_fuse.Base.{
  ℕ, zero, suc, ◌+◌, ◌-◌, ◌*◌, ◌%◌, ◌^◌, Bool, true, false, Option, none, some, [], ◌∷◌, ◌==◌,
  if◌then◌else◌, ltb,
}
use file_system_fuse.Base.Ssize.{slt, minus_one, add_ssize, sub_ssize}
use file_system_fuse.FilePath.{Chars, same}
use file_system_fuse.State.{Cmd, done, crash, no_fuel, return, ◌>>=◌, ◌>>◌, get}

-- `struct node`; 0 is the null pointer.
pub record Node : Type 0 where
  pub key : Chars
  pub value : ℕ
  pub prev : ℕ
  pub next : ℕ

-- `struct lru_cache`, the nodes, and the next address that `malloc` gives.
pub record Cache : Type 0 where
  pub node : ℕ → Option Node
  pub fresh : ℕ
  pub head : ℕ
  pub tail : ℕ
  pub size : ℕ
  pub capacity : ℕ
  pub map : ℕ → ℕ

-- A `char` that is added to an `unsigned long`.
abbrev pub char_word : ℕ → ℕ
char_word c = if ltb c 128 then c else c + 2 ^ 64 - 256

-- The loop of `djb2_hash`.
unfoldable pub hash_from : ℕ → Chars → ℕ
hash_from hash [] = hash
hash_from hash (c ∷ cs) = hash_from ((hash * 33 + char_word c) % 2 ^ 64) cs

unfoldable pub djb2_hash : Chars → ℕ
unfolding hash_from
djb2_hash str = hash_from 5_381 str

-- The cache at this address, and no nodes: what there was before is lost.
unfoldable pub create_cache : (capacity : ℕ) → Cmd Cache (Unit {0})
create_cache capacity c =
    done tt (record c { head = 0; tail = 0; size = 0; capacity = capacity; map = λ _. 0 })

unfoldable pub update : {A : Type 0} → (ℕ → A) → ℕ → A → ℕ → A
update f p v q = if q == p then v else f q

-- `*p`
unfoldable pub load_node : ℕ → Cmd Cache Node
load_node p c = if p == 0 then crash else elim (c.node p) [ none ↦ crash | some n ↦ done n c ]

unfoldable pub store_node : ℕ → Option Node → Cmd Cache (Unit {0})
store_node p n c = done tt (record c { node = update c.node p n })

unfoldable pub set_next : (p next : ℕ) → Cmd Cache (Unit {0})
set_next p next = do n ← load_node p; store_node p (some (record n { next = next }))

unfoldable pub set_prev : (p prev : ℕ) → Cmd Cache (Unit {0})
set_prev p prev = do n ← load_node p; store_node p (some (record n { prev = prev }))

abbrev pub set_head : ℕ → Cmd Cache (Unit {0})
set_head p c = done tt (record c { head = p })

abbrev pub set_tail : ℕ → Cmd Cache (Unit {0})
set_tail p c = done tt (record c { tail = p })

unfoldable pub free_node : ℕ → Cmd Cache (Unit {0})
free_node p = do load_node p; store_node p none

-- The loop of `free_list`.
unfoldable pub free_nodes : (fuel node : ℕ) → Cmd Cache (Unit {0})
free_nodes zero node = λ _. no_fuel
free_nodes (suc fuel) node =
    if node == 0 then return tt else do n ← load_node node; free_node node; free_nodes fuel n.next

-- The map and the struct are given back too, and are not used any more.
unfoldable pub free_cache : Cmd Cache (Unit {0})
free_cache = do c ← get; free_nodes c.fresh c.head

unfoldable pub delete_node : ℕ → Cmd Cache (Unit {0})
delete_node node = do
  c ← get
  n ← load_node node
  if node == c.head
      then set_head n.next
      else (if node == c.tail then set_tail n.prev else return tt)
  if n.prev == 0 then return tt else set_next n.prev n.next
  if n.next == 0 then return tt else set_prev n.next n.prev
  free_node node

-- The loop of `pop_cache`, `set_cache` and `get_cache`: from a node on, the first that has the key,
-- or the null pointer.
unfoldable pub find_node : (fuel curr : ℕ) → Chars → Cmd Cache ℕ
find_node zero curr key = λ _. no_fuel
find_node (suc fuel) curr key =
    if curr == 0
    then return 0
    else do n ← load_node curr; if same n.key key then return curr else find_node fuel n.next key

-- `djb2_hash(key) % cache->capacity`, a division by zero if the capacity is 0.
unfoldable pub hash_index : Chars → Cmd Cache ℕ
hash_index key c = if c.capacity == 0 then crash else done (djb2_hash key % c.capacity) c

-- The search from the place of the key in the map. A search that comes to more nodes than were ever
-- made comes to one twice, and does not end.
unfoldable pub find_key : Chars → Cmd Cache ℕ
find_key key = do index ← hash_index key; c ← get; find_node c.fresh (c.map index) key

abbrev pub set_map : (index p : ℕ) → Cmd Cache (Unit {0})
set_map index p c = done tt (record c { map = update c.map index p })

-- The node becomes the head.
unfoldable pub move_to_front : ℕ → Cmd Cache (Unit {0})
move_to_front curr = do
  c ← get
  if curr == c.head then return tt else do
    n ← load_node curr
    set_next n.prev n.next
    if curr == c.tail then set_tail n.prev else set_prev n.next n.prev
    set_prev curr 0
    set_next curr c.head
    set_prev c.head curr
    set_head curr

-- A key is a pointer, which may be null (`none`); -1 is true.
unfoldable pub pop_cache : Option Chars → Cmd Cache Bool
pop_cache none = return true
pop_cache (some key) = do
  index ← hash_index key
  curr ← find_key key
  if curr == 0 then return false else do delete_node curr; set_map index 0; return true

-- `malloc` for a node, which is not linked yet but to the head behind it.
unfoldable pub new_node : Chars → (value : ℕ) → Cmd Cache ℕ
new_node key value c = done c.fresh (record c {
  node =
      update c.node c.fresh (some (record { key = key; value = value; prev = 0; next = c.head }));
  fresh = c.fresh + 1;
})

abbrev pub set_size : ℕ → Cmd Cache (Unit {0})
set_size size c = done tt (record c { size = size })

-- The last part of `set_cache`: a new node at the front, for which the last node may have to go.
unfoldable pub add_front : Chars → (index value : ℕ) → Cmd Cache (Unit {0})
add_front key index value = do
  c ← get
  node ← new_node key value
  if c.head == 0 then return tt else set_prev c.head node
  set_head node
  if c.tail == 0 then set_tail node else return tt
  set_size (add_ssize c.size 1)
  d ← get
  if slt d.capacity d.size then delete_node d.tail >> set_size (sub_ssize d.size 1) else return tt
  set_map index node

unfoldable pub set_value : (p value : ℕ) → Cmd Cache (Unit {0})
set_value p value = do n ← load_node p; store_node p (some (record n { value = value }))

unfoldable pub set_cache : Option Chars → ℕ → Cmd Cache (Unit {0})
set_cache none value = return tt
set_cache (some key) value = do
  index ← hash_index key
  curr ← find_key key
  if curr == 0 then add_front key index value else set_value curr value >> move_to_front curr

unfoldable pub get_cache : Option Chars → Cmd Cache ℕ
get_cache none = return minus_one
get_cache (some key) = do
  curr ← find_key key
  if curr == 0 then return minus_one else do move_to_front curr; n ← load_node curr; return n.value
