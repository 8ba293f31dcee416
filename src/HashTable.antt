-- ===== src/HashTable.antt =====
-- lib/hash_table.c: a table from strings to `int` values with one place for each hash. Keys are
-- copied by `malloc` and `strcpy`. An `int` is its 32-bit pattern.
pub mod Lookup
mod Tests
use file_system_fuse.Base.{
  ltb, ◌-◌, ℕ, ◌+◌, ◌*◌, ◌%◌, ◌^◌, Bool, true, false, not, ◌&&◌, Option, none, some, ◌==◌,
  if◌then◌else◌,
}
use file_system_fuse.FilePath.{Chars, same}
use file_system_fuse.State.{put, Outcome, Cmd, done, crash, return, bind, ◌>>=◌, get}
use file_system_fuse.Cache.{djb2_hash, update}

-- `hash_table`; a null key is `none`.
pub record HashTable : Type 0 where
  pub keys : ℕ → Option Chars
  pub values : ℕ → ℕ
  pub size : ℕ

unfoldable pub init_hash_table : (size : ℕ) → HashTable
init_hash_table size = record { keys = λ _. none; values = λ _. 0; size = size }

-- The same function as `djb2_hash` of lib/lru_cache.c.
unfoldable pub get_hash : Chars → ℕ
get_hash str = djb2_hash str

-- `get_hash(key) % hash_map->size`, which is to fit an `int` that is not negative.
unfoldable pub get_index : Chars → Cmd HashTable ℕ
get_index key t =
    if t.size == 0
    then crash
    else if ltb (get_hash key % t.size) (2 ^ 31)
    then done (get_hash key % t.size) t
    else crash

abbrev pub int_minus_one : ℕ
int_minus_one = 2 ^ 32 - 1

unfoldable pub hash_find : Chars → Cmd HashTable ℕ
hash_find key = do
  index ← get_index key
  t ← get
  if t.values index == 0 then return int_minus_one else elim (t.keys index) [
    | none ↦ (λ _. crash)
    | some k ↦ return (if same k key then t.values index else int_minus_one)
  ]

unfoldable pub hash_insert : Chars → (value : ℕ) → Cmd HashTable (Unit {0})
hash_insert key value = do
  index ← get_index key
  t ← get
  put (record t { values = update t.values index value; keys = update t.keys index (some key) })

unfoldable pub hash_remove : Chars → Cmd HashTable (Unit {0})
hash_remove key = do
  index ← get_index key
  t ← get
  put (record t { values = update t.values index 0; keys = update t.keys index none })
