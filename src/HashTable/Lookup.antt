-- ===== src/HashTable/Lookup.antt =====
-- What is found in a hash table after an insertion and after a removal.
use file_system_fuse.Base.{
  ℕ, ◌%◌, ◌^◌, ◌≤◌, ◌<◌, ◌≡◌, ◌≢◌, ◌∙◌, refl, ap, true, false, Option, none, some, if◌then◌else◌,
  ◌==◌, inl, inr, Bool-cases, Option-cases, arith, ltb,
}
use file_system_fuse.FilePath.{Chars, same}
use file_system_fuse.State.{done}
use file_system_fuse.Cache.{update}
use file_system_fuse.HashTable.{
  get_hash, HashTable, init_hash_table, get_index, int_minus_one, hash_find, hash_insert,
  hash_remove,
}

-- A table whose hashes are places, and that has a key wherever it has a value.
pub record IsTable (t : HashTable) : Type 0 where
  pub some_place : 0 < t.size
  pub places : t.size ≤ 2 ^ 31
  pub keyed : (i : ℕ) → t.keys i ≡ none → t.values i ≡ 0

abbrev pub index : HashTable → Chars → ℕ
index t key = get_hash key % t.size

-- The value of a key in its place, or -1.
abbrev pub value_in : Option Chars → (value : ℕ) → Chars → ℕ
value_in none value key = int_minus_one
value_in (some k) value key =
    if value == 0 then int_minus_one else if same k key then value else int_minus_one

abbrev pub value_of : HashTable → Chars → ℕ
value_of t key = value_in (t.keys (index t key)) (t.values (index t key)) key

get_index_lem : (t : HashTable) (key : Chars) → IsTable t → get_index key t ≡ done (index t key) t
unfolding get_index
get_index_lem t key h =
    let some_size : (t.size == 0) ≡ false = ground (arith, h.some_place) in
    let small : ltb (get_hash key % t.size) (2 ^ 31) ≡ true =
      ground (arith, h.some_place, h.places) in
    rw (some_size, small) refl

-- The search of a key returns its value, or -1, and does not touch a null key.
pub hash_find_lem :
    (t : HashTable) (key : Chars) → IsTable t → hash_find key t ≡ done (value_of t key) t
unfolding hash_find
hash_find_lem t key h = rw (get_index_lem t key h) (elim (Option-cases (t.keys (index t key))) [
  | inl null ↦
      let no_value : (t.values (index t key) == 0) ≡ true =
        ground (arith, h.keyed (index t key) null) in
      rw (no_value, null) refl
  | inr (k, there) ↦ elim (Bool-cases (t.values (index t key) == 0)) [
    | inl zero_value ↦ rw (zero_value, there, zero_value) refl
    | inr other ↦ rw (other, there, other) refl
  ]
])

pub init_hash_table-IsTable : (size : ℕ) → 0 < size → size ≤ 2 ^ 31 → IsTable (init_hash_table size)
unfolding init_hash_table
init_hash_table-IsTable size h k = record { some_place = h; places = k; keyed = λ i e. refl }

-- A table with one place changed.
abbrev pub with_place : HashTable → (i : ℕ) → Option Chars → (value : ℕ) → HashTable
with_place t i key value = record t { values = update t.values i value; keys = update t.keys i key }

with_place-IsTable :
    (t : HashTable) (i : ℕ) (key : Option Chars) (value : ℕ)
    → IsTable t
    → (key ≡ none → value ≡ 0)
    → IsTable (with_place t i key value)
unfolding update
with_place-IsTable t i key value h k = record {
  some_place = h.some_place;
  places = h.places;
  keyed = λ j. elim (Bool-cases (j == i)) [ inl e ↦ rw e k | inr e ↦ rw e (h.keyed j) ];
}

-- Only the keys of that place see the change.
value_of-with_place :
    (t : HashTable) (i : ℕ) (key : Option Chars) (value : ℕ) (other : Chars)
    → value_of (with_place t i key value) other
      ≡ (if index t other == i then value_in key value other else value_of t other)
unfolding update
value_of-with_place t i key value other = elim (Bool-cases (index t other == i)) [
  | inl e ↦ rw e refl
  | inr e ↦ rw e refl
]

some-none : {k : Chars} → some k ≢ none
some-none h = cc

-- An insertion keeps the table in order; then the key has the value, if that is not 0, a key with
-- another place the value it had, and a different key with the same place none any more.
pub hash_find-hash_insert :
    (t : HashTable) (key other : Chars) (value : ℕ)
    → IsTable t
    → (t' : HashTable) × (hash_insert key value t ≡ done tt t')
      × IsTable t'
      × (hash_find other t'
          ≡ done
              (if index t other == index t key
                then (if value == 0
                    then int_minus_one
                    else if same key other
                    then value
                    else int_minus_one)
                else value_of t other)
              t')
unfolding hash_insert
hash_find-hash_insert t key other value h =
    let t' : HashTable = with_place t (index t key) (some key) value in
    let good : IsTable t' =
      with_place-IsTable t (index t key) (some key) value h (λ e. absurd (some-none e)) in
    (
      t',
      rw (get_index_lem t key h) refl,
      good,
      hash_find_lem t' other good
          ∙ ap (λ v. done v t') (value_of-with_place t (index t key) (some key) value other),
    )

-- A removal keeps the table in order; then no key with the place of the key is found, and all others
-- have the values they had.
pub hash_find-hash_remove :
    (t : HashTable) (key other : Chars)
    → IsTable t
    → (t' : HashTable) × (hash_remove key t ≡ done tt t')
      × IsTable t'
      × (hash_find other t'
          ≡ done (if index t other == index t key then int_minus_one else value_of t other) t')
unfolding hash_remove
hash_find-hash_remove t key other h =
    let t' : HashTable = with_place t (index t key) none 0 in
    let good : IsTable t' = with_place-IsTable t (index t key) none 0 h (λ e. refl) in
    (
      t',
      rw (get_index_lem t key h) refl,
      good,
      hash_find_lem t' other good
          ∙ ap (λ v. done v t') (value_of-with_place t (index t key) none 0 other),
    )
