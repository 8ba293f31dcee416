-- ===== src/HashTable/Tests.antt =====
-- A table of ten places.
use file_system_fuse.Base.{◌≡◌, [], ◌∷◌, arith, if◌then◌else◌, ◌==◌}
use file_system_fuse.FilePath.{Chars, same}
use file_system_fuse.State.{done}
use file_system_fuse.HashTable.{HashTable, init_hash_table, int_minus_one, hash_find, hash_insert}
use file_system_fuse.HashTable.Lookup.{
  IsTable, index, value_of, init_hash_table-IsTable, hash_find-hash_insert,
}

abbrev table : HashTable
table = init_hash_table 10

abbrev ab : Chars
ab = b'a' ∷ b'b' ∷ []

abbrev cd : Chars
cd = b'c' ∷ b'd' ∷ []

hash_find-hash_insert_example :
    (t' : HashTable) × (hash_insert ab 7 table ≡ done tt t')
    × IsTable t'
    × (hash_find cd t'
        ≡ done
            (if index table cd == index table ab
              then (if 7 == 0 then int_minus_one else if same ab cd then 7 else int_minus_one)
              else value_of table cd)
            t')
hash_find-hash_insert_example =
    hash_find-hash_insert table ab cd 7 (init_hash_table-IsTable 10 (omega arith) (omega arith))
