-- ===== src/Cache/Tests.antt =====
-- An empty cache, and a full one with two nodes.
use file_system_fuse.Base.{◌≡◌, refl, none, some, inl, [], ◌∷◌, ◌==◌, if◌then◌else◌, arith}
use file_system_fuse.Base.Ssize.{slt}
use file_system_fuse.FilePath.{Chars}
use file_system_fuse.State.{done, crash}
use file_system_fuse.Cache.{
  Node, Cache, djb2_hash, hash_from, find_key, hash_index, find_node, set_cache, get_cache,
}
use file_system_fuse.Cache.Lookup.{get_cache-set_cache}
use file_system_fuse.Cache.Evict.{get_cache-evicted}

abbrev empty : Cache
empty = record {
  node = λ _. none;
  fresh = 1;
  head = 0;
  tail = 0;
  size = 0;
  capacity = 10;
  map = λ _. 0;
}

abbrev a : Chars
a = b'a' ∷ []

empty-unknown : find_key a empty ≡ done 0 empty
unfolding find_key hash_index find_node
empty-unknown = refl

get_cache-set_cache_example :
    (c' : Cache) × (set_cache (some a) 5 empty ≡ done tt c') × (get_cache (some a) c' ≡ done 5 c')
unfolding slt
get_cache-set_cache_example =
    get_cache-set_cache empty a 5 (omega arith) empty-unknown (omega arith) refl (inl refl)

abbrev first_node : Node
first_node = record { key = b'd' ∷ []; value = 6; prev = 0; next = 1 }

abbrev last_node : Node
last_node = record { key = a; value = 5; prev = 2; next = 0 }

-- Its last node, at address 1, is that of the even hashes.
abbrev full : Cache
full = record {
  node = λ p. if p == 1 then some last_node else if p == 2 then some first_node else none;
  fresh = 3;
  head = 2;
  tail = 1;
  size = 2;
  capacity = 2;
  map = λ i. if i == 0 then 1 else 0;
}

abbrev f : Chars
f = b'f' ∷ []

full-unknown : find_key f full ≡ done 0 full
unfolding find_key hash_index find_node djb2_hash hash_from
full-unknown = refl

get_cache-evicted_example :
    (c' : Cache) × (set_cache (some f) 7 full ≡ done tt c') × (get_cache (some a) c' ≡ crash)
unfolding slt djb2_hash hash_from
get_cache-evicted_example =
    get_cache-evicted full f 7 (omega arith) full-unknown refl first_node last_node first_node
      (omega arith, omega arith, refl) (omega arith, omega arith, refl)
      (omega arith, omega arith, refl) refl (omega arith) (omega arith) a refl (omega arith)
