-- ===== src/Resolve/Fuel.antt =====
-- Path resolution ends after the parents of the path, which are fewer than its characters.
use file_system_fuse.Base.{
  List, ℕ, zero, suc, ◌+◌, ◌<◌, ◌≤◌, ◌≡◌, ◌≢◌, ◌∙◌, ◌⊎◌, refl, ap, sym, none, some, [], ◌∷◌, ◌==◌,
  if◌then◌else◌, length, take, length-take, inl, inr, Bool-cases, Option-cases, arith,
}
use file_system_fuse.Base.Ssize.{slt, minus_one}
use file_system_fuse.FilePath.{Chars, same, parent_id_from, get_parent_id, get_parent_path}
use file_system_fuse.State.{return, ◌>>=◌}
use file_system_fuse.Cache.{get_cache}
use file_system_fuse.World.{W, on_cache}
use file_system_fuse.Resolve.{root_inode, resolve_child, get_inode_num_from_path}

parent_id_from-bound :
    (n : ℕ) (path : Chars)
    → n ≤ length path
    → (parent_id_from n path ≡ minus_one) ⊎ (parent_id_from n path + 1 < length path)
unfolding parent_id_from
parent_id_from-bound zero path h = inl refl
parent_id_from-bound (suc id) path h =
    ground (arith, h, parent_id_from-bound id path (omega (arith, h)))

none-some : {path : Chars} → none ≢ some path
none-some h = cc

some-value : {path path' : Chars} → some path ≡ some path' → path ≡ path'
some-value h = cc

-- A parent path is shorter.
parent-shorter :
    (path parent : Chars) → get_parent_path path ≡ some parent → length parent < length path
unfolding get_parent_path get_parent_id
parent-shorter path parent h =
    let pos : ℕ = parent_id_from (length path) path in
    elim (Bool-cases (pos == minus_one)) [
      | inl e ↦
          let top : get_parent_path path ≡ none = rw e refl in absurd (none-some (sym top ∙ h))
      | inr e ↦
          let cut : get_parent_path path ≡ some (take (pos + 1) path) = rw e refl in
          let short : pos + 1 < length path =
            ground (arith, e, parent_id_from-bound (length path) path (omega arith)) in
          rw (sym (some-value (sym cut ∙ h)))
            (omega (arith, short, length-take (pos + 1) path (omega (arith, short))))
    ]

-- The root's number for the path of the root, else the number in the cache, else what the last
-- command says.
abbrev pub known_or : Chars → W ℕ → W ℕ
known_or path other = if same path (b'/' ∷ []) then return root_inode else do
  cached_inode_num ← on_cache (get_cache (some path))
  if slt 0 cached_inode_num then return cached_inode_num else other

-- The parents of a path, from the nearest on, up to one that has none.
abbrev pub IsParents : Chars → List Chars → Type 0
IsParents path [] = get_parent_path path ≡ none
IsParents path (parent ∷ rest) = (get_parent_path path ≡ some parent) × IsParents parent rest

-- Path resolution along such a list, with no fuel.
abbrev pub resolve_along : Chars → List Chars → W ℕ
resolve_along path [] = known_or path (return minus_one)
resolve_along path (parent ∷ rest) =
    known_or path
      (do parent_inode_num ← resolve_along parent rest; resolve_child path parent_inode_num)

-- Path resolution is the walk along the list, with any more fuel than parents.
abbrev Walks : Chars → List Chars → Type 0
Walks path parents =
    (fuel : ℕ)
    → length parents < fuel
    → get_inode_num_from_path fuel path ≡ resolve_along path parents

top_walk : (path : Chars) → get_parent_path path ≡ none → Walks path []
unfolding get_inode_num_from_path
top_walk path top zero l = absurd (omega (arith, l))
top_walk path top (suc fuel) l = rw top refl

parent_walk :
    (path parent : Chars) (rest : List Chars)
    → get_parent_path path ≡ some parent
    → Walks parent rest
    → Walks path (parent ∷ rest)
unfolding get_inode_num_from_path
parent_walk path parent rest e walk zero l = absurd (omega (arith, l))
parent_walk path parent rest e walk (suc fuel) l = rw e (
    ap (λ (m : W ℕ). known_or path (do parent_inode_num ← m; resolve_child path parent_inode_num))
      (walk fuel (omega (arith, l))))

walk_below :
    (n : ℕ) (path : Chars)
    → length path ≤ n
    → (parents : List Chars) × IsParents path parents
      × (length parents ≤ length path)
      × Walks path parents
walk_below zero path l = elim (Option-cases (get_parent_path path)) [
  | inl top ↦ ([], top, omega arith, top_walk path top)
  | inr (parent, e) ↦ absurd (omega (arith, l, parent-shorter path parent e))
]
walk_below (suc n) path l = elim (Option-cases (get_parent_path path)) [
  | inl top ↦ ([], top, omega arith, top_walk path top)
  | inr (parent, e) ↦
      let shorter = parent-shorter path parent e in
      let (rest, chain, few, walk) = walk_below n parent (omega (arith, l, shorter)) in
      (parent ∷ rest, (e, chain), omega (arith, few, shorter), parent_walk path parent rest e walk)
]

-- Each path has a list of its parents, no longer than the path, and with more fuel than parents, path
-- resolution is the walk along that list, which needs no fuel.
pub get_inode_num_from_path-along :
    (path : Chars)
    → (parents : List Chars) × IsParents path parents
      × (length parents ≤ length path)
      × ((fuel : ℕ)
          → length parents < fuel
          → get_inode_num_from_path fuel path ≡ resolve_along path parents)
get_inode_num_from_path-along path = walk_below (length path) path (omega arith)
