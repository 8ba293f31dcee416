-- ===== src/FilePath/Split.antt =====
-- What `get_parent_path` and `get_child_name` make of a path.
use file_system_fuse.Base.{
  eq_nil, eq_singleton, get_or-drop, get_or-take, length-take, take-append-drop, length-drop, ℕ,
  zero, suc, ◌+◌, ◌-◌, ◌^◌, ◌<◌, ◌≤◌, ◌≡◌, ◌≢◌, ◌⊎◌, ◌∙◌, refl, sym, ap, true, false, inl, inr,
  some, none, [], ◌∷◌, ◌++◌, arith, ◌==◌, Bool-cases, ==→eq, ==→ne, length, get_or, take, drop,
}
use file_system_fuse.Base.Ssize.{minus_one}
use file_system_fuse.FilePath.{
  Chars, parent_id_from, get_parent_id, get_parent_path, name_end, get_child_name,
}

-- No slash from index `i` up to and without `j`, but for one at the end of the path.
abbrev NoSlash : Chars → ℕ → ℕ → Type 0
NoSlash path i j = (k : ℕ) → i ≤ k → k < j → k ≢ length path - 1 → get_or path k 0 ≢ b'/'

parent_id_from_lem :
    (n : ℕ) (path : Chars)
    → n < 2 ^ 63
    → ((parent_id_from n path ≡ minus_one) × NoSlash path 0 n)
      ⊎ ((parent_id_from n path < n)
          × (parent_id_from n path ≢ length path - 1)
          × (get_or path (parent_id_from n path) 0 ≡ b'/')
          × NoSlash path (parent_id_from n path + 1) n)
unfolding parent_id_from
parent_id_from_lem zero path b = inl (refl, λ k l u. absurd (omega arith))
parent_id_from_lem (suc id) path b = grind (arith, parent_id_from_lem id path (omega arith))

-- `path` is `parent`, `child`, and perhaps a slash: the parent ends in a slash and is shorter than
-- the path, and the child has no slash.
pub record IsSplit (path parent child : Chars) : Type 0 where
  pub rest : Chars
  pub whole : path ≡ parent ++ (child ++ rest)
  pub rest_slash : (rest ≡ []) ⊎ (rest ≡ b'/' ∷ [])
  pub parent_slash : get_or parent (length parent - 1) 0 ≡ b'/'
  pub shorter : (0 < length parent) × (length parent < length path)
  pub child_name : (k : ℕ) → k < length child → get_or child k 0 ≢ b'/'

module _ (path : Chars) (pos : ℕ) (inside : pos + 1 < length path)
    (slash : get_or path pos 0 ≡ b'/') (none_after : NoSlash path (pos + 1) (length path)) where
  abbrev parent : Chars
  parent = take (pos + 1) path

  abbrev behind : Chars
  behind = drop (pos + 1) path

  abbrev count : ℕ
  count = name_end path - (pos + 1)

  length-behind : length behind ≡ length path - (pos + 1)
  length-behind = length-drop (pos + 1) path

  length-child : length (take count behind) ≡ count
  length-child = length-take count behind (ground (arith, length-behind))

  rest_cases : (drop count behind ≡ []) ⊎ (drop count behind ≡ b'/' ∷ [])
  rest_cases = elim (Bool-cases (get_or path (length path - 1) 0 == b'/')) [
    | inl ends ↦
        let one : length (drop count behind) ≡ 1 =
          ground (arith, length-drop count behind, length-behind) in
        let last : get_or (drop count behind) 0 0 ≡ b'/' = ground (
          arith,
          get_or-drop count behind 0 0,
          get_or-drop (pos + 1) path (count + 0) 0,
          ap (λ i. get_or path i 0) (at_end ends),
        ) in
        inr (eq_singleton (drop count behind) 0 one ∙ ap (λ x. x ∷ []) last)
    | inr plain ↦
        inl (eq_nil (drop count behind) (ground (arith, length-drop count behind, length-behind)))
  ]
    where
      at_end :
          (get_or path (length path - 1) 0 == b'/') ≡ true → pos + 1 + (count + 0) ≡ length path - 1
      at_end h = ground arith

  child_lem : (k : ℕ) → k < length (take count behind) → get_or (take count behind) k 0 ≢ b'/'
  child_lem k h =
      let small : k < count = omega (arith, length-child, h) in
      rw (get_or-take count behind k 0 small, get_or-drop (pos + 1) path k 0)
        (at_index (Bool-cases (get_or path (length path - 1) 0 == b'/')) small)
    where
      at_index :
          ((get_or path (length path - 1) 0 == b'/') ≡ true)
            ⊎ ((get_or path (length path - 1) 0 == b'/') ≡ false)
          → k < count
          → get_or path (pos + 1 + k) 0 ≢ b'/'
      at_index (inl ends) small =
          none_after (pos + 1 + k) (omega arith) (ground arith) (ground arith)
      at_index (inr plain) small = elim (Bool-cases (pos + 1 + k == length path - 1)) [
        | inl last ↦ rw (==→eq _ _ last) (==→ne _ _ plain)
        | inr before ↦ none_after (pos + 1 + k) (omega arith) (ground arith) (==→ne _ _ before)
      ]

  at_pos : pos + 1 - 1 ≡ pos
  at_pos = omega arith

  split_lem : IsSplit path parent (take count behind)
  split_lem = record {
    rest = drop count behind;
    whole =
        sym
          (ap (λ t. parent ++ t) (take-append-drop count behind) ∙ take-append-drop (pos + 1) path);
    rest_slash = rest_cases;
    parent_slash =
        rw
          (
            length-take (pos + 1) path (omega arith),
            get_or-take (pos + 1) path (pos + 1 - 1) 0 (omega arith),
            at_pos,
          )
          slash;
    shorter = omega (arith, length-take (pos + 1) path (omega arith));
    child_name = child_lem;
  }

-- Whether the path has a slash before its last character.
abbrev pub HasParent : Chars → Type 0
HasParent path = (i : ℕ) × (i + 1 < length path) × (get_or path i 0 ≡ b'/')

get_parent_id_lem :
    (path : Chars)
    → length path < 2 ^ 63
    → ((get_parent_id path ≡ minus_one) × ¬ (HasParent path))
      ⊎ ((get_parent_id path + 1 < length path)
          × (get_or path (get_parent_id path) 0 ≡ b'/')
          × NoSlash path (get_parent_id path + 1) (length path))
unfolding get_parent_id
get_parent_id_lem path b = cases (parent_id_from_lem (length path) path b)
  where
    cases :
        ((parent_id_from (length path) path ≡ minus_one) × NoSlash path 0 (length path))
          ⊎ ((parent_id_from (length path) path < length path)
              × (parent_id_from (length path) path ≢ length path - 1)
              × (get_or path (parent_id_from (length path) path) 0 ≡ b'/')
              × NoSlash path (parent_id_from (length path) path + 1) (length path))
        → ((get_parent_id path ≡ minus_one) × ¬ (HasParent path))
          ⊎ ((get_parent_id path + 1 < length path)
              × (get_or path (get_parent_id path) 0 ≡ b'/')
              × NoSlash path (get_parent_id path + 1) (length path))
    cases (inl (e, no_slash)) =
        inl (e, λ (i, l, slash). no_slash i (omega arith) (omega arith) (omega arith) slash)
    cases (inr (l, ne, slash, no_slash)) = inr (omega arith, slash, no_slash)

-- A path with a slash before its last character has a parent and a child, into which the path
-- splits: it is the parent, the child and perhaps one more slash; the parent ends in a slash and is
-- shorter than the path; the child has no slash.
pub get_parent_path-IsSplit :
    (path : Chars)
    → length path < 2 ^ 63
    → HasParent path
    → (parent child : Chars) × (get_parent_path path ≡ some parent)
      × (get_child_name path ≡ some child)
      × IsSplit path parent child
unfolding get_parent_path get_child_name
get_parent_path-IsSplit path b h = elim (get_parent_id_lem path b) [
  | inl (e, no_parent) ↦ absurd (no_parent h)
  | inr (l, slash, no_slash) ↦
      let pos : ℕ = get_parent_id path in
      let found : (pos == minus_one) ≡ false = ground arith in
      (
        take (pos + 1) path,
        take (name_end path - (pos + 1)) (drop (pos + 1) path),
        rw found refl,
        rw found refl,
        split_lem path pos l slash no_slash,
      )
]

-- Any other path has neither.
pub get_parent_path-none :
    (path : Chars)
    → length path < 2 ^ 63
    → ¬ (HasParent path)
    → (get_parent_path path ≡ none) × (get_child_name path ≡ none)
unfolding get_parent_path get_child_name
get_parent_path-none path b h = elim (get_parent_id_lem path b) [
  | inl (e, no_parent) ↦ (rw e refl, rw e refl)
  | inr (l, slash, no_slash) ↦ absurd (h (get_parent_id path, l, slash))
]
