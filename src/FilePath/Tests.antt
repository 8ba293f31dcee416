-- ===== src/FilePath/Tests.antt =====
-- Paths taken apart.
use file_system_fuse.Base.{zero, suc, suc, ◌≡◌, refl, some, [], ◌∷◌, arith}
use file_system_fuse.FilePath.{
  Chars, parent_id_from, get_parent_id, get_parent_path, get_child_name,
}
use file_system_fuse.FilePath.Split.{IsSplit, HasParent, get_parent_path-IsSplit}

-- "/a/bc/"
abbrev nested : Chars
nested = b'/' ∷ b'a' ∷ b'/' ∷ b'b' ∷ b'c' ∷ b'/' ∷ []

child-nested : get_child_name nested ≡ some (b'b' ∷ b'c' ∷ [])
unfolding get_child_name get_parent_id parent_id_from
child-nested = refl

parent-nested : get_parent_path nested ≡ some (b'/' ∷ b'a' ∷ b'/' ∷ [])
unfolding get_parent_path get_parent_id parent_id_from
parent-nested = refl

get_parent_path-IsSplit_example :
    (parent child : Chars) × (get_parent_path nested ≡ some parent)
    × (get_child_name nested ≡ some child)
    × IsSplit nested parent child
get_parent_path-IsSplit_example =
    get_parent_path-IsSplit nested (omega arith) (2, omega arith, refl)

-- "ab/"
abbrev flat : Chars
flat = b'a' ∷ b'b' ∷ b'/' ∷ []

flat-no_parent : ¬ (HasParent flat)
flat-no_parent (zero, l, e) = omega arith
flat-no_parent (suc zero, l, e) = omega arith
flat-no_parent (suc (suc i), l, e) = absurd (omega arith)
