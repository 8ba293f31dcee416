-- ===== src/FilePath.antt =====
-- The functions on paths of lib/file_layer.c. A path is the list of its characters, without the
-- terminating zero, and `path_len` is its length.
pub mod Split
mod Tests
use file_system_fuse.Base.{
  ◌≡◌, refl, arith, ℕ, zero, suc, ◌+◌, ◌-◌, Bool, true, false, not, ◌&&◌, Option, none, some, List,
  [], ◌∷◌, ◌==◌, if◌then◌else◌, length, get_or, take, drop,
}
use file_system_fuse.Base.Ssize.{minus_one}

-- The characters of a string.
abbrev pub Chars : Type 0
Chars = List ℕ

-- `strcmp(x, y) == 0`
unfoldable pub same : Chars → Chars → Bool
same [] [] = true
same [] (y ∷ ys) = false
same (x ∷ xs) [] = false
same (x ∷ xs) (y ∷ ys) = if y == x then same xs ys else false

pub same_refl : (cs : Chars) → same cs cs ≡ true
unfolding same
same_refl [] = refl
same_refl (c ∷ cs) = ground (arith, same_refl cs)

-- The loop of `get_parent_id` below index `n`.
unfoldable pub parent_id_from : ℕ → Chars → ℕ
parent_id_from zero path = minus_one
parent_id_from (suc id) path =
    let rest = parent_id_from id path in
    if (get_or path id 0 == b'/') && not (id == length path - 1) then id else rest

-- The index of the last slash, but for one at the end, or -1.
unfoldable pub get_parent_id : Chars → ℕ
get_parent_id path = parent_id_from (length path) path

-- `none` where the C function returns false.
unfoldable pub get_parent_path : Chars → Option Chars
get_parent_path path =
    let pos = get_parent_id path in if pos == minus_one then none else some (take (pos + 1) path)

-- The index behind the child's name: a slash at the end is left out.
abbrev pub name_end : Chars → ℕ
name_end path = if get_or path (length path - 1) 0 == b'/' then length path - 1 else length path

unfoldable pub get_child_name : Chars → Option Chars
get_child_name path =
    let start = get_parent_id path in
    if start == minus_one
    then none
    else some (take (name_end path - (start + 1)) (drop (start + 1) path))
