-- ===== src/Go/Path.antt =====
-- `path/filepath` on Unix, over the paths that the program cleans: those that begin with `/`.
use mathlib.Core.List.{reverse}
use pins.Prelude.{ℕ, List, [], ◌∷◌, if◌then◌else◌}
use pins.Go.Text.{Str, codes, text_eq, join, split, is_empty}

abbrev slash : ℕ
slash = b'/'

drop_last : List Str → List Str
drop_last [] = []
drop_last (_ ∷ before) = before

-- Empty elements and `.` vanish, `..` takes away the element before it. The last element is first.
add_element : List Str → Str → List Str
unfolding drop_last
add_element before e =
    if is_empty e
    then before
    else if text_eq e (codes ".")
    then before
    else if text_eq e (codes "..")
    then drop_last before
    else e ∷ before

add_elements : List Str → List Str → List Str
unfolding add_element
add_elements before [] = before
add_elements before (e ∷ es) = add_elements (add_element before e) es

-- The elements of a cleaned path, the last one first.
pub elements : Str → List Str
unfolding add_elements split
elements s = add_elements [] (split slash s)

-- `filepath.Clean(s)` for an `s` that begins with `/`.
unfoldable pub clean : Str → Str
unfolding elements join
clean s = slash ∷ join (slash ∷ []) (reverse (elements s))

abbrev first_or : Str → List Str → Str
first_or d [] = d
first_or d (e ∷ _) = e

-- `filepath.Base(s)` for a clean `s` that begins with `/`.
unfoldable pub base : Str → Str
unfolding elements
base s = first_or (slash ∷ []) (elements s)

abbrev parents_of : List Str → List Str
parents_of [] = (slash ∷ []) ∷ []
parents_of (e ∷ before) = (slash ∷ join (slash ∷ []) (reverse (e ∷ before))) ∷ parents_of before

-- `for dir := filepath.Dir(path); ; dir = filepath.Dir(dir)` up to `/`, for a clean path: the
-- folders above it, the nearest first.
unfoldable pub parents : Str → List Str
unfolding elements drop_last join
parents s = parents_of (drop_last (elements s))
