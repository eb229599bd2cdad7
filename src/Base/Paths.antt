-- ===== src/Base/Paths.antt =====
-- filepath.Clean and filepath.Join on a system whose separator is a slash.
use Prim.Native.Char.{code}
use Prim.Native.String.{String, ◌++◌}
use Prim.Native.String as S
use mathlib.Core.Path.{◌≡◌, refl}
use mathlib.Core.Bool.{Bool, true, false, ◌||◌}
use mathlib.Core.List.{List, [], ◌∷◌, reverse}
use gocharm.Base.Tests.{◌==◌, if◌then◌else◌, str_eq}
use gocharm.Base.Texts.{is_empty, join, has_prefix}

-- The parts of a path between its slashes.
add_char : S.String → List S.String → List S.String
add_char c [] = c ∷ []
add_char c (p ∷ ps) = (c ++ p) ∷ ps

parts : String → List String
unfolding add_char
parts S.[] = "" ∷ []
parts (S.◌∷◌ c s) =
    let rest = parts s in if code c == b'/' then "" ∷ rest else add_char (S.◌∷◌ c S.[]) rest

-- What a `..` does to the parts already kept, the last one first.
go_up : Bool → List String → List String
go_up true [] = []
go_up false [] = ".." ∷ []
go_up rooted (p ∷ kept) = if str_eq p ".." then ".." ∷ p ∷ kept else kept

clean_parts : Bool → List String → List String → List String
unfolding go_up
clean_parts rooted kept [] = reverse kept
clean_parts rooted kept (p ∷ ps) =
    clean_parts rooted
      (if is_empty p || str_eq p "."
        then kept
        else if str_eq p ".."
        then go_up rooted kept
        else p ∷ kept)
      ps

unfoldable pub clean : String → String
unfolding clean_parts parts join has_prefix
clean path =
    let rooted = has_prefix "/" path in
    let inner = join (clean_parts rooted [] (parts path)) "/" in
    if rooted then "/" ++ inner else if is_empty inner then "." else inner

drop_empty : List String → List String
drop_empty [] = []
drop_empty (p ∷ ps) = if is_empty p then drop_empty ps else p ∷ drop_empty ps

unfoldable pub join_path : List String → String
unfolding clean drop_empty join
join_path ps = elim (drop_empty ps) [ [] ↦ "" | q ∷ qs ↦ clean (join (q ∷ qs) "/") ]

join_path_test : join_path ("/var/lib" ∷ "" ∷ "a/../b" ∷ "." ∷ "root" ∷ []) ≡ "/var/lib/b/root"
unfolding join_path
join_path_test = refl
