-- ===== src/Base/FilePath.antt =====
-- `os.path` and `pathlib` as far as the program uses them, on POSIX paths.
use mathlib.Core.Bool.{◌||◌, not}
use mathlib.Core.List.{List, [], ◌∷◌, ◌++◌}
use Prim.Native.Nat.{ℕ, ◌+◌}
use transient.Base.Tests.{if◌then◌else◌}
use transient.Base.Lists.{length, filter, is_empty}
use transient.Base.Strings.{Text, lit, text_eq, starts_with, ends_with, split}

-- `os.path.join(a, b)`
unfoldable pub path_join : Text → Text → Text
unfolding lit starts_with ends_with
path_join a b =
    if starts_with b (lit "/")
    then b
    else if is_empty a || ends_with a (lit "/")
    then a ++ b
    else a ++ (b'/' ∷ b)

-- `os.path.join(a, *bs)`
unfoldable pub path_join_all : Text → List Text → Text
unfolding path_join
path_join_all a [] = a
path_join_all a (b ∷ bs) = path_join_all (path_join a b) bs

last_part : List Text → Text
last_part [] = []
last_part (p ∷ []) = p
last_part (p ∷ q ∷ ps) = last_part (q ∷ ps)

-- `os.path.basename(p)`: what stands behind the last slash
unfoldable pub basename : Text → Text
unfolding last_part split
basename p = last_part (split b'/' p)

-- The names in a path, without the empty ones and ".", which `pathlib` drops.
unfoldable pub components : Text → List Text
unfolding split text_eq lit
components p = filter (λ c. not (is_empty c || text_eq c (lit "."))) (split b'/' p)

-- `len(pathlib.Path(p).parts)`: the root counts as a part
unfoldable pub count_parts : Text → ℕ
unfolding components starts_with lit
count_parts p = (if starts_with p (lit "/") then 1 else 0) + length (components p)
