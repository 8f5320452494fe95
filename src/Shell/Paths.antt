-- ===== src/Shell/Paths.antt =====
-- HoneyPotFilesystem.resolve_path of cowrie/src/cowrie/shell/fs.py.
use vo_iphoneypot.Common.{
  Bool, List, Option, Text, [], codes, false, if◌then◌else◌, none, select, some, text_eq, true, ℕ,
  ◌++◌, ◌==◌, ◌||◌, ◌∷◌,
}
use vo_iphoneypot.Strings.{join, rstrip, split}

abbrev pub slash : ℕ
slash = b'/'

abbrev pub dot : Text
dot = codes "."

abbrev pub dot_dot : Text
dot_dot = codes ".."

-- `cwd.pop()`, if there is one
unfoldable pub pop : List Text → List Text
pop [] = []
pop (c ∷ []) = []
pop (c ∷ d ∷ cs) = c ∷ pop (d ∷ cs)

-- One piece of the path.
unfoldable pub move : Text → List Text → List Text
move piece cwd =
    if text_eq piece dot_dot
    then pop cwd
    else if text_eq piece dot || text_eq piece []
    then cwd
    else cwd ++ piece ∷ []

-- The loop over the pieces.
unfoldable pub walk : List Text → List Text → List Text
walk cwd [] = cwd
walk cwd (piece ∷ pieces) = walk (move piece cwd) pieces

abbrev pub not_empty : Text → Bool
not_empty [] = false
not_empty (c ∷ t) = true

-- `[x for x in cwd.split('/') if len(x)]`
unfoldable pub components : Text → List Text
components cwd = select not_empty (split slash cwd)

-- `resolve_path`; `none` is the IndexError of `path[0]`.
unfoldable pub resolve_path : Text → Text → Option Text
resolve_path [] cwd = none
resolve_path (c ∷ path) cwd = some (
    slash
    ∷ join slash
        (walk (if c == slash then [] else components cwd) (split slash (rstrip slash (c ∷ path)))))
