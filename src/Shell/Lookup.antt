-- ===== src/Shell/Lookup.antt =====
-- getfile and get_path of cowrie/src/cowrie/shell/fs.py. `none` is the False that getfile returns.
use vo_iphoneypot.Common.{
  Bool, List, Option, Text, [], contains, false, if◌then◌else◌, none, not, select, some, suc,
  text_eq, true, zero, ℕ, ◌&&◌, ◌==◌, ◌∷◌,
}
use vo_iphoneypot.Shell.Objects.{
  EntryKind, FileSystem, FsResult, attribute_error, entry_at, file_not_found, index_error, is_kind,
  names, ok, recursion_error, t_dir, t_file, t_link, throws, type_error, ◌>>=◌,
}
use vo_iphoneypot.Shell.Paths.{not_empty, slash}
use vo_iphoneypot.Strings.{rstrip, split}

unfoldable pub strip_slashes : Text → Text
strip_slashes [] = []
strip_slashes (c ∷ t) = if c == slash then strip_slashes t else c ∷ t

-- `path.strip('/')`
unfoldable pub strip_slash : Text → Text
unfolding strip_slashes
strip_slash path = strip_slashes (rstrip slash path)

-- A step that is not taken from False: the caller returns False too.
abbrev pub if_found : FsResult (Option ℕ) → (ℕ → FsResult (Option ℕ)) → FsResult (Option ℕ)
if_found (ok (some p)) f = f p
if_found (ok none) f = ok none
if_found (throws e) f = throws e

-- `x[A_TARGET][0] == '/'`, and the call of getfile on the target; `cwd` is always ''.
unfoldable pub link_target : (Text → FsResult (Option ℕ)) → Option Text → FsResult (Option ℕ)
link_target again none = throws type_error
link_target again (some []) = throws index_error
link_target again (some (c ∷ t)) = if c == slash then again (c ∷ t) else again (slash ∷ c ∷ t)

-- Entering an entry with the name of the piece; a link is followed, unless the piece equals the
-- last one and links are not to be followed.
unfoldable pub enter_entry :
    (Text → FsResult (Option ℕ)) → FileSystem → Bool → Bool → ℕ → FsResult (Option ℕ)
enter_entry again s follow_symlinks last x =
    if last && not follow_symlinks
    then ok (some x)
    else if is_kind (entry_at s x).a_type t_link
    then link_target again (entry_at s x).a_target
    else ok (some x)

-- The loop over the contents, which does not stop at the first entry of the name.
unfoldable pub search_contents :
    (Text → FsResult (Option ℕ))
    → FileSystem
    → Bool
    → Bool
    → Text
    → List ℕ
    → ℕ
    → FsResult (Option ℕ)
search_contents again s follow_symlinks last piece [] p = ok (some p)
search_contents again s follow_symlinks last piece (x ∷ xs) p =
    if_found
      (if text_eq (entry_at s x).a_name piece
        then enter_entry again s follow_symlinks last x
        else ok (some p))
      λ p'. search_contents again s follow_symlinks last piece xs p'

-- One piece of the path.
unfoldable pub step_into :
    (Text → FsResult (Option ℕ)) → FileSystem → Bool → Bool → Text → ℕ → FsResult (Option ℕ)
step_into again s follow_symlinks last piece p =
    let cs = (entry_at s p).a_contents in
    if contains piece (names s cs)
    then search_contents again s follow_symlinks last piece cs p
    else ok none

abbrev pub last_of : List Text → Text
last_of [] = []
last_of (w ∷ []) = w
last_of (w ∷ v ∷ vs) = last_of (v ∷ vs)

-- The loop over the pieces.
unfoldable pub follow_pieces :
    (Text → FsResult (Option ℕ)) → FileSystem → Bool → Text → List Text → ℕ → FsResult (Option ℕ)
follow_pieces again s follow_symlinks last [] p = ok (some p)
follow_pieces again s follow_symlinks last (piece ∷ pieces) p =
    if_found (step_into again s follow_symlinks (text_eq piece last) piece p)
      λ p'. follow_pieces again s follow_symlinks last pieces p'

-- `getfile`; the first argument is how many calls Python allows, and each link takes one.
unfoldable pub getfile : ℕ → FileSystem → Text → Bool → FsResult (Option ℕ)
getfile zero s path follow_symlinks = throws recursion_error
getfile (suc limit) s path follow_symlinks =
    let pieces = split slash (strip_slash path) in
    if text_eq path (slash ∷ [])
    then ok (some s.fs)
    else follow_pieces (λ target'. getfile limit s target' follow_symlinks) s follow_symlinks
        (last_of pieces) pieces s.fs

-- `getfile(c[A_TARGET])` of get_path, which takes the target as it is.
unfoldable pub link_as_is : (Text → FsResult (Option ℕ)) → Option Text → FsResult (Option ℕ)
link_as_is again none = throws attribute_error
link_as_is again (some t) = again t

-- The loop over the contents in get_path, which stops at the first entry of the name.
unfoldable pub first_named : FileSystem → Text → List ℕ → Option ℕ
first_named s part [] = none
first_named s part (x ∷ xs) =
    let rest = first_named s part xs in if text_eq (entry_at s x).a_name part then some x else rest

unfoldable pub go_to : (Text → FsResult (Option ℕ)) → FileSystem → Option ℕ → FsResult (Option ℕ)
unfolding link_as_is
go_to again s none = throws file_not_found
go_to again s (some c) =
    if is_kind (entry_at s c).a_type t_link
    then link_as_is again (entry_at s c).a_target
    else ok (some c)

-- `cwd[A_CONTENTS]`
unfoldable pub subscript : Option ℕ → FsResult ℕ
subscript none = throws type_error
subscript (some p) = ok p

-- The loop over the parts of the path.
unfoldable pub walk_parts :
    (Text → FsResult (Option ℕ)) → FileSystem → List Text → Option ℕ → FsResult ℕ
unfolding subscript go_to link_as_is
walk_parts again s [] cwd = subscript cwd
walk_parts again s (part ∷ parts) cwd = subscript cwd >>= λ p.
    go_to again s (first_named s part (entry_at s p).a_contents) >>= λ next'.
    walk_parts again s parts next'

-- `get_path`; its result is the entry whose contents it returns.
unfoldable pub get_path : ℕ → FileSystem → Text → Bool → FsResult ℕ
unfolding subscript go_to link_as_is
get_path limit s path follow_symlinks =
    walk_parts (λ target'. getfile limit s target' follow_symlinks) s
      (select not_empty (split slash path)) (some s.fs)

-- `listdir`
unfoldable pub listdir : ℕ → FileSystem → Text → FsResult (List Text)
listdir limit s path = get_path limit s path true >>= λ p. ok (names s (entry_at s p).a_contents)

-- `exists` and `lexists`: True, or None where the file is not there.
abbrev true_or_none : Option ℕ → Option Bool
true_or_none none = none
true_or_none (some p) = some true

unfoldable pub exists : ℕ → FileSystem → Text → FsResult (Option Bool)
exists limit s path = getfile limit s path true >>= λ f. ok (true_or_none f)

unfoldable pub lexists : ℕ → FileSystem → Text → FsResult (Option Bool)
lexists limit s path = getfile limit s path false >>= λ f. ok (true_or_none f)

-- `f[A_TYPE] == kind`, outside the try; an exception inside it gives False.
abbrev pub type_is : FileSystem → EntryKind → FsResult (Option ℕ) → FsResult Bool
type_is s kind (throws e) = ok false
type_is s kind (ok none) = throws type_error
type_is s kind (ok (some f)) = ok (is_kind (entry_at s f).a_type kind)

unfoldable pub isfile : ℕ → FileSystem → Text → FsResult Bool
isfile limit s path = type_is s t_file (getfile limit s path true)

unfoldable pub islink : ℕ → FileSystem → Text → FsResult Bool
islink limit s path = type_is s t_link (getfile limit s path true)

abbrev dir_at : FileSystem → FsResult (Option ℕ) → Bool
dir_at s (throws e) = false
dir_at s (ok none) = false
dir_at s (ok (some f)) = is_kind (entry_at s f).a_type t_dir

unfoldable pub isdir : ℕ → FileSystem → Text → Bool
isdir limit s path =
    if text_eq path (slash ∷ []) then true else dir_at s (getfile limit s path true)
