-- ===== src/Shell/Files.antt =====
-- The methods of HoneyPotFilesystem that make, remove and move entries, in
-- cowrie/src/cowrie/shell/fs.py.
use vo_iphoneypot.Common.{
  Bool, List, Option, Text, [], contains, false, if◌then◌else◌, length, ltb, none, not, pos, some,
  suc, true, ℕ, ℤ, ◌++◌, ◌∷◌,
}
use vo_iphoneypot.Shell.Lookup.{first_named, get_path, getfile, strip_slash}
use vo_iphoneypot.Shell.Names.{basename, dirname, is_special}
use vo_iphoneypot.Shell.Objects.{
  Done, Entry, EntryKind, FileSystem, FsError, FsOutcome, FsResult, allocate, edquot, eexist,
  enoent, enotdir, enotempty, entry_at, index_error, is_kind, names, ok, or_raise,
  permission_denied, put_entry, remove_equal, t_dir, t_file, throws, ◌>>=◌,
}
use vo_iphoneypot.Shell.Paths.{not_empty, slash}
use vo_iphoneypot.Strings.{rstrip}

abbrev pub contents_at : FileSystem → ℕ → List ℕ
contents_at s d = (entry_at s d).a_contents

-- A change of the list of contents of the entry at an address.
unfoldable pub set_contents : ℕ → List ℕ → FileSystem → FileSystem
set_contents d cs s = put_entry d (record (entry_at s d) { a_contents = cs }) s

-- `_dir.append([...])` and `self.newcount += 1`
unfoldable pub add_new : ℕ → List ℕ → Entry → FileSystem → FileSystem
add_new d cs e s =
    let s' = set_contents d (cs ++ s.next_address ∷ []) (allocate e s) in
    record s' { newcount = suc s.newcount }

abbrev pub or_now : ℕ → Option ℕ → ℕ
or_now now none = now
or_now now (some t) = t

abbrev pub new_entry : EntryKind → Text → ℤ → ℤ → ℕ → ℕ → ℕ → Entry
new_entry kind name uid gid size mode ctime = record {
  a_name = name;
  a_type = kind;
  a_uid = uid;
  a_gid = gid;
  a_size = size;
  a_mode = mode;
  a_ctime = ctime;
  a_contents = [];
  a_target = none;
  a_realfile = none;
}

-- `[x for x in _dir if x[A_NAME] == outfile][0]`
abbrev first_or_raise : Option ℕ → FsResult ℕ
first_or_raise none = throws index_error
first_or_raise (some x) = ok x

-- The entries of the directory without the one that the new file replaces.
unfoldable pub without_old : ℕ → FileSystem → Text → List ℕ → FsResult (List ℕ)
without_old limit s outfile cs =
    if contains outfile (names s cs)
    then first_or_raise (first_named s outfile cs) >>= (λ x. remove_equal limit s x cs)
    else ok cs

-- `mkfile`
unfoldable pub mkfile : ℕ → ℕ → FileSystem → Text → ℤ → ℤ → ℕ → ℕ → Option ℕ → FsOutcome Bool
mkfile limit now s path uid gid size mode ctime =
    if ltb 10000 s.newcount
    then (ok false, s)
    else if is_special (dirname path)
    then (throws permission_denied, s)
    else or_raise (get_path limit s (dirname path) true) s λ d.
      or_raise (without_old limit s (basename path) (contents_at s d)) s λ cs. (
        ok true,
        add_new d cs (new_entry t_file (basename path) uid gid size mode (or_now now ctime)) s,
      )

-- `except IndexError: raise OSError(errno.ENOENT)`
abbrev pub index_as_enoent {ℓ} : {A : Type ℓ} → FsResult A → FsResult A
index_as_enoent (ok a) = ok a
index_as_enoent (throws index_error) = throws enoent
index_as_enoent (throws e) = throws e

-- `mkdir`
unfoldable pub mkdir : ℕ → ℕ → FileSystem → Text → ℤ → ℤ → ℕ → ℕ → Option ℕ → FsOutcome Done
mkdir limit now s path uid gid size mode ctime =
    if ltb 10000 s.newcount
    then (throws edquot, s)
    else if not (not_empty (strip_slash path))
    then (throws enoent, s)
    else or_raise (index_as_enoent (get_path limit s (dirname (strip_slash path)) true)) s λ d. (
      ok tt,
      add_new d (contents_at s d)
          (new_entry t_dir (basename path) uid gid size mode (or_now now ctime)) s,
    )

-- `if not p: raise OSError(errno)`
abbrev pub found_or {ℓ} : {A : Type ℓ} → FsError → Option A → FsResult A
found_or e none = throws e
found_or e (some a) = ok a

abbrev pub absent_or : FsError → Option ℕ → FsResult Done
absent_or e none = ok tt
absent_or e (some a) = throws e

-- `mkdir2`
unfoldable pub mkdir2 : ℕ → ℕ → FileSystem → Text → FsOutcome Done
mkdir2 limit now s path =
    or_raise (getfile limit s path true >>= absent_or eexist) s
      λ _. mkdir limit now s path (pos 0) (pos 0) 4096 16877 none

abbrev pub unless_error : Bool → FsError → FsResult Done
unless_error true e = throws e
unless_error false e = ok tt

abbrev remove_found : ℕ → FileSystem → ℕ → Option ℕ → FsOutcome Bool
remove_found limit s d none = (ok false, s)
remove_found limit s d (some i) =
    or_raise (remove_equal limit s i (contents_at s d)) s λ cs. (ok true, set_contents d cs s)

-- `rmdir`
unfoldable pub rmdir : ℕ → FileSystem → Text → FsOutcome Bool
rmdir limit s path0 =
    let path = rstrip slash path0 in
    or_raise (getfile limit s path false >>= found_or eexist) s λ dir.
      or_raise (unless_error (not (is_kind (entry_at s dir).a_type t_dir)) enotdir) s λ _.
        or_raise (get_path limit s path true) s λ own.
          or_raise (unless_error (ltb 0 (length (contents_at s own))) enotempty) s λ _.
            or_raise (get_path limit s (dirname path) true) s
              λ d. remove_found limit s d (first_named s (basename path) (contents_at s d))

-- `remove`
unfoldable pub remove : ℕ → FileSystem → Text → FsOutcome Done
remove limit s path = or_raise (getfile limit s path false >>= found_or enoent) s λ p.
    or_raise (get_path limit s (dirname path) true) s
      λ d. or_raise (remove_equal limit s p (contents_at s d)) s λ cs. (ok tt, set_contents d cs s)

-- The entry in its new directory, which is looked up after it has left the old one.
unfoldable pub attach : ℕ → FileSystem → ℕ → Text → FsOutcome Done
attach limit s old newpath =
    or_raise (get_path limit s (dirname newpath) true) s
      λ d. (ok tt, set_contents d (contents_at s d ++ old ∷ []) s)

unfoldable pub set_name : ℕ → Text → FileSystem → FileSystem
set_name i name s = put_entry i (record (entry_at s i) { a_name = name }) s

-- `rename`
unfoldable pub rename : ℕ → FileSystem → Text → Text → FsOutcome Done
rename limit s oldpath newpath =
    or_raise (getfile limit s oldpath true >>= found_or enoent) s λ old.
      or_raise (getfile limit s newpath true >>= absent_or eexist) s λ _.
        or_raise (get_path limit s (dirname oldpath) true) s λ d.
          or_raise (remove_equal limit s old (contents_at s d)) s
            λ cs. attach limit (set_name old (basename newpath) (set_contents d cs s)) old newpath
