-- ===== src/Shell/Attributes.antt =====
-- The methods of HoneyPotFilesystem that read and change attributes, read files and expand
-- wildcards, in cowrie/src/cowrie/shell/fs.py.
use Prim.Native.Nat.{bit_and, bit_or}
use vo_iphoneypot.Common.{
  Bool, List, Option, Text, [], eqb_ℤ, false, if◌then◌else◌, ltb, map, negsuc, none, not, pos,
  select, some, text_eq, true, ℕ, ℤ, ◌&&◌, ◌++◌, ◌==◌, ◌∷◌,
}
use vo_iphoneypot.Shell.Files.{found_or, unless_error}
use vo_iphoneypot.Shell.Lookup.{exists, get_path, getfile}
use vo_iphoneypot.Shell.Names.{dirname}
use vo_iphoneypot.Shell.Objects.{
  Done, Entry, FileSystem, FsOutcome, FsResult, enoent, entry_at, file_not_found, index_error,
  is_a_directory, is_kind, names, ok, or_raise, os_error, put_entry, t_dir, t_file, throws,
  type_error, ◌>>=◌,
}
use vo_iphoneypot.Shell.Paths.{components, dot, dot_dot, not_empty, pop, resolve_path, slash}
use vo_iphoneypot.Strings.{join, rstrip, split}

-- The entry that an attribute is changed of.
abbrev pub on_file : ℕ → FileSystem → Text → (Entry → Entry) → FsOutcome Done
on_file limit s path change =
    or_raise (getfile limit s path true >>= found_or enoent) s
      λ p. (ok tt, put_entry p (change (entry_at s p)) s)

-- `utime`
unfoldable pub utime : ℕ → FileSystem → Text → ℕ → ℕ → FsOutcome Done
utime limit s path atime mtime = on_file limit s path λ e. record e { a_ctime = mtime }

-- `stat.S_IFMT(mode)`
abbrev pub s_ifmt : ℕ → ℕ
s_ifmt mode = bit_and mode 61440

-- `chmod`
unfoldable pub chmod : ℕ → FileSystem → Text → ℕ → FsOutcome Done
chmod limit s path perm =
    on_file limit s path λ e. record e { a_mode = bit_or (s_ifmt e.a_mode) perm }

abbrev unless_minus_one : ℤ → ℤ → ℤ
unless_minus_one new old = if eqb_ℤ new (negsuc 0) then old else new

-- `chown`
unfoldable pub chown : ℕ → FileSystem → Text → ℤ → ℤ → FsOutcome Done
chown limit s path uid gid =
    on_file limit s path
      λ e. record e { a_uid = unless_minus_one uid e.a_uid; a_gid = unless_minus_one gid e.a_gid }

-- stat.S_IFLNK
abbrev pub s_iflnk : ℕ
s_iflnk = 40960

-- `readlink`; the result None is `none`.
unfoldable pub readlink : ℕ → FileSystem → Text → FsResult (Option Text)
readlink limit s path = getfile limit s path false >>= found_or enoent >>= λ p.
    unless_error (bit_and (entry_at s p).a_mode s_iflnk == 0) os_error >>= λ _.
    ok (entry_at s p).a_target

-- _statobj
pub record Stat : Type 0 where
  pub st_mode : ℕ
  pub st_ino : ℕ
  pub st_dev : ℕ
  pub st_nlink : ℕ
  pub st_uid : ℤ
  pub st_gid : ℤ
  pub st_size : ℕ
  pub st_atime : ℕ
  pub st_mtime : ℕ
  pub st_ctime : ℕ

abbrev pub statobj : ℕ → ℤ → ℤ → ℕ → ℕ → Stat
statobj mode uid gid size ctime = record {
  st_mode = mode;
  st_ino = 0;
  st_dev = 0;
  st_nlink = 1;
  st_uid = uid;
  st_gid = gid;
  st_size = size;
  st_atime = ctime;
  st_mtime = ctime;
  st_ctime = ctime;
}

abbrev pub stat_of : Entry → Stat
stat_of e = statobj e.a_mode e.a_uid e.a_gid e.a_size e.a_ctime

-- `stat`; `lstat` is the one that does not follow links.
unfoldable pub stat : ℕ → ℕ → FileSystem → Text → Bool → FsResult Stat
stat limit now s path follow_symlinks =
    if text_eq path (slash ∷ [])
    then ok (statobj 16877 (pos 0) (pos 0) 4096 now)
    else getfile limit s path follow_symlinks
      >>= found_or enoent
      >>= (λ p. ok (stat_of (entry_at s p)))

unfoldable pub lstat : ℕ → ℕ → FileSystem → Text → FsResult Stat
lstat limit now s path = stat limit now s path false

abbrev pub set_size : ℕ → Entry → Entry
set_size size e = if is_kind e.a_type t_file then record e { a_size = size } else e

abbrev size_if_found : FileSystem → ℕ → Option ℕ → FileSystem
size_if_found s size none = s
size_if_found s size (some f) = put_entry f (set_size size (entry_at s f)) s

-- `update_size`
unfoldable pub update_size : ℕ → FileSystem → Text → ℕ → FsOutcome Done
update_size limit s filename size =
    or_raise (getfile limit s filename true) s λ f. (ok tt, size_if_found s size f)

abbrev has_text : Option Text → Bool
has_text none = false
has_text (some t) = not_empty t

-- `update_realfile`; `on_host` says that the path exists on the host, is a regular file and is no
-- link.
unfoldable pub update_realfile : (Text → Bool) → FileSystem → ℕ → Text → FileSystem
update_realfile on_host s f realfile =
    if not (has_text (entry_at s f).a_realfile)
      && on_host realfile
      && ltb (entry_at s f).a_size 25000000
    then put_entry f (record (entry_at s f) { a_realfile = some realfile }) s
    else s

update_if_file : (Text → Bool) → FileSystem → Option ℕ → Text → FileSystem
update_if_file on_host s none realfile = s
update_if_file on_host s (some f) realfile =
    if is_kind (entry_at s f).a_type t_file then update_realfile on_host s f realfile else s

-- `init_honeyfs`, on the virtual path and the real path of each file that os.walk finds.
unfoldable pub init_honeyfs : ℕ → (Text → Bool) → FileSystem → List (Text × Text) → FsOutcome Done
unfolding update_if_file
init_honeyfs limit on_host s [] = (ok tt, s)
init_honeyfs limit on_host s ((virtual_path, realfile_path) ∷ rest) =
    or_raise (getfile limit s virtual_path false) s
      λ f. init_honeyfs limit on_host (update_if_file on_host s f realfile_path) rest

-- What is returned for an entry: `read` opens a file of the host, `arch_file` is the path of the
-- executable of the architecture.
unfoldable pub contents_of : (Text → FsResult Text) → Text → Entry → FsResult (Option Text)
contents_of read arch_file e =
    let real = has_text e.a_realfile in
    if is_kind e.a_type t_dir
    then throws is_a_directory
    else if is_kind e.a_type t_file && real
    then found_or type_error e.a_realfile >>= (λ f. read f >>= λ t. ok (some t))
    else if is_kind e.a_type t_file && e.a_size == 0
    then ok (some [])
    else if is_kind e.a_type t_file && not (bit_and e.a_mode 64 == 0)
    then read arch_file >>= (λ t. ok (some t))
    else ok none

-- `file_contents`
unfoldable pub file_contents :
    ℕ → (Text → FsResult Text) → Text → FileSystem → Text → FsResult (Option Text)
file_contents limit read arch_file s path =
    found_or index_error (resolve_path path (dirname path)) >>= λ resolved.
    exists limit s resolved >>= found_or file_not_found >>= λ _.
    getfile limit s resolved true >>= found_or type_error >>= λ f.
    contents_of read arch_file (entry_at s f)

-- The directories that a piece of a pattern leads to.
directories : ℕ → (Text → Text → Bool) → FileSystem → Text → List Text → FsResult (List (List Text))
directories limit fnmatch s p cwd =
    if text_eq p dot
    then ok (cwd ∷ [])
    else if text_eq p dot_dot
    then ok (pop cwd ∷ [])
    else get_path limit s (join slash cwd) true >>= (λ d. ok (
        map (λ match'. cwd ++ match' ∷ [])
          (select (λ x. fnmatch x p) (names s (entry_at s d).a_contents))))

collect : (List Text → FsResult (List Text)) → List (List Text) → FsResult (List Text)
collect f [] = ok []
collect f (d ∷ ds) = f d >>= λ found. collect f ds >>= λ more. ok (found ++ more)

-- `foo` of resolve_path_wc
unfoldable pub expand :
    ℕ → (Text → Text → Bool) → FileSystem → List Text → List Text → FsResult (List Text)
unfolding directories collect
expand limit fnmatch s [] cwd = ok ((slash ∷ join slash cwd) ∷ [])
expand limit fnmatch s (p ∷ ps) cwd =
    directories limit fnmatch s p cwd >>= collect (λ d. expand limit fnmatch s ps d)

abbrev wc_start : Text → List Text → List Text × List Text
wc_start cwd [] = ([], [])
wc_start cwd ([] ∷ pieces) = (pieces, [])
wc_start cwd ((c ∷ w) ∷ pieces) = ((c ∷ w) ∷ pieces, components cwd)

-- `resolve_path_wc`; `fnmatch` is fnmatch.fnmatchcase.
unfoldable pub resolve_path_wc :
    ℕ → (Text → Text → Bool) → FileSystem → Text → Text → FsResult (List Text)
resolve_path_wc limit fnmatch s path cwd =
    let (pieces, start) = wc_start cwd (split slash (rstrip slash path)) in
    expand limit fnmatch s pieces start
