-- ===== src/Shell/Commands.antt =====
-- The commands cd, rm, mkdir, pwd and touch of cowrie/src/cowrie/commands/fs.py, rm after its
-- options are parsed.
use vo_iphoneypot.Common.{
  Bool, List, Option, Text, [], codes, false, if◌then◌else◌, none, not, pos, some, text_eq, true, ℕ,
  ◌&&◌, ◌++◌, ◌∷◌,
}
use vo_iphoneypot.Shell.Files.{contents_at, found_or, mkdir, mkfile, set_contents}
use vo_iphoneypot.Shell.Lookup.{exists, get_path, getfile, last_of}
use vo_iphoneypot.Shell.Names.{dirname, is_special}
use vo_iphoneypot.Shell.Objects.{
  Done, EntryKind, FileSystem, FsError, FsOutcome, FsResult, entry_at, file_not_found, index_error,
  is_kind, ok, remove_equal, t_dir, throws, unbound_local_error, ◌>>=◌,
}
use vo_iphoneypot.Shell.Paths.{pop, resolve_path, slash}
use vo_iphoneypot.Strings.{join, split}

-- What is written: by `write`, or by `errorWrite`.
pub data Written : Type 0 where
  on_output : Text → Written
  on_error : Text → Written

-- `self.fs`, `self.protocol.cwd`, and what was written.
pub record ShellState : Type 0 where
  pub file_system : FileSystem
  pub cwd : Text
  pub lines : List Written

abbrev pub Command : Type 0
Command = FsResult Done × ShellState

abbrev pub say : Written → ShellState → ShellState
say t s = record s { lines = s.lines ++ t ∷ [] }

abbrev pub done_with : ShellState → Command
done_with s = (ok tt, s)

-- A step that raises ends the command.
abbrev pub or_stop {ℓ} : {A : Type ℓ} → FsResult A → ShellState → (A → Command) → Command
or_stop (ok a) s f = f a
or_stop (throws e) s f = (throws e, s)

abbrev pub quoted : Text → Text → Text → Text
quoted before' f behind = before' ++ f ++ behind

-- `self.fs.resolve_path(f, self.protocol.cwd)`
abbrev pub resolved : Text → ShellState → FsResult Text
resolved f s = found_or index_error (resolve_path f s.cwd)

abbrev pub no_such_file : Text
no_such_file = codes "': No such file or directory\n"

-- The tests of `cd` on what was found; an exception of the lookup leaves `inode` unbound.
unfoldable pub change_dir : Text → ShellState → FsResult (Text × Option ℕ) → Command
change_dir pname s (throws e) =
    if text_eq pname (codes "-")
    then done_with (say (on_error (codes "bash: cd: OLDPWD not set\n")) s)
    else (throws unbound_local_error, s)
change_dir pname s (ok (newpath, none)) =
    if text_eq pname (codes "-")
    then done_with (say (on_error (codes "bash: cd: OLDPWD not set\n")) s)
    else done_with (
        say (on_error (quoted (codes "bash: cd: ") pname (codes ": No such file or directory\n")))
          s)
change_dir pname s (ok (newpath, some inode)) =
    if text_eq pname (codes "-")
    then done_with (say (on_error (codes "bash: cd: OLDPWD not set\n")) s)
    else if is_kind (entry_at s.file_system inode).a_type t_dir
    then done_with (record s { cwd = newpath })
    else done_with
        (say (on_error (quoted (codes "bash: cd: ") pname (codes ": Not a directory\n"))) s)

abbrev cd_target : Text → List Text → Text
cd_target home_dir [] = home_dir
cd_target home_dir (a ∷ args) = if text_eq a (codes "~") then home_dir else a

-- `command_cd.call`
unfoldable pub command_cd : ℕ → Text → List Text → ShellState → Command
command_cd limit home_dir args s =
    let pname = cd_target home_dir args in
    change_dir pname s (
      resolved pname s >>= λ newpath.
      getfile limit s.file_system newpath true >>= λ inode. ok (newpath, inode))

-- `command_pwd.call`
unfoldable pub command_pwd : ShellState → ShellState
command_pwd s = say (on_output (s.cwd ++ 10 ∷ [])) s

abbrev mkdir_error : Text → Text → Written
mkdir_error f why = on_error (quoted (codes "mkdir: cannot create directory `") f why)

abbrev after_mkdir : Text → ShellState → FsOutcome Done → Command
after_mkdir f s (ok r, fs') = done_with (record s { file_system = fs' })
after_mkdir f s (throws file_not_found, fs') =
    done_with (say (mkdir_error f no_such_file) (record s { file_system = fs' }))
after_mkdir f s (throws e, fs') = (throws e, record s { file_system = fs' })

-- `command_mkdir.call`, which returns behind the first argument.
unfoldable pub command_mkdir : ℕ → ℕ → List Text → ShellState → Command
command_mkdir limit now [] s = done_with s
command_mkdir limit now (f ∷ args) s = or_stop (resolved f s) s λ pname.
    or_stop (exists limit s.file_system pname) s λ there. elim there [
      | some b ↦ done_with (say (mkdir_error f (codes "': File exists\n")) s)
      | none ↦ after_mkdir f s (mkdir limit now s.file_system pname (pos 0) (pos 0) 4096 16877 none)
    ]

abbrev touched : ShellState → FsOutcome Bool → FsResult Bool × ShellState
touched s (ok b, fs') = (ok true, record s { file_system = fs' })
touched s (throws e, fs') = (throws e, record s { file_system = fs' })

abbrev touch_error : Text → Text → ShellState → ShellState
touch_error pname why s = say (on_error (quoted (codes "touch: cannot touch `") pname why)) s

-- The file of a path, by whether its directory and the file itself exist; the result says whether
-- the loop goes on.
unfoldable pub touch_path :
    ℕ
    → ℕ
    → Text
    → ShellState
    → FsResult (Option Bool)
    → FsResult (Option Bool)
    → FsResult Bool × ShellState
touch_path limit now pname s (throws e) there = (throws e, s)
touch_path limit now pname s (ok none) there =
    (ok false, touch_error pname (codes "`: No such file or directory\n") s)
touch_path limit now pname s (ok (some b)) (throws e) = (throws e, s)
touch_path limit now pname s (ok (some b)) (ok (some b')) = (ok true, s)
touch_path limit now pname s (ok (some b)) (ok none) =
    if is_special pname
    then (ok false, touch_error pname (codes "`: Permission denied\n") s)
    else touched s (mkfile limit now s.file_system pname (pos 0) (pos 0) 0 33188 none)

unfoldable pub touch_resolved : ℕ → ℕ → ShellState → FsResult Text → FsResult Bool × ShellState
touch_resolved limit now s (throws e) = (throws e, s)
touch_resolved limit now s (ok pname) =
    touch_path limit now pname s (exists limit s.file_system (dirname pname))
      (exists limit s.file_system pname)

-- One argument of `touch`.
unfoldable pub touch_one : ℕ → ℕ → Text → ShellState → FsResult Bool × ShellState
touch_one limit now f s = touch_resolved limit now s (resolved f s)

abbrev pub go_on_with : (ShellState → Command) → FsResult Bool × ShellState → Command
go_on_with f (ok true, s) = f s
go_on_with f (ok false, s) = done_with s
go_on_with f (throws e, s) = (throws e, s)

-- The loop of `touch`.
unfoldable pub touch_all : ℕ → ℕ → List Text → ShellState → Command
touch_all limit now [] s = done_with s
touch_all limit now (f ∷ args) s =
    go_on_with (λ s'. touch_all limit now args s') (touch_one limit now f s)

-- `command_touch.call`
unfoldable pub command_touch : ℕ → ℕ → List Text → ShellState → Command
command_touch limit now [] s = done_with (
    say (on_error (codes "Try `touch --help' for more information.\n"))
      (say (on_error (codes "touch: missing file operand\n")) s))
command_touch limit now (f ∷ args) s = touch_all limit now (f ∷ args) s

-- `'/'.join(pname.split('/')[:-1])`
unfoldable pub parent_of : Text → Text
parent_of pname = join slash (pop (split slash pname))

abbrev removed_words : EntryKind → Text
removed_words t_dir = codes "removed directory '"
removed_words kind = codes "removed '"

abbrev rm_said : Bool → EntryKind → Text → ShellState → ShellState
rm_said verbose kind name s =
    if verbose then say (on_output (quoted (removed_words kind) name (codes "'\n"))) s else s

-- The directory at `d` after an entry was taken out of it.
abbrev pub rm_removed : ℕ → Bool → ℕ → ShellState → FsResult (List ℕ) → Command
rm_removed d verbose i s (throws e) = (throws e, s)
rm_removed d verbose i s (ok cs) = done_with (
    rm_said verbose (entry_at s.file_system i).a_type (entry_at s.file_system i).a_name
      (record s { file_system = set_contents d cs s.file_system }))

-- One entry of the copy of the directory.
unfoldable pub rm_entry : ℕ → Bool → Bool → Text → ℕ → ℕ → ShellState → Command
rm_entry limit recursive verbose name d i s =
    if text_eq (entry_at s.file_system i).a_name name
    then (if is_kind (entry_at s.file_system i).a_type t_dir && not recursive
        then done_with (
            say
              (on_error (
                quoted (codes "rm: cannot remove `") (entry_at s.file_system i).a_name
                  (codes "': Is a directory\n")))
              s)
        else rm_removed d verbose i s
            (remove_equal limit s.file_system i (contents_at s.file_system d)))
    else done_with s

abbrev pub then_with : Command → (ShellState → Command) → Command
then_with (ok r, s) f = f s
then_with (throws e, s) f = (throws e, s)

-- `for i in dir[:]`
unfoldable pub rm_entries : ℕ → Bool → Bool → Text → ℕ → List ℕ → ShellState → Command
rm_entries limit recursive verbose name d [] s = done_with s
rm_entries limit recursive verbose name d (i ∷ is) s =
    then_with (rm_entry limit recursive verbose name d i s)
      λ s'. rm_entries limit recursive verbose name d is s'

-- What `except (IndexError, fs.FileNotFound)` catches.
unfoldable pub rm_missing : Bool → Text → ShellState → FsError → Command
rm_missing force f s file_not_found =
    done_with
      (if force then s else say (on_error (quoted (codes "rm: cannot remove `") f no_such_file)) s)
rm_missing force f s index_error =
    done_with
      (if force then s else say (on_error (quoted (codes "rm: cannot remove `") f no_such_file)) s)
rm_missing force f s e = (throws e, s)

-- `pname.split('/')[-1]`
abbrev pub last_part : Text → Text
last_part pname = last_of (split slash pname)

-- The entries of the directory, where it and the path were found.
unfoldable pub rm_found : ℕ → Bool → Bool → Bool → Text → Text → ShellState → FsResult ℕ → Command
rm_found limit recursive force verbose f pname s (throws e) = rm_missing force f s e
rm_found limit recursive force verbose f pname s (ok d) =
    rm_entries limit recursive verbose (last_part pname) d (contents_at s.file_system d) s

-- One argument of `rm`.
unfoldable pub rm_one : ℕ → Bool → Bool → Bool → Text → ShellState → Command
rm_one limit recursive force verbose f s = or_stop (resolved f s) s λ pname.
    rm_found limit recursive force verbose f pname s (
      get_path limit s.file_system (parent_of pname) true >>= λ d.
      get_path limit s.file_system pname true >>= λ own. ok d)

-- `command_rm.call`, behind the parsing of the options
unfoldable pub rm_all : ℕ → Bool → Bool → Bool → List Text → ShellState → Command
rm_all limit recursive force verbose [] s = done_with s
rm_all limit recursive force verbose (f ∷ args) s =
    then_with (rm_one limit recursive force verbose f s)
      λ s'. rm_all limit recursive force verbose args s'
