-- ===== src/Shell/Rmdir.antt =====
-- command_rmdir of cowrie/src/cowrie/commands/fs.py, and what it does to one directory.
use mathlib.Core.Option.{some-injective, none-ne-some}
use vo_iphoneypot.Common.{
  All, All-unappend, Bool, Bool-cases, List, Option, Text, [], codes, contains, false, if_false,
  if_true, if◌then◌else◌, inl, inr, length, ltb, none, refl, some, suc, sym, text_eq, true, ℕ, ◌++◌,
  ◌∙◌, ◌∷◌, ◌≡◌,
}
use vo_iphoneypot.Shell.Agree.{get_path-absolute}
use vo_iphoneypot.Shell.Commands.{
  Command, ShellState, done_with, go_on_with, no_such_file, on_error, parent_of, quoted, resolved,
  say,
}
use vo_iphoneypot.Shell.Dropped.{remove_equal-first}
use vo_iphoneypot.Shell.Files.{contents_at, set_contents}
use vo_iphoneypot.Shell.Forgets.{directory_of, without}
use vo_iphoneypot.Shell.Lookup.{first_named, get_path}
use vo_iphoneypot.Shell.Made.{WellFormed}
use vo_iphoneypot.Shell.Names.{basename}
use vo_iphoneypot.Shell.Normal.{Component}
use vo_iphoneypot.Shell.Objects.{
  FileSystem, FsResult, entry_at, file_not_found, index_error, is_kind, names, ok, remove_equal,
  t_dir, throws, ◌>>=◌,
}
use vo_iphoneypot.Shell.Plain.{NoLinks, descend}
use vo_iphoneypot.Shell.Remove.{without-descend}
use vo_iphoneypot.Shell.Removed.{nothing}
use vo_iphoneypot.Shell.Replaced.{replaced, rest_after}
use vo_iphoneypot.Shell.Resolved.{absolute}
use vo_iphoneypot.Shell.Rm.{get_path-parent_of, resolved-absolute}
use vo_iphoneypot.Shell.Split.{basename-absolute}

abbrev pub rmdir_error : Text → Text → ShellState → ShellState
rmdir_error f why s = say (on_error (quoted (codes "rmdir: failed to remove `") f why)) s

abbrev pub directory_full : Text
directory_full = codes "': Directory not empty\n"

-- The directory of the path; none where what the path leads to is not empty.
unfoldable pub rmdir_looked : ℕ → FileSystem → Text → FsResult (Option ℕ)
rmdir_looked limit s pname = get_path limit s pname true >>= λ own.
    if ltb 0 (length (contents_at s own))
    then ok none
    else (get_path limit s (parent_of pname) true >>= λ d. ok (some d))

abbrev pub rmdir_removed : ℕ → ShellState → FsResult (List ℕ) → FsResult Bool × ShellState
rmdir_removed d s (throws e) = (throws e, s)
rmdir_removed d s (ok cs) = (ok true, record s { file_system = set_contents d cs s.file_system })

-- `for i in dir[:]`; the result says whether the loop over the arguments goes on.
unfoldable pub rmdir_entries : ℕ → Text → ℕ → List ℕ → ShellState → FsResult Bool × ShellState
rmdir_entries limit f d [] s = (ok true, s)
rmdir_entries limit f d (i ∷ is) s =
    let rest = rmdir_entries limit f d is s in
    if text_eq (entry_at s.file_system i).a_name (basename f)
    then (if is_kind (entry_at s.file_system i).a_type t_dir
        then rmdir_removed d s (remove_equal limit s.file_system i (contents_at s.file_system d))
        else (
          ok false,
          say
              (on_error
                (quoted (codes "rmdir: failed to remove '") f (codes "': Not a directory\n")))
              s,
        ))
    else rest

-- The tests of `rmdir` on what was looked up.
unfoldable pub rmdir_found :
    ℕ → Text → ShellState → FsResult (Option ℕ) → FsResult Bool × ShellState
rmdir_found limit f s (ok none) = (ok true, rmdir_error f directory_full s)
rmdir_found limit f s (ok (some d)) =
    if contains (basename f) (names s.file_system (contents_at s.file_system d))
    then rmdir_entries limit f d (contents_at s.file_system d) s
    else (ok true, rmdir_error f no_such_file s)
rmdir_found limit f s (throws file_not_found) = (ok true, rmdir_error f no_such_file s)
rmdir_found limit f s (throws index_error) = (ok true, rmdir_error f no_such_file s)
rmdir_found limit f s (throws e) = (throws e, s)

unfoldable pub rmdir_resolved : ℕ → Text → ShellState → FsResult Text → FsResult Bool × ShellState
rmdir_resolved limit f s (throws e) = (throws e, s)
rmdir_resolved limit f s (ok pname) = rmdir_found limit f s (rmdir_looked limit s.file_system pname)

-- One argument of `rmdir`.
unfoldable pub rmdir_one : ℕ → Text → ShellState → FsResult Bool × ShellState
rmdir_one limit f s = rmdir_resolved limit f s (resolved f s)

-- `command_rmdir.call`
unfoldable pub command_rmdir : ℕ → List Text → ShellState → Command
command_rmdir limit [] s = done_with s
command_rmdir limit (f ∷ args) s =
    go_on_with (λ s'. command_rmdir limit args s') (rmdir_one limit f s)

contains-first_named :
    (s : FileSystem) (n : Text) (xs : List ℕ) (x : ℕ)
    → first_named s n xs ≡ some x
    → contains n (names s xs) ≡ true
unfolding contains first_named
contains-first_named s n [] x h = absurd (none-ne-some x h)
contains-first_named s n (y ∷ ys) x h = elim (Bool-cases (text_eq (entry_at s y).a_name n)) [
  | inl same ↦ rw same refl
  | inr other ↦ rw other (
      contains-first_named s n ys x
        (sym (if_false (text_eq (entry_at s y).a_name n) (some y) (first_named s n ys) other) ∙ h))
]

-- The first entry of the name is the one that goes.
rmdir_first :
    (limit : ℕ) (f n : Text) (d x : ℕ) (xs : List ℕ) (s : ShellState)
    → basename f ≡ n
    → first_named s.file_system n xs ≡ some x
    → is_kind (entry_at s.file_system x).a_type t_dir ≡ true
    → rmdir_entries limit f d xs s
      ≡ rmdir_removed d s (remove_equal limit s.file_system x (contents_at s.file_system d))
unfolding rmdir_entries first_named
rmdir_first limit f n d x [] s b h dir = absurd (none-ne-some x h)
rmdir_first limit f n d x (y ∷ ys) s b h dir =
    elim (Bool-cases (text_eq (entry_at s.file_system y).a_name n)) [
      | inl same ↦
          let first = some-injective y x (
            sym (
              if_true (text_eq (entry_at s.file_system y).a_name n) (some y)
                (first_named s.file_system n ys) same)
            ∙ h) in
          rw (b, same, first, dir) refl
      | inr other ↦
          rw (b, other)
            (rmdir_first limit f n d x ys s b
              (sym (
                  if_false (text_eq (entry_at s.file_system y).a_name n) (some y)
                    (first_named s.file_system n ys) other)
                ∙ h)
              dir)
    ]

rmdir_runs :
    (limit : ℕ) (s : ShellState) (ds : List Text) (n : Text) (d x : ℕ)
    → NoLinks s.file_system
    → All Component (ds ++ n ∷ [])
    → descend s.file_system s.file_system.fs (ds ++ n ∷ []) ≡ some x
    → descend s.file_system s.file_system.fs ds ≡ some d
    → first_named s.file_system n (contents_at s.file_system d) ≡ some x
    → is_kind (entry_at s.file_system x).a_type t_dir ≡ true
    → command_rmdir (suc limit) (absolute (ds ++ n ∷ []) ∷ []) s
      ≡ done_with (
          if ltb 0 (length (contents_at s.file_system x))
          then rmdir_error (absolute (ds ++ n ∷ [])) directory_full s
          else record s { file_system = without s.file_system d n })
unfolding command_rmdir rmdir_one rmdir_resolved rmdir_looked rmdir_found
rmdir_runs limit s ds n d x nl h there dir at kind =
    let (hs, hn) = All-unappend Component ds (n ∷ []) h in
    let b = basename-absolute ds n hn.0.2 in
    elim (Bool-cases (ltb 0 (length (contents_at s.file_system x)))) [
      | inl full ↦
          rw
            (
              resolved-absolute (ds ++ n ∷ []) s h,
              get_path-absolute (suc limit) s.file_system (ds ++ n ∷ []) true nl h,
              there,
              full,
            )
            refl
      | inr empty ↦
          rw
            (
              resolved-absolute (ds ++ n ∷ []) s h,
              get_path-absolute (suc limit) s.file_system (ds ++ n ∷ []) true nl h,
              there,
              empty,
              get_path-parent_of (suc limit) s.file_system ds n nl h,
              dir,
              b,
              contains-first_named s.file_system n (contents_at s.file_system d) x at,
              rmdir_first (suc limit) (absolute (ds ++ n ∷ [])) n d x (contents_at s.file_system d)
                  s b at kind,
              remove_equal-first limit s.file_system n (contents_at s.file_system d) x at,
            )
            refl
    ]

-- On a well-formed file system, where links are absent and no directory has a name twice, rmdir of
-- an absolute path of plain components, without a slash at its end, that leads to a directory tells whether that is empty. If it is not,
-- the error is written and nothing else changes. If it is, nothing is written, and the map from
-- paths to entries loses this path and what is below it, and nothing else.
pub rmdir_exact :
    (limit : ℕ) (s : ShellState) (ds : List Text) (n : Text) (x : ℕ)
    → WellFormed s.file_system
    → All Component (ds ++ n ∷ [])
    → descend s.file_system s.file_system.fs (ds ++ n ∷ []) ≡ some x
    → is_kind (entry_at s.file_system x).a_type t_dir ≡ true
    → (fs' : FileSystem) × (command_rmdir (suc limit) (absolute (ds ++ n ∷ []) ∷ []) s
        ≡ done_with (
            if ltb 0 (length (contents_at s.file_system x))
            then rmdir_error (absolute (ds ++ n ∷ [])) directory_full s
            else record s { file_system = fs' }))
      × ((qs : List Text)
          → descend fs' fs'.fs qs
            ≡ replaced
                (rest_after (ds ++ n ∷ []) qs)
                nothing
                (descend s.file_system s.file_system.fs qs))
rmdir_exact limit s ds n x wf h there kind =
    let (d, dir, at) = directory_of s.file_system ds n x there in
    (
      without s.file_system d n,
      rmdir_runs limit s ds n d x wf.1 h there dir at kind,
      λ qs. without-descend s.file_system ds n x d qs wf dir at,
    )
