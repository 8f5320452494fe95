-- ===== src/Shell/TouchRm.antt =====
-- touch and then rm, of cowrie/src/cowrie/commands/fs.py.
use vo_iphoneypot.Auth.Random.{count}
use vo_iphoneypot.Common.{
  All, All-unappend, Bool, List, Option, Text, [], ap, false, none, pos, refl, some, suc, true, ℕ,
  ◌++◌, ◌∙◌, ◌∷◌, ◌≡◌, ◌≤◌,
}
use vo_iphoneypot.Shell.Agree.{getfile-absolute}
use vo_iphoneypot.Shell.CameAndWent.{rest_after_self, unchanged}
use vo_iphoneypot.Shell.Commands.{
  ShellState, command_touch, done_with, rm_all, touch_all, touch_one, touch_path, touch_resolved,
}
use vo_iphoneypot.Shell.Files.{mkfile, set_contents}
use vo_iphoneypot.Shell.Forgets.{directory_of, without}
use vo_iphoneypot.Shell.Lookup.{exists}
use vo_iphoneypot.Shell.Made.{WellFormed}
use vo_iphoneypot.Shell.Mkfile.{mkfile_assigns, only_at}
use vo_iphoneypot.Shell.Names.{is_special}
use vo_iphoneypot.Shell.Normal.{Component}
use vo_iphoneypot.Shell.Objects.{Entry, FileSystem, is_kind, ok, put_entry, t_dir}
use vo_iphoneypot.Shell.Plain.{NamesDiffer, NoLinks, descend}
use vo_iphoneypot.Shell.Remove.{without-descend}
use vo_iphoneypot.Shell.Removed.{nothing}
use vo_iphoneypot.Shell.Replaced.{replaced, rest_after}
use vo_iphoneypot.Shell.Resolved.{absolute}
use vo_iphoneypot.Shell.Rm.{resolved-absolute, rm_runs}
use vo_iphoneypot.Shell.Split.{dirname-absolute}

touch_runs :
    (limit now : ℕ) (s : ShellState) (ds : List Text) (n : Text) (d : ℕ) (fs' : FileSystem)
    → NoLinks s.file_system
    → NamesDiffer s.file_system
    → All Component (ds ++ n ∷ [])
    → descend s.file_system s.file_system.fs ds ≡ some d
    → descend s.file_system s.file_system.fs (ds ++ n ∷ []) ≡ none
    → is_special (absolute (ds ++ n ∷ [])) ≡ false
    → mkfile (suc limit) now s.file_system (absolute (ds ++ n ∷ [])) (pos 0) (pos 0) 0 33188 none
      ≡ (ok true, fs')
    → command_touch (suc limit) now (absolute (ds ++ n ∷ []) ∷ []) s
      ≡ done_with (record s { file_system = fs' })
unfolding command_touch touch_all touch_one touch_resolved touch_path exists
touch_runs limit now s ds n d fs' nl nd h at gone plain made =
    let (hs, hn) = All-unappend Component ds (n ∷ []) h in
    rw
      (
        resolved-absolute (ds ++ n ∷ []) s h,
        dirname-absolute ds n hs hn.0.2,
        getfile-absolute limit s.file_system ds true nl nd hs,
        at,
        getfile-absolute limit s.file_system (ds ++ n ∷ []) true nl nd h,
        gone,
        plain,
        made,
      )
      refl

-- On a well-formed file system, where links are absent and no directory has a name twice, a touch of
-- an absolute path of plain components, without a slash at its end, that leads nowhere, in a
-- directory that is there, and an rm of the same path, without -v, both succeed and write nothing.
-- There are at most 10000 new files before, and neither the path nor its directory is a special one. Then every path leads where it led before, but the
-- new file is counted.
pub touch_then_rm :
    (limit now : ℕ) (r force : Bool) (s : ShellState) (ds : List Text) (n : Text) (d : ℕ)
    → WellFormed s.file_system
    → All Component (ds ++ n ∷ [])
    → descend s.file_system s.file_system.fs ds ≡ some d
    → descend s.file_system s.file_system.fs (ds ++ n ∷ []) ≡ none
    → s.file_system.newcount ≤ 10000
    → is_special (absolute ds) ≡ false
    → is_special (absolute (ds ++ n ∷ [])) ≡ false
    → (s' : ShellState) × (s'' : ShellState) × (command_touch
          (suc limit)
          now
          (absolute (ds ++ n ∷ []) ∷ [])
          s
        ≡ done_with s')
      × (rm_all (suc limit) r force false (absolute (ds ++ n ∷ []) ∷ []) s' ≡ done_with s'')
      × (s''.lines ≡ s.lines)
      × (s''.file_system.newcount ≡ suc s.file_system.newcount)
      × ((qs : List Text)
          → descend s''.file_system s''.file_system.fs qs
            ≡ descend s.file_system s.file_system.fs qs)
unfolding set_contents put_entry
touch_then_rm limit now r force s ds n d wf h at gone room plain_dir plain =
    let (hs, hn) = All-unappend Component ds (n ∷ []) h in
    let (fs', made, wf', count, new, lookup') =
      mkfile_assigns limit now s.file_system ds n (pos 0) (pos 0) 0 33188 none d wf hs hn.0 at room
        plain_dir in
    let i = s.file_system.next_address in
    let there =
      lookup' (ds ++ n ∷ [])
      ∙ ap
          (λ (o : Option (List Text)).
            replaced o (only_at i) (descend s.file_system s.file_system.fs (ds ++ n ∷ [])))
          (rest_after_self (ds ++ n ∷ [])) in
    let (d', dir, named) = directory_of fs' ds n i there in
    let s' = record s { file_system = fs' } in
    (
      s',
      record s { file_system = without fs' d' n },
      touch_runs limit now s ds n d fs' wf.1 wf.2 h at gone plain made,
      rm_runs limit r force s' ds n d' i wf'.1 wf'.2 h there dir named
          (ap (λ (e : Entry). is_kind e.a_type t_dir) new),
      refl,
      count,
      λ qs.
          without-descend fs' ds n i d' qs wf' dir named
          ∙ ap (replaced (rest_after (ds ++ n ∷ []) qs) nothing) (lookup' qs)
          ∙ unchanged s.file_system (ds ++ n ∷ []) qs i (rest_after (ds ++ n ∷ []) qs) gone refl,
    )
