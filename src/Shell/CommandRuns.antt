-- ===== src/Shell/CommandRuns.antt =====
-- Runs of the commands of cowrie/src/cowrie/commands/fs.py on the sample.
use vo_iphoneypot.Common.{
  List, Text, [], arith, codes, contains, false, refl, select, some, text_eq, ◌∷◌, ◌≡◌,
}
use vo_iphoneypot.Shell.Commands.{
  Command, ShellState, command_mkdir, command_touch, done_with, rm_all,
}
use vo_iphoneypot.Shell.Files.{add_new, contents_at, mkdir, set_contents}
use vo_iphoneypot.Shell.Lookup.{
  exists, first_named, follow_pieces, get_path, getfile, go_to, step_into, strip_slash,
  strip_slashes, subscript, walk_parts,
}
use vo_iphoneypot.Shell.Names.{basename, dirname, is_special, up_to_slash}
use vo_iphoneypot.Shell.Normal.{Component}
use vo_iphoneypot.Shell.Objects.{FileSystem, allocate, names, put_entry}
use vo_iphoneypot.Shell.Paths.{move, resolve_path, walk}
use vo_iphoneypot.Shell.Plain.{descend}
use vo_iphoneypot.Shell.Removed.{nothing}
use vo_iphoneypot.Shell.Replaced.{replaced, rest_after}
use vo_iphoneypot.Shell.Resolved.{absolute}
use vo_iphoneypot.Shell.Rmdir.{command_rmdir, rmdir_exact}
use vo_iphoneypot.Shell.Sample.{
  etc, etc-Component, etc_found, etc_plain, home, new_Component, new_name, nothing_found, sample,
  sample-WellFormed,
}
use vo_iphoneypot.Shell.TouchRm.{touch_then_rm}
use vo_iphoneypot.Strings.{has_prefix, join, keep_unless, rstrip, split}

abbrev shell : ShellState
shell = record { file_system = sample; cwd = codes "/home"; lines = [] }

new_plain : is_special (absolute (etc ∷ new_name ∷ [])) ≡ false
unfolding is_special has_prefix absolute join
new_plain = refl

touch_then_rm_example :
    (s' : ShellState) × (s'' : ShellState) × (command_touch 1 7
        (absolute (etc ∷ new_name ∷ []) ∷ [])
        shell
      ≡ done_with s')
    × (rm_all 1 false false false (absolute (etc ∷ new_name ∷ []) ∷ []) s' ≡ done_with s'')
    × (s''.lines ≡ [])
    × (s''.file_system.newcount ≡ 1)
    × ((qs : List Text) → descend s''.file_system s''.file_system.fs qs ≡ descend sample 0 qs)
touch_then_rm_example =
    touch_then_rm 0 7 false false shell (etc ∷ []) new_name 1 sample-WellFormed
      (etc-Component, (new_Component, tt)) etc_found nothing_found (omega arith) etc_plain new_plain

-- mkdir makes the first of its arguments only.
abbrev names_made : Command → List Text
names_made (r, s) = names s.file_system (contents_at s.file_system s.file_system.fs)

mkdir_two :
    names_made (command_mkdir 9 0 (codes "/a" ∷ codes "/b" ∷ []) shell)
    ≡ etc ∷ home ∷ codes "a" ∷ []
unfolding command_mkdir mkdir exists getfile follow_pieces step_into split strip_slash strip_slashes
    rstrip keep_unless contains text_eq put_entry add_new set_contents allocate dirname basename
    up_to_slash get_path walk_parts subscript go_to select first_named resolve_path walk move join
mkdir_two = refl

home-Component : Component home
unfolding text_eq
home-Component = (refl, refl, (refl, (refl, (refl, (refl, tt)))))

home_found : descend sample 0 (home ∷ []) ≡ some 3
unfolding descend first_named text_eq
home_found = refl

rmdir_exact_example :
    (fs' : FileSystem) × (command_rmdir 1 (absolute (home ∷ []) ∷ []) shell
      ≡ done_with (record shell { file_system = fs' }))
    × ((qs : List Text)
        → descend fs' fs'.fs qs
          ≡ replaced (rest_after (home ∷ []) qs) nothing (descend sample 0 qs))
rmdir_exact_example =
    rmdir_exact 0 shell [] home 3 sample-WellFormed (home-Component, tt) home_found refl
