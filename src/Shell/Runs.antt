-- ===== src/Shell/Runs.antt =====
-- Runs of the file system on a small tree: /etc/passwd and /home.
use vo_iphoneypot.Common.{
  Bool, List, Option, Text, [], arith, codes, contains, false, if◌then◌else◌, none, pos, refl,
  select, some, text_eq, true, ℕ, ℤ, ◌∷◌, ◌≡◌, ◌≢◌,
}
use vo_iphoneypot.Shell.Agree.{lookups_agree}
use vo_iphoneypot.Shell.Files.{
  add_new, contents_at, found_or, mkdir, mkdir2, mkfile, new_entry, remove, rename, set_contents,
  without_old,
}
use vo_iphoneypot.Shell.Followed.{islink_never}
use vo_iphoneypot.Shell.Lookup.{
  enter_entry, first_named, follow_pieces, get_path, getfile, go_to, isfile, islink, link_target,
  search_contents, step_into, strip_slash, strip_slashes, subscript, walk_parts,
}
use vo_iphoneypot.Shell.Made.{WellFormed}
use vo_iphoneypot.Shell.Mkdir.{mkdir2_assigns, new_dir}
use vo_iphoneypot.Shell.Mkfile.{only_at}
use vo_iphoneypot.Shell.Names.{basename, dirname, is_special, up_to_slash}
use vo_iphoneypot.Shell.Objects.{
  Done, FileSystem, FsOutcome, allocate, entry_at, file_not_found, is_kind, names, ok, put_entry,
  remove_equal, t_link, throws, type_error,
}
use vo_iphoneypot.Shell.Passwd.{PwEntry, load_passwd}
use vo_iphoneypot.Shell.Plain.{descend}
use vo_iphoneypot.Shell.Remove.{remove_forgets, rename_loses}
use vo_iphoneypot.Shell.Removed.{nothing}
use vo_iphoneypot.Shell.Replaced.{replaced, rest_after}
use vo_iphoneypot.Shell.Resolved.{absolute}
use vo_iphoneypot.Shell.Sample.{
  etc, etc-Component, etc_found, home, new_Component, new_name, nothing_found, passwd,
  passwd_Component, sample, sample-NamesDiffer, sample-NoLinks, sample-WellFormed, sample_objects,
}
use vo_iphoneypot.Shell.Users.{PlainEntry, load_passwd-passwd_lines, passwd_lines}
use vo_iphoneypot.Strings.{has_prefix, join, keep_unless, rstrip, split, strip}

passwd_found : descend sample 0 (etc ∷ passwd ∷ []) ≡ some 2
unfolding descend first_named text_eq
passwd_found = refl

no_directory : descend sample 0 (new_name ∷ []) ≡ none
unfolding descend first_named text_eq
no_directory = refl

lookups_agree_example :
    (getfile 1 sample (absolute (etc ∷ passwd ∷ [])) false
      ≡ ok (descend sample 0 (etc ∷ passwd ∷ [])))
    × (get_path 0 sample (absolute (etc ∷ passwd ∷ [])) false
        ≡ found_or file_not_found (descend sample 0 (etc ∷ passwd ∷ [])))
lookups_agree_example =
    lookups_agree 0 sample (etc ∷ passwd ∷ []) false sample-NoLinks sample-NamesDiffer
      (etc-Component, (passwd_Component, tt))

mkdir2_assigns_example :
    (s' : FileSystem) × (mkdir2 1 7 sample (absolute (etc ∷ new_name ∷ [])) ≡ (ok tt, s'))
    × WellFormed s'
    × (s'.newcount ≡ 1)
    × (entry_at s' 4 ≡ new_dir new_name 7)
    × ((qs : List Text)
        → descend s' s'.fs qs
          ≡ replaced (rest_after (etc ∷ new_name ∷ []) qs) (only_at 4) (descend sample 0 qs))
mkdir2_assigns_example =
    mkdir2_assigns 0 7 sample (etc ∷ []) new_name 1 sample-WellFormed
      (etc-Component, (new_Component, tt)) etc_found nothing_found (omega arith)

remove_forgets_example :
    (s' : FileSystem) × (remove 1 sample (absolute (etc ∷ passwd ∷ [])) ≡ (ok tt, s'))
    × WellFormed s'
    × ((qs : List Text)
        → descend s' s'.fs qs
          ≡ replaced (rest_after (etc ∷ passwd ∷ []) qs) nothing (descend sample 0 qs))
remove_forgets_example =
    remove_forgets 0 sample (etc ∷ []) passwd 2 sample-WellFormed
      (etc-Component, (passwd_Component, tt)) passwd_found

rename_loses_example :
    (s' : FileSystem) × (rename 1 sample
        (absolute (etc ∷ passwd ∷ []))
        (absolute (new_name ∷ new_name ∷ []))
      ≡ (throws file_not_found, s'))
    × ((qs : List Text)
        → descend s' s'.fs qs
          ≡ replaced (rest_after (etc ∷ passwd ∷ []) qs) nothing (descend sample 0 qs))
rename_loses_example =
    rename_loses 0 sample (etc ∷ []) passwd (new_name ∷ []) new_name 2 sample-WellFormed
      (etc-Component, (passwd_Component, tt)) (new_Component, (new_Component, tt)) passwd_found
      no_directory

-- /etc/link, a link to passwd, which is looked up at the root.
abbrev linked : FileSystem
linked =
    put_entry 1 (record (sample_objects 1) { a_contents = 2 ∷ 4 ∷ [] })
      (put_entry 4
        (record (new_entry t_link (codes "link") (pos 0) (pos 0) 6 41471 0) {
          a_target = some passwd;
        })
        sample)

linked_root : is_kind (entry_at linked linked.fs).a_type t_link ≡ false
unfolding put_entry
linked_root = refl

islink_never_example : islink 9 linked (codes "/etc/link") ≢ ok true
islink_never_example = islink_never 9 linked (codes "/etc/link") linked_root

relative_link : getfile 9 linked (codes "/etc/link") true ≡ ok none
unfolding getfile follow_pieces step_into search_contents enter_entry link_target split strip_slash
    strip_slashes rstrip keep_unless contains text_eq put_entry
relative_link = refl

-- A path that ends in a separator: the new directory has an empty name.
abbrev empty_name : FsOutcome Done → List Text
empty_name (r, s) = names s (contents_at s s.fs)

mkdir2_slash : empty_name (mkdir2 9 0 sample (codes "/a/")) ≡ etc ∷ home ∷ [] ∷ []
unfolding mkdir2 mkdir getfile follow_pieces step_into search_contents enter_entry split strip_slash
    strip_slashes rstrip keep_unless contains text_eq put_entry add_new set_contents allocate
    dirname basename up_to_slash get_path walk_parts subscript go_to select first_named
mkdir2_slash = refl

missing_isfile : isfile 9 sample (codes "/b") ≡ throws type_error
unfolding isfile getfile follow_pieces step_into split strip_slash strip_slashes rstrip keep_unless
    contains text_eq
missing_isfile = refl

-- A file is made inside of a regular file.
abbrev made_at : FsOutcome Bool → ℕ → List Text
made_at (r, s) i = names s (contents_at s i)

inside_file :
    made_at (mkfile 9 0 sample (codes "/etc/passwd/x") (pos 0) (pos 0) 0 0 none) 2 ≡ codes "x" ∷ []
unfolding mkfile is_special has_prefix without_old getfile split strip_slash strip_slashes rstrip
    keep_unless contains text_eq put_entry add_new set_contents allocate dirname basename
    up_to_slash get_path walk_parts subscript go_to select first_named remove_equal
inside_file = refl

-- The line of root.
abbrev root_entry : PwEntry
root_entry = record {
  pw_name = codes "root";
  pw_passwd = codes "x";
  pw_uid = pos 0;
  pw_gid = pos 0;
  pw_gecos = codes "root";
  pw_dir = codes "/root";
  pw_shell = codes "/bin/bash";
}

abbrev read_zero : Text → Option ℤ
read_zero t = if text_eq t (codes "0") then some (pos 0) else none

abbrev show_zero : ℤ → Text
show_zero n = codes "0"

root-PlainEntry : PlainEntry read_zero show_zero root_entry
unfolding strip join text_eq
root-PlainEntry = (
  (
    (refl, (refl, (refl, (refl, tt)))),
    (
      (refl, tt),
      (
        (refl, tt),
        (
          (refl, tt),
          (
            (refl, (refl, (refl, (refl, tt)))),
            (
              (refl, (refl, (refl, (refl, (refl, tt))))),
              ((refl, (refl, (refl, (refl, (refl, (refl, (refl, (refl, (refl, tt))))))))), tt),
            ),
          ),
        ),
      ),
    ),
  ),
  refl,
  refl,
  refl,
  refl,
)

load_passwd-passwd_lines_example :
    load_passwd read_zero (passwd_lines show_zero (root_entry ∷ [])) ≡ root_entry ∷ []
load_passwd-passwd_lines_example =
    load_passwd-passwd_lines read_zero show_zero (root_entry ∷ []) (root-PlainEntry, tt)
