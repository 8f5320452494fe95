-- ===== src/Shell/Mkdir.antt =====
-- What mkdir2 of cowrie/src/cowrie/shell/fs.py does to a well-formed file system.
use mathlib.Core.Option.{none-ne-some}
use vo_iphoneypot.Common.{
  All, All-unappend, Bool, Bool-cases, List, Text, [], ap, contains, false, inl, inr, none, pos,
  refl, select, some, suc, sym, true, ℕ, ◌++◌, ◌∙◌, ◌∷◌, ◌≡◌, ◌≤◌,
}
use vo_iphoneypot.Shell.Agree.{getfile-absolute, strip_joined, strip_slash-absolute}
use vo_iphoneypot.Shell.Dropped.{drop_missing, drop_named, first_there}
use vo_iphoneypot.Shell.Files.{
  add_new, contents_at, found_or, mkdir, mkdir2, new_entry, set_contents,
}
use vo_iphoneypot.Shell.Forgets.{descend-snoc}
use vo_iphoneypot.Shell.Lookup.{first_named, get_path, getfile, strip_slash, strip_slashes}
use vo_iphoneypot.Shell.Made.{WellFormed, added_new}
use vo_iphoneypot.Shell.Mkfile.{
  after, after-Tree, after-descend, after_differ, after_links, only_at, within_limit,
}
use vo_iphoneypot.Shell.Names.{dirname}
use vo_iphoneypot.Shell.Normal.{Component}
use vo_iphoneypot.Shell.Objects.{
  Entry, FileSystem, allocate, eexist, entry_at, file_not_found, names, ok, put_entry, t_dir,
  throws,
}
use vo_iphoneypot.Shell.Paths.{components, not_empty, slash}
use vo_iphoneypot.Shell.Plain.{NoLinks, and_down, descend, walk_plain}
use vo_iphoneypot.Shell.Replaced.{replaced, rest_after}
use vo_iphoneypot.Shell.Resolved.{absolute, joined, nonempties, nonempty, select_every, words}
use vo_iphoneypot.Shell.Split.{
  basename-absolute, join_snoc, not_empty_of, rstrip_snoc, slash_free_up, up_last,
}
use vo_iphoneypot.Shell.Update.{descend-lt}
use vo_iphoneypot.Strings.{Word, join, rstrip, rstrip-join, split, split-join}

dirname-single : (n : Text) → Word slash n → dirname n ≡ []
unfolding dirname strip_slash rstrip strip_slashes
dirname-single n h = rw (slash_free_up n h) refl

up_joined :
    (w : Text) (ws : List Text)
    → All Component (w ∷ ws)
    → strip_slash (join slash (w ∷ ws) ++ slash ∷ []) ≡ join slash (w ∷ ws)
unfolding strip_slash
up_joined w ws h =
    rw (rstrip_snoc (join slash (w ∷ ws)), rstrip-join slash w ws (nonempties (w ∷ ws) h))
      (strip_joined w ws (nonempty w h.0))

dirname-longer :
    (w : Text) (ws : List Text) (n : Text)
    → All Component (w ∷ ws)
    → Word slash n
    → dirname (join slash (w ∷ ws) ++ slash ∷ n) ≡ join slash (w ∷ ws)
unfolding dirname
dirname-longer w ws n h k =
    rw
      (
        up_last (join slash (w ∷ ws)) n k,
        up_joined w ws h,
        not_empty_of (join slash (w ∷ ws)) (joined w ws h),
        rstrip_snoc (join slash (w ∷ ws)),
      )
      (rstrip-join slash w ws (nonempties (w ∷ ws) h))

-- dirname of a relative path.
dirname-join :
    (ds : List Text) (n : Text)
    → All Component ds
    → Word slash n
    → dirname (join slash (ds ++ n ∷ [])) ≡ join slash ds
unfolding join
dirname-join [] n h k = dirname-single n k
dirname-join (w ∷ ws) n h k = ap dirname (join_snoc w ws n) ∙ dirname-longer w ws n h k

components-join : (ds : List Text) → All Component ds → components (join slash ds) ≡ ds
unfolding components join split select
components-join [] h = refl
components-join (w ∷ ws) h =
    ap (select not_empty) (split-join slash w ws h.0.2 (words ws h.1))
    ∙ select_every (w ∷ ws) (nonempties (w ∷ ws) h)

pub get_path-join :
    (limit : ℕ) (s : FileSystem) (cs : List Text) (b : Bool)
    → NoLinks s
    → All Component cs
    → get_path limit s (join slash cs) b ≡ found_or file_not_found (descend s s.fs cs)
unfolding get_path components
get_path-join limit s cs b nl h =
    rw (components-join cs h) (walk_plain (λ t. getfile limit s t b) s cs s.fs nl)

stripped :
    (ds : List Text) (n : Text)
    → All Component (ds ++ n ∷ [])
    → strip_slash (absolute (ds ++ n ∷ [])) ≡ join slash (ds ++ n ∷ [])
stripped [] n h = strip_slash-absolute n [] h
stripped (w ∷ ws) n h = strip_slash-absolute w (ws ++ n ∷ []) h

joined_snoc :
    (ds : List Text) (n : Text)
    → All Component (ds ++ n ∷ [])
    → not_empty (join slash (ds ++ n ∷ [])) ≡ true
joined_snoc [] n h = not_empty_of (join slash (n ∷ [])) (joined n [] h)
joined_snoc (w ∷ ws) n h = not_empty_of (join slash (w ∷ ws ++ n ∷ [])) (joined w (ws ++ n ∷ []) h)

missing_there :
    (s : FileSystem) (w : Text) (xs : List ℕ)
    → first_named s w xs ≡ none
    → contains w (names s xs) ≡ false
missing_there s w xs h = elim (Bool-cases (contains w (names s xs))) [
  | inl there ↦ let (x, at) = first_there s w xs there in absurd (none-ne-some x (sym h ∙ at))
  | inr missing ↦ missing
]

-- The new directory of mkdir2, whose size and mode are fixed.
abbrev pub new_dir : Text → ℕ → Entry
new_dir n now = new_entry t_dir n (pos 0) (pos 0) 4096 16877 now

mkdir_runs :
    (limit now : ℕ) (s : FileSystem) (ds : List Text) (n : Text) (d : ℕ)
    → NoLinks s
    → All Component (ds ++ n ∷ [])
    → descend s s.fs ds ≡ some d
    → s.newcount ≤ 10000
    → mkdir limit now s (absolute (ds ++ n ∷ [])) (pos 0) (pos 0) 4096 16877 none
      ≡ (ok tt, add_new d (contents_at s d) (new_dir n now) s)
unfolding mkdir
mkdir_runs limit now s ds n d nl h at room =
    let (hs, hn) = All-unappend Component ds (n ∷ []) h in
    rw
      (
        within_limit s.newcount room,
        stripped ds n h,
        joined_snoc ds n h,
        dirname-join ds n hs hn.0.2,
        basename-absolute ds n hn.0.2,
        get_path-join limit s ds true nl hs,
        at,
      )
      refl

-- On a well-formed file system, where links are absent and no directory has a name twice, mkdir2 of
-- a path that leads to an entry raises EEXIST and changes nothing.
pub mkdir2_exists :
    (limit now : ℕ) (s : FileSystem) (cs : List Text) (x : ℕ)
    → WellFormed s
    → All Component cs
    → descend s s.fs cs ≡ some x
    → mkdir2 (suc limit) now s (absolute cs) ≡ (throws eexist, s)
unfolding mkdir2
mkdir2_exists limit now s cs x (t, nl, nd) h at =
    rw (getfile-absolute limit s cs true nl nd h, at) refl

-- On a well-formed file system, where links are absent and no directory has a name twice, mkdir2 of
-- an absolute path of plain components, without a slash at its end, that leads nowhere, in a
-- directory that is there, with at most 10000 new files before, succeeds and counts one new file. The file system stays well-formed, and the map from paths to
-- entries changes only at this path, which leads to a new and empty directory.
pub mkdir2_assigns :
    (limit now : ℕ) (s : FileSystem) (ds : List Text) (n : Text) (d : ℕ)
    → WellFormed s
    → All Component (ds ++ n ∷ [])
    → descend s s.fs ds ≡ some d
    → descend s s.fs (ds ++ n ∷ []) ≡ none
    → s.newcount ≤ 10000
    → (s' : FileSystem) × (mkdir2 (suc limit) now s (absolute (ds ++ n ∷ [])) ≡ (ok tt, s'))
      × WellFormed s'
      × (s'.newcount ≡ suc s.newcount)
      × (entry_at s' s.next_address ≡ new_dir n now)
      × ((qs : List Text)
          → descend s' s'.fs qs
            ≡ replaced (rest_after (ds ++ n ∷ []) qs) (only_at s.next_address) (descend s s.fs qs))
unfolding mkdir2 add_new set_contents allocate put_entry
mkdir2_assigns limit now s ds n d ((depth, parent, tree, root), nl, nd) h at gone room =
    let e = new_dir n now in
    let lt = descend-lt s depth parent tree s.fs d ds root at in
    let unnamed =
      ap (and_down (λ p. first_named s n (contents_at s p))) (sym at)
      ∙ sym (descend-snoc s s.fs ds n)
      ∙ gone in
    (
      after s d e depth parent tree lt nd refl,
      rw (getfile-absolute limit s (ds ++ n ∷ []) true nl nd h, gone)
          (mkdir_runs (suc limit) now s ds n d nl h at room
            ∙ ap (λ (xs : List ℕ). (ok tt, add_new d xs e s))
                (sym (
                  drop_missing s n (contents_at s d)
                    (missing_there s n (contents_at s d) unnamed)))),
      (
        after-Tree s d e depth parent tree lt nd refl root,
        after_links s d e depth parent tree lt nd refl refl nl,
        after_differ s d e depth parent tree lt nd refl,
      ),
      refl,
      added_new s d (drop_named s n (contents_at s d)) e lt,
      λ qs. after-descend s d e depth parent tree lt nd refl s.fs ds qs at root,
    )
