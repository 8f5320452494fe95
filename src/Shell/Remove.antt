-- ===== src/Shell/Remove.antt =====
-- The theorems on remove and rename of cowrie/src/cowrie/shell/fs.py.
use vo_iphoneypot.Common.{
  All, All-unappend, List, Option, Text, [], ap, false, none, refl, some, suc, sym, true, ℕ,
  ℕ_discrete, ◌++◌, ◌∙◌, ◌∷◌, ◌≡◌, ◌≢◌,
}
use vo_iphoneypot.Shell.Agree.{get_path-absolute, getfile-absolute}
use vo_iphoneypot.Shell.Dropped.{remove_equal-first}
use vo_iphoneypot.Shell.Files.{attach, contents_at, remove, rename, set_name}
use vo_iphoneypot.Shell.Forgets.{
  descend-snoc, directory_of, set_name_root, without, without-NoLinks, without-WellFormed,
  without_contents, without_name, without_other, without_root,
}
use vo_iphoneypot.Shell.Lookup.{first_named}
use vo_iphoneypot.Shell.Made.{WellFormed, put_other, put_same}
use vo_iphoneypot.Shell.Normal.{Component}
use vo_iphoneypot.Shell.Objects.{
  Entry, FileSystem, entry_at, file_not_found, is_kind, ok, t_link, throws,
}
use vo_iphoneypot.Shell.Paths.{slash}
use vo_iphoneypot.Shell.Plain.{NamesDiffer, NoLinks, and_down, descend}
use vo_iphoneypot.Shell.Removed.{descend-removed, nothing}
use vo_iphoneypot.Shell.Replaced.{replaced, rest_after}
use vo_iphoneypot.Shell.Resolved.{absolute}
use vo_iphoneypot.Shell.Split.{basename-absolute, dirname-absolute}
use vo_iphoneypot.Strings.{Word}

remove_runs :
    (limit : ℕ) (s : FileSystem) (ds : List Text) (n : Text) (x d : ℕ)
    → NoLinks s
    → NamesDiffer s
    → All Component (ds ++ n ∷ [])
    → descend s s.fs (ds ++ n ∷ []) ≡ some x
    → descend s s.fs ds ≡ some d
    → first_named s n (contents_at s d) ≡ some x
    → remove (suc limit) s (absolute (ds ++ n ∷ [])) ≡ (ok tt, without s d n)
unfolding remove
remove_runs limit s ds n x d nl nd h there dir at =
    let (hs, hn) = All-unappend Component ds (n ∷ []) h in
    rw
      (
        getfile-absolute limit s (ds ++ n ∷ []) false nl nd h,
        there,
        dirname-absolute ds n hs hn.0.2,
        get_path-absolute (suc limit) s ds true nl hs,
        dir,
        remove_equal-first limit s n (contents_at s d) x at,
      )
      refl

pub without-descend :
    (s : FileSystem) (ds : List Text) (n : Text) (x d : ℕ) (qs : List Text)
    → WellFormed s
    → descend s s.fs ds ≡ some d
    → first_named s n (contents_at s d) ≡ some x
    → descend (without s d n) (without s d n).fs qs
      ≡ replaced (rest_after (ds ++ n ∷ []) qs) nothing (descend s s.fs qs)
without-descend s ds n x d qs ((depth, parent, tree, root), nl, nd) dir at =
    descend-removed s (without s d n) d x n depth parent tree nd at (without_root s d n)
      (without_contents s d n) (without_other s d n) (λ i k. without_name s d n i) ds qs dir root

-- On a well-formed file system, where links are absent and no directory has a name twice, remove of
-- an absolute path of plain components, without a slash at its end, that leads to an entry succeeds. The file system stays well-formed,
-- and the map from paths to entries loses this path and what is below it, and nothing else.
pub remove_forgets :
    (limit : ℕ) (s : FileSystem) (ds : List Text) (n : Text) (x : ℕ)
    → WellFormed s
    → All Component (ds ++ n ∷ [])
    → descend s s.fs (ds ++ n ∷ []) ≡ some x
    → (s' : FileSystem) × (remove (suc limit) s (absolute (ds ++ n ∷ [])) ≡ (ok tt, s'))
      × WellFormed s'
      × ((qs : List Text)
          → descend s' s'.fs qs
            ≡ replaced (rest_after (ds ++ n ∷ []) qs) nothing (descend s s.fs qs))
remove_forgets limit s ds n x ((depth, parent, tree, root), nl, nd) h there =
    let (d, dir, at) = directory_of s ds n x there in
    (
      without s d n,
      remove_runs limit s ds n x d nl nd h there dir at,
      without-WellFormed s d n ((depth, parent, tree, root), nl, nd),
      λ qs. without-descend s ds n x d qs ((depth, parent, tree, root), nl, nd) dir at,
    )

-- The entry that has left its directory, under its new name.
abbrev adrift : FileSystem → ℕ → Text → ℕ → Text → FileSystem
adrift s d n x m = set_name x m (without s d n)

adrift_attribute {ℓ} :
    {A : Type ℓ} (f : Entry → A) (s : FileSystem) (d : ℕ) (n : Text) (x : ℕ) (m : Text) (i : ℕ)
    → ((e : Entry) (w : Text) → f (record e { a_name = w }) ≡ f e)
    → f (entry_at (adrift s d n x m) i) ≡ f (entry_at (without s d n) i)
unfolding set_name
adrift_attribute f s d n x m i h = elim (ℕ_discrete i x) [
  | yes same ↦
      ap (λ (j : ℕ). f (entry_at (adrift s d n x m) j)) same
      ∙ ap f (put_same x (record (entry_at (without s d n) x) { a_name = m }) (without s d n))
      ∙ h (entry_at (without s d n) x) m
      ∙ ap (λ (j : ℕ). f (entry_at (without s d n) j)) (sym same)
  | no other ↦
      ap f
        (put_other x i (record (entry_at (without s d n) x) { a_name = m }) (without s d n) other)
]

adrift_name :
    (s : FileSystem) (d : ℕ) (n : Text) (x : ℕ) (m : Text) (i : ℕ)
    → i ≢ x
    → (entry_at (adrift s d n x m) i).a_name ≡ (entry_at s i).a_name
unfolding set_name
adrift_name s d n x m i h =
    ap (λ (e : Entry). e.a_name)
      (put_other x i (record (entry_at (without s d n) x) { a_name = m }) (without s d n) h)
    ∙ without_name s d n i

adrift_contents :
    (s : FileSystem) (d : ℕ) (n : Text) (x : ℕ) (m : Text) (i : ℕ)
    → contents_at (adrift s d n x m) i ≡ contents_at (without s d n) i
adrift_contents s d n x m i =
    adrift_attribute (λ (e : Entry). e.a_contents) s d n x m i (λ e w. refl)

adrift-NoLinks :
    (s : FileSystem) (d : ℕ) (n : Text) (x : ℕ) (m : Text) → NoLinks s → NoLinks (adrift s d n x m)
adrift-NoLinks s d n x m nl i =
    adrift_attribute (λ (e : Entry). is_kind e.a_type t_link) s d n x m i (λ e w. refl)
    ∙ without-NoLinks s d n nl i

adrift-descend :
    (s : FileSystem) (ds : List Text) (n : Text) (x d : ℕ) (m : Text) (qs : List Text)
    → WellFormed s
    → descend s s.fs ds ≡ some d
    → first_named s n (contents_at s d) ≡ some x
    → descend (adrift s d n x m) (adrift s d n x m).fs qs
      ≡ replaced (rest_after (ds ++ n ∷ []) qs) nothing (descend s s.fs qs)
adrift-descend s ds n x d m qs ((depth, parent, tree, root), nl, nd) dir at =
    descend-removed s (adrift s d n x m) d x n depth parent tree nd at
      (set_name_root (without s d n) x m ∙ without_root s d n)
      (adrift_contents s d n x m d ∙ without_contents s d n)
      (λ i h. adrift_contents s d n x m i ∙ without_other s d n i h) (adrift_name s d n x m) ds qs
      dir root

still_none : (o : Option (List Text)) (r : Option ℕ) → r ≡ none → replaced o nothing r ≡ none
still_none none r h = h
still_none (some t) r h = refl

attach_fails :
    (limit : ℕ) (s : FileSystem) (x : ℕ) (es : List Text) (m : Text)
    → NoLinks s
    → All Component es
    → Word slash m
    → descend s s.fs es ≡ none
    → attach limit s x (absolute (es ++ m ∷ [])) ≡ (throws file_not_found, s)
unfolding attach
attach_fails limit s x es m nl h hm gone =
    rw (dirname-absolute es m h hm, get_path-absolute limit s es true nl h, gone) refl

no_target :
    (s : FileSystem) (es : List Text) (m : Text)
    → descend s s.fs es ≡ none
    → descend s s.fs (es ++ m ∷ []) ≡ none
no_target s es m h =
    descend-snoc s s.fs es m ∙ ap (and_down (λ d. first_named s m (contents_at s d))) h

rename_runs :
    (limit : ℕ) (s : FileSystem) (ds : List Text) (n : Text) (es : List Text) (m : Text) (x d : ℕ)
    → NoLinks s
    → NamesDiffer s
    → All Component (ds ++ n ∷ [])
    → All Component (es ++ m ∷ [])
    → descend s s.fs (ds ++ n ∷ []) ≡ some x
    → descend s s.fs es ≡ none
    → descend s s.fs ds ≡ some d
    → first_named s n (contents_at s d) ≡ some x
    → rename (suc limit) s (absolute (ds ++ n ∷ [])) (absolute (es ++ m ∷ []))
      ≡ attach (suc limit) (adrift s d n x m) x (absolute (es ++ m ∷ []))
unfolding rename
rename_runs limit s ds n es m x d nl nd h k there target_gone dir at =
    let (hs, hn) = All-unappend Component ds (n ∷ []) h in
    let (ks, km) = All-unappend Component es (m ∷ []) k in
    rw
      (
        getfile-absolute limit s (ds ++ n ∷ []) true nl nd h,
        there,
        getfile-absolute limit s (es ++ m ∷ []) true nl nd k,
        no_target s es m target_gone,
        dirname-absolute ds n hs hn.0.2,
        get_path-absolute (suc limit) s ds true nl hs,
        dir,
        remove_equal-first limit s n (contents_at s d) x at,
        basename-absolute es m km.0.2,
      )
      refl

-- On a well-formed file system, a rename of an entry into a directory that is not there, by two
-- absolute paths of plain components, without a slash at their ends, raises FileNotFound, but the entry is gone all the same: the path of the entry, and every path below it,
-- leads nowhere afterwards, and the other paths lead where they led.
pub rename_loses :
    (limit : ℕ) (s : FileSystem) (ds : List Text) (n : Text) (es : List Text) (m : Text) (x : ℕ)
    → WellFormed s
    → All Component (ds ++ n ∷ [])
    → All Component (es ++ m ∷ [])
    → descend s s.fs (ds ++ n ∷ []) ≡ some x
    → descend s s.fs es ≡ none
    → (s' : FileSystem) × (rename (suc limit) s (absolute (ds ++ n ∷ [])) (absolute (es ++ m ∷ []))
        ≡ (throws file_not_found, s'))
      × ((qs : List Text)
          → descend s' s'.fs qs
            ≡ replaced (rest_after (ds ++ n ∷ []) qs) nothing (descend s s.fs qs))
rename_loses limit s ds n es m x (t, nl, nd) h k there gone =
    let (d, dir, at) = directory_of s ds n x there in
    let (ks, km) = All-unappend Component es (m ∷ []) k in
    (
      adrift s d n x m,
      rename_runs limit s ds n es m x d nl nd h k there gone dir at
          ∙ attach_fails (suc limit) (adrift s d n x m) x es m (adrift-NoLinks s d n x m nl) ks
              km.0.2
              (adrift-descend s ds n x d m es (t, nl, nd) dir at
                ∙ still_none (rest_after (ds ++ n ∷ []) es) (descend s s.fs es) gone),
      λ qs. adrift-descend s ds n x d m qs (t, nl, nd) dir at,
    )
