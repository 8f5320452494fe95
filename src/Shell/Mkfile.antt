-- ===== src/Shell/Mkfile.antt =====
-- What mkfile of cowrie/src/cowrie/shell/fs.py does to a well-formed file system.
use mathlib.Core.Path.{subst, fun_ext}
use vo_iphoneypot.Common.{
  All, All-imp, List, Option, Text, [], ap, ap₂, arith, contains, false, ltb, none, or_false, refl,
  some, suc, sym, text_eq, text_eq-false_sym, true, ℕ, ℕ_discrete, ℤ, ◌++◌, ◌<◌, ◌∙◌, ◌∷◌, ◌≡◌, ◌≢◌,
  ◌≤◌,
}
use vo_iphoneypot.Shell.Agree.{get_path-absolute}
use vo_iphoneypot.Shell.Dropped.{
  All-drop_named, NoRepeats-drop_named, contains-drop_named, drop_named, first_named-drop_named,
  without_old-drop_named,
}
use vo_iphoneypot.Shell.Files.{add_new, contents_at, mkfile, new_entry, or_now, set_contents}
use vo_iphoneypot.Shell.Grown.{depth', every_contents, grown_tree, parent'}
use vo_iphoneypot.Shell.Lookup.{first_named}
use vo_iphoneypot.Shell.Made.{
  Tree, WellFormed, added, added-names, added_dir, added_first, added_new, added_other,
  dir_contents, first_last_new, first_last_other, other_contents,
}
use vo_iphoneypot.Shell.Names.{is_special}
use vo_iphoneypot.Shell.Normal.{Component}
use vo_iphoneypot.Shell.Objects.{
  Entry, FileSystem, allocate, entry_at, is_kind, names, ok, put_entry, t_file, t_link,
}
use vo_iphoneypot.Shell.Plain.{NamesDiffer, NoLinks, NoRepeats, descend}
use vo_iphoneypot.Shell.Replaced.{descend-replaced, from_option, replaced, rest_after}
use vo_iphoneypot.Shell.Resolved.{absolute}
use vo_iphoneypot.Shell.Split.{basename-absolute, dirname-absolute}
use vo_iphoneypot.Shell.Update.{Child, Children, descend-lt}

-- An entry with nothing below it.
abbrev pub only_at : ℕ → List Text → Option ℕ
only_at n [] = some n
only_at n (w ∷ r) = none

contains_snoc :
    (v w : Text) (ws : List Text)
    → contains v ws ≡ false
    → text_eq w v ≡ false
    → contains v (ws ++ w ∷ []) ≡ false
unfolding contains
contains_snoc v w [] h k = rw k refl
contains_snoc v w (x ∷ ws) h k =
    let (other, rest) = or_false (text_eq x v) (contains v ws) h in
    rw (other, contains_snoc v w ws rest k) refl

NoRepeats-snoc :
    (w : Text) (ws : List Text) → contains w ws ≡ false → NoRepeats ws → NoRepeats (ws ++ w ∷ [])
unfolding contains
NoRepeats-snoc w [] h k = (refl, tt)
NoRepeats-snoc w (x ∷ ws) h k =
    let (other, rest) = or_false (text_eq x w) (contains w ws) h in
    (contains_snoc x w ws k.0 (text_eq-false_sym x w other), NoRepeats-snoc w ws rest k.1)

names_append :
    (s : FileSystem) (xs : List ℕ) (y : ℕ)
    → names s (xs ++ y ∷ []) ≡ names s xs ++ (entry_at s y).a_name ∷ []
names_append s [] y = refl
names_append s (x ∷ xs) y = ap (λ ws. (entry_at s x).a_name ∷ ws) (names_append s xs y)

below_limit :
    (s : FileSystem) (depth parent : ℕ → ℕ) (i : ℕ) (xs : List ℕ)
    → All (Child s depth parent i) xs
    → All (λ c. c < s.next_address) xs
below_limit s depth parent i xs h =
    All-imp (Child s depth parent i) (λ c. c < s.next_address) xs (λ c k. k.0) h

-- The file that replaces the first entry of its name in the directory at `d`.
module _ (s : FileSystem) (d : ℕ) (e : Entry) (depth parent : ℕ → ℕ)
    (tree : Children s depth parent) (in_use : d < s.next_address) (differ : NamesDiffer s)
    (empty : e.a_contents ≡ []) where
  abbrev pub rest_of : List ℕ
  rest_of = drop_named s e.a_name (contents_at s d)

  abbrev pub after : FileSystem
  after = added s d rest_of e in_use

  rest_children : All (Child s depth parent d) rest_of
  rest_children = All-drop_named (Child s depth parent d) s e.a_name (contents_at s d) (tree d)

  rest_lt : All (λ c. c < s.next_address) rest_of
  rest_lt = below_limit s depth parent d rest_of rest_children

  pub after_differ : NamesDiffer after
  after_differ =
      every_contents s d rest_of e in_use depth parent tree rest_children empty
        (λ i xs. NoRepeats (names after xs))
        (subst NoRepeats
          (sym (
            names_append after rest_of s.next_address
            ∙ ap₂ (λ ws w. ws ++ w ∷ []) (added-names s d rest_of e in_use rest_of rest_lt)
                (ap (λ (x : Entry). x.a_name) (added_new s d rest_of e in_use))))
          (NoRepeats-snoc e.a_name (names s rest_of)
            (contains-drop_named s e.a_name (contents_at s d) (differ d))
            (NoRepeats-drop_named s e.a_name (contents_at s d) (differ d))))
        tt
        λ i other neither.
          subst NoRepeats
            (sym (
              added-names s d rest_of e in_use (contents_at s i)
                (below_limit s depth parent i (contents_at s i) (tree i))))
            (differ i)

  pub after_links : is_kind e.a_type t_link ≡ false → NoLinks s → NoLinks after
  after_links plain nl i = elim (ℕ_discrete i d) [
    | yes same ↦
        subst (λ (j : ℕ). is_kind (entry_at after j).a_type t_link ≡ false) (sym same)
          (subst (λ (x : Entry). is_kind x.a_type t_link ≡ false)
            (sym (added_dir s d rest_of e in_use)) (nl d))
    | no other ↦ elim (ℕ_discrete i s.next_address) [
      | yes same ↦
          subst (λ (j : ℕ). is_kind (entry_at after j).a_type t_link ≡ false) (sym same)
            (subst (λ (x : Entry). is_kind x.a_type t_link ≡ false)
              (sym (added_new s d rest_of e in_use)) plain)
      | no neither ↦
          subst (λ (x : Entry). is_kind x.a_type t_link ≡ false)
            (sym (added_other s d rest_of e in_use i other neither)) (nl i)
    ]
  ]

  pub after-Tree : s.fs < s.next_address → Tree after
  unfolding add_new set_contents allocate put_entry
  after-Tree h = (
    depth' s d rest_of e in_use depth parent tree rest_children empty,
    parent' s d rest_of e in_use depth parent tree rest_children empty,
    grown_tree s d rest_of e in_use depth parent tree rest_children empty,
    omega (arith, h),
  )

  leaf : (r : List Text) → from_option after (some s.next_address) r ≡ only_at s.next_address r
  unfolding from_option descend first_named
  leaf [] = refl
  leaf (w ∷ r) = rw (ap (λ (x : Entry). x.a_contents) (added_new s d rest_of e in_use) ∙ empty) refl

  elsewhere_same :
      (i : ℕ) (w : Text)
      → i ≢ d
      → i < s.next_address
      → first_named after w (contents_at after i) ≡ first_named s w (contents_at s i)
  elsewhere_same i w h k =
      ap (first_named after w) (other_contents s d rest_of e in_use i h (λ x. omega (arith, x, k)))
      ∙ added_first s d rest_of e in_use w (contents_at s i)
          (below_limit s depth parent i (contents_at s i) (tree i))

  others_same :
      (w : Text)
      → text_eq w e.a_name ≡ false
      → first_named after w (contents_at after d) ≡ first_named s w (contents_at s d)
  others_same w h =
      ap (first_named after w) (dir_contents s d rest_of e in_use)
      ∙ first_last_other s d rest_of e in_use w rest_of (text_eq-false_sym w e.a_name h) rest_lt
      ∙ first_named-drop_named s e.a_name w (contents_at s d) h

  new_found : first_named after e.a_name (contents_at after d) ≡ some s.next_address
  new_found =
      ap (first_named after e.a_name) (dir_contents s d rest_of e in_use)
      ∙ first_last_new s d rest_of e in_use e.a_name rest_of refl
          (contains-drop_named s e.a_name (contents_at s d) (differ d)) rest_lt

  pub after-descend :
      (p : ℕ) (ds qs : List Text)
      → descend s p ds ≡ some d
      → p < s.next_address
      → descend after p qs
        ≡ replaced (rest_after (ds ++ e.a_name ∷ []) qs) (only_at s.next_address) (descend s p qs)
  after-descend p ds qs at lt =
      descend-replaced s after depth parent tree d e.a_name elsewhere_same others_same p ds qs at lt
      ∙ ap
          (λ (f : List Text → Option ℕ).
            replaced (rest_after (ds ++ e.a_name ∷ []) qs) f (descend s p qs))
          (ap (from_option after) new_found ∙ fun_ext leaf)

pub within_limit : (a : ℕ) → a ≤ 10000 → ltb 10000 a ≡ false
within_limit a k = ground (arith, k)

mkfile_runs :
    (limit now : ℕ) (s : FileSystem) (ds : List Text) (n : Text) (uid gid : ℤ) (size mode : ℕ)
    (ctime : Option ℕ) (d : ℕ)
    → NoLinks s
    → All Component ds
    → Component n
    → descend s s.fs ds ≡ some d
    → s.newcount ≤ 10000
    → is_special (absolute ds) ≡ false
    → mkfile (suc limit) now s (absolute (ds ++ n ∷ [])) uid gid size mode ctime ≡ (
      ok true,
      add_new d
          (drop_named s n (contents_at s d))
          (new_entry t_file n uid gid size mode (or_now now ctime))
          s,
    )
unfolding mkfile
mkfile_runs limit now s ds n uid gid size mode ctime d nl h hn at room plain =
    rw
      (
        within_limit s.newcount room,
        dirname-absolute ds n h hn.2,
        basename-absolute ds n hn.2,
        plain,
        get_path-absolute (suc limit) s ds true nl h,
        at,
        without_old-drop_named limit s n (contents_at s d),
      )
      refl
  where
    within : (a : ℕ) → a ≤ 10000 → ltb 10000 a ≡ false
    within a k = ground (arith, k)

pub mkfile_assigns :
    (limit now : ℕ) (s : FileSystem) (ds : List Text) (n : Text) (uid gid : ℤ) (size mode : ℕ)
    (ctime : Option ℕ) (d : ℕ)
    → WellFormed s
    → All Component ds
    → Component n
    → descend s s.fs ds ≡ some d
    → s.newcount ≤ 10000
    → is_special (absolute ds) ≡ false
    → (s' : FileSystem) × (mkfile
          (suc limit)
          now
          s
          (absolute (ds ++ n ∷ []))
          uid
          gid
          size
          mode
          ctime
        ≡ (ok true, s'))
      × WellFormed s'
      × (s'.newcount ≡ suc s.newcount)
      × (entry_at s' s.next_address ≡ new_entry t_file n uid gid size mode (or_now now ctime))
      × ((qs : List Text)
          → descend s' s'.fs qs
            ≡ replaced (rest_after (ds ++ n ∷ []) qs) (only_at s.next_address) (descend s s.fs qs))
unfolding add_new set_contents allocate put_entry
mkfile_assigns limit now s ds n uid gid size mode ctime d ((depth, parent, tree, root), nl, nd) h hn
      at room plain =
    let e = new_entry t_file n uid gid size mode (or_now now ctime) in
    let lt = descend-lt s depth parent tree s.fs d ds root at in
    (
      after s d e depth parent tree lt nd refl,
      mkfile_runs limit now s ds n uid gid size mode ctime d nl h hn at room plain,
      (
        after-Tree s d e depth parent tree lt nd refl root,
        after_links s d e depth parent tree lt nd refl refl nl,
        after_differ s d e depth parent tree lt nd refl,
      ),
      refl,
      added_new s d (drop_named s n (contents_at s d)) e lt,
      λ qs. after-descend s d e depth parent tree lt nd refl s.fs ds qs at root,
    )
