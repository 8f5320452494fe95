-- ===== src/Shell/Forgets.antt =====
-- remove, and the rename that fails, on a well-formed file system of cowrie/src/cowrie/shell/fs.py.
use mathlib.Core.Path.{subst, fun_ext}
use vo_iphoneypot.Common.{
  All, List, Option, Text, [], ap, ap₂, none, refl, some, sym, ℕ, ℕ_discrete, ◌++◌, ◌∙◌, ◌∷◌, ◌≡◌,
  ◌≢◌,
}
use vo_iphoneypot.Shell.Dropped.{All-drop_named, NoRepeats-drop_named, drop_named}
use vo_iphoneypot.Shell.Files.{contents_at, set_contents, set_name}
use vo_iphoneypot.Shell.Lookup.{first_named}
use vo_iphoneypot.Shell.Made.{WellFormed, put_other, put_same}
use vo_iphoneypot.Shell.Objects.{Entry, FileSystem, entry_at, is_kind, names, put_entry, t_link}
use vo_iphoneypot.Shell.Plain.{NoLinks, NoRepeats, and_down, descend}
use vo_iphoneypot.Shell.Update.{Child, and_down-some}

chained :
    (f g : ℕ → Option ℕ) (o : Option ℕ)
    → and_down g (and_down f o) ≡ and_down (λ q. and_down g (f q)) o
chained f g none = refl
chained f g (some q) = refl

pub descend-snoc :
    (s : FileSystem) (p : ℕ) (ds : List Text) (n : Text)
    → descend s p (ds ++ n ∷ [])
      ≡ and_down (λ d. first_named s n (contents_at s d)) (descend s p ds)
unfolding descend
descend-snoc s p [] n = single (first_named s n (contents_at s p))
  where
    single : (o : Option ℕ) → and_down (λ q. some q) o ≡ o
    single none = refl
    single (some q) = refl
descend-snoc s p (w ∷ ds) n =
    ap (λ (f : ℕ → Option ℕ). and_down f (first_named s w (contents_at s p)))
      (fun_ext (λ q. descend-snoc s q ds n))
    ∙ sym (
        chained (λ q. descend s q ds) (λ d. first_named s n (contents_at s d))
          (first_named s w (contents_at s p)))

-- The directory that an entry is found in.
pub directory_of :
    (s : FileSystem) (ds : List Text) (n : Text) (x : ℕ)
    → descend s s.fs (ds ++ n ∷ []) ≡ some x
    → (d : ℕ) × (descend s s.fs ds ≡ some d) × (first_named s n (contents_at s d) ≡ some x)
directory_of s ds n x h =
    and_down-some (λ d. first_named s n (contents_at s d)) (descend s s.fs ds) x
      (sym (descend-snoc s s.fs ds n) ∙ h)

-- The directory at `d` without the first entry of the name.
abbrev pub without : FileSystem → ℕ → Text → FileSystem
without s d n = set_contents d (drop_named s n (contents_at s d)) s

-- The attribute of an entry that a change of the contents of another one, or of another attribute,
-- keeps.
pub without_attribute {ℓ} :
    {A : Type ℓ} (f : Entry → A) (s : FileSystem) (d : ℕ) (n : Text) (i : ℕ)
    → ((e : Entry) (cs : List ℕ) → f (record e { a_contents = cs }) ≡ f e)
    → f (entry_at (without s d n) i) ≡ f (entry_at s i)
unfolding set_contents
without_attribute f s d n i h = elim (ℕ_discrete i d) [
  | yes same ↦
      ap (λ (j : ℕ). f (entry_at (without s d n) j)) same
      ∙ ap f
          (put_same d (record (entry_at s d) { a_contents = drop_named s n (contents_at s d) }) s)
      ∙ h (entry_at s d) (drop_named s n (contents_at s d))
      ∙ ap (λ (j : ℕ). f (entry_at s j)) (sym same)
  | no other ↦ ap f (
      put_other d i (record (entry_at s d) { a_contents = drop_named s n (contents_at s d) }) s
        other)
]

pub without_contents :
    (s : FileSystem) (d : ℕ) (n : Text)
    → contents_at (without s d n) d ≡ drop_named s n (contents_at s d)
unfolding set_contents
without_contents s d n =
    ap (λ (e : Entry). e.a_contents)
      (put_same d (record (entry_at s d) { a_contents = drop_named s n (contents_at s d) }) s)

pub without_other :
    (s : FileSystem) (d : ℕ) (n : Text) (i : ℕ)
    → i ≢ d
    → contents_at (without s d n) i ≡ contents_at s i
unfolding set_contents
without_other s d n i h =
    ap (λ (e : Entry). e.a_contents)
      (put_other d i (record (entry_at s d) { a_contents = drop_named s n (contents_at s d) }) s h)

pub without_name :
    (s : FileSystem) (d : ℕ) (n : Text) (i : ℕ)
    → (entry_at (without s d n) i).a_name ≡ (entry_at s i).a_name
without_name s d n i = without_attribute (λ (e : Entry). e.a_name) s d n i (λ e cs. refl)

pub without-NoLinks : (s : FileSystem) (d : ℕ) (n : Text) → NoLinks s → NoLinks (without s d n)
without-NoLinks s d n nl i =
    without_attribute (λ (e : Entry). is_kind e.a_type t_link) s d n i (λ e cs. refl) ∙ nl i

pub all_names :
    (s s' : FileSystem) (xs : List ℕ)
    → ((i : ℕ) → (entry_at s' i).a_name ≡ (entry_at s i).a_name)
    → names s' xs ≡ names s xs
all_names s s' [] h = refl
all_names s s' (x ∷ xs) h = ap₂ (λ w ws. w ∷ ws) (h x) (all_names s s' xs h)

-- What holds of the smaller directory and of the others.
every_without {κ} :
    (P : ℕ → List ℕ → Type κ) (s : FileSystem) (d : ℕ) (n : Text)
    → P d (drop_named s n (contents_at s d))
    → ((i : ℕ) → P i (contents_at s i))
    → (i : ℕ) → P i (contents_at (without s d n) i)
every_without P s d n here' else' i = elim (ℕ_discrete i d) [
  | yes same ↦
      subst (λ (j : ℕ). P j (contents_at (without s d n) j)) (sym same)
        (subst (P d) (sym (without_contents s d n)) here')
  | no other ↦ subst (P i) (sym (without_other s d n i other)) (else' i)
]

pub without-WellFormed :
    (s : FileSystem) (d : ℕ) (n : Text) → WellFormed s → WellFormed (without s d n)
unfolding set_contents put_entry
without-WellFormed s d n ((depth, parent, tree, root), nl, nd) = (
  (
    depth,
    parent,
    every_without (λ i xs. All (Child s depth parent i) xs) s d n
        (All-drop_named (Child s depth parent d) s n (contents_at s d) (tree d)) tree,
    root,
  ),
  without-NoLinks s d n nl,
  every_without (λ i xs. NoRepeats (names (without s d n) xs)) s d n
      (subst NoRepeats
        (sym (all_names s (without s d n) (drop_named s n (contents_at s d)) (without_name s d n)))
        (NoRepeats-drop_named s n (contents_at s d) (nd d)))
      (λ i.
        subst NoRepeats (sym (all_names s (without s d n) (contents_at s i) (without_name s d n)))
          (nd i)),
)

pub without_root : (s : FileSystem) (d : ℕ) (n : Text) → (without s d n).fs ≡ s.fs
unfolding set_contents put_entry
without_root s d n = refl

pub set_name_root : (s : FileSystem) (x : ℕ) (m : Text) → (set_name x m s).fs ≡ s.fs
unfolding set_name put_entry
set_name_root s x m = refl
