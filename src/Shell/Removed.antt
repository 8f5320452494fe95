-- ===== src/Shell/Removed.antt =====
-- What remove and rename of cowrie/src/cowrie/shell/fs.py do to a well-formed file system.
use mathlib.Core.Path.{subst, fun_ext}
use vo_iphoneypot.Common.{
  All, All-imp, List, Option, Text, [], ap, contains, differ_absurd, false, none, or_false, refl,
  some, sym, text_eq, ℕ, ◌++◌, ◌<◌, ◌∙◌, ◌∷◌, ◌≡◌, ◌≢◌,
}
use vo_iphoneypot.Shell.Dropped.{contains-drop_named, drop_named, first_named-drop_named}
use vo_iphoneypot.Shell.Files.{contents_at}
use vo_iphoneypot.Shell.Lookup.{first_named}
use vo_iphoneypot.Shell.Objects.{FileSystem, entry_at, names}
use vo_iphoneypot.Shell.Plain.{NamesDiffer, descend, first_named-none}
use vo_iphoneypot.Shell.Replaced.{descend-replaced, from_option, replaced, rest_after}
use vo_iphoneypot.Shell.Update.{Child, Children, first_named-Child, first_named_name}

-- Nothing is at the path and below.
abbrev pub nothing : List Text → Option ℕ
nothing r = none

names_other :
    (s s' : FileSystem) (x : ℕ) (w : Text) (xs : List ℕ)
    → ((i : ℕ) → i ≢ x → (entry_at s' i).a_name ≡ (entry_at s i).a_name)
    → All (λ c. c ≢ x) xs
    → first_named s' w xs ≡ first_named s w xs
unfolding first_named
names_other s s' x w [] h k = refl
names_other s s' x w (y ∷ ys) h k = rw (h y k.0, names_other s s' x w ys h k.1) refl

not_named :
    (s : FileSystem) (x : ℕ) (xs : List ℕ)
    → contains (entry_at s x).a_name (names s xs) ≡ false
    → All (λ c. c ≢ x) xs
unfolding contains
not_named s x [] h = tt
not_named s x (y ∷ ys) h =
    let (other, rest) =
      or_false (text_eq (entry_at s y).a_name (entry_at s x).a_name)
        (contains (entry_at s x).a_name (names s ys)) h in
    (
      (λ same. differ_absurd (ap (λ (i : ℕ). (entry_at s i).a_name) same) other),
      not_named s x ys rest,
    )

-- The entry `x` of the name `n` leaves the directory at `d`, and perhaps gets another name.
module _ (s s' : FileSystem) (d x : ℕ) (n : Text) (depth parent : ℕ → ℕ)
    (tree : Children s depth parent) (differ : NamesDiffer s)
    (at : first_named s n (contents_at s d) ≡ some x) (same_root : s'.fs ≡ s.fs)
    (gone : contents_at s' d ≡ drop_named s n (contents_at s d))
    (kept_contents : (i : ℕ) → i ≢ d → contents_at s' i ≡ contents_at s i)
    (kept_names : (i : ℕ) → i ≢ x → (entry_at s' i).a_name ≡ (entry_at s i).a_name) where
  x_name : (entry_at s x).a_name ≡ n
  x_name = first_named_name s n (contents_at s d) x at

  not_elsewhere : (i : ℕ) → i ≢ d → All (λ c. c ≢ x) (contents_at s i)
  not_elsewhere i h =
      All-imp (Child s depth parent i) (λ c. c ≢ x) (contents_at s i)
        (λ c k same.
          h (sym k.2 ∙ ap parent same ∙ (first_named-Child s depth parent tree d x n at).2))
        (tree i)

  not_left : All (λ c. c ≢ x) (drop_named s n (contents_at s d))
  not_left = not_named s x (drop_named s n (contents_at s d)) (
      subst (λ (w : Text). contains w (names s (drop_named s n (contents_at s d))) ≡ false)
        (sym x_name) (contains-drop_named s n (contents_at s d) (differ d)))

  left_first :
      (w : Text)
      → first_named s' w (contents_at s' d) ≡ first_named s w (drop_named s n (contents_at s d))
  left_first w =
      ap (first_named s' w) gone
      ∙ names_other s s' x w (drop_named s n (contents_at s d)) kept_names not_left

  removed_elsewhere :
      (i : ℕ) (w : Text)
      → i ≢ d
      → i < s.next_address
      → first_named s' w (contents_at s' i) ≡ first_named s w (contents_at s i)
  removed_elsewhere i w h k =
      ap (first_named s' w) (kept_contents i h)
      ∙ names_other s s' x w (contents_at s i) kept_names (not_elsewhere i h)

  removed_others :
      (w : Text)
      → text_eq w n ≡ false
      → first_named s' w (contents_at s' d) ≡ first_named s w (contents_at s d)
  removed_others w h = left_first w ∙ first_named-drop_named s n w (contents_at s d) h

  removed_name : first_named s' n (contents_at s' d) ≡ none
  removed_name =
      left_first n
      ∙ first_named-none s n (drop_named s n (contents_at s d))
          (contains-drop_named s n (contents_at s d) (differ d))

  no_option : (r : List Text) → from_option s' none r ≡ none
  unfolding from_option
  no_option r = refl

  pub descend-removed :
      (ds qs : List Text)
      → descend s s.fs ds ≡ some d
      → s.fs < s.next_address
      → descend s' s'.fs qs ≡ replaced (rest_after (ds ++ n ∷ []) qs) nothing (descend s s.fs qs)
  descend-removed ds qs dir lt =
      ap (λ (i : ℕ). descend s' i qs) same_root
      ∙ descend-replaced s s' depth parent tree d n removed_elsewhere removed_others s.fs ds qs dir
          lt
      ∙ ap
          (λ (f : List Text → Option ℕ).
            replaced (rest_after (ds ++ n ∷ []) qs) f (descend s s.fs qs))
          (ap (from_option s') removed_name ∙ fun_ext no_option)
