-- ===== src/Shell/Dropped.antt =====
-- The entries of a directory without the first one of a name.
use mathlib.Core.Option.{some-injective, none-ne-some}
use mathlib.Core.Path.{subst}
use vo_iphoneypot.Common.{
  ==_iff, All, Bool-cases, List, Text, [], ap, arith, contains, differ_absurd, false, if_both,
  if_false, if_true, if◌then◌else◌, inl, inr, or_false, or_true, refl, some, suc, sym, text_eq,
  text_eq-false_sym, text_eq→eq, true, ℕ, ◌==◌, ◌∙◌, ◌∷◌, ◌≡◌,
}
use vo_iphoneypot.Shell.Files.{without_old}
use vo_iphoneypot.Shell.Lookup.{first_named}
use vo_iphoneypot.Shell.Objects.{
  Entry, FileSystem, entry_at, equal_before, equal_objects, kept, names, ok, remove_equal,
}
use vo_iphoneypot.Shell.Plain.{NoRepeats, repeat_none}
use vo_iphoneypot.Shell.Update.{first_named_name}

-- The list without the first entry of the name.
abbrev pub drop_named : FileSystem → Text → List ℕ → List ℕ
drop_named s w [] = []
drop_named s w (x ∷ xs) = if text_eq (entry_at s x).a_name w then xs else x ∷ drop_named s w xs

before_differs : (e e' : Entry) → text_eq e.a_name e'.a_name ≡ false → equal_before e e' ≡ false
unfolding equal_before
before_differs e e' h = rw h refl

-- Entries with different names are not equal.
differ_equal :
    (limit : ℕ) (s : FileSystem) (i j : ℕ)
    → text_eq (entry_at s i).a_name (entry_at s j).a_name ≡ false
    → equal_objects (suc limit) s i j ≡ ok false
unfolding equal_objects
differ_equal limit s i j h = elim (Bool-cases (i == j)) [
  | inl same ↦ absurd (differ_absurd (ap (λ k. (entry_at s k).a_name) ((==_iff i j).0 same)) h)
  | inr other ↦ rw (other, before_differs (entry_at s i) (entry_at s j) h) refl
]

same_equal : (limit : ℕ) (s : FileSystem) (i : ℕ) → equal_objects (suc limit) s i i ≡ ok true
unfolding equal_objects
same_equal limit s i = rw ((==_iff i i).1 refl) refl

-- Removing the first entry of a name by its value takes out that entry.
pub remove_equal-first :
    (limit : ℕ) (s : FileSystem) (w : Text) (xs : List ℕ) (x : ℕ)
    → first_named s w xs ≡ some x
    → remove_equal (suc limit) s x xs ≡ ok (drop_named s w xs)
unfolding remove_equal first_named kept
remove_equal-first limit s w [] x e = absurd (none-ne-some x e)
remove_equal-first limit s w (y ∷ xs) x e = elim (Bool-cases (text_eq (entry_at s y).a_name w)) [
  | inl same ↦
      let first =
        some-injective y x (
          sym (if_true (text_eq (entry_at s y).a_name w) (some y) (first_named s w xs) same) ∙ e) in
      rw (same, sym first, same_equal limit s y) refl
  | inr other ↦
      let later =
        sym (if_false (text_eq (entry_at s y).a_name w) (some y) (first_named s w xs) other) ∙ e in
      rw
        (
          other,
          differ_equal limit s y x (
              subst (λ t. text_eq (entry_at s y).a_name t ≡ false)
                (sym (first_named_name s w xs x later)) other),
          remove_equal-first limit s w xs x later,
        )
        refl
]

-- With names that differ, the name is gone, and the other names are found as before.
pub contains-drop_named :
    (s : FileSystem) (w : Text) (xs : List ℕ)
    → NoRepeats (names s xs)
    → contains w (names s (drop_named s w xs)) ≡ false
unfolding contains
contains-drop_named s w [] h = refl
contains-drop_named s w (x ∷ xs) h = elim (Bool-cases (text_eq (entry_at s x).a_name w)) [
  | inl same ↦ rw same (repeat_none s w x xs h same)
  | inr other ↦ rw other (rw (other, contains-drop_named s w xs h.1) refl)
]

pub first_named-drop_named :
    (s : FileSystem) (w q : Text) (xs : List ℕ)
    → text_eq q w ≡ false
    → first_named s q (drop_named s w xs) ≡ first_named s q xs
unfolding first_named
first_named-drop_named s w q [] h = refl
first_named-drop_named s w q (x ∷ xs) h = elim (Bool-cases (text_eq (entry_at s x).a_name w)) [
  | inl same ↦ rw (same, text_eq→eq (entry_at s x).a_name w same, text_eq-false_sym q w h) refl
  | inr other ↦ rw (other, first_named-drop_named s w q xs h) refl
]

pub All-drop_named {κ} :
    (P : ℕ → Type κ) (s : FileSystem) (w : Text) (xs : List ℕ)
    → All P xs
    → All P (drop_named s w xs)
All-drop_named P s w [] h = tt
All-drop_named P s w (x ∷ xs) h =
    if_both (λ (ys : List ℕ). All P ys) (text_eq (entry_at s x).a_name w) xs (x ∷ drop_named s w xs)
      h.1 (h.0, All-drop_named P s w xs h.1)

contains_less :
    (s : FileSystem) (v w : Text) (xs : List ℕ)
    → contains v (names s xs) ≡ false
    → contains v (names s (drop_named s w xs)) ≡ false
unfolding contains
contains_less s v w [] h = refl
contains_less s v w (x ∷ xs) h =
    let (other, rest) = or_false (text_eq (entry_at s x).a_name v) (contains v (names s xs)) h in
    if_both (λ (ys : List ℕ). contains v (names s ys) ≡ false) (text_eq (entry_at s x).a_name w) xs
      (x ∷ drop_named s w xs) rest (rw (other, contains_less s v w xs rest) refl)

pub NoRepeats-drop_named :
    (s : FileSystem) (w : Text) (xs : List ℕ)
    → NoRepeats (names s xs)
    → NoRepeats (names s (drop_named s w xs))
NoRepeats-drop_named s w [] h = tt
NoRepeats-drop_named s w (x ∷ xs) h =
    if_both (λ (ys : List ℕ). NoRepeats (names s ys)) (text_eq (entry_at s x).a_name w) xs
      (x ∷ drop_named s w xs) h.1
      (contains_less s (entry_at s x).a_name w xs h.0, NoRepeats-drop_named s w xs h.1)

pub drop_missing :
    (s : FileSystem) (w : Text) (xs : List ℕ)
    → contains w (names s xs) ≡ false
    → drop_named s w xs ≡ xs
unfolding contains
drop_missing s w [] h = refl
drop_missing s w (x ∷ xs) h =
    let (other, rest) = or_false (text_eq (entry_at s x).a_name w) (contains w (names s xs)) h in
    rw (other, drop_missing s w xs rest) refl

pub first_there :
    (s : FileSystem) (w : Text) (xs : List ℕ)
    → contains w (names s xs) ≡ true
    → (x : ℕ) × (first_named s w xs ≡ some x)
unfolding contains first_named
first_there s w [] h = absurd (ground (arith, h))
first_there s w (x ∷ xs) h = elim (Bool-cases (text_eq (entry_at s x).a_name w)) [
  | inl same ↦ (x, if_true (text_eq (entry_at s x).a_name w) (some x) (first_named s w xs) same)
  | inr other ↦
      let (y, at) =
        first_there s w xs
          (or_true (text_eq (entry_at s x).a_name w) (contains w (names s xs)) h other) in
      (y, if_false (text_eq (entry_at s x).a_name w) (some x) (first_named s w xs) other ∙ at)
]

pub without_old-drop_named :
    (limit : ℕ) (s : FileSystem) (w : Text) (xs : List ℕ)
    → without_old (suc limit) s w xs ≡ ok (drop_named s w xs)
unfolding without_old
without_old-drop_named limit s w xs = elim (Bool-cases (contains w (names s xs))) [
  | inl there ↦
      let (x, at) = first_there s w xs there in
      rw (there, at) (remove_equal-first limit s w xs x at)
  | inr missing ↦ rw (missing, drop_missing s w xs missing) refl
]
