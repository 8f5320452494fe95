-- ===== src/Shell/Update.antt =====
-- A change of one directory of the tree of cowrie/src/cowrie/shell/fs.py, as a change of the map from
-- paths to entries.
use mathlib.Core.Option.{some-injective, none-ne-some}
use mathlib.Core.Path.{subst}
use vo_iphoneypot.Common.{
  All, Bool-cases, List, Option, Text, [], ap, arith, differ_absurd, false, if_false, if_true, inl,
  inr, length, none, refl, some, suc, sym, text_eq, text_eq→eq, zero, ℕ, ◌+◌, ◌<◌, ◌∙◌, ◌∷◌, ◌≡◌,
  ◌≢◌,
}
use vo_iphoneypot.Shell.Files.{contents_at}
use vo_iphoneypot.Shell.Lookup.{first_named}
use vo_iphoneypot.Shell.Objects.{FileSystem, entry_at}
use vo_iphoneypot.Shell.Plain.{and_down, descend}

-- The depth and the parent of the entries in the contents of an entry.
abbrev pub Child : FileSystem → (ℕ → ℕ) → (ℕ → ℕ) → ℕ → ℕ → Type 0
Child s depth parent i c = (c < s.next_address) × (depth c ≡ suc (depth i)) × (parent c ≡ i)

abbrev pub Children : FileSystem → (ℕ → ℕ) → (ℕ → ℕ) → Type 0
Children s depth parent = (i : ℕ) → All (Child s depth parent i) (contents_at s i)

pub All-first_named {κ} :
    (P : ℕ → Type κ) (s : FileSystem) (w : Text) (xs : List ℕ) (c : ℕ)
    → All P xs
    → first_named s w xs ≡ some c
    → P c
unfolding first_named
All-first_named P s w [] c h e = absurd (none-ne-some c e)
All-first_named P s w (x ∷ xs) c h e = elim (Bool-cases (text_eq (entry_at s x).a_name w)) [
  | inl same ↦
      subst P
        (some-injective x c
          (sym (if_true (text_eq (entry_at s x).a_name w) (some x) (first_named s w xs) same) ∙ e))
        h.0
  | inr other ↦
      All-first_named P s w xs c h.1
        (sym (if_false (text_eq (entry_at s x).a_name w) (some x) (first_named s w xs) other) ∙ e)
]

pub first_named_name :
    (s : FileSystem) (w : Text) (xs : List ℕ) (c : ℕ)
    → first_named s w xs ≡ some c
    → (entry_at s c).a_name ≡ w
unfolding first_named
first_named_name s w [] c e = absurd (none-ne-some c e)
first_named_name s w (x ∷ xs) c e = elim (Bool-cases (text_eq (entry_at s x).a_name w)) [
  | inl same ↦
      subst (λ y. (entry_at s y).a_name ≡ w)
        (some-injective x c
          (sym (if_true (text_eq (entry_at s x).a_name w) (some x) (first_named s w xs) same) ∙ e))
        (text_eq→eq (entry_at s x).a_name w same)
  | inr other ↦
      first_named_name s w xs c
        (sym (if_false (text_eq (entry_at s x).a_name w) (some x) (first_named s w xs) other) ∙ e)
]

pub and_down-some :
    (f : ℕ → Option ℕ) (o : Option ℕ) (d : ℕ)
    → and_down f o ≡ some d
    → (c : ℕ) × (o ≡ some c) × (f c ≡ some d)
and_down-some f none d h = absurd (none-ne-some d h)
and_down-some f (some c) d h = (c, refl, h)

abbrev ancestor : (ℕ → ℕ) → ℕ → ℕ → ℕ
ancestor parent zero d = d
ancestor parent (suc k) d = parent (ancestor parent k d)

module _ (s : FileSystem) (depth parent : ℕ → ℕ) (tree : Children s depth parent) where
  pub first_named-Child :
      (p c : ℕ) (w : Text) → first_named s w (contents_at s p) ≡ some c → Child s depth parent p c
  first_named-Child p c w e =
      All-first_named (Child s depth parent p) s w (contents_at s p) c (tree p) e

  pub depth-descend :
      (p d : ℕ) (ws : List Text) → descend s p ws ≡ some d → depth d ≡ length ws + depth p
  unfolding descend
  depth-descend p d [] e = omega (arith, ap depth (some-injective p d e))
  depth-descend p d (w ∷ ws) e =
      let (c, at, below) =
        and_down-some (λ q. descend s q ws) (first_named s w (contents_at s p)) d e in
      omega (arith, depth-descend c d ws below, (first_named-Child p c w at).1)

  ancestor-descend :
      (p d : ℕ) (ws : List Text) → descend s p ws ≡ some d → ancestor parent (length ws) d ≡ p
  unfolding descend
  ancestor-descend p d [] e = sym (some-injective p d e)
  ancestor-descend p d (w ∷ ws) e =
      let (c, at, below) =
        and_down-some (λ q. descend s q ws) (first_named s w (contents_at s p)) d e in
      ap parent (ancestor-descend c d ws below) ∙ (first_named-Child p c w at).2

  pub descend-lt :
      (p d : ℕ) (ws : List Text) → p < s.next_address → descend s p ws ≡ some d → d < s.next_address
  unfolding descend
  descend-lt p d [] h e = rw (sym (some-injective p d e)) h
  descend-lt p d (w ∷ ws) h e =
      let (c, at, below) =
        and_down-some (λ q. descend s q ws) (first_named s w (contents_at s p)) d e in
      descend-lt c d ws (first_named-Child p c w at).0 below

  -- Nothing below the entry is `d`.
  abbrev pub Off : ℕ → ℕ → Type 0
  Off d c = (ws : List Text) → descend s c ws ≢ some d

  pub below_Off : (d c : ℕ) (w : Text) → first_named s w (contents_at s d) ≡ some c → Off d c
  below_Off d c w at ws e = omega (arith, depth-descend c d ws e, (first_named-Child d c w at).1)

  same_length :
      (d p c c' : ℕ) (w q : Text) (ws vs : List Text)
      → first_named s w (contents_at s p) ≡ some c
      → descend s c ws ≡ some d
      → first_named s q (contents_at s p) ≡ some c'
      → descend s c' vs ≡ some d
      → length vs ≡ length ws
  same_length d p c c' w q ws vs at below at' e = omega (
    arith,
    depth-descend c d ws below,
    depth-descend c' d vs e,
    (first_named-Child p c w at).1,
    (first_named-Child p c' q at').1,
  )

  -- Two children of one entry do not both lead to `d`.
  pub beside_Off :
      (d p c c' : ℕ) (w q : Text) (ws : List Text)
      → first_named s w (contents_at s p) ≡ some c
      → descend s c ws ≡ some d
      → first_named s q (contents_at s p) ≡ some c'
      → text_eq q w ≡ false
      → Off d c'
  beside_Off d p c c' w q ws at below at' other vs e =
      differ_absurd
        (sym (first_named_name s q (contents_at s p) c' at')
          ∙ ap (λ x. (entry_at s x).a_name)
              (sym (ancestor-descend c' d vs e)
                ∙ ap (λ k. ancestor parent k d) (same_length d p c c' w q ws vs at below at' e)
                ∙ ancestor-descend c d ws below)
          ∙ first_named_name s w (contents_at s p) c at)
        other
