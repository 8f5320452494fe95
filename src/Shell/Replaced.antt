-- ===== src/Shell/Replaced.antt =====
-- The map from paths to entries after one directory has changed.
use mathlib.Core.Option.{some-injective}
use mathlib.Core.Path.{subst}
use vo_iphoneypot.Common.{
  Bool-cases, List, Option, Text, [], ap, arith, false, if◌then◌else◌, inl, inr, none, refl, some,
  sym, text_eq, text_eq→eq, ℕ, ◌++◌, ◌<◌, ◌∙◌, ◌∷◌, ◌≡◌, ◌≢◌,
}
use vo_iphoneypot.Shell.Files.{contents_at}
use vo_iphoneypot.Shell.Lookup.{first_named}
use vo_iphoneypot.Shell.Objects.{FileSystem}
use vo_iphoneypot.Shell.Plain.{and_down, descend}
use vo_iphoneypot.Shell.Update.{
  Children, Off, and_down-some, below_Off, beside_Off, first_named-Child, depth-descend,
}

-- What follows a prefix.
abbrev pub rest_after : List Text → List Text → Option (List Text)
rest_after [] qs = some qs
rest_after (w ∷ ws) [] = none
rest_after (w ∷ ws) (q ∷ qs) = if text_eq q w then rest_after ws qs else none

-- A map that is changed at a path and below.
abbrev pub replaced : Option (List Text) → (List Text → Option ℕ) → Option ℕ → Option ℕ
replaced none new old = old
replaced (some r) new old = new r

unfoldable pub from_option : FileSystem → Option ℕ → List Text → Option ℕ
from_option s o r = and_down (λ q. descend s q r) o

module _ (s s' : FileSystem) (depth parent : ℕ → ℕ) (tree : Children s depth parent) (d : ℕ)
    (n : Text)
    (elsewhere : (i : ℕ) (w : Text)
      → i ≢ d
      → i < s.next_address
      → first_named s' w (contents_at s' i) ≡ first_named s w (contents_at s i))
    (others : (w : Text)
      → text_eq w n ≡ false
      → first_named s' w (contents_at s' d) ≡ first_named s w (contents_at s d)) where
  through :
      (f g : ℕ → Option ℕ) (o : Option ℕ)
      → ((x : ℕ) → o ≡ some x → f x ≡ g x)
      → and_down f o ≡ and_down g o
  through f g none h = refl
  through f g (some x) h = h x refl

  -- Where nothing leads to the directory, nothing has changed.
  away :
      (c : ℕ) (qs : List Text)
      → Off s depth parent tree d c
      → c < s.next_address
      → descend s' c qs ≡ descend s c qs
  unfolding descend
  away c [] off h = refl
  away c (q ∷ qs) off h =
      ap (λ o. and_down (λ x. descend s' x qs) o) (elsewhere c q (λ e. off [] (ap some e)) h)
      ∙ through (λ x. descend s' x qs) (λ x. descend s x qs) (first_named s q (contents_at s c))
          λ x at.
            away x qs (λ ws e. off (q ∷ ws) (rw at e))
              (first_named-Child s depth parent tree c x q at).0

  here_replaced :
      (q : Text) (qs : List Text)
      → d < s.next_address
      → descend s' d (q ∷ qs)
        ≡ replaced
            (rest_after (n ∷ []) (q ∷ qs))
            (from_option s' (first_named s' n (contents_at s' d)))
            (descend s d (q ∷ qs))
  unfolding descend from_option
  here_replaced q qs h = elim (Bool-cases (text_eq q n)) [
    | inl same ↦ rw (same, text_eq→eq q n same) refl
    | inr other ↦
        rw (other, others q other)
          (through (λ x. descend s' x qs) (λ x. descend s x qs) (first_named s q (contents_at s d))
            λ x at.
              away x qs (below_Off s depth parent tree d x q at)
                (first_named-Child s depth parent tree d x q at).0)
  ]

  not_yet : (p : ℕ) (w : Text) (ws : List Text) → descend s p (w ∷ ws) ≡ some d → p ≢ d
  not_yet p w ws e same =
      omega (arith, depth-descend s depth parent tree p d (w ∷ ws) e, ap depth same)

  -- The entry that a path leads to after the change: at the path of the name in the directory, and
  -- below, it is what the directory has there now, and everywhere else it is what it was.
  pub descend-replaced :
      (p : ℕ) (ds qs : List Text)
      → descend s p ds ≡ some d
      → p < s.next_address
      → descend s' p qs
        ≡ replaced
            (rest_after (ds ++ n ∷ []) qs)
            (from_option s' (first_named s' n (contents_at s' d)))
            (descend s p qs)
  unfolding descend
  descend-replaced p [] [] e h = refl
  descend-replaced p (w ∷ ds) [] e h = refl
  descend-replaced p [] (q ∷ qs) e h =
      subst
        (λ x.
          descend s' x (q ∷ qs)
          ≡ replaced (rest_after (n ∷ []) (q ∷ qs))
              (from_option s' (first_named s' n (contents_at s' d))) (descend s x (q ∷ qs)))
        (sym (some-injective p d e))
        (here_replaced q qs (subst (λ x. x < s.next_address) (some-injective p d e) h))
  descend-replaced p (w ∷ ds) (q ∷ qs) e h =
      let (c, at, below) =
        and_down-some (λ x. descend s x ds) (first_named s w (contents_at s p)) d e in
      elim (Bool-cases (text_eq q w)) [
        | inl same ↦
            rw (same, text_eq→eq q w same, elsewhere p w (not_yet p w ds e) h, at)
              (descend-replaced c ds qs below (first_named-Child s depth parent tree p c w at).0)
        | inr other ↦
            rw (other, elsewhere p q (not_yet p w ds e) h)
              (through (λ x. descend s' x qs) (λ x. descend s x qs)
                (first_named s q (contents_at s p))
                λ x at'.
                  away x qs (beside_Off s depth parent tree d p c x w q ds at below at' other)
                    (first_named-Child s depth parent tree p x q at').0)
      ]
