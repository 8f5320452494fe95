-- ===== src/Shell/CameAndWent.antt =====
-- The map from paths to entries of cowrie/src/cowrie/shell/fs.py, where a path is added and goes again.
use mathlib.Core.Option.{some-injective, none-ne-some}
use vo_iphoneypot.Common.{
  Bool-cases, List, Option, Text, [], ap, ap₂, if_false, if_true, inl, inr, none, refl, some, sym,
  text_eq, text_eq_refl, text_eq→eq, ℕ, ◌++◌, ◌∙◌, ◌∷◌, ◌≡◌,
}
use vo_iphoneypot.Shell.Files.{contents_at}
use vo_iphoneypot.Shell.Lookup.{first_named}
use vo_iphoneypot.Shell.Mkfile.{only_at}
use vo_iphoneypot.Shell.Objects.{FileSystem}
use vo_iphoneypot.Shell.Plain.{and_down, descend}
use vo_iphoneypot.Shell.Removed.{nothing}
use vo_iphoneypot.Shell.Replaced.{replaced, rest_after}

descend_past :
    (s : FileSystem) (p : ℕ) (ws r : List Text)
    → descend s p ws ≡ none
    → descend s p (ws ++ r) ≡ none
unfolding descend
descend_past s p [] r h = absurd (none-ne-some p (sym h))
descend_past s p (w ∷ ws) r h =
    past (first_named s w (contents_at s p)) (λ q. descend_past s q ws r) h
  where
    past :
        (o : Option ℕ)
        → ((q : ℕ) → descend s q ws ≡ none → descend s q (ws ++ r) ≡ none)
        → and_down (λ q. descend s q ws) o ≡ none
        → and_down (λ q. descend s q (ws ++ r)) o ≡ none
    past none f k = refl
    past (some q) f k = f q k

rest_after-some : (ws qs r : List Text) → rest_after ws qs ≡ some r → qs ≡ ws ++ r
rest_after-some [] qs r h = some-injective qs r h
rest_after-some (w ∷ ws) [] r h = absurd (none-ne-some r h)
rest_after-some (w ∷ ws) (q ∷ qs) r h = elim (Bool-cases (text_eq q w)) [
  | inl same ↦
      ap₂ (λ (x : Text) (xs : List Text). x ∷ xs) (text_eq→eq q w same)
        (rest_after-some ws qs r (sym (if_true (text_eq q w) (rest_after ws qs) none same) ∙ h))
  | inr other ↦
      absurd (none-ne-some r (sym (if_false (text_eq q w) (rest_after ws qs) none other) ∙ h))
]

-- An entry that came and went.
pub unchanged :
    (s : FileSystem) (ws qs : List Text) (i : ℕ) (o : Option (List Text))
    → descend s s.fs ws ≡ none
    → rest_after ws qs ≡ o
    → replaced o nothing (replaced o (only_at i) (descend s s.fs qs)) ≡ descend s s.fs qs
unchanged s ws qs i none h e = refl
unchanged s ws qs i (some r) h e =
    sym (ap (descend s s.fs) (rest_after-some ws qs r e) ∙ descend_past s s.fs ws r h)

pub rest_after_self : (ws : List Text) → rest_after ws ws ≡ some []
rest_after_self [] = refl
rest_after_self (w ∷ ws) = rw (text_eq_refl w) (rest_after_self ws)
