-- ===== src/Pool/Laws/Fields.antt =====
-- Assignments to guests keep the fields that they do not name.
use mathlib.Core.List.{map-append}
use vo_iphoneypot.Common.{
  Bool, Bool-cases, List, [], ap, ap₂, false, if◌then◌else◌, inl, inr, map, refl, suc, true, zero,
  ℕ, ◌++◌, ◌∷◌, ◌≡◌,
}
use vo_iphoneypot.Pool.Backend.{Backend, World}
use vo_iphoneypot.Pool.Guest.{Guest, GuestState, destroyed}
use vo_iphoneypot.Pool.Producer.{after_destroy, destroy_unavailable}
use vo_iphoneypot.Pool.State.{update_at, update_first, update_where}

-- Assignments to the other fields of guests keep the list of the values of a field.
module _ {A : Type 0} (key : Guest → A) (f : Guest → Guest)
    (keeps : (g : Guest) → key (f g) ≡ key g) where
  key_if : (b : Bool) (g : Guest) → key (if b then f g else g) ≡ key g
  key_if true g = keeps g
  key_if false g = refl

  pub map-update_where :
      (p : Guest → Bool) (gs : List Guest) → map key (update_where p f gs) ≡ map key gs
  unfolding update_where
  map-update_where p [] = refl
  map-update_where p (g ∷ gs) = ap₂ ◌∷◌ (key_if (p g) g) (map-update_where p gs)

  pub map-update_at : (i : ℕ) (gs : List Guest) → map key (update_at i f gs) ≡ map key gs
  unfolding update_at
  map-update_at i [] = refl
  map-update_at zero (g ∷ gs) = ap (λ k. k ∷ map key gs) (keeps g)
  map-update_at (suc i) (g ∷ gs) = ap (λ r. key g ∷ r) (map-update_at i gs)

  pub map-update_first :
      (p : Guest → Bool) (gs : List Guest) → map key (update_first p f gs) ≡ map key gs
  unfolding update_first
  map-update_first p [] = refl
  map-update_first p (g ∷ gs) = elim (Bool-cases (p g)) [
    | inl hit ↦ rw hit (ap (λ k. k ∷ map key gs) (keeps g))
    | inr miss ↦ rw miss (ap (λ r. key g ∷ r) (map-update_first p gs))
  ]

module _ {A : Type 0} (key : Guest → A) where
  pub map-destroy_unavailable :
      ((st : GuestState) (g : Guest) → key (record g { state = st }) ≡ key g)
      → (w : World) (b : Backend) (gs : List Guest)
      → map key (destroy_unavailable w b gs).1 ≡ map key gs
  unfolding destroy_unavailable
  map-destroy_unavailable keeps w b [] = refl
  map-destroy_unavailable keeps w b (g ∷ gs) =
      ap₂ ◌∷◌ (key_if key (λ x. record x { state = destroyed }) (keeps destroyed) _ g)
        (map-destroy_unavailable keeps w (after_destroy w b g) gs)

  pub map-append_one :
      (gs : List Guest) (g : Guest) → map key (gs ++ g ∷ []) ≡ map key gs ++ key g ∷ []
  map-append_one gs g = map-append key gs (g ∷ [])
