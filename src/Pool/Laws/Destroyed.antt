-- ===== src/Pool/Laws/Destroyed.antt =====
-- Destroyed guests leave the pool.
use mathlib.Core.Path.{subst}
use mathlib.Core.Option.{some-injective}
use vo_iphoneypot.Common.{
  All, All-append, Bool, Bool-cases, List, Option-cases, [], arith, false, inl, inr, refl, select,
  some, suc, true, zero, ℕ, ◌∷◌, ◌≡◌,
}
use vo_iphoneypot.Pool.Backend.{World, create_guest}
use vo_iphoneypot.Pool.Guest.{Guest, destroyed, state_eq}
use vo_iphoneypot.Pool.Laws.Size.{remove_destroyed-live}
use vo_iphoneypot.Pool.Producer.{
  clean_up, create_guests, create_one, create_rounds, finish_pass, mark_available, new_guest,
  producer_loop,
}
use vo_iphoneypot.Pool.State.{Service, is_ip_free, live, update_where}

-- No guest is destroyed.
abbrev pub AllLive : List Guest → Type 0
AllLive = All (λ g. state_eq g.state destroyed ≡ false)

live-AllLive : (gs : List Guest) → AllLive (live gs)
unfolding live select
live-AllLive [] = tt
live-AllLive (g ∷ gs) = elim (Bool-cases (state_eq g.state destroyed)) [
  | inl gone ↦ rw gone (live-AllLive gs)
  | inr alive ↦ rw alive (alive, live-AllLive gs)
]

create_one-AllLive :
    (w : World) (n : ℕ) (s s' : Service)
    → create_one w n s ≡ some s'
    → AllLive s.guests
    → AllLive s'.guests
unfolding create_one new_guest
create_one-AllLive w n s s' h alive =
    elim (Option-cases (create_guest w n s.qemu (is_ip_free s.guests))) [
      | inl e ↦ absurd (ground (arith, e))
      | inr ((c, b), e) ↦
          subst (λ (t : Service). AllLive t.guests) (some-injective _ _ (rw (e, create_one) at h))
            (All-append _ s.guests _ alive (refl, tt))
    ]

create_rounds-AllLive :
    (w : World) (k n : ℕ) (s : Service)
    → AllLive s.guests
    → AllLive (create_rounds w k n s).0.guests
unfolding create_rounds
create_rounds-AllLive w zero n s h = h
create_rounds-AllLive w (suc k) n s h = elim (Option-cases (create_one w n s)) [
  | inl e ↦ rw (e, create_rounds) h
  | inr (s', e) ↦
      rw (e, create_rounds) (create_rounds-AllLive w k (suc n) s' (create_one-AllLive w n s s' e h))
]

All-update_where :
    (p : Guest → Bool) (f : Guest → Guest) (gs : List Guest)
    → ((g : Guest) → p g ≡ true → state_eq (f g).state destroyed ≡ false)
    → AllLive gs
    → AllLive (update_where p f gs)
unfolding update_where
All-update_where p f [] alive h = tt
All-update_where p f (g ∷ gs) alive h = elim (Bool-cases (p g)) [
  | inl hit ↦ rw hit (alive g hit, All-update_where p f gs alive h.1)
  | inr miss ↦ rw miss (h.0, All-update_where p f gs alive h.1)
]

mark_available-AllLive :
    (w : World) (s : Service) → AllLive s.guests → AllLive (mark_available w s).guests
unfolding mark_available
mark_available-AllLive w s h = All-update_where _ _ s.guests (λ g k. refl) h

finish_pass-AllLive :
    (w : World) (s : Service) (raised : Bool)
    → AllLive s.guests
    → AllLive (finish_pass w s raised).0.guests
unfolding finish_pass
finish_pass-AllLive w s true h = h
finish_pass-AllLive w s false h = mark_available-AllLive w s h

-- A pass leaves no destroyed guest in the pool, also one that raises.
pub producer_loop-AllLive : (w : World) (s : Service) → AllLive (producer_loop w s).0.guests
unfolding producer_loop create_guests clean_up
producer_loop-AllLive w s =
    finish_pass-AllLive w _ _
      (create_rounds-AllLive w _ 0 _ (rw remove_destroyed-live (live-AllLive _)))
