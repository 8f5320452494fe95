-- ===== src/Pool/Laws/Lifecycle.antt =====
-- The states of a guest under the producer.
-- The moves of the class comment of PoolService that the producer makes.
use vo_iphoneypot.Common.{Bool, List, [], arith, false, if◌then◌else◌, refl, true, ℕ, ◌∷◌, ◌≡◌}
use vo_iphoneypot.Pool.Backend.{Backend, World}
use vo_iphoneypot.Pool.Guest.{
  Guest, GuestState, available, created, destroyed, in_states, unavailable, used, using,
}
use vo_iphoneypot.Pool.Producer.{
  after_destroy, check_health, destroy_timed_out, destroy_unavailable, is_unavailable,
  mark_available, mark_timed_out,
}
use vo_iphoneypot.Pool.State.{Service, update_where}

pub data Advances : GuestState → GuestState → Type 0 where
  stays : (st : GuestState) → Advances st st
  boots : Advances created available
  fails_idle : Advances available unavailable
  fails_busy : Advances using unavailable
  expires : Advances used unavailable
  dies : Advances unavailable destroyed

-- Guest by guest, only the state differs, and it advances.
abbrev pub Along : List Guest → List Guest → Type 0
Along [] [] = Unit
Along (g ∷ gs) (h ∷ hs) =
    (h ≡ record g { state = h.state }) × Advances g.state h.state × Along gs hs
Along _ _ = ⊥

module _ (p : Guest → Bool) (st : GuestState)
    (moves : (g : Guest) → p g ≡ true → Advances g.state st) where
  Along_if :
      (b : Bool) (g : Guest)
      → p g ≡ b
      → (let h : Guest = if b then record g { state = st } else g in
          (h ≡ record g { state = h.state }) × Advances g.state h.state)
  Along_if true g e = (refl, moves g e)
  Along_if false g e = (refl, stays g.state)

  Along-update_where :
      (gs : List Guest) → Along gs (update_where p (λ g. record g { state = st }) gs)
  unfolding update_where
  Along-update_where [] = tt
  Along-update_where (g ∷ gs) =
      let (same, adv) = Along_if (p g) g refl in (same, adv, Along-update_where gs)

-- A state that passes the test of a section is one from which the section's move starts.
from_created : (st : GuestState) → in_states (created ∷ []) st ≡ true → Advances st available
from_created created h = boots
from_created available h = cc
from_created _ h = cc

from_unavailable :
    (st : GuestState) → in_states (unavailable ∷ []) st ≡ true → Advances st destroyed
from_unavailable unavailable h = dies
from_unavailable created h = cc
from_unavailable _ h = cc

from_usable :
    (st : GuestState)
    → in_states (available ∷ using ∷ used ∷ []) st ≡ true
    → Advances st unavailable
from_usable available h = fails_idle
from_usable using h = fails_busy
from_usable used h = expires
from_usable created h = cc
from_usable _ h = cc

from_used : (st : GuestState) → in_states (used ∷ []) st ≡ true → Advances st unavailable
from_used used h = expires
from_used created h = cc
from_used _ h = cc

Along-destroy_unavailable :
    (w : World) (b : Backend) (gs : List Guest) → Along gs (destroy_unavailable w b gs).1
unfolding destroy_unavailable
Along-destroy_unavailable w b [] = tt
Along-destroy_unavailable w b (g ∷ gs) =
    let (same, adv) =
      Along_if is_unavailable destroyed (λ x. from_unavailable x.state) (is_unavailable g) g refl in
    (same, adv, Along-destroy_unavailable w (after_destroy w b g) gs)

-- Every section of the producer that works on the guests at hand changes nothing but states, and
-- those only along the documented life of a guest.
pub producer_sections-Along :
    (w : World) (timeout : ℕ) (s : Service)
    → Along s.guests (mark_timed_out w timeout s).guests
      × Along s.guests (check_health w s).guests
      × Along s.guests (destroy_timed_out w s).guests
      × Along s.guests (mark_available w s).guests
unfolding mark_timed_out check_health destroy_timed_out mark_available
producer_sections-Along w timeout s = (
  Along-update_where _ unavailable (λ g h. from_used g.state (ground arith)) s.guests,
  Along-update_where _ unavailable (λ g h. from_usable g.state (ground arith)) s.guests,
  Along-destroy_unavailable w s.qemu s.guests,
  Along-update_where _ available (λ g h. from_created g.state (ground arith)) s.guests,
)
