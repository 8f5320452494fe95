-- ===== src/Pool/Laws/Size.antt =====
-- How many guests a pass of the producer leaves.
use vo_iphoneypot.Common.{
  All, Bool, Bool-cases, List, Text, [], ap, arith, contains, false, inl, inr, refl, select,
  text_eq_refl, true, ◌++◌, ◌+◌, ◌∙◌, ◌∷◌, ◌≡◌, ◌≤◌,
}
use vo_iphoneypot.Pool.Backend.{Backend, World}
use vo_iphoneypot.Pool.Guest.{
  Guest, GuestState, absent, available, created, destroyed, get_guest_states, guest_eq, in_states,
  state_eq, subset, unavailable, used, using,
}
use vo_iphoneypot.Pool.Producer.{
  after_destroy, destroy_unavailable, remove_destroyed, remove_guest, remove_guests,
}
use vo_iphoneypot.Pool.State.{Service, existing_pool_size, live, update_where}

-- Python's equality of the dicts is reflexive, and equal dicts have one state.
subset_weaken : (y : Text) (xs ys : List Text) → subset xs ys ≡ true → subset xs (y ∷ ys) ≡ true
unfolding subset contains
subset_weaken y [] ys h = refl
subset_weaken y (x ∷ xs) ys h = ground (arith, subset_weaken y xs ys)

subset_refl : (xs : List Text) → subset xs xs ≡ true
unfolding subset contains
subset_refl [] = refl
subset_refl (x ∷ xs) = ground (arith, text_eq_refl x, subset_weaken x xs xs (subset_refl xs))

state_eq_refl : (st : GuestState) → state_eq st st ≡ true
state_eq_refl created = refl
state_eq_refl available = refl
state_eq_refl using = refl
state_eq_refl used = refl
state_eq_refl unavailable = refl
state_eq_refl destroyed = refl
state_eq_refl absent = refl

guest_eq_refl : (g : Guest) → guest_eq g g ≡ true
unfolding guest_eq
guest_eq_refl g =
    rw (state_eq_refl g.state, state_eq_refl g.prev_state)
      (ground (arith, text_eq_refl g.guest_ip, text_eq_refl g.snapshot, subset_refl g.client_ips))

-- Equal dicts have one state.
guest_eq_state : (a b : Guest) → guest_eq a b ≡ true → state_eq a.state b.state ≡ true
unfolding guest_eq
guest_eq_state a b h = ground arith

abbrev is_destroyed : Guest → Bool
is_destroyed g = in_states (destroyed ∷ []) g.state

-- Removing destroyed guests passes over a guest that is not destroyed.
remove_guest_other :
    (d g : Guest) (gs : List Guest)
    → is_destroyed d ≡ true
    → is_destroyed g ≡ false
    → remove_guest d (g ∷ gs) ≡ g ∷ remove_guest d gs
unfolding remove_guest
remove_guest_other d g gs hd hg = elim (Bool-cases (guest_eq g d)) [
  | inl same ↦ absurd (ground (arith, guest_eq_state g d same))
  | inr other ↦ rw other
]

remove_guests_other :
    (ds : List Guest) (g : Guest) (gs : List Guest)
    → All (λ d. is_destroyed d ≡ true) ds
    → is_destroyed g ≡ false
    → remove_guests ds (g ∷ gs) ≡ g ∷ remove_guests ds gs
unfolding remove_guests
remove_guests_other [] g gs hd hg = refl
remove_guests_other (d ∷ ds) g gs hd hg =
    ap (remove_guests ds) (remove_guest_other d g gs hd.0 hg)
    ∙ remove_guests_other ds g (remove_guest d gs) hd.1 hg

remove_guest_head : (d : Guest) (gs : List Guest) → remove_guest d (d ∷ gs) ≡ gs
unfolding remove_guest
remove_guest_head d gs = rw (guest_eq_refl d)

All-select-true : (p : Guest → Bool) (gs : List Guest) → All (λ g. p g ≡ true) (select p gs)
unfolding select
All-select-true p [] = tt
All-select-true p (g ∷ gs) = elim (Bool-cases (p g)) [
  | inl yes' ↦ rw yes' (yes', All-select-true p gs)
  | inr no' ↦ rw no' (All-select-true p gs)
]

destroyed_test : (g : Guest) (b : Bool) → is_destroyed g ≡ b → state_eq g.state destroyed ≡ b
destroyed_test g b h = ground arith

remove_all : (gs : List Guest) → remove_guests (get_guest_states (destroyed ∷ []) gs) gs ≡ live gs
unfolding get_guest_states select live remove_guests
remove_all [] = refl
remove_all (g ∷ gs) = elim (Bool-cases (is_destroyed g)) [
  | inl gone ↦
      rw (gone, destroyed_test g true gone)
        (ap (remove_guests (get_guest_states (destroyed ∷ []) gs)) (remove_guest_head g gs)
          ∙ remove_all gs)
  | inr alive ↦
      rw (alive, destroyed_test g false alive)
        (remove_guests_other (get_guest_states (destroyed ∷ []) gs) g gs
            (All-select-true is_destroyed gs) alive
          ∙ ap (λ r. g ∷ r) (remove_all gs))
]

-- `__producer_remove_destroyed`, which removes equal dicts one by one, leaves exactly the guests that
-- are not destroyed, in their order.
pub remove_destroyed-live : (s : Service) → (remove_destroyed s).guests ≡ live s.guests
unfolding remove_destroyed
remove_destroyed-live s = remove_all s.guests

-- Counting the guests that are not destroyed.
pub live-live : (gs : List Guest) → live (live gs) ≡ live gs
unfolding live select
live-live [] = refl
live-live (g ∷ gs) = elim (Bool-cases (state_eq g.state destroyed)) [
  | inl gone ↦ rw gone (live-live gs)
  | inr alive ↦ rw (alive, alive) (ap (λ r. g ∷ r) (live-live gs))
]

pub size-append_one :
    (gs : List Guest) (g : Guest)
    → g.state ≡ created
    → existing_pool_size (gs ++ g ∷ []) ≡ existing_pool_size gs + 1
unfolding existing_pool_size select
size-append_one [] g h = ground arith
size-append_one (x ∷ gs) g h = ground (arith, size-append_one gs g h)

-- Assignments that neither destroy a guest nor touch a destroyed one keep the count.
pub size-update_where :
    (p : Guest → Bool) (f : Guest → Guest) (gs : List Guest)
    → ((g : Guest) → p g ≡ true → state_eq (f g).state destroyed ≡ state_eq g.state destroyed)
    → existing_pool_size (update_where p f gs) ≡ existing_pool_size gs
unfolding existing_pool_size select update_where
size-update_where p f [] keeps = refl
size-update_where p f (g ∷ gs) keeps = elim (Bool-cases (p g)) [
  | inl hit ↦ rw (hit, keeps g hit) (ground (arith, size-update_where p f gs keeps))
  | inr miss ↦ rw miss (ground (arith, size-update_where p f gs keeps))
]

pub size-destroy_unavailable :
    (w : World) (b : Backend) (gs : List Guest)
    → existing_pool_size (destroy_unavailable w b gs).1 ≤ existing_pool_size gs
unfolding existing_pool_size select destroy_unavailable
size-destroy_unavailable w b [] = omega arith
size-destroy_unavailable w b (g ∷ gs) =
    ground (arith, size-destroy_unavailable w (after_destroy w b g) gs)
