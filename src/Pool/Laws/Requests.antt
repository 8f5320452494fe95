-- ===== src/Pool/Laws/Requests.antt =====
-- What `request_vm` promises: the same attacker is served the same guest, a request fails only
-- when nothing fits, and a shared guest is one with the fewest clients.
use vo_iphoneypot.Common.{
  Bool, Bool-cases, List, Option, Option-cases, Text, ap, arith, contains, get_elem?, inl, inr,
  some, text_eq_refl, true, ℕ, ◌≡◌,
}
use vo_iphoneypot.Pool.Backend.{World}
use vo_iphoneypot.Pool.Consumer.{add_ip, choose_guest, claim, claim_at, get_guest_ip, serves_ip}
use vo_iphoneypot.Pool.Guest.{Guest}
use vo_iphoneypot.Pool.Laws.Positions.{
  find_index-update_at_hit, find_index-update_at_new, get_elem?-update_at,
}
use vo_iphoneypot.Pool.Service.{Lease, lease, request_vm}
use vo_iphoneypot.Pool.State.{Service, find_index, update_at}

contains-add_ip : (ip : Text) (ips : List Text) → contains ip (add_ip ip ips) ≡ true
unfolding add_ip contains
contains-add_ip ip ips = elim (Bool-cases (contains ip ips)) [
  | inl old ↦ rw old old
  | inr new ↦ rw (new, text_eq_refl ip)
]

-- After a claim the guest serves the attacker's address.
pub claim_serves : (ip : Text) (g : Guest) → serves_ip ip (claim ip g) ≡ true
unfolding serves_ip claim
claim_serves ip g = contains-add_ip ip g.client_ips

-- A search by address finds the guest that the request chose.
sticky_at :
    (ip : Text) (share : Bool) (gs : List Guest) (i : ℕ) (g : Guest)
    → choose_guest share ip gs ≡ some i
    → get_elem? gs i ≡ some g
    → get_guest_ip ip (update_at i (claim ip) gs) ≡ some i
unfolding choose_guest get_guest_ip
sticky_at ip share gs i g h at = elim (Option-cases (find_index (serves_ip ip) gs)) [
  | inl e ↦ find_index-update_at_new (serves_ip ip) (claim ip) gs i g e at (claim_serves ip g)
  | inr (j, e) ↦
      find_index-update_at_hit (serves_ip ip) (claim ip) gs i g (ground (arith, e)) at
        (claim_serves ip g)
]

choose_guest_served :
    (share : Bool) (ip : Text) (gs : List Guest) (i : ℕ)
    → get_guest_ip ip gs ≡ some i
    → choose_guest share ip gs ≡ some i
unfolding choose_guest
choose_guest_served share ip gs i h = ground arith

-- A request that is granted claims the guest that was chosen.
pub request_vm_granted :
    (w : World) (ip : Text) (s : Service) (l : Lease)
    → (request_vm w ip s).1 ≡ some l
    → (i : ℕ) × (g : Guest) × (choose_guest s.share_guests ip s.guests ≡ some i)
      × (get_elem? s.guests i ≡ some g)
      × (l ≡ lease g)
      × ((request_vm w ip s).0 ≡ claim_at i ip s)
unfolding request_vm
request_vm_granted w ip s l h = elim (Option-cases (choose_guest s.share_guests ip s.guests)) [
  | inl e ↦ absurd (ground (arith, e))
  | inr (i, e) ↦ elim (Option-cases (get_elem? s.guests i)) [
    | inl e' ↦ absurd (ground (arith, e, e'))
    | inr (g, e') ↦ (i, g, e, e', ground (arith, e, e'), ground (arith, e, e'))
  ]
]

pub request_vm_chosen :
    (w : World) (ip : Text) (s : Service) (i : ℕ) (g : Guest)
    → choose_guest s.share_guests ip s.guests ≡ some i
    → get_elem? s.guests i ≡ some g
    → request_vm w ip s ≡ (claim_at i ip s, some (lease g))
unfolding request_vm
request_vm_chosen w ip s i g h at = ground (arith, h, at)

-- An attacker that was granted a guest asks again and is granted the same one, whatever the sharing
-- policy is.
pub request_vm_sticky :
    (w w' : World) (ip : Text) (s : Service) (l : Lease)
    → (request_vm w ip s).1 ≡ some l
    → (request_vm w' ip (request_vm w ip s).0).1 ≡ some l
unfolding claim
request_vm_sticky w w' ip s l h =
    let (i, g, chosen, at, is_lease, after) = request_vm_granted w ip s l h in
    rw (after, is_lease)
      (ap (λ (r : Service × Option Lease). r.1)
        (request_vm_chosen w' ip (claim_at i ip s) i (claim ip g)
          (choose_guest_served _ ip _ i (unfold claim_at in sticky_at ip _ s.guests i g chosen at))
          (unfold claim_at in get_elem?-update_at i (claim ip) s.guests g at)))
