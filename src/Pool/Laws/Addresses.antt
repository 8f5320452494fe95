-- ===== src/Pool/Laws/Addresses.antt =====
-- A new guest has an IP that no other guest has: `is_ip_free` and `get_mac_ip`.
use vo_iphoneypot.Common.{
  All, All-append, Bool, Bool-cases, List, Option-cases, Text, [], arith, inl, inr, map, some, suc,
  sym, text_eq, text_eq_iff, true, zero, ℕ, ◌++◌, ◌∷◌, ◌≡◌, ◌≢◌,
}
use vo_iphoneypot.Pool.Backend.{
  Backend, Created, World, choose, create_guest, get_mac_ip, launch_guest_ip, try_mac_ip,
}
use vo_iphoneypot.Pool.Guest.{Guest, guest_eq}
use vo_iphoneypot.Pool.Producer.{remove_guest}
use vo_iphoneypot.Pool.State.{is_ip_free}

abbrev pub ips : List Guest → List Text
ips = map (λ g. g.guest_ip)

abbrev pub Fresh : Text → List Text → Type 0
Fresh ip = All (λ x. x ≢ ip)

-- The texts are pairwise different.
abbrev pub Distinct : List Text → Type 0
Distinct [] = Unit
Distinct (x ∷ xs) = Fresh x xs × Distinct xs

-- Removing a guest keeps what holds of all, and distinctness.
pub All-remove_guest :
    {A : Type 0} (key : Guest → A) (P : A → Type 0) (d : Guest) (gs : List Guest)
    → All P (map key gs)
    → All P (map key (remove_guest d gs))
unfolding remove_guest
All-remove_guest key P d [] h = tt
All-remove_guest key P d (g ∷ gs) h = elim (Bool-cases (guest_eq g d)) [
  | inl hit ↦ rw hit h.1
  | inr miss ↦ rw miss (h.0, All-remove_guest key P d gs h.1)
]

pub Distinct-remove_guest :
    (d : Guest) (gs : List Guest) → Distinct (ips gs) → Distinct (ips (remove_guest d gs))
unfolding remove_guest
Distinct-remove_guest d [] h = tt
Distinct-remove_guest d (g ∷ gs) h = elim (Bool-cases (guest_eq g d)) [
  | inl hit ↦ rw hit h.1
  | inr miss ↦
      rw miss (All-remove_guest (λ g. g.guest_ip) _ d gs h.0, Distinct-remove_guest d gs h.1)
]

pub Distinct-append :
    (xs : List Text) (ip : Text) → Distinct xs → Fresh ip xs → Distinct (xs ++ ip ∷ [])
Distinct-append [] ip d f = (tt, tt)
Distinct-append (x ∷ xs) ip d f =
    (All-append _ xs (ip ∷ []) d.0 ((λ e. f.0 (sym e)), tt), Distinct-append xs ip d.1 f.1)

pub is_ip_free-Fresh : (gs : List Guest) (ip : Text) → is_ip_free gs ip ≡ true → Fresh ip (ips gs)
unfolding is_ip_free
is_ip_free-Fresh [] ip h = tt
is_ip_free-Fresh (g ∷ gs) ip h = elim (Bool-cases (text_eq g.guest_ip ip)) [
  | inl same ↦ absurd (ground (arith, same))
  | inr other ↦ (
    (λ e. ground (arith, (text_eq_iff g.guest_ip ip).1 e, other)),
    is_ip_free-Fresh gs ip (ground (arith, other)),
  )
]

-- An address that `get_mac_ip` returns passed the test.
try_mac_ip_sound :
    (table : List (Text × Text)) (tester : Text → Bool) (draw : ℕ → ℕ) (fuel k : ℕ) (mac ip : Text)
    → try_mac_ip table tester draw fuel k ≡ some (mac, ip)
    → tester ip ≡ true
unfolding try_mac_ip
try_mac_ip_sound table tester draw zero k mac ip h = cc
try_mac_ip_sound table tester draw (suc fuel) k mac ip h =
    elim (Option-cases (choose table (draw k))) [
      | inl e ↦ absurd (ground (arith, e))
      | inr ((mac', ip'), e) ↦ elim (Bool-cases (tester ip')) [
        | inl free ↦ ground (arith, e, free)
        | inr busy ↦
            try_mac_ip_sound table tester draw fuel (suc k) mac ip (ground (arith, e, busy))
      ]
    ]

pub create_guest_free :
    (w : World) (n : ℕ) (b : Backend) (tester : Text → Bool) (c : Created) (b' : Backend)
    → create_guest w n b tester ≡ some (c, b')
    → tester c.ip ≡ true
unfolding create_guest
create_guest_free w n b tester c b' h = elim (Option-cases (get_mac_ip b tester (w.draw n))) [
  | inl e ↦ absurd (ground (arith, e))
  | inr ((mac, ip), e) ↦ rw (launch_guest_ip b ip (w.launch n mac) c b' (ground (arith, e))) (
      unfold get_mac_ip in
      try_mac_ip_sound b.network_table tester (w.draw n) 500 0 mac ip (unfold get_mac_ip in e))
]
