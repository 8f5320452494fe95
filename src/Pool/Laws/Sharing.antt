-- ===== src/Pool/Laws/Sharing.antt =====
-- The sharing policy of `request_vm`: `__consumers_get_any_guest` picks a guest in use or used with
-- the fewest clients, and a request fails only where no guest fits.
use vo_iphoneypot.Common.{
  All, All-get_elem?, Bool, Bool-cases, List, Option, Option-cases, Text, [], ap, arith, contains,
  false, get_elem?, if◌then◌else◌, inl, inr, none, refl, some, suc, sym, true, ℕ, ℤ, ◌&&◌, ◌+◌, ◌∙◌,
  ◌∷◌, ◌≡◌, ◌≤ℤ◌, ◌⊎◌,
}
use vo_iphoneypot.Pool.Backend.{World}
use vo_iphoneypot.Pool.Consumer.{
  choose_guest, get_any_guest, get_available_guest, get_guest_ip, improves, is_busy, least_from,
  serves_ip,
}
use vo_iphoneypot.Pool.Guest.{Guest, available, in_states, used, using}
use vo_iphoneypot.Pool.Laws.Positions.{find_index-none, find_index_hit}
use vo_iphoneypot.Pool.Laws.Requests.{request_vm_granted}
use vo_iphoneypot.Pool.Service.{Lease, lease, request_vm}
use vo_iphoneypot.Pool.State.{Service, find_index}

-- Whether a guest may be handed to an attacker.
abbrev pub Busy : Guest → Type 0
Busy g = (g.state ≡ using) ⊎ (g.state ≡ used)

pub data CanServe (share : Bool) (ip : Text) (g : Guest) : Type 0 where
  serves_already : Busy g → contains ip g.client_ips ≡ true → CanServe share ip g
  is_available : g.state ≡ available → CanServe share ip g
  is_shared : share ≡ true → Busy g → CanServe share ip g

Busy-is_busy : (g : Guest) → Busy g → is_busy g ≡ true
Busy-is_busy g b = ground arith

is_busy-Busy : (g : Guest) → is_busy g ≡ true → Busy g
is_busy-Busy g h = ground arith

-- The count of the guest held so far is at least `c`.
abbrev Under : ℤ → Option (ℕ × ℤ) → Type 0
Under c none = Unit
Under c (some (k, c₀)) = c ≤ℤ c₀

step_bound :
    (g : Guest) (i : ℕ) (c : ℤ) (least : Option (ℕ × ℤ))
    → Under c (if is_busy g && improves g least then some (i, g.connected) else least)
    → (is_busy g ≡ true → c ≤ℤ g.connected) × Under c least
step_bound g i c none h = ground arith
step_bound g i c (some (k, c₀)) h = ground arith

-- The loop ends with the least count of what it has seen.
least_from_bound :
    (gs : List Guest) (i : ℕ) (least : Option (ℕ × ℤ)) (k : ℕ) (c : ℤ)
    → least_from gs i least ≡ some (k, c)
    → All (λ g. is_busy g ≡ true → c ≤ℤ g.connected) gs × Under c least
unfolding least_from
least_from_bound [] i least k c h = (tt, rw h (omega arith))
least_from_bound (g ∷ gs) i least k c h =
    let (later, now) = least_from_bound gs (suc i) _ k c h in
    let (here, before) = step_bound g i c least now in ((here, later), before)

abbrev Seen : List Guest → ℕ → ℕ → ℤ → Type 0
Seen gs i k c =
    (j : ℕ) × (g : Guest) × (k ≡ i + j)
    × (get_elem? gs j ≡ some g)
    × (is_busy g ≡ true)
    × (g.connected ≡ c)

step_source :
    (g : Guest) (gs : List Guest) (i k : ℕ) (c : ℤ) (least : Option (ℕ × ℤ))
    → ((if is_busy g && improves g least then some (i, g.connected) else least) ≡ some (k, c))
    → (least ≡ some (k, c)) ⊎ Seen (g ∷ gs) i k c
step_source g gs i k c least h = elim (Bool-cases (is_busy g && improves g least)) [
  | inl e ↦ inr (0, g, ground (arith, h, e), refl, ground (arith, e), ground (arith, h, e))
  | inr e ↦ inl (ground (arith, h, e))
]

-- It ends with the guest held at first, or with a busy one that it has seen.
least_from_source :
    (gs : List Guest) (i : ℕ) (least : Option (ℕ × ℤ)) (k : ℕ) (c : ℤ)
    → least_from gs i least ≡ some (k, c)
    → (least ≡ some (k, c)) ⊎ Seen gs i k c
unfolding least_from
least_from_source [] i least k c h = inl h
least_from_source (g ∷ gs) i least k c h = elim (least_from_source gs (suc i) _ k c h) [
  | inl e ↦ step_source g gs i k c least e
  | inr (j, g', at, found, busy, same) ↦ inr (suc j, g', omega arith, found, busy, same)
]

-- Where no guest is busy and none was held, the loop ends with none; and only there.
least_from-none :
    (gs : List Guest) (i : ℕ) (least : Option (ℕ × ℤ))
    → least_from gs i least ≡ none
    → (least ≡ none) × All (λ g. is_busy g ≡ false) gs
unfolding least_from
least_from-none [] i least h = (h, tt)
least_from-none (g ∷ gs) i least h =
    let (held, later) = least_from-none gs (suc i) _ h in
    (ground (arith, held), (ground (arith, held), later))

abbrev pub Least : List Guest → ℕ → Type 0
Least gs i =
    (g : Guest) × (get_elem? gs i ≡ some g)
    × Busy g
    × ((j : ℕ) (g' : Guest) → get_elem? gs j ≡ some g' → Busy g' → g.connected ≤ℤ g'.connected)

-- A request that shares a guest shares one with the fewest clients among those in use or used.
pub get_any_guest-Least : (gs : List Guest) (i : ℕ) → get_any_guest gs ≡ some i → Least gs i
unfolding get_any_guest
get_any_guest-Least gs i h = elim (Option-cases (least_from gs 0 none)) [
  | inl e ↦ absurd (ground (arith, e))
  | inr ((k, c), e) ↦ least_at k c e (ground (arith, e))
]
  where
    least_at : (k : ℕ) (c : ℤ) → least_from gs 0 none ≡ some (k, c) → k ≡ i → Least gs i
    least_at k c e k_is_i = elim (least_from_source gs 0 none k c e) [
      | inl none_held ↦ absurd (ground (arith, none_held))
      | inr (j, g, at, found, busy, same) ↦ (
        g,
        ap (get_elem? gs) (sym (ground arith)) ∙ found,
        is_busy-Busy g busy,
        λ j' g' found' busy'. rw same (
            All-get_elem? _ gs j' g' (least_from_bound gs 0 none k c e).0 found'
              (Busy-is_busy g' busy')),
      )
    ]

serves_ip-CanServe :
    (share : Bool) (ip : Text) (g : Guest) → serves_ip ip g ≡ true → CanServe share ip g
unfolding serves_ip
serves_ip-CanServe share ip g h = serves_already (ground arith) (ground arith)

-- Where all three searches come back empty, no guest of the pool can serve the address.
searches_miss :
    (share : Bool) (ip : Text) (g : Guest)
    → serves_ip ip g ≡ false
    → in_states (available ∷ []) g.state ≡ false
    → (share ≡ false) ⊎ (is_busy g ≡ false)
    → ¬ CanServe share ip g
unfolding serves_ip
searches_miss share ip g a b c (serves_already busy known) = ground arith
searches_miss share ip g a b c (is_available e) = ground arith
searches_miss share ip g a b c (is_shared e busy) = ground arith

unshared_or_idle :
    (share : Bool) (gs : List Guest) (i : ℕ) (g : Guest)
    → (if share then get_any_guest gs else none) ≡ none
    → get_elem? gs i ≡ some g
    → (share ≡ false) ⊎ (is_busy g ≡ false)
unfolding get_any_guest
unshared_or_idle false gs i g h at = inl refl
unshared_or_idle true gs i g h at =
    inr (All-get_elem? _ gs i g (least_from-none gs 0 none (ground arith)).1 at)

chosen-none :
    (share : Bool) (ip : Text) (gs : List Guest)
    → choose_guest share ip gs ≡ none
    → (get_guest_ip ip gs ≡ none)
      × (get_available_guest gs ≡ none)
      × ((if share then get_any_guest gs else none) ≡ none)
unfolding choose_guest
chosen-none share ip gs h = (ground arith, ground arith, ground arith)

choose_guest-none :
    (share : Bool) (ip : Text) (gs : List Guest)
    → choose_guest share ip gs ≡ none
    → (i : ℕ) (g : Guest) → get_elem? gs i ≡ some g
    → ¬ CanServe share ip g
unfolding get_guest_ip get_available_guest
choose_guest-none share ip gs h i g at =
    let (known, ready, any) = chosen-none share ip gs h in
    searches_miss share ip g (All-get_elem? _ gs i g (find_index-none _ gs known) at)
      (All-get_elem? _ gs i g (find_index-none _ gs ready) at)
      (unshared_or_idle share gs i g any at)

choose_guest-some :
    (share : Bool) (ip : Text) (gs : List Guest) (i : ℕ)
    → choose_guest share ip gs ≡ some i
    → (g : Guest) × (get_elem? gs i ≡ some g) × CanServe share ip g
unfolding choose_guest get_guest_ip get_available_guest
choose_guest-some share ip gs i h = elim (Option-cases (find_index (serves_ip ip) gs)) [
  | inr (j, e) ↦
      let (g, at, ok) = find_index_hit (serves_ip ip) gs i (ground (arith, e)) in
      (g, at, serves_ip-CanServe share ip g ok)
  | inl e ↦ elim (Option-cases (get_available_guest gs)) [
    | inr (j, e') ↦
        let (g, at, ok) = find_index_hit is_free gs i (ground (arith, e, e')) in
        (g, at, is_available (ground arith))
    | inl e' ↦ elim (Bool-cases share) [
      | inl shared ↦
          let (g, at, busy, _) = get_any_guest-Least gs i (ground (arith, e, e', shared)) in
          (g, at, is_shared shared busy)
      | inr alone ↦ absurd (ground (arith, e, e', alone))
    ]
  ]
]
  where
    is_free : Guest → Bool
    is_free g = in_states (available ∷ []) g.state

-- A request that is not granted had no guest to choose.
request_vm-none :
    (w : World) (ip : Text) (s : Service)
    → (request_vm w ip s).1 ≡ none
    → choose_guest s.share_guests ip s.guests ≡ none
unfolding request_vm
request_vm-none w ip s h = elim (Option-cases (choose_guest s.share_guests ip s.guests)) [
  | inl e ↦ e
  | inr (i, e) ↦
      let (g, at, _) = choose_guest-some _ ip s.guests i e in absurd (ground (arith, e, at))
]

-- A request is granted exactly when some guest of the pool can serve it: the guest that it grants
-- can, and where it grants none, no guest can.
pub request_vm_exact :
    (w : World) (ip : Text) (s : Service)
    → ((l : Lease)
        → (request_vm w ip s).1 ≡ some l
        → (i : ℕ) × (g : Guest) × (get_elem? s.guests i ≡ some g)
          × (l ≡ lease g)
          × CanServe s.share_guests ip g)
      × ((request_vm w ip s).1 ≡ none
          → (i : ℕ) (g : Guest) → get_elem? s.guests i ≡ some g
          → ¬ CanServe s.share_guests ip g)
request_vm_exact w ip s = (
  λ l h.
      let (i, g, chosen, at, is_lease, _) = request_vm_granted w ip s l h in
      let (g', at', can) = choose_guest-some _ ip s.guests i chosen in
      (i, g', at', ground (arith, at, at', is_lease), can),
  λ h. choose_guest-none _ ip s.guests (request_vm-none w ip s h),
)
