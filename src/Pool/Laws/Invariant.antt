-- ===== src/Pool/Laws/Invariant.antt =====
-- No two guests have one IP, and ids stay below 252, in every interleaving of producer and consumers.
use mathlib.Core.Path.{subst}
use mathlib.Core.Option.{some-injective}
use vo_iphoneypot.Common.{
  All, All-append, Bool-cases, List, Option, Option-cases, [], arith, inl, inr, ltb_ℤ, map, none,
  not, pos, refl, some, ℕ, ℤ, ◌&&◌, ◌<◌, ◌∷◌, ◌≡◌,
}
use vo_iphoneypot.Pool.Backend.{Backend, World, create_guest, destroy_all_cowrie}
use vo_iphoneypot.Pool.Consumer.{claim, claim_at, free_vm, freed, reuse_vm, reused}
use vo_iphoneypot.Pool.Guest.{Guest}
use vo_iphoneypot.Pool.Laws.Addresses.{
  All-remove_guest, Distinct, Distinct-append, Distinct-remove_guest, create_guest_free,
  is_ip_free-Fresh,
}
use vo_iphoneypot.Pool.Laws.Fields.{
  map-append_one, map-destroy_unavailable, map-update_at, map-update_first, map-update_where,
}
use vo_iphoneypot.Pool.Producer.{
  check_health, create_one, destroy_timed_out, mark_available, mark_timed_out, new_guest, next_id,
  remove_destroyed, remove_guest, remove_guests,
}
use vo_iphoneypot.Pool.Service.{cancel_next, start_pool, stop_guests, stop_pool}
use vo_iphoneypot.Pool.State.{NextCall, Service, init, is_ip_free, set_configs}
use vo_iphoneypot.Pool.Steps.{
  Reach, Step, checks, claims, configures, creates, destroys_old, frees, here, next, readies,
  removes, reuses, schedules, starts, stops, times_out,
}

pub record Inv (s : Service) : Type 0 where
  pub ips_distinct : Distinct (map (λ g. g.guest_ip) s.guests)
  pub ids_bounded : All (λ n. n < 252) (map (λ g. g.id) s.guests)
  pub next_bounded : s.guest_id < 252

next_id_bounded : (n : ℕ) → n < 252 → next_id n < 252
unfolding next_id
next_id_bounded n h = ground arith

create_one-Inv : (w : World) (n : ℕ) (s s' : Service) → create_one w n s ≡ some s' → Inv s → Inv s'
unfolding create_one new_guest
create_one-Inv w n s s' h v = elim (Option-cases (create_guest w n s.qemu (is_ip_free s.guests))) [
  | inl e ↦ absurd (ground (arith, e))
  | inr ((c, b), e) ↦ subst Inv (some-injective _ _ (rw (e, create_one) at h)) (record {
    ips_distinct = rw (map-append_one (λ g. g.guest_ip) s.guests (new_guest w s.guest_id c)) (
        Distinct-append _ c.ip v.ips_distinct
          (is_ip_free-Fresh s.guests c.ip (create_guest_free w n s.qemu _ c b e)));
    ids_bounded =
        rw (map-append_one (λ g. g.id) s.guests (new_guest w s.guest_id c))
          (All-append _ _ (s.guest_id ∷ []) v.ids_bounded (v.next_bounded, tt));
    next_bounded = next_id_bounded s.guest_id v.next_bounded;
  })
]

-- The invariant depends on the IPs, the ids and the next id only.
Inv-same :
    (s s' : Service)
    → map (λ g. g.guest_ip) s'.guests ≡ map (λ g. g.guest_ip) s.guests
    → map (λ g. g.id) s'.guests ≡ map (λ g. g.id) s.guests
    → s'.guest_id ≡ s.guest_id
    → Inv s
    → Inv s'
Inv-same s s' same_ips same_ids same_next v = record {
  ips_distinct = rw same_ips v.ips_distinct;
  ids_bounded = rw same_ids v.ids_bounded;
  next_bounded = rw same_next v.next_bounded;
}

remove_guests-Inv :
    (s : Service) (ds gs : List Guest)
    → Inv (record s { guests = gs })
    → Inv (record s { guests = remove_guests ds gs })
unfolding remove_guests
remove_guests-Inv s [] gs v = v
remove_guests-Inv s (d ∷ ds) gs v = remove_guests-Inv s ds (remove_guest d gs) (record {
  ips_distinct = Distinct-remove_guest d gs v.ips_distinct;
  ids_bounded = All-remove_guest (λ g. g.id) _ d gs v.ids_bounded;
  next_bounded = v.next_bounded;
})

start_pool-Inv : (w : World) (s : Service) → Inv s → Inv (start_pool w s).0
unfolding start_pool
start_pool-Inv w s v = elim (Bool-cases (destroy_all_cowrie w s.qemu).1) [
  | inl raised ↦ rw (raised, start_pool) (Inv-same s _ refl refl refl v)
  | inr fine ↦
      rw (fine, start_pool)
        (record { ips_distinct = tt; ids_bounded = tt; next_bounded = omega arith })
]

stop_guests-Inv :
    (w : World) (s : Service) (o : Option NextCall) → Inv s → Inv (stop_guests w s o).0
unfolding stop_guests
stop_guests-Inv w s none v = v
stop_guests-Inv w s (some k) v = Inv-same s _ refl refl refl v

Step-Inv : {s s' : Service} → Step s s' → Inv s → Inv s'
unfolding mark_timed_out check_health destroy_timed_out remove_destroyed mark_available claim_at
    claim free_vm freed reuse_vm reused set_configs stop_pool
Step-Inv (times_out w t s) v =
    Inv-same s _ (map-update_where (λ g. g.guest_ip) _ (λ g. refl) _ s.guests)
      (map-update_where (λ g. g.id) _ (λ g. refl) _ s.guests) refl v
Step-Inv (checks w s) v =
    Inv-same s _ (map-update_where (λ g. g.guest_ip) _ (λ g. refl) _ s.guests)
      (map-update_where (λ g. g.id) _ (λ g. refl) _ s.guests) refl v
Step-Inv (destroys_old w s) v =
    Inv-same s _ (map-destroy_unavailable (λ g. g.guest_ip) (λ st g. refl) w s.qemu s.guests)
      (map-destroy_unavailable (λ g. g.id) (λ st g. refl) w s.qemu s.guests) refl v
Step-Inv (removes s) v = remove_guests-Inv s _ s.guests v
Step-Inv (creates w n {s} {s'} e) v = create_one-Inv w n s s' e v
Step-Inv (readies w s) v =
    Inv-same s _ (map-update_where (λ g. g.guest_ip) _ (λ g. refl) _ s.guests)
      (map-update_where (λ g. g.id) _ (λ g. refl) _ s.guests) refl v
Step-Inv (claims i ip s) v =
    Inv-same s _ (map-update_at (λ g. g.guest_ip) _ (λ g. refl) i s.guests)
      (map-update_at (λ g. g.id) _ (λ g. refl) i s.guests) refl v
Step-Inv (frees now n s) v =
    Inv-same s _ (map-update_first (λ g. g.guest_ip) _ (λ g. refl) _ s.guests)
      (map-update_first (λ g. g.id) _ (λ g. refl) _ s.guests) refl v
Step-Inv (reuses n s) v =
    Inv-same s _ (map-update_first (λ g. g.guest_ip) _ (λ g. refl) _ s.guests)
      (map-update_first (λ g. g.id) _ (λ g. refl) _ s.guests) refl v
Step-Inv (configures m t b s) v = Inv-same s _ refl refl refl v
Step-Inv (schedules k s) v = Inv-same s _ refl refl refl v
Step-Inv (stops w s) v = stop_guests-Inv w s (cancel_next s.loop_next_call) v
Step-Inv (starts w s) v = start_pool-Inv w s v

-- In every interleaving of the producer and the consumers, from a service in which the guests have
-- pairwise different IPs and the ids are below 252, the same holds afterwards.
pub Reach-Inv : {s t : Service} → Inv s → Reach s t → Inv t
Reach-Inv v here = v
Reach-Inv v (next r st) = Step-Inv st (Reach-Inv v r)

-- The service starts that way.
pub init-Inv :
    (qemu : Backend) (ssh telnet : ℤ) (s : Service) → init qemu ssh telnet ≡ some s → Inv s
unfolding init
init-Inv qemu ssh telnet s h =
    elim (Bool-cases (not (ltb_ℤ (pos 0) ssh) && not (ltb_ℤ (pos 0) telnet))) [
      | inl bad ↦ absurd (ground (arith, bad))
      | inr fine ↦
          subst Inv (some-injective _ _ (rw (fine, init) at h))
            (record { ips_distinct = tt; ids_bounded = tt; next_bounded = omega arith })
    ]

-- From the start of the service, in every interleaving of the producer's sections with requests,
-- returns, settings, stops and restarts, no two guests have one IP, and every id, the next one
-- included, is below 252.
pub history-Inv :
    (qemu : Backend) (ssh telnet : ℤ) (s t : Service)
    → init qemu ssh telnet ≡ some s
    → Reach s t
    → Inv t
history-Inv qemu ssh telnet s t h r = Reach-Inv (init-Inv qemu ssh telnet s h) r
