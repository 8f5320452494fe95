-- ===== src/Pool/Laws/Replenish.antt =====
-- A pass of the producer: it fills the pool to `max_vm` and never past it, drops the destroyed
-- guests, and schedules the next pass exactly when nothing raised.
use Prim.Native.Nat.{max}
use vo_iphoneypot.Common.{
  Bool, Bool-cases, Option-cases, [], ap, arith, false, inl, inr, length, ltb, not, refl, some, suc,
  sym, true, zero, ℕ, ◌&&◌, ◌+◌, ◌-◌, ◌∙◌, ◌∷◌, ◌≡◌, ◌≤◌,
}
use vo_iphoneypot.Pool.Backend.{World, create_guest}
use vo_iphoneypot.Pool.Guest.{in_states, unavailable, used}
use vo_iphoneypot.Pool.Laws.Size.{
  live-live, remove_destroyed-live, size-append_one, size-destroy_unavailable, size-update_where,
}
use vo_iphoneypot.Pool.Producer.{
  check_health, clean_up, create_guests, create_one, create_rounds, destroy_timed_out, finish_pass,
  mark_available, mark_timed_out, new_guest, producer_loop, remove_destroyed, retire_old, timed_out,
}
use vo_iphoneypot.Pool.State.{
  NextCall, Service, call_cancelled, call_made, call_pending, existing_pool_size, fired, is_ip_free,
  is_pending, no_call,
}
use vo_iphoneypot.Sip.Worker.{filled}

create_one-size :
    (w : World) (n : ℕ) (s s' : Service)
    → create_one w n s ≡ some s'
    → existing_pool_size s'.guests ≡ existing_pool_size s.guests + 1
unfolding create_one
create_one-size w n s s' h = elim (Option-cases (create_guest w n s.qemu (is_ip_free s.guests))) [
  | inl e ↦ absurd (ground (arith, e))
  | inr ((c, b), e) ↦
      ap existing_pool_size (ground (arith, e))
      ∙ size-append_one s.guests (new_guest w s.guest_id c) (unfold new_guest in refl)
]

-- The creation loop adds one guest a round.
create_rounds-size :
    (w : World) (k n : ℕ) (s : Service)
    → (existing_pool_size (create_rounds w k n s).0.guests ≤ existing_pool_size s.guests + k)
      × ((create_rounds w k n s).1 ≡ false
          → existing_pool_size s.guests + k ≤ existing_pool_size (create_rounds w k n s).0.guests)
unfolding create_rounds
create_rounds-size w zero n s = (omega arith, λ _. omega arith)
create_rounds-size w (suc k) n s = elim (Option-cases (create_one w n s)) [
  | inl e ↦ rw (e, create_rounds) (omega arith, λ raised. cc)
  | inr (s', e) ↦
      let grown = create_one-size w n s s' e in
      let (above, below) = create_rounds-size w k (suc n) s' in
      rw (e, create_rounds) (omega arith, λ fine. omega (arith, below fine))
]

retire_old-size :
    (w : World) (s : Service)
    → existing_pool_size (retire_old w s).guests ≤ existing_pool_size s.guests
unfolding retire_old destroy_timed_out mark_timed_out
retire_old-size w s = elim (Bool-cases (ltb 1 (existing_pool_size s.guests))) [
  | inl many ↦
      rw (many, retire_old)
        (omega (
          arith,
          size-destroy_unavailable w s.qemu (mark_timed_out w s.vm_unused_timeout s).guests,
          size-update_where
              (λ g. in_states (used ∷ []) g.state && timed_out w s.vm_unused_timeout g)
              (λ g. record g { state = unavailable }) s.guests (λ g h. ground arith),
        ))
  | inr few ↦ rw (few, retire_old) (omega arith)
]

check_health-size :
    (w : World) (s : Service)
    → existing_pool_size (check_health w s).guests ≡ existing_pool_size s.guests
unfolding check_health
check_health-size w s = size-update_where _ _ s.guests (λ g h. ground arith)

mark_available-size :
    (w : World) (s : Service)
    → existing_pool_size (mark_available w s).guests ≡ existing_pool_size s.guests
unfolding mark_available
mark_available-size w s = size-update_where _ _ s.guests (λ g h. ground arith)

remove_destroyed-size :
    (s : Service) → existing_pool_size (remove_destroyed s).guests ≡ existing_pool_size s.guests
unfolding existing_pool_size
remove_destroyed-size s = rw remove_destroyed-live (ap length (live-live s.guests))

finish_pass-size :
    (w : World) (s : Service) (raised : Bool)
    → existing_pool_size (finish_pass w s raised).0.guests ≡ existing_pool_size s.guests
unfolding finish_pass
finish_pass-size w s true = refl
finish_pass-size w s false = mark_available-size w s

pub finish_pass-flag :
    (w : World) (s : Service) (raised : Bool) → (finish_pass w s raised).1 ≡ raised
unfolding finish_pass
finish_pass-flag w s true = refl
finish_pass-flag w s false = refl

clean_up-size :
    (w : World) (s : Service)
    → existing_pool_size (clean_up w s).guests ≤ existing_pool_size s.guests
unfolding clean_up
clean_up-size w s =
    let s' : Service = record s { loop_next_call = fired s.loop_next_call } in
    omega (
      arith,
      remove_destroyed-size (check_health w (retire_old w s')),
      check_health-size w (retire_old w s'),
      retire_old-size w s',
    )

pub clean_up-max_vm : (w : World) (s : Service) → (clean_up w s).max_vm ≡ s.max_vm
unfolding clean_up remove_destroyed check_health retire_old destroy_timed_out mark_timed_out
clean_up-max_vm w s = ground arith

-- A pass never leaves more guests than `max_vm`, or than there were before where these were more;
-- and a pass that does not raise leaves at least `max_vm`. Destroyed guests do not count.
pub producer_loop-size :
    (w : World) (s : Service)
    → (existing_pool_size (producer_loop w s).0.guests ≤ max s.max_vm (existing_pool_size s.guests))
      × ((producer_loop w s).1 ≡ false → s.max_vm ≤ existing_pool_size (producer_loop w s).0.guests)
unfolding producer_loop create_guests
producer_loop-size w s =
    let kept : Service = clean_up w s in
    let k : ℕ = kept.max_vm - existing_pool_size kept.guests in
    let (above, below) = create_rounds-size w k 0 kept in
    let (filled, raised) = create_rounds w k 0 kept in
    let same = finish_pass-size w filled raised in
    let flag = finish_pass-flag w filled raised in
    (
      omega (arith, above, same, clean_up-size w s, clean_up-max_vm w s),
      λ fine. omega (arith, below (sym flag ∙ fine), same, clean_up-max_vm w s),
    )

create_one-loop :
    (w : World) (n : ℕ) (s s' : Service)
    → create_one w n s ≡ some s'
    → s'.loop_next_call ≡ s.loop_next_call
unfolding create_one
create_one-loop w n s s' h = ground (arith, h)

create_rounds-loop :
    (w : World) (k n : ℕ) (s : Service)
    → (create_rounds w k n s).0.loop_next_call ≡ s.loop_next_call
unfolding create_rounds
create_rounds-loop w zero n s = refl
create_rounds-loop w (suc k) n s = elim (Option-cases (create_one w n s)) [
  | inl e ↦ rw (e, create_rounds)
  | inr (s', e) ↦
      rw (e, create_rounds) (create_rounds-loop w k (suc n) s' ∙ create_one-loop w n s s' e)
]

finish_pass-loop :
    (w : World) (s : Service) (raised : Bool)
    → is_pending s.loop_next_call ≡ false
    → is_pending (finish_pass w s raised).0.loop_next_call ≡ not raised
unfolding finish_pass
finish_pass-loop w s true h = h
finish_pass-loop w s false h = refl

is_pending-fired : (k : NextCall) → is_pending (fired k) ≡ false
is_pending-fired no_call = refl
is_pending-fired call_pending = refl
is_pending-fired call_made = refl
is_pending-fired call_cancelled = refl

clean_up-loop : (w : World) (s : Service) → (clean_up w s).loop_next_call ≡ fired s.loop_next_call
unfolding clean_up remove_destroyed check_health retire_old destroy_timed_out mark_timed_out
clean_up-loop w s = ground arith

-- A pass schedules the next one exactly when it does not raise.
pub producer_loop-schedules :
    (w : World) (s : Service)
    → is_pending (producer_loop w s).0.loop_next_call ≡ not (producer_loop w s).1
unfolding producer_loop create_guests
producer_loop-schedules w s =
    let kept : Service = clean_up w s in
    let k : ℕ = kept.max_vm - existing_pool_size kept.guests in
    let (filled, raised) = create_rounds w k 0 kept in
    finish_pass-loop w filled raised (
      ap is_pending (create_rounds-loop w k 0 kept ∙ clean_up-loop w s)
      ∙ is_pending-fired s.loop_next_call)
    ∙ ap not (sym (finish_pass-flag w filled raised))
