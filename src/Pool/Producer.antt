-- ===== src/Pool/Producer.antt =====
-- The producer of PoolService: the methods that `producer_loop` runs, and their composition. They
-- reach the guests in the order of the source; the flag beside a result says that it raised.
use vo_iphoneypot.Common.{
  Bool, List, Option, [], false, if◌then◌else◌, ltb, ltb_ℤ, negsuc, none, not, pos, some, suc, true,
  zero, ℕ, ◌&&◌, ◌++◌, ◌+ℤ◌, ◌+◌, ◌-◌, ◌==◌, ◌||◌, ◌∷◌,
}
use vo_iphoneypot.Pool.Backend.{Backend, Created, World, create_guest, destroy_guest}
use vo_iphoneypot.Pool.Guest.{
  Guest, absent, available, created, destroyed, get_guest_states, guest_eq, in_states, unavailable,
  used, using,
}
use vo_iphoneypot.Pool.State.{
  Service, call_pending, existing_pool_size, fired, has_connectivity, is_ip_free, update_where,
}
use vo_iphoneypot.Sip.Worker.{filled}

-- `guest['freed_timestamp'] + guest_timeout < now()`
unfoldable pub timed_out : World → ℕ → Guest → Bool
timed_out w guest_timeout g = ltb_ℤ (g.freed_timestamp +ℤ pos guest_timeout) w.now

-- `__producer_mark_timed_out`
unfoldable pub mark_timed_out : World → ℕ → Service → Service
mark_timed_out w guest_timeout s = record s {
  guests =
      update_where (λ g. in_states (used ∷ []) g.state && timed_out w guest_timeout g)
        (λ g. record g { state = unavailable }) s.guests;
}

-- `__producer_check_health`
unfoldable pub check_health : World → Service → Service
check_health w s = record s {
  guests =
      update_where
        (λ g.
          in_states (available ∷ using ∷ used ∷ []) g.state
          && not (has_connectivity w s g.guest_ip))
        (λ g. record g { state = unavailable }) s.guests;
}

abbrev pub is_unavailable : Guest → Bool
is_unavailable g = in_states (unavailable ∷ []) g.state

-- Qemu after the round of the next loop for guest `g`.
unfoldable pub after_destroy : World → Backend → Guest → Backend
after_destroy w b g = if is_unavailable g then destroy_guest w b g.domain g.snapshot else b

-- The loop of `__producer_destroy_timed_out`; `destroy_guest` does not raise.
unfoldable pub destroy_unavailable : World → Backend → List Guest → Backend × List Guest
destroy_unavailable w b [] = (b, [])
destroy_unavailable w b (g ∷ gs) =
    let (b', gs') = destroy_unavailable w (after_destroy w b g) gs in
    (b', (if is_unavailable g then record g { state = destroyed } else g) ∷ gs')

-- `__producer_destroy_timed_out`
unfoldable pub destroy_timed_out : World → Service → Service
destroy_timed_out w s =
    let (b, gs) = destroy_unavailable w s.qemu s.guests in record s { qemu = b; guests = gs }

-- `self.guests.remove(guest)`: the first equal one
unfoldable pub remove_guest : Guest → List Guest → List Guest
remove_guest d [] = []
remove_guest d (g ∷ gs) = if guest_eq g d then gs else g ∷ remove_guest d gs

unfoldable pub remove_guests : List Guest → List Guest → List Guest
unfolding remove_guest
remove_guests [] gs = gs
remove_guests (d ∷ ds) gs = remove_guests ds (remove_guest d gs)

-- `__producer_remove_destroyed`
unfoldable pub remove_destroyed : Service → Service
remove_destroyed s = record s {
  guests = remove_guests (get_guest_states (destroyed ∷ []) s.guests) s.guests;
}

-- The dict that `__producer_create_guests` appends.
unfoldable pub new_guest : World → ℕ → Created → Guest
new_guest w guest_id c = record {
  id = guest_id;
  state = created;
  prev_state = absent;
  start_timestamp = w.now;
  guest_ip = c.ip;
  connected = pos 0;
  client_ips = [];
  freed_timestamp = negsuc 0;
  domain = c.domain;
  snapshot = c.snapshot;
}

-- `self.guest_id += 1`, and the reset at 252
unfoldable pub next_id : ℕ → ℕ
next_id guest_id = if guest_id + 1 == 252 then 0 else guest_id + 1

-- One round of the loop of `__producer_create_guests`, number `n` of the pass.
unfoldable pub create_one : World → ℕ → Service → Option Service
create_one w n s = elim (create_guest w n s.qemu (is_ip_free s.guests)) [
  | none ↦ none
  | some (c, b) ↦ some (record s {
    qemu = b;
    guests = s.guests ++ new_guest w s.guest_id c ∷ [];
    guest_id = next_id s.guest_id;
  })
]

-- The rounds that are left, from round `n`. What an exception leaves is the service so far.
unfoldable pub create_rounds : World → ℕ → ℕ → Service → Service × Bool
create_rounds w zero n s = (s, false)
create_rounds w (suc k) n s = elim (create_one w n s) [
  | none ↦ (s, true)
  | some s' ↦ create_rounds w k (suc n) s'
]

-- `__producer_create_guests`; `range` of a negative number is empty, as `-` is here
unfoldable pub create_guests : World → Service → Service × Bool
create_guests w s = create_rounds w (s.max_vm - existing_pool_size s.guests) 0 s

is_ready : World → Service → Guest → Bool
is_ready w s g = in_states (created ∷ []) g.state && has_connectivity w s g.guest_ip

any_ready : World → Service → List Guest → Bool
unfolding is_ready
any_ready w s [] = false
any_ready w s (g ∷ gs) = is_ready w s g || any_ready w s gs

-- `__producer_mark_available`
unfoldable pub mark_available : World → Service → Service
unfolding any_ready is_ready
mark_available w s = record s {
  any_vm_up = s.any_vm_up || any_ready w s s.guests;
  guests = update_where (is_ready w s) (λ g. record g { state = available }) s.guests;
}

unfoldable pub retire_old : World → Service → Service
retire_old w s =
    if ltb 1 (existing_pool_size s.guests)
    then destroy_timed_out w (mark_timed_out w s.vm_unused_timeout s)
    else s

-- The end of a pass, after `__producer_create_guests`.
unfoldable pub finish_pass : World → Service → Bool → Service × Bool
finish_pass w s true = (s, true)
finish_pass w s false = (record (mark_available w s) { loop_next_call = call_pending }, false)

-- The first part of a pass, up to `__producer_remove_destroyed`.
unfoldable pub clean_up : World → Service → Service
clean_up w s =
    remove_destroyed
      (check_health w (retire_old w (record s { loop_next_call = fired s.loop_next_call })))

-- `producer_loop`, which the reactor calls, or the thread that `start_pool` starts. After an exception
-- nothing schedules the next pass.
unfoldable pub producer_loop : World → Service → Service × Bool
producer_loop w s =
    let (filled, raised) = create_guests w (clean_up w s) in finish_pass w filled raised
