-- ===== src/Pool/Service.antt =====
-- The methods of PoolService that involve the whole service: start, stop, restart and
-- `request_vm`, whose failure may stop the pool.
use vo_iphoneypot.Common.{
  Bool, List, Option, Text, [], false, get_elem?, if◌then◌else◌, none, some, true, ℕ, ◌∷◌,
}
use vo_iphoneypot.Pool.Backend.{
  Backend, World, destroy_all_cowrie, destroy_guest, start_backend, stop_backend,
}
use vo_iphoneypot.Pool.Consumer.{choose_guest, claim_at}
use vo_iphoneypot.Pool.Guest.{Guest}
use vo_iphoneypot.Pool.State.{NextCall, Service, call_cancelled, call_made, call_pending, no_call}

-- `for guest in self.guests: self.qemu.destroy_guest(...)`
unfoldable pub destroy_guests : World → Backend → List Guest → Backend
destroy_guests w b [] = b
destroy_guests w b (g ∷ gs) = destroy_guests w (destroy_guest w b g.domain g.snapshot) gs

-- `if self.loop_next_call: self.loop_next_call.cancel()`. To cancel a call that was made, or was
-- cancelled before, raises.
unfoldable pub cancel_next : NextCall → Option NextCall
cancel_next no_call = some no_call
cancel_next call_pending = some call_cancelled
cancel_next call_made = none
cancel_next call_cancelled = none

-- `stop_pool` behind the cancellation. The error of `stop_backend` is caught.
unfoldable pub stop_guests : World → Service → Option NextCall → Service × Bool
stop_guests w s none = (s, true)
stop_guests w s (some next_call) =
    let (b, raised) = destroy_all_cowrie w (destroy_guests w s.qemu s.guests) in
    let b' : Backend = if raised then b else (stop_backend w b).0 in
    (record s { loop_next_call = next_call; qemu = b' }, raised)

-- `stop_pool`; the flag says that it raised.
unfoldable pub stop_pool : World → Service → Service × Bool
stop_pool w s = stop_guests w s (cancel_next s.loop_next_call)

-- `start_pool`, which hands `producer_loop` to a thread and leaves `loop_next_call` as it is.
unfoldable pub start_pool : World → Service → Service × Bool
start_pool w s =
    let (b, raised) = destroy_all_cowrie w s.qemu in
    if raised
    then (record s { qemu = b }, true)
    else (record s { qemu = start_backend b; guests = []; guest_id = 0; any_vm_up = false }, false)

unfoldable pub restart_pool : World → Service → Service × Bool
restart_pool w s =
    let (s', raised) = stop_pool w s in if raised then (s', true) else start_pool w s'

-- What `request_vm` returns.
pub record Lease : Type 0 where
  pub id : ℕ
  pub guest_ip : Text
  pub snapshot : Text

abbrev pub lease : Guest → Lease
lease g = record { id = g.id; guest_ip = g.guest_ip; snapshot = g.snapshot }

-- The end of `request_vm` once a guest is chosen, or none is.
unfoldable pub grant : World → Text → Service → Option ℕ → Service × Option Lease
grant w src_ip s none = (if s.any_vm_up then (stop_pool w s).0 else s, none)
grant w src_ip s (some i) = elim (get_elem? s.guests i) [
  | none ↦ (s, none)
  | some g ↦ (claim_at i src_ip s, some (lease g))
]

-- `request_vm`, with no other thread between the search and the assignments; no lease is
-- `NoAvailableVMs`, or what `stop_pool` raised.
unfoldable pub request_vm : World → Text → Service → Service × Option Lease
unfolding grant
request_vm w src_ip s = grant w src_ip s (choose_guest s.share_guests src_ip s.guests)
