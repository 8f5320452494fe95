-- ===== src/Pool/Steps.antt =====
-- The pool as a step relation. The producer's thread and the consumers' threads interleave between
-- the sections that hold the lock, so a step is one such section, one round of the creation loop,
-- which holds no lock and is taken as one step all the same, or the assignments at the end of `request_vm` for any guest that its search may have returned.
use vo_iphoneypot.Common.{
  Bool, Bool-cases, Option, Option-cases, Text, false, get_elem?, if◌then◌else◌, inl, inr, ltb,
  none, some, suc, true, zero, ℕ, ℤ, ◌≡◌,
}
use vo_iphoneypot.Pool.Backend.{World}
use vo_iphoneypot.Pool.Consumer.{choose_guest, claim_at, free_vm, reuse_vm}
use vo_iphoneypot.Pool.Producer.{
  check_health, clean_up, create_guests, create_one, create_rounds, destroy_timed_out, finish_pass,
  mark_available, mark_timed_out, producer_loop, remove_destroyed, retire_old,
}
use vo_iphoneypot.Pool.Service.{grant, request_vm, start_pool, stop_pool}
use vo_iphoneypot.Pool.State.{
  NextCall, Service, call_pending, existing_pool_size, fired, set_configs,
}

pub data Step : Service → Service → Type 0 where
  times_out : (w : World) (t : ℕ) (s : Service) → Step s (mark_timed_out w t s)
  checks : (w : World) (s : Service) → Step s (check_health w s)
  destroys_old : (w : World) (s : Service) → Step s (destroy_timed_out w s)
  removes : (s : Service) → Step s (remove_destroyed s)
  creates : (w : World) (n : ℕ) {s s' : Service} → create_one w n s ≡ some s' → Step s s'
  readies : (w : World) (s : Service) → Step s (mark_available w s)
  claims : (i : ℕ) (ip : Text) (s : Service) → Step s (claim_at i ip s)
  frees : (now : ℤ) (n : ℕ) (s : Service) → Step s (free_vm now n s)
  reuses : (n : ℕ) (s : Service) → Step s (reuse_vm n s)
  configures : (m t : ℕ) (b : Bool) (s : Service) → Step s (set_configs s m t b)
  schedules : (k : NextCall) (s : Service) → Step s (record s { loop_next_call = k })
  stops : (w : World) (s : Service) → Step s (stop_pool w s).0
  starts : (w : World) (s : Service) → Step s (start_pool w s).0

pub data Reach (s : Service) : Service → Type 0 where
  here : Reach s s
  next : {t u : Service} → Reach s t → Step t u → Reach s u

pub Reach-trans : {s t u : Service} → Reach s t → Reach t u → Reach s u
Reach-trans r here = r
Reach-trans r (next r' st) = next (Reach-trans r r') st

pub create_rounds-Reach : (w : World) (k n : ℕ) (s : Service) → Reach s (create_rounds w k n s).0
unfolding create_rounds
create_rounds-Reach w zero n s = here
create_rounds-Reach w (suc k) n s = elim (Option-cases (create_one w n s)) [
  | inl e ↦ rw (e, create_rounds) here
  | inr (s', e) ↦
      rw (e, create_rounds)
        (Reach-trans (next here (creates w n e)) (create_rounds-Reach w k (suc n) s'))
]

retire_old-Reach : (w : World) (s : Service) → Reach s (retire_old w s)
unfolding retire_old
retire_old-Reach w s = elim (Bool-cases (ltb 1 (existing_pool_size s.guests))) [
  | inl many ↦
      rw (many, retire_old)
        (next (next here (times_out w s.vm_unused_timeout s)) (destroys_old w _))
  | inr few ↦ rw (few, retire_old) here
]

-- The end of a pass: nothing after an exception.
finish-Reach : (w : World) (s : Service) (raised : Bool) → Reach s (finish_pass w s raised).0
unfolding finish_pass
finish-Reach w s true = here
finish-Reach w s false = next (next here (readies w s)) (schedules call_pending _)

-- A pass of the producer is a sequence of steps, also where it ends by an exception.
pub producer_loop-Reach : (w : World) (s : Service) → Reach s (producer_loop w s).0
unfolding producer_loop create_guests clean_up
producer_loop-Reach w s =
    Reach-trans
      (Reach-trans
        (Reach-trans (next here (schedules (fired s.loop_next_call) s)) (retire_old-Reach w _))
        (Reach-trans (next (next here (checks w _)) (removes _)) (create_rounds-Reach w _ 0 _)))
      (finish-Reach w _ _)

stopped-Reach :
    (w : World) (s : Service) (up : Bool) → Reach s (if up then (stop_pool w s).0 else s)
stopped-Reach w s true = next here (stops w s)
stopped-Reach w s false = here

grant-Reach : (w : World) (ip : Text) (s : Service) (o : Option ℕ) → Reach s (grant w ip s o).0
unfolding grant
grant-Reach w ip s none = stopped-Reach w s s.any_vm_up
grant-Reach w ip s (some i) = elim (Option-cases (get_elem? s.guests i)) [
  | inl e ↦ rw (e, grant) here
  | inr (g, e) ↦ rw (e, grant) (next here (claims i ip s))
]

-- So is a request, granted or not.
pub request_vm-Reach : (w : World) (ip : Text) (s : Service) → Reach s (request_vm w ip s).0
unfolding request_vm
request_vm-Reach w ip s = grant-Reach w ip s (choose_guest s.share_guests ip s.guests)
