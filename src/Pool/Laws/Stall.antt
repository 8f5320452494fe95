-- ===== src/Pool/Laws/Stall.antt =====
-- When a pass of the producer cannot create the guest that it wants.
use vo_iphoneypot.Common.{
  All, All-get_elem?, Bool, List, Option-cases, Text, ap, arith, false, get_elem?, inl, inr, length,
  none, not, refl, suc, true, zero, ℕ, ◌%◌, ◌-◌, ◌<◌, ◌∙◌, ◌≡◌,
}
use vo_iphoneypot.Pool.Backend.{Backend, World, choose, create_guest, get_mac_ip, try_mac_ip}
use vo_iphoneypot.Pool.Laws.Replenish.{clean_up-max_vm, finish_pass-flag, producer_loop-schedules}
use vo_iphoneypot.Pool.Producer.{clean_up, create_guests, create_one, create_rounds, producer_loop}
use vo_iphoneypot.Pool.State.{Service, existing_pool_size, is_ip_free, is_pending}
use vo_iphoneypot.Sip.Worker.{filled}

-- Where no draw gives a free address, `get_mac_ip` raises.
try_mac_ip-none :
    (table : List (Text × Text)) (tester : Text → Bool) (draw : ℕ → ℕ) (fuel k : ℕ)
    → All (λ row. tester row.1 ≡ false) table
    → try_mac_ip table tester draw fuel k ≡ none
unfolding try_mac_ip choose
try_mac_ip-none table tester draw zero k taken = refl
try_mac_ip-none table tester draw (suc fuel) k taken =
    elim (Option-cases (get_elem? table (draw k % length table))) [
      | inl e ↦ rw (e, try_mac_ip)
      | inr (row, e) ↦
          rw (e, try_mac_ip, All-get_elem? _ table _ row taken e)
            (try_mac_ip-none table tester draw fuel (suc k) taken)
    ]

create_guest-none :
    (w : World) (n : ℕ) (b : Backend) (tester : Text → Bool)
    → All (λ row. tester row.1 ≡ false) b.network_table
    → create_guest w n b tester ≡ none
unfolding create_guest get_mac_ip
create_guest-none w n b tester taken =
    ground (arith, try_mac_ip-none b.network_table tester (w.draw n) 500 0 taken)

create_one-none :
    (w : World) (n : ℕ) (s : Service)
    → All (λ row. is_ip_free s.guests row.1 ≡ false) s.qemu.network_table
    → create_one w n s ≡ none
unfolding create_one
create_one-none w n s taken =
    rw (create_guest-none w n s.qemu (is_ip_free s.guests) taken, create_one)

create_rounds-none :
    (w : World) (k : ℕ) (s : Service)
    → 0 < k
    → create_one w 0 s ≡ none
    → (create_rounds w k 0 s).1 ≡ true
unfolding create_rounds
create_rounds-none w zero s h e = absurd (omega arith)
create_rounds-none w (suc k) s h e = rw (e, create_rounds)

-- Where a pass wants a new guest and every address of the network table belongs to a guest, the pass
-- raises, and nothing schedules another one: the producer has stopped for good.
pub producer_loop-stalls :
    (w : World) (s : Service)
    → existing_pool_size (clean_up w s).guests < s.max_vm
    → All (λ row. is_ip_free (clean_up w s).guests row.1 ≡ false) (clean_up w s).qemu.network_table
    → ((producer_loop w s).1 ≡ true) × (is_pending (producer_loop w s).0.loop_next_call ≡ false)
unfolding producer_loop create_guests
producer_loop-stalls w s wanted taken =
    let kept : Service = clean_up w s in
    let k : ℕ = kept.max_vm - existing_pool_size kept.guests in
    let (filled, raised) = create_rounds w k 0 kept in
    let stopped =
      create_rounds-none w k kept (omega (arith, clean_up-max_vm w s))
        (create_one-none w 0 kept taken) in
    let flag = finish_pass-flag w filled raised ∙ stopped in
    (flag, producer_loop-schedules w s ∙ ap not flag)
