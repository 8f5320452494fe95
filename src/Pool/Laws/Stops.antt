-- ===== src/Pool/Laws/Stops.antt =====
-- What a second stop of the pool does, in backend_pool/pool_service.py.
use vo_iphoneypot.Common.{false, true, ◌≡◌}
use vo_iphoneypot.Pool.Backend.{World}
use vo_iphoneypot.Pool.Service.{restart_pool, stop_pool}
use vo_iphoneypot.Pool.State.{Service, is_pending}

abbrev Stopped : World → Service → Type 0
Stopped w s =
    (is_pending s.loop_next_call ≡ false)
    × (stop_pool w s ≡ (s, true))
    × (restart_pool w s ≡ (s, true))
