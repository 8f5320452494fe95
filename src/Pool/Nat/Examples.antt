-- ===== src/Pool/Nat/Examples.antt =====
-- Runs of the NAT service.
use vo_iphoneypot.Pool.Nat
use vo_iphoneypot.Pool.Nat.Leak
use vo_iphoneypot.Pool.Nat.Forward
use vo_iphoneypot.Pool.Nat
use vo_iphoneypot.Pool.Nat.Leak
use vo_iphoneypot.Pool.Nat.Forward
use vo_iphoneypot.Common.{List, Text, [], codes, true, ◌++◌, ◌∷◌, ◌≡◌}
use vo_iphoneypot.Pool.Nat.{init}
use vo_iphoneypot.Pool.Nat.Forward.{
  Event, client_made, forward_complete, fresh, packet, react, timer,
}
use vo_iphoneypot.Pool.Nat.Leak.{Call, asks, leaves, listeners_leak, run}

abbrev guest_ip : Text
guest_ip = codes "192.168.150.2"

abbrev calls : List Call
calls = asks 0 guest_ip ∷ leaves 0 ∷ asks 0 guest_ip ∷ leaves 0 ∷ []

listeners_leak_example :
    ((Leak.run Nat.init calls).stopped ≡ []) × ((Leak.run Nat.init calls).listeners ≡ 4)
listeners_leak_example = listeners_leak calls

abbrev session : List Event
session = packet 7 ∷ packet 8 ∷ client_made ∷ []

forward_complete_example :
    ((Forward.run fresh session).written ++ (Forward.run fresh session).buffer ≡ 7 ∷ 8 ∷ [])
    × ((Forward.run fresh session).connected ≡ true
        → (react (Forward.run fresh session) timer).written ≡ 7 ∷ 8 ∷ [])
forward_complete_example = forward_complete session
