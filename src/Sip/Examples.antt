-- ===== src/Sip/Examples.antt =====
-- Runs of the UDP server's sessions.
use vo_iphoneypot.Common.{Text, [], codes, ℕ, ◌%◌, ◌-◌, ◌/◌, ◌∷◌, ◌≡◌}
use vo_iphoneypot.Sip.Idle.{after_pass, check_connection_exact}
use vo_iphoneypot.Sip.OneEach.{at_start, datagram, one_more}
use vo_iphoneypot.Sip.Sticky.{datagram_received-written, entry_for}
use vo_iphoneypot.Sip.Udp.{
  LogEvent, UdpServer, check_connection, command_accept, connection, datagram_received, no_sessions,
  session_of,
}

-- The minutes within the hour.
abbrev minutes : ℕ → ℕ → ℕ
minutes a b = (b - a) / 60 % 60

abbrev client_ip : Text
client_ip = codes "10.0.8.33"

abbrev invite : LogEvent
invite = command_accept (codes "INVITE")

abbrev met : UdpServer
met = datagram_received client_ip 36466 ((1, invite) ∷ (2, invite) ∷ []) 1000 no_sessions

datagram_received-written_example :
    met.written
    ≡ entry_for client_ip 36466 1000 1 connection
      ∷ entry_for client_ip 36466 1000 1 invite
      ∷ entry_for client_ip 36466 1000 1 invite
      ∷ []
unfolding session_of
datagram_received-written_example =
    datagram_received-written client_ip 36466 1000 ((1, invite) ∷ (2, invite) ∷ []) no_sessions

check_connection_exact_example : check_connection minutes 1700 met ≡ after_pass minutes 1700 met
check_connection_exact_example = check_connection_exact minutes 1700 met (
    one_more no_sessions met at_start
      (datagram client_ip 36466 ((1, invite) ∷ (2, invite) ∷ []) 1000 no_sessions))
