-- ===== src/Sip/Udp.antt =====
-- The sessions of UDPServer in src/sip_server.py: one for an IP address, until a pass of the checking
-- thread finds it idle. The minutes that `relativedelta` counts between two times, the clock and the
-- uuid that is drawn are arguments; a pass is one step, and so is a datagram.
use vo_iphoneypot.Common.{
  Bool, List, Option, Text, [], if◌then◌else◌, ltb, none, some, text_eq, ℕ, ◌++◌, ◌∷◌,
}
use vo_iphoneypot.Pool.Laws.Addresses.{ips}
use vo_iphoneypot.SshProxy.Sftp.{known}

pub record UdpSession : Type 0 where
  pub session : ℕ
  pub datetime : ℕ
  pub port : ℕ

pub data LogEvent : Type 0 where
  connection : LogEvent
  disconnection : LogEvent
  command_accept : Text → LogEvent

-- What is written to the log.
pub record Report : Type 0 where
  pub event : LogEvent
  pub timestamp : ℕ
  pub of_session : ℕ
  pub src_ip : Text
  pub src_port : ℕ

abbrev pub Sessions : Type 0
Sessions = List (Text × UdpSession)

pub record UdpServer : Type 0 where
  pub sessions : Sessions
  pub addr_ip : Text
  pub addr_port : ℕ
  pub written : List Report

abbrev pub no_sessions : UdpServer
no_sessions = record { sessions = []; addr_ip = []; addr_port = 0; written = [] }

-- MINUTES_LEFT
abbrev pub minutes_left : ℕ
minutes_left = 10

unfoldable pub session_of : Text → Sessions → Option UdpSession
session_of ip [] = none
session_of ip ((k, v) ∷ d) = if text_eq k ip then some v else session_of ip d

-- `self.sessions[ip_address]['datetime'] = now`
unfoldable pub refresh : Text → ℕ → Sessions → Sessions
refresh ip now [] = []
refresh ip now ((k, v) ∷ d) =
    if text_eq k ip then (k, record v { datetime = now }) ∷ d else (k, v) ∷ refresh ip now d

-- `report` for a known session: the address is the one of the event, or of the last datagram.
unfoldable pub write : ℕ → LogEvent → Option (Text × ℕ) → ℕ → UdpServer → UdpServer
write now event none session s = record s {
  written =
      s.written
      ++ (record {
        event = event;
        timestamp = now;
        of_session = session;
        src_ip = s.addr_ip;
        src_port = s.addr_port;
      })
        ∷ [];
}
write now event (some (ip, port)) session s = record s {
  written =
      s.written
      ++ (record {
        event = event;
        timestamp = now;
        of_session = session;
        src_ip = ip;
        src_port = port;
      })
        ∷ [];
}

abbrev pub open_session : ℕ → ℕ → UdpServer → UdpServer
open_session uuid now s = record s {
  sessions =
      s.sessions ++ (s.addr_ip, record { session = uuid; datetime = now; port = s.addr_port }) ∷ [];
}

-- The session that was found, or a new one.
unfoldable pub use_session : ℕ → ℕ → UdpServer → Option UdpSession → ℕ × UdpServer
use_session uuid now s none = (uuid, write now connection none uuid (open_session uuid now s))
use_session uuid now s (some known) =
    (known.session, record s { sessions = refresh s.addr_ip now s.sessions })

-- `get_session`
unfoldable pub get_session : ℕ → ℕ → UdpServer → ℕ × UdpServer
get_session uuid now s = use_session uuid now s (session_of s.addr_ip s.sessions)

-- `report` for an event of a client
unfoldable pub report : ℕ → ℕ → LogEvent → UdpServer → UdpServer
report uuid now event s =
    let (session, t) = get_session uuid now s in write now event none session t

-- The reports of a datagram, in their order; the uuids are those that would be drawn.
unfoldable pub report_all : List (ℕ × LogEvent) → ℕ → UdpServer → UdpServer
report_all [] now s = s
report_all ((uuid, event) ∷ events) now s = report_all events now (report uuid now event s)

-- `datagramReceived`, with the reports of the client
unfoldable pub datagram_received : Text → ℕ → List (ℕ × LogEvent) → ℕ → UdpServer → UdpServer
datagram_received ip port events now s =
    report_all events now (record s { addr_ip = ip; addr_port = port })

-- The test of one session in a pass.
unfoldable pub is_idle : (ℕ → ℕ → ℕ) → ℕ → UdpSession → Bool
is_idle minutes now v = ltb minutes_left (minutes v.datetime now)

-- The loop over the sessions reports the idle ones, and keeps their addresses.
unfoldable pub report_idle : (ℕ → ℕ → ℕ) → ℕ → Sessions → UdpServer → UdpServer × List Text
report_idle minutes now [] s = (s, [])
report_idle minutes now ((ip, v) ∷ d) s =
    let idle =
      report_idle minutes now d (write now disconnection (some (ip, v.port)) v.session s) in
    let kept = report_idle minutes now d s in
    if is_idle minutes now v then (idle.0, ip ∷ idle.1) else kept

-- `del self.sessions[address]`
unfoldable pub delete_session : Text → Sessions → Sessions
delete_session ip [] = []
delete_session ip ((k, v) ∷ d) = if text_eq k ip then d else (k, v) ∷ delete_session ip d

-- `delete_from_dict`
unfoldable pub delete_from_dict : List Text → Sessions → Sessions
delete_from_dict [] d = d
delete_from_dict (ip ∷ ips) d = delete_from_dict ips (delete_session ip d)

-- A pass of `check_conection`
unfoldable pub check_connection : (ℕ → ℕ → ℕ) → ℕ → UdpServer → UdpServer
check_connection minutes now s =
    let (t, idle) = report_idle minutes now s.sessions s in
    record t { sessions = delete_from_dict idle t.sessions }
