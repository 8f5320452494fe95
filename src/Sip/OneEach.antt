-- ===== src/Sip/OneEach.antt =====
-- An address has one session, whatever datagrams and passes come.
use vo_iphoneypot.Common.{
  All, All-append, Bool-cases, List, Option, Text, [], arith, false, if_both, inl, inr, none, refl,
  some, text_eq, text_eq_refl, text_eq→eq, true, ℕ, ◌++◌, ◌∷◌, ◌≡◌,
}
use vo_iphoneypot.Pool.Laws.Addresses.{ips}
use vo_iphoneypot.Sip.Udp.{
  LogEvent, Sessions, UdpServer, UdpSession, check_connection, datagram_received, delete_from_dict,
  delete_session, get_session, no_sessions, refresh, report, report_all, session_of, use_session,
  write,
}

abbrev pub Absent : Text → Sessions → Type 0
Absent ip = All (λ e. text_eq e.0 ip ≡ false)

abbrev pub OneEach : Sessions → Type 0
OneEach [] = Unit
OneEach ((k, v) ∷ d) = Absent k d × OneEach d

-- A step of the server: a datagram, or a pass of the checking thread.
pub data Move (minutes : ℕ → ℕ → ℕ) : UdpServer → UdpServer → Type 0 where
  datagram :
      (ip : Text) (port : ℕ) (events : List (ℕ × LogEvent)) (now : ℕ) (s : UdpServer)
      → Move minutes s (datagram_received ip port events now s)
  pass : (now : ℕ) (s : UdpServer) → Move minutes s (check_connection minutes now s)

pub data Reached (minutes : ℕ → ℕ → ℕ) : UdpServer → Type 0 where
  at_start : Reached minutes no_sessions
  one_more : (s t : UdpServer) → Reached minutes s → Move minutes s t → Reached minutes t

refresh-Absent : (k ip : Text) (now : ℕ) (d : Sessions) → Absent k d → Absent k (refresh ip now d)
unfolding refresh
refresh-Absent k ip now [] h = tt
refresh-Absent k ip now ((j, v) ∷ d) h =
    if_both (Absent k) (text_eq j ip) ((j, record v { datetime = now }) ∷ d)
      ((j, v) ∷ refresh ip now d) h (h.0, refresh-Absent k ip now d h.1)

refresh-OneEach : (ip : Text) (now : ℕ) (d : Sessions) → OneEach d → OneEach (refresh ip now d)
unfolding refresh
refresh-OneEach ip now [] h = tt
refresh-OneEach ip now ((j, v) ∷ d) h =
    if_both OneEach (text_eq j ip) ((j, record v { datetime = now }) ∷ d)
      ((j, v) ∷ refresh ip now d) h (refresh-Absent j ip now d h.0, refresh-OneEach ip now d h.1)

unequal : (s t : Text) → t ≡ s → text_eq s t ≡ true
unequal s t e = rw e (text_eq_refl s)

pub text_eq_sym : (s t : Text) → text_eq s t ≡ false → text_eq t s ≡ false
text_eq_sym s t h = elim (Bool-cases (text_eq t s)) [
  | inl same ↦ absurd (ground (arith, h, text_eq_refl s, unequal s t (text_eq→eq t s same)))
  | inr other ↦ other
]

append-OneEach :
    (ip : Text) (v : UdpSession) (d : Sessions)
    → session_of ip d ≡ none
    → OneEach d
    → OneEach (d ++ (ip, v) ∷ [])
unfolding session_of
append-OneEach ip v [] h hs = (tt, tt)
append-OneEach ip v ((k, w) ∷ d) h hs = elim (Bool-cases (text_eq k ip)) [
  | inl same ↦ absurd (ground (arith, h, same))
  | inr other ↦ (
    All-append (λ e. text_eq e.0 k ≡ false) d ((ip, v) ∷ []) hs.0 (text_eq_sym k ip other, tt),
    append-OneEach ip v d (ground (arith, h, other)) hs.1,
  )
]

delete_session-Absent : (k ip : Text) (d : Sessions) → Absent k d → Absent k (delete_session ip d)
unfolding delete_session
delete_session-Absent k ip [] h = tt
delete_session-Absent k ip ((j, v) ∷ d) h =
    if_both (Absent k) (text_eq j ip) d ((j, v) ∷ delete_session ip d) h.1
      (h.0, delete_session-Absent k ip d h.1)

delete_session-OneEach : (ip : Text) (d : Sessions) → OneEach d → OneEach (delete_session ip d)
unfolding delete_session
delete_session-OneEach ip [] h = tt
delete_session-OneEach ip ((j, v) ∷ d) h =
    if_both OneEach (text_eq j ip) d ((j, v) ∷ delete_session ip d) h.1
      (delete_session-Absent j ip d h.0, delete_session-OneEach ip d h.1)

pub delete_from_dict-OneEach :
    (ips : List Text) (d : Sessions) → OneEach d → OneEach (delete_from_dict ips d)
unfolding delete_from_dict
delete_from_dict-OneEach [] d h = h
delete_from_dict-OneEach (ip ∷ ips) d h =
    delete_from_dict-OneEach ips (delete_session ip d) (delete_session-OneEach ip d h)

use_session-OneEach :
    (uuid now : ℕ) (s : UdpServer) (o : Option UdpSession)
    → session_of s.addr_ip s.sessions ≡ o
    → OneEach s.sessions
    → OneEach (use_session uuid now s o).1.sessions
unfolding use_session write
use_session-OneEach uuid now s none e h =
    append-OneEach s.addr_ip (record { session = uuid; datetime = now; port = s.addr_port })
      s.sessions e h
use_session-OneEach uuid now s (some v) e h = refresh-OneEach s.addr_ip now s.sessions h

get_session-OneEach :
    (uuid now : ℕ) (s : UdpServer)
    → OneEach s.sessions
    → OneEach (get_session uuid now s).1.sessions
unfolding get_session
get_session-OneEach uuid now s h =
    use_session-OneEach uuid now s (session_of s.addr_ip s.sessions) refl h

report-OneEach :
    (uuid now : ℕ) (e : LogEvent) (s : UdpServer)
    → OneEach s.sessions
    → OneEach (report uuid now e s).sessions
unfolding report write
report-OneEach uuid now e s h = get_session-OneEach uuid now s h

pub report_all-OneEach :
    (es : List (ℕ × LogEvent)) (now : ℕ) (s : UdpServer)
    → OneEach s.sessions
    → OneEach (report_all es now s).sessions
unfolding report_all
report_all-OneEach [] now s h = h
report_all-OneEach ((u, e) ∷ es) now s h =
    report_all-OneEach es now (report u now e s) (report-OneEach u now e s h)
