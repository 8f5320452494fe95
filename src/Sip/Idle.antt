-- ===== src/Sip/Idle.antt =====
-- What a pass of the checking thread does.
use mathlib.Core.Path.{subst}
use vo_iphoneypot.Common.{
  All, Bool, Bool-cases, List, Text, [], ap, append-nil, append_assoc, arith, false, inl, inr, ltb,
  map, not, refl, select, sym, text_eq, text_eq_refl, true, ℕ, ◌%◌, ◌++◌, ◌-◌, ◌/◌, ◌↔◌, ◌∙◌, ◌∷◌,
  ◌≡◌, ◌≤◌,
}
use vo_iphoneypot.Pool.Laws.Addresses.{ips}
use vo_iphoneypot.Sip.OneEach.{
  Absent, OneEach, Reached, at_start, datagram, delete_from_dict-OneEach, one_more, pass,
  report_all-OneEach, text_eq_sym,
}
use vo_iphoneypot.Sip.Udp.{
  Report, Sessions, UdpServer, UdpSession, check_connection, datagram_received, delete_from_dict,
  delete_session, disconnection, is_idle, report_idle, write,
}

abbrev pub farewell : ℕ → Text × UdpSession → Report
farewell now (ip, v) = record {
  event = disconnection;
  timestamp = now;
  of_session = v.session;
  src_ip = ip;
  src_port = v.port;
}

abbrev pub idle_entry : (ℕ → ℕ → ℕ) → ℕ → Text × UdpSession → Bool
idle_entry minutes now (ip, v) = is_idle minutes now v

abbrev pub busy_entry : (ℕ → ℕ → ℕ) → ℕ → Text × UdpSession → Bool
busy_entry minutes now e = not (idle_entry minutes now e)

abbrev farewells : (ℕ → ℕ → ℕ) → ℕ → Sessions → List Report
farewells minutes now d = map (farewell now) (select (idle_entry minutes now) d)

abbrev idle_of : (ℕ → ℕ → ℕ) → ℕ → Sessions → List Text
idle_of minutes now d = map (λ e. e.0) (select (idle_entry minutes now) d)

report_idle_lem :
    (minutes : ℕ → ℕ → ℕ) (now : ℕ) (d : Sessions) (s : UdpServer)
    → report_idle minutes now d s
      ≡ (record s { written = s.written ++ farewells minutes now d }, idle_of minutes now d)
unfolding report_idle write select
report_idle_lem minutes now [] s = rw (append-nil s.written) refl
report_idle_lem minutes now ((ip, v) ∷ d) s = elim (Bool-cases (is_idle minutes now v)) [
  | inl idle ↦ rw idle (
      ap (λ x. (x.0, ip ∷ x.1))
        (report_idle_lem minutes now d
          (record s { written = s.written ++ farewell now (ip, v) ∷ [] }))
      ∙ rw (append_assoc s.written (farewell now (ip, v) ∷ []) (farewells minutes now d)) refl)
  | inr busy ↦ rw busy (report_idle_lem minutes now d s)
]

spare :
    (k : Text) (v : UdpSession) (ips : List Text) (d : Sessions)
    → All (λ ip. text_eq k ip ≡ false) ips
    → delete_from_dict ips ((k, v) ∷ d) ≡ (k, v) ∷ delete_from_dict ips d
unfolding delete_from_dict delete_session
spare k v [] d h = refl
spare k v (ip ∷ ips) d h = rw h.0 (spare k v ips (delete_session ip d) h.1)

others :
    (k : Text) (minutes : ℕ → ℕ → ℕ) (now : ℕ) (d : Sessions)
    → Absent k d
    → All (λ ip. text_eq k ip ≡ false) (idle_of minutes now d)
unfolding select
others k minutes now [] h = tt
others k minutes now ((j, v) ∷ d) h = elim (Bool-cases (is_idle minutes now v)) [
  | inl idle ↦ rw idle (text_eq_sym j k h.0, others k minutes now d h.1)
  | inr busy ↦ rw busy (others k minutes now d h.1)
]

delete_head : (k : Text) (v : UdpSession) (d : Sessions) → delete_session k ((k, v) ∷ d) ≡ d
unfolding delete_session
delete_head k v d = rw (text_eq_refl k)

delete_idle :
    (minutes : ℕ → ℕ → ℕ) (now : ℕ) (d : Sessions)
    → OneEach d
    → delete_from_dict (idle_of minutes now d) d ≡ select (busy_entry minutes now) d
unfolding select delete_from_dict delete_session
delete_idle minutes now [] h = refl
delete_idle minutes now ((k, v) ∷ d) h = elim (Bool-cases (is_idle minutes now v)) [
  | inl idle ↦ rw idle (
      ap (delete_from_dict (idle_of minutes now d)) (delete_head k v d)
      ∙ delete_idle minutes now d h.1)
  | inr busy ↦ rw busy (
      spare k v (idle_of minutes now d) d (others k minutes now d h.0)
      ∙ ap (λ x. (k, v) ∷ x) (delete_idle minutes now d h.1))
]

-- The state after a pass.
abbrev pub after_pass : (ℕ → ℕ → ℕ) → ℕ → UdpServer → UdpServer
after_pass minutes now s = record s {
  sessions = select (busy_entry minutes now) s.sessions;
  written = s.written ++ map (farewell now) (select (idle_entry minutes now) s.sessions);
}

check_connection-OneEach :
    (minutes : ℕ → ℕ → ℕ) (now : ℕ) (s : UdpServer)
    → OneEach s.sessions
    → check_connection minutes now s ≡ after_pass minutes now s
unfolding check_connection
check_connection-OneEach minutes now s h =
    ap (λ x. record x.0 { sessions = delete_from_dict x.1 x.0.sessions })
      (report_idle_lem minutes now s.sessions s)
    ∙ ap (λ d. record s { sessions = d; written = s.written ++ farewells minutes now s.sessions })
        (delete_idle minutes now s.sessions h)

pass-OneEach :
    (minutes : ℕ → ℕ → ℕ) (now : ℕ) (s : UdpServer)
    → OneEach s.sessions
    → OneEach (check_connection minutes now s).sessions
unfolding check_connection
pass-OneEach minutes now s h =
    subst (λ d. OneEach (delete_from_dict (report_idle minutes now s.sessions s).1 d))
      (sym (ap (λ x. x.0.sessions) (report_idle_lem minutes now s.sessions s)))
      (delete_from_dict-OneEach (report_idle minutes now s.sessions s).1 s.sessions h)

Reached-OneEach : (minutes : ℕ → ℕ → ℕ) (s : UdpServer) → Reached minutes s → OneEach s.sessions
unfolding datagram_received
Reached-OneEach minutes s at_start = tt
Reached-OneEach minutes s (one_more t s' r (datagram ip port es now t')) =
    report_all-OneEach es now (record t' { addr_ip = ip; addr_port = port })
      (Reached-OneEach minutes t r)
Reached-OneEach minutes s (one_more t s' r (pass now t')) =
    pass-OneEach minutes now t (Reached-OneEach minutes t r)

within : (n : ℕ) → (ltb 10 (n / 60 % 60) ≡ true) ↔ (660 ≤ n % 3600)
within n = ground arith

-- In whatever order datagrams and passes came, a pass ends exactly the sessions that have been idle
-- for more than ten minutes, by the count of `relativedelta`, reports one disconnection for each with
-- its address, port and session, and leaves all else as it was.
pub check_connection_exact :
    (minutes : ℕ → ℕ → ℕ) (now : ℕ) (s : UdpServer)
    → Reached minutes s
    → check_connection minutes now s ≡ after_pass minutes now s
check_connection_exact minutes now s r =
    check_connection-OneEach minutes now s (Reached-OneEach minutes s r)

-- Where the count is that of the documentation, the minutes within the hour, a session is ended by a
-- pass from 11 minutes of silence on, but not in the first eleven minutes of a later hour.
pub is_idle_within_hour :
    (minutes : ℕ → ℕ → ℕ) (now : ℕ) (v : UdpSession)
    → minutes v.datetime now ≡ (now - v.datetime) / 60 % 60
    → (is_idle minutes now v ≡ true) ↔ (660 ≤ (now - v.datetime) % 3600)
unfolding is_idle
is_idle_within_hour minutes now v h = rw h (within (now - v.datetime))
