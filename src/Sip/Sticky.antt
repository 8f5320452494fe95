-- ===== src/Sip/Sticky.antt =====
-- Which session the reports of a datagram belong to.
use mathlib.Core.Option.{some-injective, none-ne-some}
use vo_iphoneypot.Common.{
  Bool-cases, List, Option, Option-cases, Text, [], ap, append-nil, append_assoc, false, if_false,
  if_true, inl, inr, map, none, refl, some, sym, text_eq, text_eq_refl, true, ℕ, ◌++◌, ◌∙◌, ◌∷◌,
  ◌≡◌,
}
use vo_iphoneypot.Sip.Udp.{
  LogEvent, Report, Sessions, UdpServer, UdpSession, connection, datagram_received, get_session,
  open_session, refresh, report, report_all, session_of, use_session, write,
}

no_session : (ip : Text) → none ≡ session_of ip []
unfolding session_of
no_session ip = refl

session_here :
    (ip k : Text) (w : UdpSession) (d : Sessions)
    → text_eq k ip ≡ true
    → session_of ip ((k, w) ∷ d) ≡ some w
unfolding session_of
session_here ip k w d same = if_true (text_eq k ip) (some w) (session_of ip d) same

session_further :
    (ip k : Text) (w : UdpSession) (d : Sessions)
    → text_eq k ip ≡ false
    → session_of ip ((k, w) ∷ d) ≡ session_of ip d
unfolding session_of
session_further ip k w d other = if_false (text_eq k ip) (some w) (session_of ip d) other

found_refreshed :
    (ip : Text) (now : ℕ) (d : Sessions) (v : UdpSession)
    → session_of ip d ≡ some v
    → session_of ip (refresh ip now d) ≡ some (record v { datetime = now })
unfolding refresh
found_refreshed ip now [] v h = absurd (none-ne-some v (no_session ip ∙ h))
found_refreshed ip now ((k, w) ∷ d) v h = elim (Bool-cases (text_eq k ip)) [
  | inl same ↦
      ap {A = Sessions} (session_of ip) (
        if_true (text_eq k ip) ((k, record w { datetime = now }) ∷ d) ((k, w) ∷ refresh ip now d)
          same)
      ∙ session_here ip k (record w { datetime = now }) d same
      ∙ ap (λ (x : UdpSession). some (record x { datetime = now }))
          (some-injective w v (sym (session_here ip k w d same) ∙ h))
  | inr other ↦
      ap {A = Sessions} (session_of ip) (
        if_false (text_eq k ip) ((k, record w { datetime = now }) ∷ d) ((k, w) ∷ refresh ip now d)
          other)
      ∙ session_further ip k w (refresh ip now d) other
      ∙ found_refreshed ip now d v (sym (session_further ip k w d other) ∙ h)
]

found_opened :
    (ip : Text) (d : Sessions) (v : UdpSession)
    → session_of ip d ≡ none
    → session_of ip (d ++ (ip, v) ∷ []) ≡ some v
found_opened ip [] v h = session_here ip ip v [] (text_eq_refl ip)
found_opened ip ((k, w) ∷ d) v h = elim (Bool-cases (text_eq k ip)) [
  | inl same ↦ absurd (none-ne-some w (sym h ∙ session_here ip k w d same))
  | inr other ↦
      session_further ip k w (d ++ (ip, v) ∷ []) other
      ∙ found_opened ip d v (sym (session_further ip k w d other) ∙ h)
]

-- The report of an event, for a session and an address.
abbrev pub entry_for : Text → ℕ → ℕ → ℕ → LogEvent → Report
entry_for ip port now session event = record {
  event = event;
  timestamp = now;
  of_session = session;
  src_ip = ip;
  src_port = port;
}

-- What a datagram has to write: where the address has no session, a connection before all else.
abbrev pub to_write : Text → ℕ → ℕ → Option UdpSession → List (ℕ × LogEvent) → List Report
to_write ip port now none [] = []
to_write ip port now none ((uuid, e) ∷ es) =
    entry_for ip port now uuid connection
    ∷ map (λ x. entry_for ip port now uuid x.1) ((uuid, e) ∷ es)
to_write ip port now (some v) es = map (λ x. entry_for ip port now v.session x.1) es

-- The state after one report of a known session.
abbrev refreshed : ℕ → LogEvent → UdpServer → UdpSession → UdpServer
refreshed now e s v = record s {
  sessions = refresh s.addr_ip now s.sessions;
  written = s.written ++ entry_for s.addr_ip s.addr_port now v.session e ∷ [];
}

report_known :
    (u now : ℕ) (e : LogEvent) (s : UdpServer) (v : UdpSession)
    → session_of s.addr_ip s.sessions ≡ some v
    → report u now e s ≡ refreshed now e s v
unfolding report get_session use_session write
report_known u now e s v h = rw h refl

reports_known :
    (es : List (ℕ × LogEvent)) (now : ℕ) (s : UdpServer) (v : UdpSession)
    → session_of s.addr_ip s.sessions ≡ some v
    → (report_all es now s).written
      ≡ s.written ++ map (λ x. entry_for s.addr_ip s.addr_port now v.session x.1) es
unfolding report_all
reports_known [] now s v h = sym (append-nil s.written)
reports_known ((u, e) ∷ es) now s v h =
    ap (λ (x : UdpServer). (report_all es now x).written) (report_known u now e s v h)
    ∙ reports_known es now (refreshed now e s v) (record v { datetime = now })
        (found_refreshed s.addr_ip now s.sessions v h)
    ∙ append_assoc s.written (entry_for s.addr_ip s.addr_port now v.session e ∷ [])
        (map (λ x. entry_for s.addr_ip s.addr_port now v.session x.1) es)

-- The state after the connection of a new session.
abbrev connected : ℕ → ℕ → UdpServer → UdpServer
connected u now s = record (open_session u now s) {
  written = s.written ++ entry_for s.addr_ip s.addr_port now u connection ∷ [];
}

report_new :
    (u now : ℕ) (e : LogEvent) (s : UdpServer)
    → session_of s.addr_ip s.sessions ≡ none
    → report u now e s ≡ record (connected u now s) {
      written = (connected u now s).written ++ entry_for s.addr_ip s.addr_port now u e ∷ [];
    }
unfolding report get_session use_session write
report_new u now e s h = rw h refl

written_new :
    (ip : Text) (port now : ℕ) (es : List (ℕ × LogEvent)) (s : UdpServer)
    → session_of ip s.sessions ≡ none
    → (report_all es now (record s { addr_ip = ip; addr_port = port })).written
      ≡ s.written ++ to_write ip port now none es
unfolding report_all
written_new ip port now [] s h = sym (append-nil s.written)
written_new ip port now ((u, e) ∷ es) s h =
    ap (λ (x : UdpServer). (report_all es now x).written)
      (report_new u now e (record s { addr_ip = ip; addr_port = port }) h)
    ∙ reports_known es now
        (record (connected u now (record s { addr_ip = ip; addr_port = port })) {
          written =
              (s.written ++ entry_for ip port now u connection ∷ [])
              ++ entry_for ip port now u e ∷ [];
        })
        (record { session = u; datetime = now; port = port })
        (found_opened ip s.sessions (record { session = u; datetime = now; port = port }) h)
    ∙ append_assoc (s.written ++ entry_for ip port now u connection ∷ [])
        (entry_for ip port now u e ∷ []) (map (λ x. entry_for ip port now u x.1) es)
    ∙ append_assoc s.written (entry_for ip port now u connection ∷ [])
        (map (λ x. entry_for ip port now u x.1) ((u, e) ∷ es))

-- All reports of a datagram belong to one session, and have the address of the datagram: where the IP
-- address has a session it is that one, and otherwise it is new, and begins with a connection.
pub datagram_received-written :
    (ip : Text) (port now : ℕ) (es : List (ℕ × LogEvent)) (s : UdpServer)
    → (datagram_received ip port es now s).written
      ≡ s.written ++ to_write ip port now (session_of ip s.sessions) es
unfolding datagram_received
datagram_received-written ip port now es s = elim (Option-cases (session_of ip s.sessions)) [
  | inl e ↦
      written_new ip port now es s e
      ∙ ap (λ (o : Option UdpSession). s.written ++ to_write ip port now o es) (sym e)
  | inr (v, e) ↦
      reports_known es now (record s { addr_ip = ip; addr_port = port }) v e
      ∙ ap (λ (o : Option UdpSession). s.written ++ to_write ip port now o es) (sym e)
]
