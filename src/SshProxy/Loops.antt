-- ===== src/SshProxy/Loops.antt =====
-- The loops of Term.parse_packet in cowrie/src/cowrie/ssh_proxy/protocols/term.py.
use vo_iphoneypot.Common.{
  Option, Text, [], drop, false, if◌then◌else◌, length, ltb, none, not, pos, some, suc, text_eq,
  true, zero, ℕ, ◌&&◌, ◌++◌, ◌+ℤ◌, ◌+◌, ◌-ℤ◌, ◌==◌, ◌||◌, ◌∷◌,
}
use vo_iphoneypot.SshProxy.Term.{
  Term, all_but_last, backspace, clear_line, down_key, end_key, enter, esc, go_left, go_right,
  home_key, insert, left_key, right_key, slice_to, starts, up_key,
}

abbrev pub with_rest : Text → Option Term → Option (Term × Text)
with_rest rest none = none
with_rest rest (some t) = some (t, rest)

-- The tests of the loop over what the attacker sends, in their order, on a buffer that is not empty.
pub data Pressed : Type 0 where
  tab_key : Pressed
  back : Pressed
  line_end : Pressed
  to_home : Pressed
  to_end_key : Pressed
  to_right : Pressed
  to_left : Pressed
  arrow : Pressed
  byte : Pressed

unfoldable pub pressed : ℕ → Text → Pressed
pressed c rest =
    if c == 0x09
    then tab_key
    else if c == 0x7f || c == 0x08
    then back
    else if c == 0x0d || c == 0x03 || c == 0x0a
    then line_end
    else if starts home_key (c ∷ rest)
    then to_home
    else if starts end_key (c ∷ rest)
    then to_end_key
    else if starts right_key (c ∷ rest)
    then to_right
    else if starts left_key (c ∷ rest)
    then to_left
    else if starts up_key (c ∷ rest) || starts down_key (c ∷ rest)
    then arrow
    else byte

-- What each of them does, and what is left of the buffer.
unfoldable pub on_pressed : ℕ → Text → Term → Pressed → Option (Term × Text)
on_pressed c rest t tab_key = some (record t { tab_press = true }, rest)
on_pressed c rest t back = some (backspace t, rest)
on_pressed c rest t line_end = with_rest rest (enter c t)
on_pressed c rest t to_home = some (record t { pointer = pos 0 }, drop 2 rest)
on_pressed c rest t to_end_key = some (record t { pointer = pos (length t.command) }, drop 2 rest)
on_pressed c rest t to_right = some (go_right t, drop 2 rest)
on_pressed c rest t to_left = some (go_left t, drop 2 rest)
on_pressed c rest t arrow = some (record t { up_arrow = true }, drop 2 rest)
on_pressed c rest t byte = some (insert c t, rest)

unfoldable pub server_round : ℕ → Text → Term → Option (Term × Text)
server_round c rest t = on_pressed c rest t (pressed c rest)

-- The loop, on fuel. Each round takes a byte or more, so the fuel that parse_packet gives, the length of
-- the buffer, is never used up before the buffer is empty.
unfoldable pub server_loop : ℕ → Text → Term → Option Term
server_loop fuel [] t = some t
server_loop zero (c ∷ rest) t = some t
server_loop (suc fuel) (c ∷ rest) t = elim (server_round c rest t) [
  | none ↦ none
  | some (t', rest') ↦ server_loop fuel rest' t'
]

-- The tests of the loop over what the machine answers to an arrow. `data[3] == b'\x50'` compares a
-- number with bytes: it is never true, and without a fourth byte it raises.
pub data Answered : Type 0 where
  erase : Answered
  clear_rest : Answered
  carriage : Answered
  to_next : Answered
  cut_short : Answered
  echo : Answered
  bell : Answered

unfoldable pub answered : ℕ → Text → Answered
answered c rest =
    if c == 0x08
    then erase
    else if starts clear_line (c ∷ rest)
    then clear_rest
    else if c == 0x0d
    then carriage
    else if starts right_key (c ∷ rest)
    then to_next
    else if starts (esc ∷ 0x5b ∷ []) (c ∷ rest) && ltb (length rest) 3
    then cut_short
    else if not (c == 0x07) && not (c == 0x0d)
    then echo
    else bell

unfoldable pub on_answered : ℕ → Text → Term → Answered → Option (Term × Text)
on_answered c rest t erase =
    some (record t { command = all_but_last t.command; pointer = t.pointer -ℤ pos 1 }, rest)
on_answered c rest t clear_rest =
    some (record t { command = slice_to t.pointer t.command }, drop 2 rest)
on_answered c rest t carriage = some (record t { pointer = pos 0 }, rest)
on_answered c rest t to_next = some (record t { pointer = t.pointer +ℤ pos 1 }, drop 2 rest)
on_answered c rest t cut_short = none
on_answered c rest t echo = some (insert c t, rest)
on_answered c rest t bell = some (record t { pointer = t.pointer +ℤ pos 1 }, rest)

unfoldable pub client_round : ℕ → Text → Term → Option (Term × Text)
client_round c rest t = on_answered c rest t (answered c rest)

-- The loop over the machine's answer, on fuel of the same kind.
unfoldable pub client_loop : ℕ → Text → Term → Option Term
client_loop fuel [] t = some t
client_loop zero (c ∷ rest) t = some t
client_loop (suc fuel) (c ∷ rest) t = elim (client_round c rest t) [
  | none ↦ none
  | some (t', rest') ↦ client_loop fuel rest' t'
]

-- What the machine completes after a tab goes behind the command; the pointer stays.
unfoldable pub complete : Text → Term → Term
complete payload t =
    if t.tab_press
    then if starts (0x0d ∷ []) payload || text_eq payload (0x07 ∷ [])
      then record t { tab_press = false }
      else record t { command = t.command ++ payload; tab_press = false }
    else t

abbrev pub log_tty : Text → Term → Term
log_tty payload t =
    if t.ttylog_enabled then record t { ttylog_size = t.ttylog_size + length payload } else t

abbrev pub then_log : Text → Option Term → Option Term
then_log payload none = none
then_log payload (some t) = some (log_tty payload t)

pub data Parent : Type 0 where
  server : Parent
  client : Parent

abbrev pub recall : Text → Term → Option Term
recall payload t =
    if t.up_arrow
    then (elim (client_loop (length payload) payload t) [
      | none ↦ none
      | some t' ↦ some (record t' { up_arrow = false })
    ])
    else some t

-- `parse_packet`
unfoldable pub parse_packet : Parent → Text → Term → Option Term
parse_packet server payload t = then_log payload (server_loop (length payload) payload t)
parse_packet client payload t = then_log payload (recall payload (complete payload t))
