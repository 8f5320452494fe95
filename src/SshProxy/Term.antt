-- ===== src/SshProxy/Term.antt =====
-- The terminal watcher: Term of cowrie/src/cowrie/ssh_proxy/protocols/term.py, under Python 3. It
-- follows what the attacker types ([SERVER]) and what the machine answers ([CLIENT]), and logs each
-- command line. The tty log on disk is represented by its size. `none` is an exception: IndexError
-- of `data[3]`, or UnicodeDecodeError of a command that is not ASCII.
use vo_iphoneypot.Common.{
  Bool, List, Option, Text, [], codes, drop, eqb_ℤ, false, if◌then◌else◌, length, ltb, ltb_ℤ,
  negsuc, none, pos, some, take, text_eq, true, ℕ, ℤ, ◌&&◌, ◌++◌, ◌+ℤ◌, ◌+◌, ◌-ℤ◌, ◌-◌, ◌==◌, ◌∷◌,
}

pub record Term : Type 0 where
  pub command : Text
  pub pointer : ℤ
  pub tab_press : Bool
  pub up_arrow : Bool
  pub ttylog_enabled : Bool
  pub ttylog_size : ℕ
  pub entered : List Text

abbrev pub init : Bool → Term
init enabled = record {
  command = [];
  pointer = pos 0;
  tab_press = false;
  up_arrow = false;
  ttylog_enabled = enabled;
  ttylog_size = 0;
  entered = [];
}

-- `t[:p]` and `t[p:]`: a negative index counts from the end.
unfoldable pub slice_to : ℤ → Text → Text
slice_to (pos n) t = take n t
slice_to (negsuc n) t = take (length t - (n + 1)) t

unfoldable pub slice_from : ℤ → Text → Text
slice_from (pos n) t = drop n t
slice_from (negsuc n) t = drop (length t - (n + 1)) t

-- `self.command[:-1]`
abbrev pub all_but_last : Text → Text
all_but_last = slice_to (negsuc 0)

abbrev pub starts : Text → Text → Bool
starts key buf = text_eq (take (length key) buf) key

abbrev pub esc : ℕ
esc = 0x1b

abbrev pub home_key : Text
home_key = esc ∷ 0x4f ∷ 0x48 ∷ []

abbrev pub end_key : Text
end_key = esc ∷ 0x4f ∷ 0x46 ∷ []

abbrev pub right_key : Text
right_key = esc ∷ 0x5b ∷ 0x43 ∷ []

abbrev pub left_key : Text
left_key = esc ∷ 0x5b ∷ 0x44 ∷ []

abbrev pub up_key : Text
up_key = esc ∷ 0x5b ∷ 0x41 ∷ []

abbrev pub down_key : Text
down_key = esc ∷ 0x5b ∷ 0x42 ∷ []

abbrev pub clear_line : Text
clear_line = esc ∷ 0x5b ∷ 0x4b ∷ []

-- `command[:pointer] + byte + command[pointer:]`
unfoldable pub insert : ℕ → Term → Term
insert c t = record t {
  command = slice_to t.pointer t.command ++ c ∷ slice_from t.pointer t.command;
  pointer = t.pointer +ℤ pos 1;
}

unfoldable pub backspace : Term → Term
backspace t =
    if ltb_ℤ (pos 0) t.pointer
    then record t {
      command = slice_to (t.pointer -ℤ pos 1) t.command ++ slice_from t.pointer t.command;
      pointer = t.pointer -ℤ pos 1;
    }
    else t

-- `decode('ascii')`
unfoldable pub is_ascii : Text → Bool
is_ascii [] = true
is_ascii (c ∷ t) = ltb c 128 && is_ascii t

abbrev pub clear : Term → Term
clear t = record t { command = []; pointer = pos 0 }

-- A line ends: with Ctrl-C, `^C` is put behind it.
unfoldable pub enter : ℕ → Term → Option Term
enter c t =
    let command = if c == 0x03 then t.command ++ codes "^C" else t.command in
    if text_eq command []
    then some (clear t)
    else if is_ascii command
    then some (clear (record t { entered = t.entered ++ command ∷ [] }))
    else none

unfoldable pub go_right : Term → Term
go_right t =
    if eqb_ℤ t.pointer (pos (length t.command))
    then t
    else record t { pointer = t.pointer +ℤ pos 1 }

unfoldable pub go_left : Term → Term
go_left t = if eqb_ℤ t.pointer (pos 0) then t else record t { pointer = t.pointer -ℤ pos 1 }
