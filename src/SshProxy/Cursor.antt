-- ===== src/SshProxy/Cursor.antt =====
-- Where the cursor is, whatever bytes the attacker sends.
use mathlib.Core.Path.{subst}
use vo_iphoneypot.Common.{
  Bool, Option, Option-cases, Text, [], codes, false, if◌then◌else◌, inl, inr, none, refl, some,
  suc, text_eq, true, zero, ℕ, ◌++◌, ◌==◌, ◌∷◌,
}
use vo_iphoneypot.SshProxy.Editor.{
  At, Line, history_up, leftward, no_line, press, rightward, rubout, tab, to_end, to_start, typed,
}
use vo_iphoneypot.SshProxy.Follows.{on_key-At}
use vo_iphoneypot.SshProxy.Loops.{
  Pressed, arrow, back, byte, line_end, on_pressed, pressed, server_loop, server_round, tab_key,
  to_end_key, to_home, to_left, to_right, with_rest,
}
use vo_iphoneypot.SshProxy.Term.{Term, clear, enter, is_ascii}

abbrev pub InLine : Term → Type 0
InLine t = (l : Line) × At t l

abbrev pub InLineAfter : Option Term → Type 0
InLineAfter none = Unit
InLineAfter (some t) = InLine t

cleared :
    (empty ascii : Bool) (t u : Term)
    → InLine t
    → InLine u
    → InLineAfter (if empty then some t else if ascii then some u else none)
cleared true ascii t u h k = h
cleared false true t u h k = k
cleared false false t u h k = tt

enter_after : (c : ℕ) (t : Term) → InLineAfter (enter c t)
unfolding enter
enter_after c t =
    let command = if c == 0x03 then t.command ++ codes "^C" else t.command in
    cleared (text_eq command []) (is_ascii command) (clear t)
      (clear (record t { entered = t.entered ++ command ∷ [] })) (no_line, (refl, refl))
      (no_line, (refl, refl))

RoundInLine : Option (Term × Text) → Type 0
RoundInLine none = Unit
RoundInLine (some (t, rest)) = InLine t

with_rest-RoundInLine :
    (rest : Text) (o : Option Term) → InLineAfter o → RoundInLine (with_rest rest o)
unfolding RoundInLine
with_rest-RoundInLine rest none h = tt
with_rest-RoundInLine rest (some t) h = h

on_pressed-RoundInLine :
    (c : ℕ) (rest : Text) (t : Term) (k : Pressed) → InLine t → RoundInLine (on_pressed c rest t k)
unfolding on_pressed RoundInLine
on_pressed-RoundInLine c rest t tab_key (l, h) = (press tab l, on_key-At tab t l h)
on_pressed-RoundInLine c rest t back (l, h) = (press rubout l, on_key-At rubout t l h)
on_pressed-RoundInLine c rest t line_end (l, h) =
    with_rest-RoundInLine rest (enter c t) (enter_after c t)
on_pressed-RoundInLine c rest t to_home (l, h) = (press to_start l, on_key-At to_start t l h)
on_pressed-RoundInLine c rest t to_end_key (l, h) = (press to_end l, on_key-At to_end t l h)
on_pressed-RoundInLine c rest t to_right (l, h) = (press rightward l, on_key-At rightward t l h)
on_pressed-RoundInLine c rest t to_left (l, h) = (press leftward l, on_key-At leftward t l h)
on_pressed-RoundInLine c rest t arrow (l, h) = (press history_up l, on_key-At history_up t l h)
on_pressed-RoundInLine c rest t byte (l, h) = (press (typed c) l, on_key-At (typed c) t l h)

-- Whatever bytes the attacker sends, at every round of the loop the pointer is a position in the
-- command: where the command was cut in two halves at the pointer before, it is so afterwards.
pub server_loop-InLine :
    (fuel : ℕ) (buf : Text) (t : Term) → InLine t → InLineAfter (server_loop fuel buf t)
unfolding server_loop server_round RoundInLine
server_loop-InLine fuel [] t h = h
server_loop-InLine zero (c ∷ rest) t h = h
server_loop-InLine (suc fuel) (c ∷ rest) t h =
    elim (Option-cases (on_pressed c rest t (pressed c rest))) [
      | inl e ↦ rw (e, server_loop) tt
      | inr ((t', rest'), e) ↦
          rw (e, server_loop)
            (server_loop-InLine fuel rest' t'
              (subst RoundInLine e (on_pressed-RoundInLine c rest t (pressed c rest) h)))
    ]
