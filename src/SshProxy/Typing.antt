-- ===== src/SshProxy/Typing.antt =====
-- A whole line typed to the watcher.
use mathlib.Core.Path.{subst}
use vo_iphoneypot.Common.{
  All, List, Option, Text, [], append-nil, append_assoc, arith, eqb_ℤ, if_both, length,
  length-append, ltb_ℤ, none, pos, refl, some, suc, sym, text_eq, true, ℕ, ◌++◌, ◌∙◌, ◌∷◌, ◌≡◌, ◌≤◌,
}
use vo_iphoneypot.SshProxy.Ascii.{ascii_edit}
use vo_iphoneypot.SshProxy.Editor.{
  At, Key, Line, Printable, edit, encode, encode_keys, history_down, history_up, leftward, logged,
  no_line, press, rightward, rubout, tab, to_end, to_start, typed, whole,
}
use vo_iphoneypot.SshProxy.Follows.{on_key, on_key-At, server_loop-encode}
use vo_iphoneypot.SshProxy.Fuel.{server_loop_fuel}
use vo_iphoneypot.SshProxy.Loops.{
  on_pressed, parse_packet, pressed, server, server_loop, server_round, then_log, with_rest,
}
use vo_iphoneypot.SshProxy.Term.{Term, backspace, enter, go_left, go_right, insert, is_ascii}

abbrev pub on_keys : List Key → Term → Term
on_keys [] t = t
on_keys (k ∷ ks) t = on_keys ks (on_key k t)

on_keys-At : (ks : List Key) (t : Term) (l : Line) → At t l → At (on_keys ks t) (edit ks l)
on_keys-At [] t l h = h
on_keys-At (k ∷ ks) t l h = on_keys-At ks (on_key k t) (press k l) (on_key-At k t l h)

-- One more round for every key.
abbrev rounds : List Key → ℕ → ℕ
rounds [] n = n
rounds (k ∷ ks) n = suc (rounds ks n)

le_rounds : (ks : List Key) (n : ℕ) → n ≤ rounds ks n
le_rounds [] n = omega arith
le_rounds (k ∷ ks) n = omega (arith, le_rounds ks n)

loop_keys :
    (ks : List Key) (fuel : ℕ) (rest : Text) (t : Term)
    → All Printable ks
    → server_loop (rounds ks fuel) (encode_keys ks ++ rest) t ≡ server_loop fuel rest (on_keys ks t)
loop_keys [] fuel rest t h = refl
loop_keys (k ∷ ks) fuel rest t h = rw (append_assoc (encode k) (encode_keys ks) rest) (
    server_loop-encode k (rounds ks fuel) (encode_keys ks ++ rest) t h.0
    ∙ loop_keys ks fuel rest (on_key k t) h.1)

on_key_entered : (k : Key) (t : Term) → (on_key k t).entered ≡ t.entered
unfolding insert backspace go_right go_left
on_key_entered (typed c) t = refl
on_key_entered rubout t =
    if_both (λ (u : Term). u.entered ≡ t.entered) (ltb_ℤ (pos 0) t.pointer) _ _ refl refl
on_key_entered to_start t = refl
on_key_entered to_end t = refl
on_key_entered rightward t =
    if_both (λ (u : Term). u.entered ≡ t.entered) (eqb_ℤ t.pointer (pos (length t.command))) _ _
      refl refl
on_key_entered leftward t =
    if_both (λ (u : Term). u.entered ≡ t.entered) (eqb_ℤ t.pointer (pos 0)) _ _ refl refl
on_key_entered history_up t = refl
on_key_entered history_down t = refl
on_key_entered tab t = refl

on_keys_entered : (ks : List Key) (t : Term) → (on_keys ks t).entered ≡ t.entered
on_keys_entered [] t = refl
on_keys_entered (k ∷ ks) t = on_keys_entered ks (on_key k t) ∙ on_key_entered k t

-- What a line leaves behind.
abbrev pub Entered : Option Term → List Text → Text → Type 0
Entered none old s = ⊥
Entered (some t') old s = (t'.entered ≡ old ++ logged s) × At t' no_line

enter_logs :
    (t : Term) (s : Text) → t.command ≡ s → is_ascii s ≡ true → Entered (enter 0x0d t) t.entered s
unfolding enter text_eq
enter_logs t [] c a = rw (c, enter) (sym (append-nil t.entered), (refl, refl))
enter_logs t (x ∷ s) c a = rw (c, a) (refl, (refl, refl))

with_rest_end :
    (o : Option Term)
    → elim (with_rest [] o) [ none ↦ none | some (t', rest') ↦ server_loop 0 rest' t' ] ≡ o
unfolding server_loop
with_rest_end none = refl
with_rest_end (some t) = refl

single : (t : Term) → server_loop 1 (0x0d ∷ []) t ≡ enter 0x0d t
unfolding server_loop server_round pressed on_pressed
single t = with_rest_end (enter 0x0d t)

last_round : (n : ℕ) (t : Term) → 1 ≤ n → server_loop n (0x0d ∷ []) t ≡ enter 0x0d t
last_round n t h = server_loop_fuel n 1 (0x0d ∷ []) t h (omega arith) ∙ single t

-- The loop over the keys of a line and its end.
loop_line :
    (ks : List Key) (n : ℕ) (t : Term)
    → All Printable ks
    → 1 ≤ n
    → length (encode_keys ks ++ 0x0d ∷ []) ≤ n
    → server_loop n (encode_keys ks ++ 0x0d ∷ []) t ≡ enter 0x0d (on_keys ks t)
loop_line ks n t h one enough =
    server_loop_fuel n (rounds ks n) (encode_keys ks ++ 0x0d ∷ []) t enough
      (omega (arith, enough, le_rounds ks n))
    ∙ loop_keys ks n (0x0d ∷ []) t h
    ∙ last_round n (on_keys ks t) one

then_log-Entered :
    (payload : Text) (o : Option Term) (old : List Text) (s : Text)
    → Entered o old s
    → Entered (then_log payload o) old s
then_log-Entered payload none old s h = h
then_log-Entered payload (some u) old s h =
    if_both (λ (w : Term). (w.entered ≡ old ++ logged s) × At w no_line) u.ttylog_enabled _ _ h h

-- The watcher follows a line editor: where it is at a line of ASCII characters, and the attacker
-- sends keys that type, rub out, move the cursor or ask for the history, and then a carriage
-- return, it logs exactly the line that the keys make, unless that is empty, and starts anew.
pub parse_packet-edit :
    (ks : List Key) (t : Term) (l : Line)
    → All Printable ks
    → At t l
    → is_ascii (whole l) ≡ true
    → Entered (parse_packet server (encode_keys ks ++ 0x0d ∷ []) t) t.entered (whole (edit ks l))
unfolding parse_packet
parse_packet-edit ks t l h at ascii =
    then_log-Entered (encode_keys ks ++ 0x0d ∷ [])
      (server_loop (length (encode_keys ks ++ 0x0d ∷ [])) (encode_keys ks ++ 0x0d ∷ []) t) t.entered
      (whole (edit ks l))
      (rw
        (loop_line ks (length (encode_keys ks ++ 0x0d ∷ [])) t h
          (omega (arith, length-append (encode_keys ks) (0x0d ∷ []))) (omega arith))
        (subst (λ old. Entered (enter 0x0d (on_keys ks t)) old (whole (edit ks l)))
          (on_keys_entered ks t)
          (enter_logs (on_keys ks t) (whole (edit ks l)) (on_keys-At ks t l at).0
            (ascii_edit ks l h ascii))))
