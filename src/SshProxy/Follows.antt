-- ===== src/SshProxy/Follows.antt =====
-- The watcher follows the editor, key by key.
use vo_iphoneypot.Common.{
  Text, [], ap, arith, eqb_pos, eqb_pos_false, eqb_pos_lt, length, ltb_pos, pos, pos_down, pos_up,
  refl, suc, sym, text_eq, true, ℕ, ◌++◌, ◌<◌, ◌∙◌, ◌∷◌, ◌≡◌, ◌≤◌,
}
use vo_iphoneypot.SshProxy.Editor.{
  At, Key, Line, Printable, encode, history_down, history_up, leftward, onto, press, rightward,
  rubout, tab, to_end, to_start, typed,
}
use vo_iphoneypot.SshProxy.Halves.{
  insert-onto, length-gather, length-onto, onto-gather, rubout-onto,
}
use vo_iphoneypot.SshProxy.Loops.{byte, on_pressed, pressed, server_loop, server_round}
use vo_iphoneypot.SshProxy.Term.{Term, backspace, go_left, go_right, insert, slice_from, slice_to}

insert-At : (c : ℕ) (t : Term) (l : Line) → At t l → At (insert c t) (press (typed c) l)
unfolding insert slice_to slice_from
insert-At c t l h = rw (h.0, h.1, pos_up (length l.before)) (insert-onto c l.before l.after, refl)

backspace-At :
    (t : Term) (b a : Text)
    → At t (record { before = b; after = a })
    → At (backspace t) (press rubout (record { before = b; after = a }))
unfolding backspace slice_to slice_from
backspace-At t [] a h = rw h.1 (h.0, refl)
backspace-At t (x ∷ b) a h =
    rw (h.0, h.1, ltb_pos 0 (suc (length b)) (omega arith), pos_down (length b))
      (rubout-onto x b a, refl)

go_left-At :
    (t : Term) (b a : Text)
    → At t (record { before = b; after = a })
    → At (go_left t) (press leftward (record { before = b; after = a }))
unfolding go_left
go_left-At t [] a h = rw h.1 (h.0, refl)
go_left-At t (x ∷ b) a h =
    rw (h.0, h.1, eqb_pos_false (suc (length b)) 0 (omega arith), pos_down (length b)) (refl, refl)

go_right-At :
    (t : Term) (b a : Text)
    → At t (record { before = b; after = a })
    → At (go_right t) (press rightward (record { before = b; after = a }))
unfolding go_right
go_right-At t b [] h =
    rw (h.0, h.1, eqb_pos (length b) (length (onto b [])) (omega (arith, length-onto b [])))
      (refl, refl)
go_right-At t b (x ∷ a) h =
    rw
      (
        h.0,
        h.1,
        eqb_pos_lt (length b) (length (onto b (x ∷ a))) (omega (arith, length-onto b (x ∷ a))),
        pos_up (length b),
      )
      (refl, refl)

-- What a key does to the watcher.
abbrev pub on_key : Key → Term → Term
on_key (typed c) t = insert c t
on_key rubout t = backspace t
on_key to_start t = record t { pointer = pos 0 }
on_key to_end t = record t { pointer = pos (length t.command) }
on_key rightward t = go_right t
on_key leftward t = go_left t
on_key history_up t = record t { up_arrow = true }
on_key history_down t = record t { up_arrow = true }
on_key tab t = record t { tab_press = true }

pub on_key-At : (k : Key) (t : Term) (l : Line) → At t l → At (on_key k t) (press k l)
on_key-At (typed c) t l h = insert-At c t l h
on_key-At rubout t l h = backspace-At t l.before l.after h
on_key-At to_start t l h = (h.0, refl)
on_key-At to_end t l h = (
  h.0 ∙ sym (onto-gather l.after l.before),
  ap pos (rw h.0 (omega (arith, length-onto l.before l.after, length-gather l.after l.before))),
)
on_key-At rightward t l h = go_right-At t l.before l.after h
on_key-At leftward t l h = go_left-At t l.before l.after h
on_key-At history_up t l h = h
on_key-At history_down t l h = h
on_key-At tab t l h = h

pressed_typed : (c : ℕ) (rest : Text) → 32 ≤ c → c < 127 → pressed c rest ≡ byte
unfolding pressed text_eq
pressed_typed c rest low high = ground arith

pub server_loop_typed :
    (c fuel : ℕ) (rest : Text) (t : Term)
    → 32 ≤ c
    → c < 127
    → server_loop (suc fuel) (c ∷ rest) t ≡ server_loop fuel rest (insert c t)
unfolding server_loop server_round on_pressed
server_loop_typed c fuel rest t low high = rw (pressed_typed c rest low high, server_loop)

pub server_loop-encode :
    (k : Key) (fuel : ℕ) (rest : Text) (t : Term)
    → Printable k
    → server_loop (suc fuel) (encode k ++ rest) t ≡ server_loop fuel rest (on_key k t)
unfolding server_loop server_round on_pressed pressed text_eq
server_loop-encode (typed c) fuel rest t h = server_loop_typed c fuel rest t h.0 h.1
server_loop-encode rubout fuel rest t h = refl
server_loop-encode to_start fuel rest t h = refl
server_loop-encode to_end fuel rest t h = refl
server_loop-encode rightward fuel rest t h = refl
server_loop-encode leftward fuel rest t h = refl
server_loop-encode history_up fuel rest t h = refl
server_loop-encode history_down fuel rest t h = refl
server_loop-encode tab fuel rest t h = refl
