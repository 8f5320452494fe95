-- ===== src/SshProxy/Fuel.antt =====
-- The loop of the watcher ends: the length of the buffer is enough fuel.
use mathlib.Core.Path.{subst}
use vo_iphoneypot.Common.{
  Option, Option-cases, Text, [], arith, drop, inl, inr, length, length-drop, none, refl, some, suc,
  zero, ℕ, ◌∷◌, ◌≡◌, ◌≤◌,
}
use vo_iphoneypot.SshProxy.Loops.{
  Answered, Pressed, answered, arrow, back, bell, byte, carriage, clear_rest, client_loop,
  client_round, cut_short, echo, erase, line_end, on_answered, on_pressed, pressed, server_loop,
  server_round, tab_key, to_end_key, to_home, to_left, to_next, to_right, with_rest,
}
use vo_iphoneypot.SshProxy.Term.{Term, enter}

Shrinks : Text → Option (Term × Text) → Type 0
Shrinks rest none = Unit
Shrinks rest (some (t, rest')) = length rest' ≤ length rest

same : (rest : Text) (t : Term) → Shrinks rest (some (t, rest))
unfolding Shrinks
same rest t = omega arith

nothing : (rest : Text) → Shrinks rest none
unfolding Shrinks
nothing rest = tt

shorter : (rest : Text) (t : Term) → Shrinks rest (some (t, drop 2 rest))
unfolding Shrinks
shorter rest t = omega (arith, length-drop 2 rest)

with_rest-Shrinks : (rest : Text) (o : Option Term) → Shrinks rest (with_rest rest o)
unfolding Shrinks
with_rest-Shrinks rest none = tt
with_rest-Shrinks rest (some t) = omega arith

on_pressed-Shrinks :
    (c : ℕ) (rest : Text) (t : Term) (k : Pressed) → Shrinks rest (on_pressed c rest t k)
unfolding on_pressed
on_pressed-Shrinks c rest t tab_key = same rest _
on_pressed-Shrinks c rest t back = same rest _
on_pressed-Shrinks c rest t line_end = with_rest-Shrinks rest (enter c t)
on_pressed-Shrinks c rest t to_home = shorter rest _
on_pressed-Shrinks c rest t to_end_key = shorter rest _
on_pressed-Shrinks c rest t to_right = shorter rest _
on_pressed-Shrinks c rest t to_left = shorter rest _
on_pressed-Shrinks c rest t arrow = shorter rest _
on_pressed-Shrinks c rest t byte = same rest _

server_round-Shrinks : (c : ℕ) (rest : Text) (t : Term) → Shrinks rest (server_round c rest t)
unfolding server_round
server_round-Shrinks c rest t = on_pressed-Shrinks c rest t (pressed c rest)

bounded :
    (c : ℕ) (rest : Text) (t t' : Term) (rest' : Text)
    → server_round c rest t ≡ some (t', rest')
    → length rest' ≤ length rest
unfolding Shrinks
bounded c rest t t' rest' e = subst (Shrinks rest) e (server_round-Shrinks c rest t)

-- The run of a loop, without fuel: it ends with an empty buffer, or where a round raises, and else
-- goes on with what the round leaves. A loop that runs for ever has no such run.
pub data Ends (round : ℕ → Text → Term → Option (Term × Text))
    : Text → Term → Option Term → Type 0 where
  at_end : (t : Term) → Ends round [] t (some t)
  raised : (c : ℕ) (rest : Text) (t : Term) → round c rest t ≡ none → Ends round (c ∷ rest) t none
  goes_on :
      (c : ℕ) (rest : Text) (t t' : Term) (rest' : Text) (o : Option Term)
      → round c rest t ≡ some (t', rest')
      → Ends round rest' t' o
      → Ends round (c ∷ rest) t o

server_loop-Ends :
    (fuel : ℕ) (buf : Text) (t : Term)
    → length buf ≤ fuel
    → Ends server_round buf t (server_loop fuel buf t)
unfolding server_loop
server_loop-Ends zero [] t h = at_end t
server_loop-Ends (suc fuel) [] t h = at_end t
server_loop-Ends zero (c ∷ rest) t h = absurd (omega (arith, h))
server_loop-Ends (suc fuel) (c ∷ rest) t h = elim (Option-cases (server_round c rest t)) [
  | inl e ↦ rw (e, server_loop) (raised c rest t e)
  | inr ((t', rest'), e) ↦
      rw (e, server_loop)
        (goes_on c rest t t' rest' (server_loop fuel rest' t') e
          (server_loop-Ends fuel rest' t' (omega (arith, h, bounded c rest t t' rest' e))))
]

-- Fuel beyond the length of the buffer changes nothing.
pub server_loop_fuel :
    (f g : ℕ) (buf : Text) (t : Term)
    → length buf ≤ f
    → length buf ≤ g
    → server_loop f buf t ≡ server_loop g buf t
unfolding server_loop
server_loop_fuel zero zero buf t h k = refl
server_loop_fuel zero (suc g) [] t h k = refl
server_loop_fuel zero (suc g) (c ∷ rest) t h k = absurd (omega (arith, h))
server_loop_fuel (suc f) zero [] t h k = refl
server_loop_fuel (suc f) zero (c ∷ rest) t h k = absurd (omega (arith, k))
server_loop_fuel (suc f) (suc g) [] t h k = refl
server_loop_fuel (suc f) (suc g) (c ∷ rest) t h k = elim (Option-cases (server_round c rest t)) [
  | inl e ↦ rw (e, server_loop)
  | inr ((t', rest'), e) ↦
      rw (e, server_loop)
        (server_loop_fuel f g rest' t' (omega (arith, h, bounded c rest t t' rest' e))
          (omega (arith, k, bounded c rest t t' rest' e)))
]

on_answered-Shrinks :
    (c : ℕ) (rest : Text) (t : Term) (k : Answered) → Shrinks rest (on_answered c rest t k)
unfolding on_answered
on_answered-Shrinks c rest t erase = same rest _
on_answered-Shrinks c rest t clear_rest = shorter rest _
on_answered-Shrinks c rest t carriage = same rest _
on_answered-Shrinks c rest t to_next = shorter rest _
on_answered-Shrinks c rest t cut_short = nothing rest
on_answered-Shrinks c rest t echo = same rest _
on_answered-Shrinks c rest t bell = same rest _

client_round-Shrinks : (c : ℕ) (rest : Text) (t : Term) → Shrinks rest (client_round c rest t)
unfolding client_round
client_round-Shrinks c rest t = on_answered-Shrinks c rest t (answered c rest)

client_bounded :
    (c : ℕ) (rest : Text) (t t' : Term) (rest' : Text)
    → client_round c rest t ≡ some (t', rest')
    → length rest' ≤ length rest
unfolding Shrinks
client_bounded c rest t t' rest' e = subst (Shrinks rest) e (client_round-Shrinks c rest t)

client_loop-Ends :
    (fuel : ℕ) (buf : Text) (t : Term)
    → length buf ≤ fuel
    → Ends client_round buf t (client_loop fuel buf t)
unfolding client_loop
client_loop-Ends zero [] t h = at_end t
client_loop-Ends (suc fuel) [] t h = at_end t
client_loop-Ends zero (c ∷ rest) t h = absurd (omega (arith, h))
client_loop-Ends (suc fuel) (c ∷ rest) t h = elim (Option-cases (client_round c rest t)) [
  | inl e ↦ rw (e, client_loop) (raised c rest t e)
  | inr ((t', rest'), e) ↦
      rw (e, client_loop)
        (goes_on c rest t t' rest' (client_loop fuel rest' t') e
          (client_loop-Ends fuel rest' t' (omega (arith, h, client_bounded c rest t t' rest' e))))
]

-- Both loops end on every buffer, each round a byte or more nearer to its end. With as much fuel as
-- the buffer has bytes, or more, the functions give the outcome of the loops.
pub loops_end :
    (fuel : ℕ) (buf : Text) (t : Term)
    → length buf ≤ fuel
    → Ends server_round buf t (server_loop fuel buf t)
      × Ends client_round buf t (client_loop fuel buf t)
loops_end fuel buf t h = (server_loop-Ends fuel buf t h, client_loop-Ends fuel buf t h)
