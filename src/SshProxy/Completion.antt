-- ===== src/SshProxy/Completion.antt =====
-- What the watcher makes of the machine's answers to an arrow.
use vo_iphoneypot.Common.{
  Bool, Option, Text, [], ap, arith, if_both, length, none, pos, refl, some, suc, text_eq, true, ℕ,
  ◌∙◌, ◌∷◌, ◌≡◌, ◌≤◌,
}
use vo_iphoneypot.SshProxy.Editor.{At, Line, edit, press, typed, whole}
use vo_iphoneypot.SshProxy.Follows.{on_key-At}
use vo_iphoneypot.SshProxy.Loops.{
  answered, client, client_loop, client_round, complete, echo, on_answered, parse_packet, recall,
  then_log,
}
use vo_iphoneypot.SshProxy.Term.{Term, esc, init, insert}

abbrev pub command_of : Option Term → Option Text
command_of none = none
command_of (some t) = some t.command

command_of-then_log : (p : Text) (o : Option Term) → command_of (then_log p o) ≡ command_of o
command_of-then_log p none = refl
command_of-then_log p (some t) =
    if_both (λ (u : Term). some u.command ≡ some t.command) t.ttylog_enabled _ _ refl refl

client_echo :
    (c fuel : ℕ) (rest : Text) (t : Term)
    → answered c rest ≡ echo
    → client_loop (suc fuel) (c ∷ rest) t ≡ client_loop fuel rest (insert c t)
unfolding client_loop client_round on_answered
client_echo c fuel rest t h = rw (h, client_loop)

answered_first : (n : ℕ) → 48 ≤ n → n ≤ 57 → answered esc (0x5b ∷ n ∷ 0x50 ∷ []) ≡ echo
unfolding answered text_eq
answered_first n low high = ground arith

answered_digit : (n : ℕ) → 48 ≤ n → n ≤ 57 → answered n (0x50 ∷ []) ≡ echo
unfolding answered text_eq
answered_digit n low high = ground arith

answered_plain : (rest : Text) → (answered 0x5b rest ≡ echo) × (answered 0x50 rest ≡ echo)
unfolding answered text_eq
answered_plain rest = (refl, refl)

abbrev pub delete_characters : ℕ → Text
delete_characters n = esc ∷ 0x5b ∷ n ∷ 0x50 ∷ []

delete_loop :
    (n : ℕ) (t : Term)
    → 48 ≤ n
    → n ≤ 57
    → client_loop 4 (delete_characters n) t
      ≡ some (insert 0x50 (insert n (insert 0x5b (insert esc t))))
unfolding client_loop
delete_loop n t low high =
    client_echo esc 3 (0x5b ∷ n ∷ 0x50 ∷ []) t (answered_first n low high)
    ∙ client_echo 0x5b 2 (n ∷ 0x50 ∷ []) (insert esc t) (answered_plain (n ∷ 0x50 ∷ [])).0
    ∙ client_echo n 1 (0x50 ∷ []) (insert 0x5b (insert esc t)) (answered_digit n low high)
    ∙ client_echo 0x50 0 [] (insert n (insert 0x5b (insert esc t))) (answered_plain []).1

-- A watcher at a line, behind an arrow.
abbrev pub behind_arrow : Bool → Line → Term
behind_arrow enabled l = record (init enabled) {
  command = whole l;
  pointer = pos (length l.before);
  up_arrow = true;
}

inserted :
    (n : ℕ) (t : Term) (l : Line)
    → At t l
    → (insert 0x50 (insert n (insert 0x5b (insert esc t)))).command
      ≡ whole (press (typed 0x50) (press (typed n) (press (typed 0x5b) (press (typed esc) l))))
inserted n t l h =
    (on_key-At (typed 0x50) (insert n (insert 0x5b (insert esc t)))
      (press (typed n) (press (typed 0x5b) (press (typed esc) l)))
      (on_key-At (typed n) (insert 0x5b (insert esc t)) (press (typed 0x5b) (press (typed esc) l)) (
        on_key-At (typed 0x5b) (insert esc t) (press (typed esc) l)
          (on_key-At (typed esc) t l h)))).0

-- An answer to an arrow that deletes up to nine characters (ESC [ n P) is not passed over: its four
-- bytes are put into the command at the cursor, as if they were typed.
pub delete_characters_inserted :
    (enabled : Bool) (l : Line) (n : ℕ)
    → 48 ≤ n
    → n ≤ 57
    → command_of (parse_packet client (delete_characters n) (behind_arrow enabled l))
      ≡ some (whole (edit (typed esc ∷ typed 0x5b ∷ typed n ∷ typed 0x50 ∷ []) l))
unfolding parse_packet complete
delete_characters_inserted enabled l n low high =
    command_of-then_log (delete_characters n)
      (recall (delete_characters n) (behind_arrow enabled l))
    ∙ rw (delete_loop n (behind_arrow enabled l) low high)
        (ap some (inserted n (behind_arrow enabled l) l (refl, refl)))
