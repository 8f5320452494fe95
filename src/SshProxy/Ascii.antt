-- ===== src/SshProxy/Ascii.antt =====
-- Editing keeps a line of ASCII characters one.
use vo_iphoneypot.Common.{All, List, Text, [], arith, refl, true, ◌&&◌, ◌∷◌, ◌≡◌}
use vo_iphoneypot.SshProxy.Editor.{
  Key, Line, Printable, edit, history_down, history_up, leftward, onto, press, rightward, rubout,
  tab, to_end, to_start, typed, whole,
}
use vo_iphoneypot.SshProxy.Halves.{onto-gather}
use vo_iphoneypot.SshProxy.Term.{is_ascii}

is_ascii-onto : (b a : Text) → is_ascii (onto b a) ≡ is_ascii b && is_ascii a
unfolding is_ascii
is_ascii-onto [] a = refl
is_ascii-onto (x ∷ b) a = ground (arith, is_ascii-onto b (x ∷ a))

ascii_rubout :
    (b a : Text)
    → is_ascii (onto b a) ≡ true
    → is_ascii (whole (press rubout (record { before = b; after = a }))) ≡ true
unfolding is_ascii
ascii_rubout [] a h = h
ascii_rubout (x ∷ b) a h = ground (arith, h, is_ascii-onto b a, is_ascii-onto b (x ∷ a))

ascii_left :
    (b a : Text)
    → is_ascii (onto b a) ≡ true
    → is_ascii (whole (press leftward (record { before = b; after = a }))) ≡ true
ascii_left [] a h = h
ascii_left (x ∷ b) a h = h

ascii_right :
    (b a : Text)
    → is_ascii (onto b a) ≡ true
    → is_ascii (whole (press rightward (record { before = b; after = a }))) ≡ true
ascii_right b [] h = h
ascii_right b (x ∷ a) h = h

ascii_press :
    (k : Key) (l : Line)
    → Printable k
    → is_ascii (whole l) ≡ true
    → is_ascii (whole (press k l)) ≡ true
unfolding is_ascii
ascii_press (typed c) l p h =
    ground (arith, is_ascii-onto l.before l.after, is_ascii-onto l.before (c ∷ l.after), p.1)
ascii_press rubout l p h = ascii_rubout l.before l.after h
ascii_press to_start l p h = h
ascii_press to_end l p h = rw (onto-gather l.after l.before) h
ascii_press rightward l p h = ascii_right l.before l.after h
ascii_press leftward l p h = ascii_left l.before l.after h
ascii_press history_up l p h = h
ascii_press history_down l p h = h
ascii_press tab l p h = h

pub ascii_edit :
    (ks : List Key) (l : Line)
    → All Printable ks
    → is_ascii (whole l) ≡ true
    → is_ascii (whole (edit ks l)) ≡ true
ascii_edit [] l h a = a
ascii_edit (k ∷ ks) l h a = ascii_edit ks (press k l) h.1 (ascii_press k l h.0 a)
