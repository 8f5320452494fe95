-- ===== src/SshProxy/Editor.antt =====
-- What the terminal watcher means to follow: a line editor with a cursor, as the two halves of the
-- line, the one before the cursor from the cursor on.
use vo_iphoneypot.Common.{List, Text, [], length, pos, ℕ, ◌++◌, ◌<◌, ◌∷◌, ◌≡◌, ◌≤◌}
use vo_iphoneypot.SshProxy.Term.{Term, down_key, end_key, home_key, left_key, right_key, up_key}

pub record Line : Type 0 where
  pub before : Text
  pub after : Text

pub data Key : Type 0 where
  typed : ℕ → Key
  rubout : Key
  to_start : Key
  to_end : Key
  rightward : Key
  leftward : Key
  history_up : Key
  history_down : Key
  tab : Key

-- What a terminal sends for a key.
abbrev pub encode : Key → Text
encode (typed c) = c ∷ []
encode rubout = 0x7f ∷ []
encode to_start = home_key
encode to_end = end_key
encode rightward = right_key
encode leftward = left_key
encode history_up = up_key
encode history_down = down_key
encode tab = 0x09 ∷ []

-- The whole line.
abbrev pub onto : Text → Text → Text
onto [] a = a
onto (x ∷ b) a = onto b (x ∷ a)

abbrev pub whole : Line → Text
whole l = onto l.before l.after

-- The two halves of the whole line, with the cursor at one end.
abbrev pub gather : Text → Text → Text
gather [] b = b
gather (x ∷ a) b = gather a (x ∷ b)

abbrev pub press : Key → Line → Line
press (typed c) l = record { before = c ∷ l.before; after = l.after }
press rubout l = elim l.before [ [] ↦ l | x ∷ b ↦ record { before = b; after = l.after } ]
press to_start l = record { before = []; after = onto l.before l.after }
press to_end l = record { before = gather l.after l.before; after = [] }
press rightward l = elim l.after [ [] ↦ l | x ∷ a ↦ record { before = x ∷ l.before; after = a } ]
press leftward l = elim l.before [ [] ↦ l | x ∷ b ↦ record { before = b; after = x ∷ l.after } ]
press history_up l = l
press history_down l = l
press tab l = l

-- A key that types is a printable ASCII character.
abbrev pub Printable : Key → Type 0
Printable (typed c) = (32 ≤ c) × (c < 127)
Printable _ = Unit

-- The watcher is at this line.
abbrev pub At : Term → Line → Type 0
At t l = (t.command ≡ whole l) × (t.pointer ≡ pos (length l.before))

abbrev pub encode_keys : List Key → Text
encode_keys [] = []
encode_keys (k ∷ ks) = encode k ++ encode_keys ks

abbrev pub edit : List Key → Line → Line
edit [] l = l
edit (k ∷ ks) l = edit ks (press k l)

abbrev pub no_line : Line
no_line = record { before = []; after = [] }

-- A line that is empty is not logged.
abbrev pub logged : Text → List Text
logged [] = []
logged (c ∷ s) = (c ∷ s) ∷ []
