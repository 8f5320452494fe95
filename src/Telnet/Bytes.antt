-- ===== src/Telnet/Bytes.antt =====
-- Methods of byte strings, and the two functions at the head of
-- cowrie/src/cowrie/telnet_proxy/handler.py.
use vo_iphoneypot.Common.{
  Bool, List, Option, Text, [], false, if◌then◌else◌, length, ltb, none, some, suc, true, zero, ℕ,
  ◌%◌, ◌++◌, ◌+◌, ◌-◌, ◌/◌, ◌==◌, ◌||◌, ◌∷◌,
}
use vo_iphoneypot.Strings.{has_prefix}

-- `t.replace(old, new)` from a place where some bytes of a match are still to be passed; `old` is not
-- empty.
unfoldable pub replace_from : Text → Text → ℕ → Text → Text
replace_from old new skip [] = []
replace_from old new (suc skip) (c ∷ t) = replace_from old new skip t
replace_from old new zero (c ∷ t) = elim (has_prefix old (c ∷ t)) [
  | true ↦ new ++ replace_from old new (length old - 1) t
  | false ↦ c ∷ replace_from old new zero t
]

abbrev pub replace : Text → Text → Text → Text
replace old new t = replace_from old new 0 t

-- `remove_all`
unfoldable pub remove_all : Text → List Text → Text
remove_all t [] = t
remove_all t (s ∷ ss) = remove_all (replace s [] t) ss

abbrev pub delete_char : ℕ
delete_char = 127

-- `chr(c).encode()`, for a byte
unfoldable pub encode_char : ℕ → Text
encode_char c = if ltb c 128 then c ∷ [] else (192 + c / 64) ∷ (128 + c % 64) ∷ []

-- `n[:-1]`
unfoldable pub without_last : Text → Text
without_last [] = []
without_last (c ∷ []) = []
without_last (c ∷ d ∷ t) = c ∷ without_last (d ∷ t)

-- The loop of `process_backspaces`
unfoldable pub edit_line : Text → Text → Text
edit_line n [] = n
edit_line n (c ∷ s) = edit_line (if c == delete_char then without_last n else n ++ encode_char c) s

-- `process_backspaces`
unfoldable pub process_backspaces : Text → Text
process_backspaces s = edit_line [] s

-- `c in t`
abbrev pub holds_byte : ℕ → Text → Bool
holds_byte b [] = false
holds_byte b (c ∷ t) = c == b || holds_byte b t

-- `t[t.index(b'\r') + 1]`; `none` is ValueError or IndexError.
unfoldable pub after_return : Text → Option ℕ
after_return [] = none
after_return (c ∷ []) = none
after_return (c ∷ d ∷ t) = let rest = after_return (d ∷ t) in if c == 13 then some d else rest

-- `sub in t`
unfoldable pub holds : Text → Text → Bool
holds sub [] = has_prefix sub []
holds sub (c ∷ t) = let rest = holds sub t in has_prefix sub (c ∷ t) || rest
