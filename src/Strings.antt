-- ===== src/Strings.antt =====
-- Methods of Python's strings: split and join on a character, strip for ASCII, rstrip of a
-- character.
use mathlib.Core.List.{reverse}
use vo_iphoneypot.Common.{
  All, Bool, Bool-cases, List, Option, Text, [], ap, arith, false, if◌then◌else◌, inl, inr, leb,
  length, none, refl, some, text_eq, text_eq_refl, true, ℕ, ◌&&◌, ◌++◌, ◌<◌, ◌==◌, ◌||◌, ◌∙◌, ◌∷◌,
  ◌≡◌,
}

prepend : ℕ → List Text → List Text
prepend c [] = (c ∷ []) ∷ []
prepend c (w ∷ ws) = (c ∷ w) ∷ ws

-- `t.split(sep)`
unfoldable pub split : ℕ → Text → List Text
unfolding prepend
split sep [] = [] ∷ []
split sep (c ∷ t) = let rest = split sep t in if c == sep then [] ∷ rest else prepend c rest

-- `sep.join(ws)`
unfoldable pub join : ℕ → List Text → Text
join sep [] = []
join sep (w ∷ []) = w
join sep (w ∷ v ∷ vs) = w ++ sep ∷ join sep (v ∷ vs)

unfoldable pub keep_unless : Bool → ℕ → Text → Text
keep_unless gone c [] = if gone then [] else c ∷ []
keep_unless gone c (d ∷ t) = c ∷ d ∷ t

-- `t.rstrip(sep)`
unfoldable pub rstrip : ℕ → Text → Text
unfolding keep_unless
rstrip sep [] = []
rstrip sep (c ∷ t) = keep_unless (c == sep) c (rstrip sep t)

is_space : ℕ → Bool
is_space c = c == b' ' || (leb 9 c && leb c 13) || (leb 28 c && leb c 31)

strip_left : Text → Text
unfolding is_space
strip_left [] = []
strip_left (c ∷ t) = if is_space c then strip_left t else c ∷ t

-- `t.strip()`
unfoldable pub strip : Text → Text
unfolding strip_left
strip t = reverse (strip_left (reverse (strip_left t)))

-- `t.startswith(prefix)`
unfoldable pub has_prefix : Text → Text → Bool
has_prefix [] t = true
has_prefix (c ∷ p) [] = false
has_prefix (c ∷ p) (d ∷ t) = c == d && has_prefix p t

-- `t.endswith(suffix)`
unfoldable pub has_suffix : Text → Text → Bool
has_suffix suffix [] = text_eq suffix []
has_suffix suffix (c ∷ t) = let rest = has_suffix suffix t in text_eq suffix (c ∷ t) || rest

drop_while : (ℕ → Bool) → Text → Text
drop_while p [] = []
drop_while p (c ∷ t) = if p c then drop_while p t else c ∷ t

-- `t.strip(chars)`, the characters given by a test
unfoldable pub strip_chars : (ℕ → Bool) → Text → Text
unfolding drop_while
strip_chars p t = reverse (drop_while p (reverse (drop_while p t)))

after_char : Bool → ℕ → Text → Option (Text × Text) → Option (Text × Text)
after_char true c t rest = some ([], t)
after_char false c t none = none
after_char false c t (some (before, more)) = some (c ∷ before, more)

-- `t.split(sep, 1)`, where the separator is in the text
unfoldable pub split_once : ℕ → Text → Option (Text × Text)
unfolding after_char
split_once sep [] = none
split_once sep (c ∷ t) = after_char (c == sep) c t (split_once sep t)

held_text : Bool → ℕ → Text → Text
held_text true a w = a ∷ w
held_text false a w = w

-- `t.split(ab)` of a separator of two characters; the Boolean says that the first one was just read.
unfoldable pub split_two : ℕ → ℕ → Bool → Text → List Text
unfolding held_text prepend
split_two a b held [] = held_text held a [] ∷ []
split_two a b held (c ∷ t) = elim (held && c == b) [
  | true ↦ [] ∷ split_two a b false t
  | false ↦ elim (c == a) [
    | true ↦ let rest = split_two a b true t in if held then prepend a rest else rest
    | false ↦ let rest = prepend c (split_two a b false t) in if held then prepend a rest else rest
  ]
]

-- A word does not hold the separator.
abbrev pub Word : ℕ → Text → Type 0
Word sep = All (λ c. (c == sep) ≡ false)

abbrev pub NonEmptyWord : ℕ → Text → Type 0
NonEmptyWord sep w = (0 < length w) × Word sep w

prepend-Word :
    (sep c : ℕ) (ws : List Text)
    → (c == sep) ≡ false
    → All (Word sep) ws
    → All (Word sep) (prepend c ws)
unfolding prepend
prepend-Word sep c [] h hs = ((h, tt), tt)
prepend-Word sep c (w ∷ ws) h hs = ((h, hs.0), hs.1)

-- The pieces of a split are words.
pub split-Word : (sep : ℕ) (t : Text) → All (Word sep) (split sep t)
unfolding split
split-Word sep [] = (tt, tt)
split-Word sep (c ∷ t) = elim (Bool-cases (c == sep)) [
  | inl same ↦ rw same (tt, split-Word sep t)
  | inr other ↦ rw other (prepend-Word sep c (split sep t) other (split-Word sep t))
]

pub split_single : (sep : ℕ) (w : Text) → Word sep w → split sep w ≡ w ∷ []
unfolding split prepend
split_single sep [] h = refl
split_single sep (c ∷ w) h = rw (h.0, split_single sep w h.1) refl

same_char : (c : ℕ) → (c == c) ≡ true
same_char c = ground arith

split_append : (sep : ℕ) (w t : Text) → Word sep w → split sep (w ++ sep ∷ t) ≡ w ∷ split sep t
unfolding split prepend
split_append sep [] t h = rw (same_char sep) refl
split_append sep (c ∷ w) t h = rw (h.0, split_append sep w t h.1) refl

-- Words that were joined are split again.
pub split-join :
    (sep : ℕ) (w : Text) (ws : List Text)
    → Word sep w
    → All (Word sep) ws
    → split sep (join sep (w ∷ ws)) ≡ w ∷ ws
unfolding join
split-join sep w [] h hs = split_single sep w h
split-join sep w (v ∷ vs) h hs =
    split_append sep w (join sep (v ∷ vs)) h ∙ ap (λ x. w ∷ x) (split-join sep v vs hs.0 hs.1)

-- A text that does not end in the separator is kept by rstrip, whatever stands before it.
rstrip_append :
    (sep : ℕ) (s : Text) (c : ℕ) (t : Text)
    → rstrip sep (c ∷ t) ≡ c ∷ t
    → rstrip sep (s ++ c ∷ t) ≡ s ++ c ∷ t
unfolding rstrip keep_unless
rstrip_append sep [] c t h = h
rstrip_append sep (a ∷ []) c t h = rw (h, rstrip) refl
rstrip_append sep (a ∷ b ∷ s) c t h = rw (rstrip_append sep (b ∷ s) c t h, rstrip) refl

rstrip_single : (sep : ℕ) (w : Text) → Word sep w → rstrip sep w ≡ w
unfolding rstrip keep_unless
rstrip_single sep [] h = refl
rstrip_single sep (c ∷ []) h = rw h.0 refl
rstrip_single sep (c ∷ d ∷ w) h = rw (rstrip_single sep (d ∷ w) h.1, rstrip) refl

pub rstrip_cons :
    (sep a : ℕ) (j : Text) → rstrip sep j ≡ j → 0 < length j → rstrip sep (a ∷ j) ≡ a ∷ j
unfolding rstrip keep_unless
rstrip_cons sep a [] h n = absurd (omega (arith, n))
rstrip_cons sep a (b ∷ j) h n = rw (h, rstrip) refl

pub join_starts : (sep c : ℕ) (v : Text) (vs : List Text) → 0 < length (join sep ((c ∷ v) ∷ vs))
unfolding join
join_starts sep c v [] = omega arith
join_starts sep c v (w ∷ vs) = omega arith

-- Words that are not empty, joined, do not end in the separator.
pub rstrip-join :
    (sep : ℕ) (w : Text) (ws : List Text)
    → All (NonEmptyWord sep) (w ∷ ws)
    → rstrip sep (join sep (w ∷ ws)) ≡ join sep (w ∷ ws)
unfolding join
rstrip-join sep w [] h = rstrip_single sep w h.0.1
rstrip-join sep w ([] ∷ vs) h = absurd (omega (arith, h.1.0.0))
rstrip-join sep w ((c ∷ v) ∷ vs) h = rstrip_append sep w sep (join sep ((c ∷ v) ∷ vs)) (
    rstrip_cons sep sep (join sep ((c ∷ v) ∷ vs)) (rstrip-join sep (c ∷ v) vs h.1)
      (join_starts sep c v vs))

-- Texts that are put together end in the last one, and are taken apart again.
suffix_itself : (s : Text) → has_suffix s s ≡ true
unfolding has_suffix
suffix_itself [] = text_eq_refl []
suffix_itself (c ∷ s) = ground (arith, text_eq_refl (c ∷ s))

pub has_suffix-append : (w s : Text) → has_suffix s (w ++ s) ≡ true
unfolding has_suffix
has_suffix-append [] s = suffix_itself s
has_suffix-append (c ∷ w) s = ground (arith, has_suffix-append w s)

pub has_suffix-more : (w s t : Text) → has_suffix s t ≡ true → has_suffix s (w ++ t) ≡ true
unfolding has_suffix
has_suffix-more [] s t h = h
has_suffix-more (c ∷ w) s t h = ground (arith, has_suffix-more w s t h)

pub split_once-append :
    (sep : ℕ) (w t : Text) → Word sep w → split_once sep (w ++ sep ∷ t) ≡ some (w, t)
unfolding split_once after_char
split_once-append sep [] t h = rw (same_char sep) refl
split_once-append sep (c ∷ w) t h = rw (h.0, split_once-append sep w t h.1) refl

pub split_two-append :
    (w t : Text)
    → Word 13 w
    → split_two 13 10 false (w ++ 13 ∷ 10 ∷ t) ≡ w ∷ split_two 13 10 false t
unfolding split_two prepend
split_two-append [] t h = refl
split_two-append (c ∷ w) t h = rw (split_two, h.0, split_two-append w t h.1) refl

pub strip_space : (t : Text) → strip (b' ' ∷ t) ≡ strip t
unfolding strip strip_left is_space
strip_space t = refl
