-- ===== src/Sip/RoundTrip.antt =====
-- Headers that are written out are parsed again by get_headers of src/voipclient.py.
use mathlib.Core.Path.{subst}
use vo_iphoneypot.Common.{
  All, All-append, List, Option, Text, [], ap, append-nil, append_assoc, contains, false, map, none,
  or_false, refl, some, sym, text_eq, text_eq-false_sym, true, ◌++◌, ◌==◌, ◌∙◌, ◌∷◌, ◌≡◌,
}
use vo_iphoneypot.Sip.Headers.{
  concat_lines, find_all, get_headers, line_header, put_header, put_line, put_lines,
}
use vo_iphoneypot.Sip.Message.{Headers, crlf}
use vo_iphoneypot.Strings.{
  Word, has_suffix, has_suffix-append, has_suffix-more, split, split_once, split_once-append,
  split_single, split_two, split_two-append, strip, strip_space,
}

-- A header as it is written: `name: value` and the end of the line.
abbrev pub write_line : Text × Text → Text
write_line (key, value) = key ++ b':' ∷ b' ' ∷ value

abbrev pub write_headers : Headers → Text
write_headers [] = []
write_headers (h ∷ hs) = write_line h ++ 13 ∷ 10 ∷ write_headers hs

-- No line end in the name and the value, no colon in the name, no blanks around them.
abbrev pub Writable : Text × Text → Type 0
Writable (key, value) =
    Word b':' key
    × Word 13 key
    × Word 10 key
    × Word 13 value
    × Word 10 value
    × (strip key ≡ key)
    × (strip value ≡ value)

abbrev pub keys : Headers → List Text
keys hs = map (λ h. h.0) hs

-- The names differ.
abbrev pub DistinctKeys : Headers → Type 0
DistinctKeys [] = Unit
DistinctKeys ((key, value) ∷ hs) = (contains key (keys hs) ≡ false) × DistinctKeys hs

line_13 : (h : Text × Text) → Writable h → Word 13 (write_line h)
line_13 (key, value) w =
    All-append (λ c. (c == 13) ≡ false) key (b':' ∷ b' ' ∷ value) w.1 (refl, (refl, w.3))

line_10 : (h : Text × Text) → Writable h → Word 10 (write_line h)
line_10 (key, value) w =
    All-append (λ c. (c == 10) ≡ false) key (b':' ∷ b' ' ∷ value) w.2 (refl, (refl, w.4))

-- The lines, and the empty one behind the last line end.
all_lines : Headers → List Text
all_lines [] = [] ∷ []
all_lines (h ∷ hs) = write_line h ∷ all_lines hs

lines_split :
    (hs : Headers) → All Writable hs → split_two 13 10 false (write_headers hs) ≡ all_lines hs
unfolding all_lines split_two
lines_split [] w = refl
lines_split (h ∷ hs) w =
    split_two-append (write_line h) (write_headers hs) (line_13 h w.0)
    ∙ ap (λ (ls : List Text). write_line h ∷ ls) (lines_split hs w.1)

lines_kept :
    (hs : Headers)
    → All Writable hs
    → concat_lines (map (λ f. split 10 f) (all_lines hs)) ≡ all_lines hs
unfolding concat_lines all_lines split
lines_kept [] w = refl
lines_kept (h ∷ hs) w =
    ap (λ (ls : List Text). ls ++ concat_lines (map (λ f. split 10 f) (all_lines hs)))
      (split_single 10 (write_line h) (line_10 h w.0))
    ∙ ap (λ (ls : List Text). write_line h ∷ ls) (lines_kept hs w.1)

ends_in_crlf : (h : Text × Text) (hs : Headers) → has_suffix crlf (write_headers (h ∷ hs)) ≡ true
unfolding has_suffix
ends_in_crlf h [] = has_suffix-append (write_line h) crlf
ends_in_crlf h (h' ∷ hs) =
    has_suffix-more (write_line h) crlf (crlf ++ write_headers (h' ∷ hs))
      (has_suffix-more crlf crlf (write_headers (h' ∷ hs)) (ends_in_crlf h' hs))

line_parsed :
    (key value : Text)
    → Writable (key, value)
    → line_header (write_line (key, value)) ≡ some (key, value)
unfolding line_header
line_parsed key value w =
    rw (split_once-append b':' key (b' ' ∷ value) w.0, strip_space value, w.5, w.6) refl

-- A new name goes behind the others.
put_new :
    (key value : Text) (d : Headers)
    → contains key (keys d) ≡ false
    → put_header key value d ≡ d ++ (key, value) ∷ []
unfolding put_header contains
put_new key value [] h = refl
put_new key value ((k, v) ∷ d) h =
    let (other, rest) = or_false (text_eq k key) (contains key (keys d)) h in
    rw (other, put_new key value d rest) refl

no_header : line_header [] ≡ none
unfolding line_header split_once split
no_header = refl

contains_later :
    (x key value : Text) (d hs : Headers)
    → contains x (keys (d ++ (key, value) ∷ hs)) ≡ false
    → text_eq key x ≡ false
unfolding contains
contains_later x key value [] hs h = (or_false (text_eq key x) (contains x (keys hs)) h).0
contains_later x key value ((k, v) ∷ d) hs h =
    contains_later x key value d hs
      (or_false (text_eq k x) (contains x (keys (d ++ (key, value) ∷ hs))) h).1

not_before :
    (key value : Text) (d hs : Headers)
    → DistinctKeys (d ++ (key, value) ∷ hs)
    → contains key (keys d) ≡ false
unfolding contains
not_before key value [] hs h = refl
not_before key value ((k, v) ∷ d) hs h =
    rw
      (text_eq-false_sym key k (contains_later k key value d hs h.0), not_before key value d hs h.1)
      refl

lines_put :
    (hs d : Headers)
    → All Writable hs
    → DistinctKeys (d ++ hs)
    → put_lines (all_lines hs) d ≡ d ++ hs
unfolding put_lines put_line all_lines
lines_put [] d w k = rw no_header (sym (append-nil d))
lines_put ((key, value) ∷ hs) d w k =
    ap (λ (o : Option (Text × Text)). put_lines (all_lines hs) (put_line o d))
      (line_parsed key value w.0)
    ∙ ap (put_lines (all_lines hs)) (put_new key value d (not_before key value d hs k))
    ∙ lines_put hs (d ++ (key, value) ∷ []) w.1
        (subst DistinctKeys (sym (append_assoc d ((key, value) ∷ []) hs)) k)
    ∙ append_assoc d ((key, value) ∷ []) hs

-- Headers with distinct names that are written one to a line, with `: ` between name and value and
-- a carriage return and a line feed behind each, are what get_headers makes of the text. There is
-- at least one header; no name or value holds a line end or has blanks around it, and no name holds
-- a colon.
pub get_headers-write_headers :
    (h : Text × Text) (hs : Headers)
    → All Writable (h ∷ hs)
    → DistinctKeys (h ∷ hs)
    → get_headers (write_headers (h ∷ hs)) ≡ h ∷ hs
unfolding get_headers find_all
get_headers-write_headers h hs w k = rw (ends_in_crlf h hs) (
    ap (λ (ls : List Text). put_lines (concat_lines (map (λ f. split 10 f) ls)) [])
      (lines_split (h ∷ hs) w)
    ∙ ap (λ (ls : List Text). put_lines ls []) (lines_kept (h ∷ hs) w)
    ∙ lines_put (h ∷ hs) [] w k)
