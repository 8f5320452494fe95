-- ===== src/Sip/Headers.antt =====
-- get_headers of src/voipclient.py: the headers and the session description of a message, as a
-- dictionary.
use vo_iphoneypot.Common.{
  List, Option, Text, [], false, if◌then◌else◌, map, none, some, text_eq, ◌++◌, ◌||◌, ◌∷◌,
}
use vo_iphoneypot.Sip.Message.{Headers, crlf}
use vo_iphoneypot.Strings.{has_suffix, split, split_once, split_two, strip}

-- `my_dict[key] = value`
unfoldable pub put_header : Text → Text → Headers → Headers
put_header key value [] = (key, value) ∷ []
put_header key value ((k, v) ∷ d) =
    if text_eq k key then (k, value) ∷ d else (k, v) ∷ put_header key value d

-- `spl[0]` and `spl[1]` of `item_list.split('=')`
abbrev equals_parts : List Text → Option (Text × Text)
equals_parts (a ∷ b ∷ more) = some (a, b)
equals_parts _ = none

abbrev split_equals : Text → Option (Text × Text)
split_equals item = equals_parts (split b'=' item)

abbrev or_pair : Option (Text × Text) → Option (Text × Text) → Option (Text × Text)
or_pair none other = other
or_pair (some a) other = some a

abbrev strip_both : Option (Text × Text) → Option (Text × Text)
strip_both none = none
strip_both (some (key, value)) = some (strip key, strip value)

-- The name and the value on a line, split at the first colon or at an equals sign.
unfoldable pub line_header : Text → Option (Text × Text)
line_header item = strip_both (or_pair (split_once b':' item) (split_equals item))

unfoldable pub put_line : Option (Text × Text) → Headers → Headers
put_line none d = d
put_line (some (key, value)) d = put_header key value d

-- The loop over the lines.
unfoldable pub put_lines : List Text → Headers → Headers
put_lines [] d = d
put_lines (item ∷ items) d = put_lines items (put_line (line_header item) d)

unfoldable pub concat_lines : List (List Text) → List Text
concat_lines [] = []
concat_lines (ls ∷ lss) = ls ++ concat_lines lss

-- `findall`; a message that ends otherwise has no headers.
unfoldable pub find_all : Text → List Text
find_all message =
    if has_suffix crlf message || has_suffix (13 ∷ 10 ∷ 13 ∷ []) message
    then split_two 13 10 false message
    else if has_suffix (10 ∷ 10 ∷ []) message
    then split_two 10 10 false message
    else []

-- `get_headers`
unfoldable pub get_headers : Text → Headers
unfolding concat_lines
get_headers message = put_lines (concat_lines (map (λ f. split 10 f) (find_all message))) []
