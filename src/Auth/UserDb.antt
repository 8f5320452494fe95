-- ===== src/Auth/UserDb.antt =====
-- UserDB of cowrie/src/cowrie/core/auth.py. Regular expressions are Python's: a search is an
-- argument, from the pattern, whether it ignores case, and the input.
use mathlib.Core.List.{reverse}
use vo_iphoneypot.Common.{
  Bool, List, Option, Text, [], codes, false, if◌then◌else◌, none, not, some, text_eq, true, ℕ,
  ◌&&◌, ◌==◌, ◌||◌, ◌∷◌,
}
use vo_iphoneypot.SshProxy.Editor.{encode}
use vo_iphoneypot.Strings.{split, strip}

-- A rule is a byte string, or what `re.compile` returns.
pub data Rule : Type 0 where
  exact : Text → Rule
  regex : Text → Bool → Rule

abbrev pub Search : Type 0
Search = Text → Bool → Text → Bool

-- Rules as dictionary keys.
unfoldable pub rule_eq : Rule → Rule → Bool
rule_eq (exact a) (exact b) = text_eq a b
rule_eq (exact a) (regex p i) = false
rule_eq (regex p i) (exact b) = false
rule_eq (regex p i) (regex q j) = text_eq p q && (if i then j else not j)

pub record Credentials : Type 0 where
  pub login : Rule
  pub passwd : Rule

unfoldable pub key_eq : Credentials → Credentials → Bool
key_eq a b = rule_eq a.login b.login && rule_eq a.passwd b.passwd

-- The OrderedDict of the policies: `true` lets in.
abbrev pub Db : Type 0
Db = List (Credentials × Bool)

-- `b'*'`
abbrev pub star : Text
star = b'*' ∷ []

-- `match_rule`
unfoldable pub match_rule : Search → Rule → Text → Bool
match_rule search' (exact r) input = text_eq r star || text_eq r input
match_rule search' (regex p i) input = search' p i input

abbrev pub matches : Search → Credentials → Text → Text → Bool
matches search' c thelogin thepasswd =
    match_rule search' c.login thelogin && match_rule search' c.passwd thepasswd

-- `checklogin`
unfoldable pub checklogin : Search → Db → Text → Text → Bool
checklogin search' [] thelogin thepasswd = false
checklogin search' ((c, policy) ∷ db) thelogin thepasswd =
    if matches search' c thelogin thepasswd
    then policy
    else checklogin search' db thelogin thepasswd

-- `self.userdb[(login, passwd)] = policy`: a known key keeps its place.
unfoldable pub set_policy : Credentials → Bool → Db → Db
set_policy c policy [] = (c, policy) ∷ []
set_policy c policy ((d, old) ∷ db) =
    if key_eq d c then (d, policy) ∷ db else (d, old) ∷ set_policy c policy db

-- The rest of the pattern '/(.+)/(i)?$' behind its first slash, read from the end: `$` also matches
-- before a final newline.
abbrev pub newline : ℕ
newline = 10

has_newline : Text → Bool
has_newline [] = false
has_newline (c ∷ t) = c == newline || has_newline t

-- `(.+)`, as the characters behind it are taken off
group : Bool → Text → Option Rule
group i [] = none
group i (c ∷ t) = if has_newline (c ∷ t) then none else some (regex (reverse (c ∷ t)) i)

after_slash : Bool → Text → Option Rule
unfolding group has_newline
after_slash i [] = none
after_slash i (c ∷ t) = if c == b'/' then group i t else none

after_flag : Text → Option Rule
unfolding after_slash
after_flag [] = none
after_flag (c ∷ t) = if c == b'i' then after_slash true t else after_slash false (c ∷ t)

after_end : Text → Option Rule
unfolding after_flag
after_end [] = none
after_end (c ∷ t) = if c == newline then after_flag t else after_flag (c ∷ t)

unfoldable pub as_regex : Text → Option Rule
unfolding after_end
as_regex [] = none
as_regex (c ∷ t) = if c == b'/' then after_end (reverse t) else none

-- `re_or_str`
unfoldable pub re_or_str : Text → Rule
unfolding as_regex
re_or_str rule = elim (as_regex rule) [ none ↦ exact rule | some r ↦ r ]

-- `adduser`; `none` is the IndexError of `passwd[0]` on an empty password.
unfoldable pub adduser : Text → Text → Db → Option Db
adduser login [] db = none
adduser login (c ∷ passwd) db =
    if c == b'!'
    then some (set_policy (record { login = re_or_str login; passwd = re_or_str passwd }) false db)
    else some
        (set_policy (record { login = re_or_str login; passwd = re_or_str (c ∷ passwd) }) true db)

-- The password of a line behind its login, and the rule that both make. `encode` is
-- `str.encode('utf8')`; what it raises is not caught.
unfoldable pub add_encoded : Text → Option Text → Db → Option Db
add_encoded login none db = none
add_encoded login (some password) db = adduser login password db

unfoldable pub load_fields : (Text → Option Text) → Option Text → List Text → Db → Option Db
load_fields encode none fields db = none
load_fields encode (some login) (x ∷ password ∷ more) db =
    add_encoded login (encode (strip password)) db
load_fields encode (some login) fields db = some db

-- One line of the file: a comment and a line with fewer than two colons are passed over.
unfoldable pub load_line : (Text → Option Text) → Text → Db → Option Db
load_line encode [] db = some db
load_line encode (c ∷ t) db = if c == b'#' then some db else elim (split b':' (c ∷ t)) [
  | login ∷ fields ↦ load_fields encode (encode login) fields db
  | [] ↦ some db
]

-- `load`, with the lines of userdb.txt or the defaults
unfoldable pub load : (Text → Option Text) → List Text → Db → Option Db
load encode [] db = some db
load encode (user ∷ users) db = elim (load_line encode user db) [
  | none ↦ none
  | some db' ↦ load encode users db'
]

-- `_USERDB_DEFAULTS`
abbrev pub userdb_defaults : List Text
userdb_defaults =
    codes "root:x:!root"
    ∷ codes "root:x:!123456"
    ∷ codes "root:x:!/honeypot/i"
    ∷ codes "root:x:*"
    ∷ codes "richard:x:*"
    ∷ codes "richard:x:fout"
    ∷ []
