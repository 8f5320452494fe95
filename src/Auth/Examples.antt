-- ===== src/Auth/Examples.antt =====
-- Runs of the two classes of auth.py at concrete logins.
use vo_iphoneypot.Auth.UserDb
use vo_iphoneypot.Auth.Random
use vo_iphoneypot.Auth.Attempts.{answers, checklogin-late}
use vo_iphoneypot.Auth.Policy.{checklogin-set_policy}
use vo_iphoneypot.Auth.Random.{AuthRandom, IpInfo, checklogin, lookup, userpass}
use vo_iphoneypot.Auth.Turns.{checklogin_first_visit}
use vo_iphoneypot.Auth.UserDb.{
  Credentials, Db, Search, exact, key_eq, match_rule, rule_eq, set_policy, star,
}
use vo_iphoneypot.Common.{
  Text, [], arith, codes, contains, false, none, refl, some, text_eq, true, ◌++◌, ◌∷◌, ◌≡◌,
}

-- A search for a pattern without special characters, anchored at both ends.
abbrev same_text : Search
same_text p i t = text_eq p t

abbrev no_star : Credentials
no_star = record { login = exact (codes "root"); passwd = exact (codes "toor") }

-- The python `repr` of a byte string without special characters.
abbrev str : Text → Text
str t = codes "b'" ++ t ++ codes "'"

abbrev address : Text
address = codes "10.0.0.9"

abbrev seen : IpInfo
seen = record {
  tries = some 3;
  max = some 3;
  tried = some [];
  user = some (str (codes "root"));
  pw = some (str (codes "a"));
}

abbrev regular : AuthRandom
regular = record {
  mintry = 2;
  maxtry = 5;
  maxcache = 1;
  uservar = record { cache = some (codes "x" ∷ []); ips = (address, seen) ∷ [] };
  uservar_file = none;
}

checklogin_first_visit_example :
    answers str 2 regular
      (codes "10.0.0.7")
      ((codes "eve", codes "a") ∷ (codes "eve", codes "b") ∷ [])
    ≡ false ∷ true ∷ []
unfolding lookup contains text_eq
checklogin_first_visit_example =
    checklogin_first_visit str 2 regular (codes "10.0.0.7") ((codes "eve", codes "a") ∷ [])
      (codes "eve", codes "b") refl (refl, refl, (refl, refl, tt)) refl

checklogin-late_example :
    (Random.checklogin str 2 regular (codes "root") (codes "a") address).0 ≡ false
unfolding lookup contains text_eq
checklogin-late_example =
    checklogin-late str 2 regular (codes "root") (codes "a") address seen 3 3 [] refl
      (refl, refl, refl) (omega arith)

abbrev two_rules : Db
two_rules = (record { login = exact (codes "root"); passwd = exact star }, false) ∷ []

checklogin-set_policy_example :
    UserDb.checklogin same_text (set_policy no_star true two_rules) (codes "root") (codes "toor")
    ≡ false
unfolding UserDb.checklogin match_rule text_eq rule_eq key_eq
checklogin-set_policy_example =
    checklogin-set_policy same_text two_rules no_star true (codes "root") (codes "toor")
