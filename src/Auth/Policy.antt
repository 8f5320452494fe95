-- ===== src/Auth/Policy.antt =====
-- Who gets in: the first matching rule decides.
use vo_iphoneypot.Auth.UserDb.{
  Credentials, Db, Rule, Search, checklogin, exact, key_eq, matches, regex, rule_eq, set_policy,
}
use vo_iphoneypot.Common.{
  Bool, Bool-cases, Option, Text, [], ap, ap₂, arith, false, if◌then◌else◌, inl, inr, none, refl,
  some, text_eq→eq, true, ◌∷◌, ◌≡◌,
}

rule_eq→eq : (a b : Rule) → rule_eq a b ≡ true → a ≡ b
unfolding rule_eq
rule_eq→eq (exact s) (exact t) h = ap exact (text_eq→eq s t h)
rule_eq→eq (exact s) (regex p i) h = cc
rule_eq→eq (regex p i) (exact s) h = cc
rule_eq→eq (regex p i) (regex q j) h = ap₂ regex (text_eq→eq p q (ground arith)) (ground arith)

-- Equal keys match the same logins.
key_eq-matches :
    (search' : Search) (c d : Credentials) (l p : Text)
    → key_eq c d ≡ true
    → matches search' c l p ≡ matches search' d l p
unfolding key_eq
key_eq-matches search' c d l p h =
    rw (rule_eq→eq c.login d.login (ground arith), rule_eq→eq c.passwd d.passwd (ground arith))

-- The first rule that matches a login.
abbrev pub first_match : Search → Db → Text → Text → Option Credentials
first_match search' [] l p = none
first_match search' ((c, policy) ∷ db) l p =
    if matches search' c l p then some c else first_match search' db l p

-- The answer of a database after a rule was added.
abbrev pub with_rule : Credentials → Bool → Bool → Bool → Option Credentials → Bool
with_rule c policy hit before none = if hit then policy else false
with_rule c policy hit before (some d) = if key_eq d c then policy else before

-- A rule that does not match a login leaves its answer alone.
with_rule_miss :
    (search' : Search) (db : Db) (c : Credentials) (policy : Bool) (l p : Text)
    → matches search' c l p ≡ false
    → with_rule c policy
        (matches search' c l p)
        (checklogin search' db l p)
        (first_match search' db l p)
      ≡ checklogin search' db l p
unfolding checklogin
with_rule_miss search' [] c policy l p misses = ground (arith, misses)
with_rule_miss search' ((d, old) ∷ db) c policy l p misses =
    elim (Bool-cases (matches search' d l p)) [
      | inl hit ↦ elim (Bool-cases (key_eq d c)) [
        | inl same ↦ ground (arith, hit, misses, key_eq-matches search' d c l p same)
        | inr other ↦ ground (arith, hit, other)
      ]
      | inr miss ↦ ground (arith, miss, with_rule_miss search' db c policy l p misses)
    ]

-- Adding a rule changes the answer only for logins that no rule matched before, or that a rule with
-- the same key decided: it never overrules an earlier rule.
pub checklogin-set_policy :
    (search' : Search) (db : Db) (c : Credentials) (policy : Bool) (l p : Text)
    → checklogin search' (set_policy c policy db) l p
      ≡ with_rule c policy
          (matches search' c l p)
          (checklogin search' db l p)
          (first_match search' db l p)
unfolding checklogin set_policy
checklogin-set_policy search' [] c policy l p = refl
checklogin-set_policy search' ((d, old) ∷ db) c policy l p =
    elim (Bool-cases (matches search' d l p)) [
      | inl hit ↦ elim (Bool-cases (key_eq d c)) [
        | inl same ↦ ground (arith, hit, same)
        | inr other ↦ ground (arith, hit, other)
      ]
      | inr miss ↦ elim (Bool-cases (key_eq d c)) [
        | inl same ↦ ground (
          arith,
          miss,
          same,
          key_eq-matches search' d c l p same,
          with_rule_miss search' db c policy l p,
        )
        | inr other ↦ ground (arith, miss, other, checklogin-set_policy search' db c policy l p)
      ]
    ]
