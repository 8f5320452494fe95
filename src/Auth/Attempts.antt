-- ===== src/Auth/Attempts.antt =====
-- How many attempts AuthRandom lets an attacker make.
use vo_iphoneypot.Auth.Random.{
  AuthRandom, IpInfo, assign, attempt, checklogin, count, fresh, from_cache, lookup, or_else, put,
  returning, userpass, visit,
}
use vo_iphoneypot.Common.{
  Bool, Bool-cases, List, Option, Option-cases, Text, [], ap, arith, contains, false, inl, inr, ltb,
  lt→ltb, none, some, text_eq, text_eq_refl, true, ℕ, ◌++◌, ◌+◌, ◌<◌, ◌==◌, ◌∙◌, ◌∷◌, ◌≡◌, ◌≤◌,
}

pub lookup-assign :
    (ip : Text) (v : IpInfo) (d : List (Text × IpInfo)) → lookup ip (assign ip v d) ≡ some v
unfolding lookup assign
lookup-assign ip v [] = ground (arith, text_eq_refl ip)
lookup-assign ip v ((k, w) ∷ d) = elim (Bool-cases (text_eq k ip)) [
  | inl same ↦ ground (arith, same)
  | inr other ↦ ground (arith, other, lookup-assign ip v d)
]

-- The entry that an attempt starts from.
abbrev pub entry : ℕ → Option IpInfo → IpInfo
entry drawn none = record fresh { tries = some 0; max = some drawn }
entry drawn (some info) = info

visit_miss :
    (n d : ℕ) (b l p t : Text) (cache : List Text) (o : Option IpInfo)
    → contains t cache ≡ false
    → visit n d b l p t cache o ≡ attempt n d b l p t cache (entry d o)
unfolding visit
visit_miss n d b l p t cache none h = rw h
visit_miss n d b l p t cache (some info) h = rw h

-- `k` attempts were counted of the `need`, with the combinations `ts`.
abbrev pub Counted : ℕ → IpInfo → ℕ → ℕ → List Text → Type 0
Counted d info k need ts =
    (or_else info.tries 0 ≡ k) × (or_else info.max d ≡ need) × (or_else info.tried [] ≡ ts)

attempt_early :
    (n d : ℕ) (b l p t : Text) (cache : List Text) (info : IpInfo) (k need : ℕ) (ts : List Text)
    → Counted d info k need ts
    → contains t ts ≡ false
    → k + 1 < need
    → attempt n d b l p t cache info ≡ record {
      auth = false;
      ipinfo = record info { tries = some (k + 1); max = some need; tried = some (ts ++ t ∷ []) };
      cached = cache;
    }
unfolding attempt count
attempt_early n d b l p t cache info k need ts h new early =
    rw (h.0, h.1, h.2, new, lt→ltb (k + 1) need early)

ltb_irr : (a b : ℕ) → a ≡ b → ltb a b ≡ false
ltb_irr a b h = ground arith

eqb : (a b : ℕ) → a ≡ b → (a == b) ≡ true
eqb a b h = ground arith

late_ltb : (a b : ℕ) → b < a → ltb a b ≡ false
late_ltb a b h = ground arith

late_eqb : (a b : ℕ) → b < a → (a == b) ≡ false
late_eqb a b h = ground arith

returning_refused :
    (b l p t : Text) (cache tried : List Text) (info : IpInfo)
    → (returning b l p t cache tried info).auth ≡ false
unfolding returning
returning_refused b l p t cache tried info = elim (Option-cases info.user) [
  | inl e ↦ rw e
  | inr (u, e) ↦ elim (Option-cases info.pw) [ inl f ↦ rw (e, f) | inr (w, f) ↦ rw (e, f) ]
]

attempt_last :
    (n d : ℕ) (b l p t : Text) (cache : List Text) (info : IpInfo) (k need : ℕ) (ts : List Text)
    → Counted d info k need ts
    → contains t ts ≡ false
    → k + 1 ≡ need
    → (attempt n d b l p t cache info).auth ≡ true
unfolding attempt count
attempt_last n d b l p t cache info k need ts h new last =
    rw (h.0, h.1, h.2, new, ltb_irr (k + 1) need last, eqb (k + 1) need last)

attempt_late :
    (n d : ℕ) (b l p t : Text) (cache : List Text) (info : IpInfo) (k need : ℕ) (ts : List Text)
    → Counted d info k need ts
    → need ≤ k
    → (attempt n d b l p t cache info).auth ≡ false
unfolding attempt count
attempt_late n d b l p t cache info k need ts h late = elim (Bool-cases (contains t ts)) [
  | inl old ↦ rw (h.2, old)
  | inr new ↦ rw (
    h.0,
    h.1,
    h.2,
    new,
    late_ltb (k + 1) need (omega (arith, late)),
    late_eqb (k + 1) need (omega (arith, late)),
    returning_refused b l p t cache (or_else info.tried []) (record info {
      tries = some (or_else info.tries 0 + 1);
      max = some (or_else info.max d);
      tried = some (or_else info.tried []);
    }),
  )
]

-- A combination that the cache holds lets in from everywhere. An address that had its number of
-- attempts is refused for every other combination, the stored one included.
pub checklogin-late :
    (str : Text → Text) (drawn : ℕ) (s : AuthRandom) (thelogin thepasswd src_ip : Text)
    (info : IpInfo) (k need : ℕ) (ts : List Text)
    → lookup src_ip s.uservar.ips ≡ some info
    → Counted drawn info k need ts
    → need ≤ k
    → (checklogin str drawn s thelogin thepasswd src_ip).0
      ≡ contains (userpass str thelogin thepasswd) (or_else s.uservar.cache [])
unfolding checklogin visit from_cache
checklogin-late str drawn s thelogin thepasswd src_ip info k need ts found h late =
    elim (Bool-cases (contains (userpass str thelogin thepasswd) (or_else s.uservar.cache []))) [
      | inl hit ↦ rw (found, hit)
      | inr miss ↦ rw (
        found,
        miss,
        attempt_late s.maxcache drawn thelogin (str thelogin) (str thepasswd)
            (userpass str thelogin thepasswd) (or_else s.uservar.cache []) info k need ts h late,
      )
    ]

-- Attempts of one address, one after the other.
abbrev pub Login : Type 0
Login = Text × Text

abbrev pub answers : (Text → Text) → ℕ → AuthRandom → Text → List Login → List Bool
answers str drawn s ip [] = []
answers str drawn s ip (q ∷ qs) =
    (checklogin str drawn s q.0 q.1 ip).0
    ∷ answers str drawn (checklogin str drawn s q.0 q.1 ip).1 ip qs

-- Refused at every attempt but the last.
abbrev pub in_at_last : List Login → List Bool
in_at_last [] = true ∷ []
in_at_last (q ∷ qs) = false ∷ in_at_last qs

-- Combinations that are not in the cache, and that were not tried before.
abbrev pub New : (Text → Text) → List Text → List Text → List Login → Type 0
New str cache ts [] = Unit
New str cache ts (q ∷ qs) =
    (contains (userpass str q.0 q.1) cache ≡ false)
    × (contains (userpass str q.0 q.1) ts ≡ false)
    × New str cache (ts ++ userpass str q.0 q.1 ∷ []) qs

pub checklogin_early :
    (str : Text → Text) (drawn : ℕ) (s : AuthRandom) (ip : Text) (q : Login) (k need : ℕ)
    (ts : List Text)
    → Counted drawn (entry drawn (lookup ip s.uservar.ips)) k need ts
    → contains (userpass str q.0 q.1) (or_else s.uservar.cache []) ≡ false
    → contains (userpass str q.0 q.1) ts ≡ false
    → k + 1 < need
    → checklogin str drawn s q.0 q.1 ip
      ≡ put s ip (record {
        auth = false;
        ipinfo = record (entry drawn (lookup ip s.uservar.ips)) {
          tries = some (k + 1);
          max = some need;
          tried = some (ts ++ userpass str q.0 q.1 ∷ []);
        };
        cached = or_else s.uservar.cache [];
      })
unfolding checklogin
checklogin_early str drawn s ip q k need ts h miss new early = ap (put s ip) (
    visit_miss s.maxcache drawn q.0 (str q.0) (str q.1) (userpass str q.0 q.1)
      (or_else s.uservar.cache []) (lookup ip s.uservar.ips) miss
    ∙ attempt_early s.maxcache drawn q.0 (str q.0) (str q.1) (userpass str q.0 q.1)
        (or_else s.uservar.cache []) (entry drawn (lookup ip s.uservar.ips)) k need ts h new early)

pub checklogin_last :
    (str : Text → Text) (drawn : ℕ) (s : AuthRandom) (ip : Text) (q : Login) (k need : ℕ)
    (ts : List Text)
    → Counted drawn (entry drawn (lookup ip s.uservar.ips)) k need ts
    → contains (userpass str q.0 q.1) (or_else s.uservar.cache []) ≡ false
    → contains (userpass str q.0 q.1) ts ≡ false
    → k + 1 ≡ need
    → (checklogin str drawn s q.0 q.1 ip).0 ≡ true
unfolding checklogin
checklogin_last str drawn s ip q k need ts h miss new last =
    ap (λ o. o.auth)
      (visit_miss s.maxcache drawn q.0 (str q.0) (str q.1) (userpass str q.0 q.1)
        (or_else s.uservar.cache []) (lookup ip s.uservar.ips) miss)
    ∙ attempt_last s.maxcache drawn q.0 (str q.0) (str q.1) (userpass str q.0 q.1)
        (or_else s.uservar.cache []) (entry drawn (lookup ip s.uservar.ips)) k need ts h new last
