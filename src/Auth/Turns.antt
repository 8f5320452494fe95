-- ===== src/Auth/Turns.antt =====
-- A whole series of attempts of one address with AuthRandom.
use vo_iphoneypot.Auth.Attempts.{
  Counted, Login, New, answers, checklogin_early, checklogin_last, entry, in_at_last, lookup-assign,
}
use vo_iphoneypot.Auth.Random.{AuthRandom, IpInfo, lookup, or_else, put, userpass}
use vo_iphoneypot.Common.{
  Bool, List, Text, [], ap, arith, false, length, none, refl, some, ℕ, ◌++◌, ◌+◌, ◌∷◌, ◌≡◌,
}

put-Counted :
    (s : AuthRandom) (ip : Text) (drawn : ℕ) (info : IpInfo) (c : List Text) (b : Bool) (k need : ℕ)
    (ts : List Text)
    → Counted drawn
        (entry drawn (
          lookup ip
            (put s ip (record {
              auth = b;
              ipinfo = record info { tries = some k; max = some need; tried = some ts };
              cached = c;
            })).1.uservar.ips))
        k
        need
        ts
put-Counted s ip drawn info c b k need ts =
    rw
      (lookup-assign ip (record info { tries = some k; max = some need; tried = some ts })
        s.uservar.ips)
      (refl, refl, refl)

answers_from :
    (str : Text → Text) (drawn : ℕ) (s : AuthRandom) (ip : Text) (qs : List Login) (q : Login)
    (k need : ℕ) (ts : List Text)
    → Counted drawn (entry drawn (lookup ip s.uservar.ips)) k need ts
    → New str (or_else s.uservar.cache []) ts (qs ++ q ∷ [])
    → k + length qs + 1 ≡ need
    → answers str drawn s ip (qs ++ q ∷ []) ≡ in_at_last qs
answers_from str drawn s ip [] q k need ts h new n =
    rw (checklogin_last str drawn s ip q k need ts h new.0 new.1 (omega (arith, n)))
answers_from str drawn s ip (r ∷ qs) q k need ts h new n =
    rw (checklogin_early str drawn s ip r k need ts h new.0 new.1 (omega (arith, n))) (
      ap (λ w. false ∷ w)
        (answers_from str drawn
          (put s ip (record {
            auth = false;
            ipinfo = record (entry drawn (lookup ip s.uservar.ips)) {
              tries = some (k + 1);
              max = some need;
              tried = some (ts ++ userpass str r.0 r.1 ∷ []);
            };
            cached = or_else s.uservar.cache [];
          })).1
          ip qs q (k + 1) need (ts ++ userpass str r.0 r.1 ∷ [])
          (put-Counted s ip drawn (entry drawn (lookup ip s.uservar.ips))
            (or_else s.uservar.cache []) false (k + 1) need (ts ++ userpass str r.0 r.1 ∷ []))
          new.2 (omega (arith, n))))

-- An address that was not seen before and that tries different combinations, none of them in the
-- cache, is refused until the drawn number of attempts, and let in at exactly that one.
pub checklogin_first_visit :
    (str : Text → Text) (drawn : ℕ) (s : AuthRandom) (ip : Text) (qs : List Login) (q : Login)
    → lookup ip s.uservar.ips ≡ none
    → New str (or_else s.uservar.cache []) [] (qs ++ q ∷ [])
    → length qs + 1 ≡ drawn
    → answers str drawn s ip (qs ++ q ∷ []) ≡ in_at_last qs
checklogin_first_visit str drawn s ip qs q unseen new n =
    answers_from str drawn s ip qs q 0 drawn [] (rw unseen (refl, refl, refl)) new
      (omega (arith, n))
