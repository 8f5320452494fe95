-- ===== src/Auth/Cache.antt =====
-- The cache of AuthRandom never outgrows its bound.
use vo_iphoneypot.Auth.Random.{
  AuthRandom, IpInfo, Outcome, attempt, checklogin, count, fresh, from_cache, lookup, or_else,
  remember, returning, userpass, visit,
}
use vo_iphoneypot.Common.{
  List, Option, Option-cases, Text, [], arith, contains, if_both, inl, inr, length, length-append,
  length-drop, ltb, none, some, ℕ, ◌++◌, ◌+◌, ◌==◌, ◌∷◌, ◌≤◌,
}

remember_bound :
    (n : ℕ) (t : Text) (cache : List Text) → length cache ≤ n → length (remember n t cache) ≤ n
unfolding remember
remember_bound n t cache h =
    ground (arith, length-append cache (t ∷ []), length-drop 1 (cache ++ t ∷ []))

Within : ℕ → Outcome → Type 0
Within n o = length o.cached ≤ n

returning_bound :
    (n : ℕ) (b l p t : Text) (cache tried : List Text) (info : IpInfo)
    → length cache ≤ n
    → Within n (returning b l p t cache tried info)
unfolding returning Within
returning_bound n b l p t cache tried info h = elim (Option-cases info.user) [
  | inl e ↦ rw e h
  | inr (u, e) ↦ elim (Option-cases info.pw) [ inl f ↦ rw (e, f) h | inr (w, f) ↦ rw (e, f) h ]
]

count_bound :
    (n : ℕ) (b l p t : Text) (cache : List Text) (k m : ℕ) (tried : List Text) (info : IpInfo)
    → length cache ≤ n
    → Within n (count n b l p t cache k m tried info)
unfolding count Within
count_bound n b l p t cache k m tried info h = if_both (Within n) (ltb k m) _ _ h (
    if_both (Within n) (k == m) _ _ (remember_bound n t cache h)
      (returning_bound n b l p t cache tried info h))

attempt_bound :
    (n d : ℕ) (b l p t : Text) (cache : List Text) (info : IpInfo)
    → length cache ≤ n
    → Within n (attempt n d b l p t cache info)
unfolding attempt Within
attempt_bound n d b l p t cache info h =
    if_both (Within n) (contains t (or_else info.tried [])) _ _ h (
      count_bound n b l p t cache (or_else info.tries 0 + 1) (or_else info.max d)
        (or_else info.tried [])
        (record info {
          tries = some (or_else info.tries 0 + 1);
          max = some (or_else info.max d);
          tried = some (or_else info.tried []);
        })
        h)

visit_bound :
    (n d : ℕ) (b l p t : Text) (cache : List Text) (o : Option IpInfo)
    → length cache ≤ n
    → Within n (visit n d b l p t cache o)
unfolding visit from_cache Within
visit_bound n d b l p t cache none h =
    if_both (Within n) (contains t cache) _ _ h
      (attempt_bound n d b l p t cache (record fresh { tries = some 0; max = some d }) h)
visit_bound n d b l p t cache (some info) h =
    if_both (Within n) (contains t cache) _ _ h (attempt_bound n d b l p t cache info h)

-- The cache of an object is within its bound.
abbrev pub CacheFits : AuthRandom → Type 0
CacheFits s = length (or_else s.uservar.cache []) ≤ s.maxcache

-- No login makes the cache of combinations longer than `maxcache`.
pub checklogin-CacheFits :
    (str : Text → Text) (drawn : ℕ) (s : AuthRandom) (thelogin thepasswd src_ip : Text)
    → CacheFits s
    → CacheFits (checklogin str drawn s thelogin thepasswd src_ip).1
unfolding checklogin Within
checklogin-CacheFits str drawn s thelogin thepasswd src_ip h =
    visit_bound s.maxcache drawn thelogin (str thelogin) (str thepasswd)
      (userpass str thelogin thepasswd) (or_else s.uservar.cache []) (lookup src_ip s.uservar.ips) h
