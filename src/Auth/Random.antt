-- ===== src/Auth/Random.antt =====
-- AuthRandom of cowrie/src/cowrie/core/auth.py, under Python 3: a source address gets in after a
-- drawn number of different attempts. `str` of a byte string is an argument, and so is the number
-- that `randint` draws.
use vo_iphoneypot.Common.{
  Bool, List, Option, Text, [], contains, drop, false, if◌then◌else◌, length, ltb, none, some,
  text_eq, true, ℕ, ◌&&◌, ◌++◌, ◌+◌, ◌==◌, ◌∷◌,
}

pub record IpInfo : Type 0 where
  pub tries : Option ℕ
  pub max : Option ℕ
  pub tried : Option (List Text)
  pub user : Option Text
  pub pw : Option Text

-- `uservar`, whose key 'cache' is kept apart from the addresses.
pub record Uservar : Type 0 where
  pub cache : Option (List Text)
  pub ips : List (Text × IpInfo)

-- The object and the file auth_random.json.
pub record AuthRandom : Type 0 where
  pub mintry : ℕ
  pub maxtry : ℕ
  pub maxcache : ℕ
  pub uservar : Uservar
  pub uservar_file : Option Uservar

abbrev pub no_vars : Uservar
no_vars = record { cache = none; ips = [] }

-- `loadvars`
unfoldable pub loadvars : AuthRandom → AuthRandom
loadvars s = elim s.uservar_file [ none ↦ s | some vars ↦ record s { uservar = vars } ]

-- `__init__`, with the parameters of the configuration, when there are three
unfoldable pub init : Option (ℕ × ℕ × ℕ) → Option Uservar → AuthRandom
unfolding loadvars
init parlist file = elim parlist [
  | none ↦
      loadvars
        (record { mintry = 2; maxtry = 5; maxcache = 10; uservar = no_vars; uservar_file = file })
  | some (a, b, c) ↦ loadvars (record {
    mintry = a;
    maxtry = if ltb b a then a + 1 else b;
    maxcache = c;
    uservar = no_vars;
    uservar_file = file;
  })
]

-- `savevars`
abbrev pub savevars : AuthRandom → AuthRandom
savevars s = record s { uservar_file = some s.uservar }

-- `self.uservar[src_ip]`
unfoldable pub lookup : Text → List (Text × IpInfo) → Option IpInfo
lookup ip [] = none
lookup ip ((k, v) ∷ d) = if text_eq k ip then some v else lookup ip d

unfoldable pub assign : Text → IpInfo → List (Text × IpInfo) → List (Text × IpInfo)
assign ip new [] = (ip, new) ∷ []
assign ip new ((k, v) ∷ d) = if text_eq k ip then (k, new) ∷ d else (k, v) ∷ assign ip new d

abbrev pub or_else {ℓ} : {A : Type ℓ} → Option A → A → A
or_else none d = d
or_else (some a) d = a

-- `cache.append(userpass)`, and the oldest entry goes when there are too many.
unfoldable pub remember : ℕ → Text → List Text → List Text
remember maxcache userpass cache =
    let longer = cache ++ userpass ∷ [] in
    if ltb maxcache (length longer) then drop 1 longer else longer

-- What the branches of an attempt do: the answer, the address's entry, the cache.
pub record Outcome : Type 0 where
  pub auth : Bool
  pub ipinfo : IpInfo
  pub cached : List Text

abbrev pub fresh : IpInfo
fresh = record { tries = none; max = none; tried = none; user = none; pw = none }

-- A combination of the cache lets in at once.
unfoldable pub from_cache : Text → Text → List Text → IpInfo → Outcome
from_cache login passwd cache info = record {
  auth = true;
  ipinfo = record info { max = some 1; user = some login; pw = some passwd };
  cached = cache;
}

-- `thelogin == ipinfo['user']`: bytes are never equal to a str.
abbrev pub bytes_eq_str : Text → Text → Bool
bytes_eq_str a b = false

-- The return of an address that was let in before.
unfoldable pub returning : Text → Text → Text → Text → List Text → List Text → IpInfo → Outcome
returning thelogin login passwd userpass cache tried info = elim info.user [
  | none ↦ record {
    auth = false;
    ipinfo = record info { tries = some 1; tried = some (tried ++ userpass ∷ []) };
    cached = cache;
  }
  | some user ↦ elim info.pw [
    | none ↦ record {
      auth = false;
      ipinfo = record info { tries = some 1; tried = some (tried ++ userpass ∷ []) };
      cached = cache;
    }
    | some pw ↦ record {
      auth = bytes_eq_str thelogin user && text_eq passwd pw;
      ipinfo = info;
      cached = cache;
    }
  ]
]

-- `attempts` against `need`, for an entry whose fields are filled in.
unfoldable pub count :
    ℕ → Text → Text → Text → Text → List Text → ℕ → ℕ → List Text → IpInfo → Outcome
unfolding remember returning
count maxcache thelogin login passwd userpass cache attempts need tried info =
    if ltb attempts need
    then record {
      auth = false;
      ipinfo = record info { tried = some (tried ++ userpass ∷ []) };
      cached = cache;
    }
    else if attempts == need
    then record {
      auth = true;
      ipinfo = record info { user = some login; pw = some passwd };
      cached = remember maxcache userpass cache;
    }
    else returning thelogin login passwd userpass cache tried info

-- An attempt that the cache does not know.
unfoldable pub attempt : ℕ → ℕ → Text → Text → Text → Text → List Text → IpInfo → Outcome
unfolding count
attempt maxcache drawn thelogin login passwd userpass cache info =
    let need = or_else info.max drawn in
    let before = or_else info.tries 0 in
    let tried = or_else info.tried [] in
    let filled = record info { tries = some before; max = some need; tried = some tried } in
    if contains userpass tried
    then record { auth = false; ipinfo = filled; cached = cache }
    else count maxcache thelogin login passwd userpass cache (before + 1) need tried
        (record filled { tries = some (before + 1) })

-- The first visit of an address, and the later ones.
unfoldable pub visit : ℕ → ℕ → Text → Text → Text → Text → List Text → Option IpInfo → Outcome
unfolding from_cache attempt
visit maxcache drawn thelogin login passwd userpass cache none =
    if contains userpass cache
    then from_cache login passwd cache (record fresh { tries = some 0 })
    else attempt maxcache drawn thelogin login passwd userpass cache
        (record fresh { tries = some 0; max = some drawn })
visit maxcache drawn thelogin login passwd userpass cache (some info) =
    if contains userpass cache
    then from_cache login passwd cache info
    else attempt maxcache drawn thelogin login passwd userpass cache info

-- `str(thelogin) + ':' + str(thepasswd)`
abbrev pub userpass : (Text → Text) → Text → Text → Text
userpass str thelogin thepasswd = str thelogin ++ b':' ∷ str thepasswd

abbrev pub put : AuthRandom → Text → Outcome → Bool × AuthRandom
put s src_ip o = (
  o.auth,
  savevars (record s {
    uservar = record { cache = some o.cached; ips = assign src_ip o.ipinfo s.uservar.ips };
  }),
)

-- `checklogin`
unfoldable pub checklogin : (Text → Text) → ℕ → AuthRandom → Text → Text → Text → Bool × AuthRandom
unfolding visit lookup assign
checklogin str drawn s thelogin thepasswd src_ip = put s src_ip (
    visit s.maxcache drawn thelogin (str thelogin) (str thepasswd) (userpass str thelogin thepasswd)
      (or_else s.uservar.cache []) (lookup src_ip s.uservar.ips))
