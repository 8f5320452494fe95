-- ===== src/Shell/Passwd.antt =====
-- The users and groups of cowrie/src/cowrie/shell/pwd.py.
use vo_iphoneypot.Common.{
  Bool, List, Option, Text, [], codes, eqb_ℤ, if◌then◌else◌, none, pos, some, text_eq, true, ℕ, ℤ,
  ◌++◌, ◌==◌, ◌∷◌,
}
use vo_iphoneypot.Strings.{split, strip}

-- An entry of /etc/passwd.
pub record PwEntry : Type 0 where
  pub pw_name : Text
  pub pw_passwd : Text
  pub pw_uid : ℤ
  pub pw_gid : ℤ
  pub pw_gecos : Text
  pub pw_dir : Text
  pub pw_shell : Text

-- `int(t)`, or 1001 where it is no number; `number` is Python's int, and `none` ValueError.
unfoldable pub id_or_default : (Text → Option ℤ) → Text → ℤ
id_or_default number t = elim (number t) [ none ↦ pos 1001 | some n ↦ n ]

abbrev pub is_comment : Text → Bool
is_comment [] = true
is_comment (c ∷ t) = c == b'#'

-- The entry of the fields of a line; a line with another number of fields is skipped.
unfoldable pub pw_entry : (Text → Option ℤ) → List Text → Option PwEntry
pw_entry number (name ∷ passwd ∷ uid ∷ gid ∷ gecos ∷ home' ∷ login_shell ∷ []) = some (record {
  pw_name = name;
  pw_passwd = passwd;
  pw_uid = id_or_default number uid;
  pw_gid = id_or_default number gid;
  pw_gecos = gecos;
  pw_dir = home';
  pw_shell = login_shell;
})
pw_entry number _ = none

abbrev keep_entry : Option PwEntry → List PwEntry → List PwEntry
keep_entry none es = es
keep_entry (some e) es = e ∷ es

-- The loop of `Passwd.load` over the lines of the file.
unfoldable pub load_passwd : (Text → Option ℤ) → List Text → List PwEntry
load_passwd number [] = []
load_passwd number (rawline ∷ lines) =
    let line = strip rawline in
    let rest = load_passwd number lines in
    if is_comment line then rest else keep_entry (pw_entry number (split b':' line)) rest

-- `getpwnam`; `none` is KeyError.
unfoldable pub getpwnam : Text → List PwEntry → Option PwEntry
getpwnam name [] = none
getpwnam name (e ∷ es) =
    let rest = getpwnam name es in if text_eq name e.pw_name then some e else rest

-- `getpwuid`
unfoldable pub getpwuid : ℤ → List PwEntry → Option PwEntry
getpwuid uid [] = none
getpwuid uid (e ∷ es) = let rest = getpwuid uid es in if eqb_ℤ uid e.pw_uid then some e else rest

-- The entry of `setpwentry`; `drawn` is the number that randint gives for the name as the seed. Its
-- pw_gecos is the number 0, written out.
unfoldable pub session_entry : (Text → ℕ) → Text → PwEntry
session_entry drawn name = record {
  pw_name = name;
  pw_passwd = codes "x";
  pw_uid = pos (drawn name);
  pw_gid = pos (drawn name);
  pw_gecos = codes "0";
  pw_dir = codes "/home/" ++ name;
  pw_shell = codes "/bin/bash";
}

-- `setpwentry`
unfoldable pub setpwentry : (Text → ℕ) → Text → List PwEntry → PwEntry × List PwEntry
setpwentry drawn name passwd = (session_entry drawn name, passwd ++ session_entry drawn name ∷ [])

-- An entry of /etc/group.
pub record GrEntry : Type 0 where
  pub gr_name : Text
  pub gr_gid : ℤ
  pub gr_mem : Text

unfoldable pub gr_entry : (Text → Option ℤ) → List Text → Option GrEntry
gr_entry number (name ∷ passwd ∷ gid ∷ mem ∷ []) =
    some (record { gr_name = name; gr_gid = id_or_default number gid; gr_mem = mem })
gr_entry number _ = none

abbrev and_group : Option GrEntry → Option (List GrEntry) → Option (List GrEntry)
and_group none rest = none
and_group (some e) none = none
and_group (some e) (some es) = some (e ∷ es)

-- The loop of `Group.load`; `none` is the ValueError of a line with another number of fields.
unfoldable pub load_group : (Text → Option ℤ) → List Text → Option (List GrEntry)
load_group number [] = some []
load_group number (rawline ∷ lines) =
    let line = strip rawline in
    let rest = load_group number lines in
    if is_comment line then rest else and_group (gr_entry number (split b':' line)) rest

-- `getgrnam`
unfoldable pub getgrnam : Text → List GrEntry → Option GrEntry
getgrnam name [] = none
getgrnam name (e ∷ es) =
    let rest = getgrnam name es in if text_eq name e.gr_name then some e else rest

-- `getgrgid`
unfoldable pub getgrgid : ℤ → List GrEntry → Option GrEntry
getgrgid gid [] = none
getgrgid gid (e ∷ es) = let rest = getgrgid gid es in if eqb_ℤ gid e.gr_gid then some e else rest
