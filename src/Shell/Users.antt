-- ===== src/Shell/Users.antt =====
-- What cowrie/src/cowrie/shell/pwd.py finds.
use vo_iphoneypot.Common.{
  All, List, Option, Text, [], ap, ap₂, false, map, none, pos, refl, some, ℤ, ◌++◌, ◌∙◌, ◌∷◌, ◌≡◌,
}
use vo_iphoneypot.Shell.Passwd.{PwEntry, id_or_default, is_comment, load_passwd, pw_entry}
use vo_iphoneypot.Strings.{Word, join, split, split-join, strip}

-- The line of an entry, its numbers written by `show_number`.
abbrev pub passwd_line : (ℤ → Text) → PwEntry → Text
passwd_line show_number e = join b':' (
    e.pw_name
    ∷ e.pw_passwd
    ∷ show_number e.pw_uid
    ∷ show_number e.pw_gid
    ∷ e.pw_gecos
    ∷ e.pw_dir
    ∷ e.pw_shell
    ∷ [])

-- No field holds a colon, the line is neither a comment nor cut by strip, and the two numbers are read
-- as they were written.
abbrev pub PlainEntry : (Text → Option ℤ) → (ℤ → Text) → PwEntry → Type 0
PlainEntry number show_number e =
    All (Word b':') (
      e.pw_name
      ∷ e.pw_passwd
      ∷ show_number e.pw_uid
      ∷ show_number e.pw_gid
      ∷ e.pw_gecos
      ∷ e.pw_dir
      ∷ e.pw_shell
      ∷ [])
    × (strip (passwd_line show_number e ++ 10 ∷ []) ≡ passwd_line show_number e)
    × (is_comment (passwd_line show_number e) ≡ false)
    × (number (show_number e.pw_uid) ≡ some e.pw_uid)
    × (number (show_number e.pw_gid) ≡ some e.pw_gid)

abbrev pub passwd_lines : (ℤ → Text) → List PwEntry → List Text
passwd_lines show_number es = map (λ e. passwd_line show_number e ++ 10 ∷ []) es

fields_read :
    (number : Text → Option ℤ) (show_number : ℤ → Text) (e : PwEntry)
    → PlainEntry number show_number e
    → pw_entry number (split b':' (passwd_line show_number e)) ≡ some e
unfolding pw_entry id_or_default
fields_read number show_number e w =
    ap (pw_entry number) (
      split-join b':' e.pw_name
        (e.pw_passwd
          ∷ show_number e.pw_uid
          ∷ show_number e.pw_gid
          ∷ e.pw_gecos
          ∷ e.pw_dir
          ∷ e.pw_shell
          ∷ [])
        w.0.0 w.0.1)
    ∙ ap₂
        (λ (u g : Option ℤ). some (record e {
          pw_uid = (elim u [ none ↦ pos 1001 | some n ↦ n ]);
          pw_gid = (elim g [ none ↦ pos 1001 | some n ↦ n ]);
        }))
        w.3 w.4

-- A passwd file that holds the lines of some entries is loaded as these entries, in their order, if
-- their numbers are read as they were written, no field holds a colon, and no line is a comment or
-- begins or ends in blanks.
pub load_passwd-passwd_lines :
    (number : Text → Option ℤ) (show_number : ℤ → Text) (es : List PwEntry)
    → All (PlainEntry number show_number) es
    → load_passwd number (passwd_lines show_number es) ≡ es
unfolding load_passwd
load_passwd-passwd_lines number show_number [] w = refl
load_passwd-passwd_lines number show_number (e ∷ es) w =
    rw (w.0.1, w.0.2, fields_read number show_number e w.0)
      (ap (λ (x : List PwEntry). e ∷ x) (load_passwd-passwd_lines number show_number es w.1))
