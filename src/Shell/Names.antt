-- ===== src/Shell/Names.antt =====
-- Python's os.path.dirname and os.path.basename, and the prefixes that mkfile refuses.
use vo_iphoneypot.Common.{Bool, Text, [], codes, false, if◌then◌else◌, not, ◌&&◌, ◌==◌, ◌||◌, ◌∷◌}
use vo_iphoneypot.Shell.Lookup.{strip_slash}
use vo_iphoneypot.Shell.Paths.{not_empty, slash}
use vo_iphoneypot.Strings.{has_prefix, rstrip}

-- `path[:path.rfind('/') + 1]`
unfoldable pub up_to_slash : Text → Text
up_to_slash [] = []
up_to_slash (c ∷ t) =
    let rest = up_to_slash t in if not (not_empty rest) && not (c == slash) then [] else c ∷ rest

-- `os.path.dirname(path)`
unfoldable pub dirname : Text → Text
dirname path =
    let head' = up_to_slash path in
    if not_empty (strip_slash head') then rstrip slash head' else head'

abbrev pub has_slash : Text → Bool
has_slash [] = false
has_slash (c ∷ t) = c == slash || has_slash t

-- `os.path.basename(path)`
unfoldable pub basename : Text → Text
basename [] = []
basename (c ∷ t) = let rest = basename t in if has_slash (c ∷ t) then rest else c ∷ t

-- SPECIAL_PATHS, which mkfile tests as prefixes of the text
unfoldable pub is_special : Text → Bool
is_special path =
    has_prefix (codes "/sys") path
    || has_prefix (codes "/proc") path
    || has_prefix (codes "/dev/pts") path
