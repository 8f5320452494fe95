-- ===== src/Shell/Examples.antt =====
-- Runs of the file system's paths.
use vo_iphoneypot.Common.{Text, codes, refl, select, some, text_eq, ◌≡◌}
use vo_iphoneypot.Shell.Paths.{components, resolve_path}
use vo_iphoneypot.Shell.Resolved.{Normal, resolve_path-Normal}
use vo_iphoneypot.Strings.{split}

resolve_path-Normal_example :
    (resolved : Text) × (resolve_path (codes "../etc//./passwd/") (codes "/home/root")
      ≡ some resolved)
    × Normal resolved
    × (resolve_path resolved (codes "/tmp") ≡ some resolved)
unfolding components split select text_eq
resolve_path-Normal_example =
    resolve_path-Normal b'.' (codes "./etc//./passwd/") (codes "/home/root") (codes "/tmp") (
      (refl, refl, (refl, (refl, (refl, (refl, tt))))),
      ((refl, refl, (refl, (refl, (refl, (refl, tt))))), tt),
    )
