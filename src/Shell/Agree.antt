-- ===== src/Shell/Agree.antt =====
-- Paths that are written with plain components: how they are taken apart, and that getfile and
-- get_path find the same entry for them.
use vo_iphoneypot.Common.{
  All, Bool, List, Text, [], ap, append-nil, arith, false, length, refl, some, suc, sym, text_eq, ℕ,
  ◌++◌, ◌<◌, ◌∙◌, ◌∷◌, ◌≡◌,
}
use vo_iphoneypot.Shell.Files.{found_or}
use vo_iphoneypot.Shell.Lookup.{get_path, getfile, last_of, strip_slash, strip_slashes}
use vo_iphoneypot.Shell.Normal.{Component}
use vo_iphoneypot.Shell.Objects.{FileSystem, file_not_found, ok}
use vo_iphoneypot.Shell.Paths.{components, slash}
use vo_iphoneypot.Shell.Plain.{NamesDiffer, NoLinks, descend, follow_plain, walk_plain}
use vo_iphoneypot.Shell.Resolved.{
  absolute, components-absolute, joined, nonempties, nonempty, words,
}
use vo_iphoneypot.Strings.{NonEmptyWord, join, rstrip, rstrip-join, rstrip_cons, split-join}

head_not_slash : (w : Text) (t : Text) → NonEmptyWord slash w → strip_slashes (w ++ t) ≡ w ++ t
unfolding strip_slashes
head_not_slash [] t h = absurd (omega (arith, h.0))
head_not_slash (c ∷ w) t h = rw (h.1.0) refl

pub strip_joined :
    (w : Text) (ws : List Text)
    → NonEmptyWord slash w
    → strip_slashes (join slash (w ∷ ws)) ≡ join slash (w ∷ ws)
unfolding join
strip_joined w [] h = ap strip_slashes (sym (append-nil w)) ∙ head_not_slash w [] h ∙ append-nil w
strip_joined w (v ∷ vs) h = head_not_slash w (slash ∷ join slash (v ∷ vs)) h

pub rstrip-absolute :
    (w : Text) (ws : List Text)
    → All Component (w ∷ ws)
    → rstrip slash (absolute (w ∷ ws)) ≡ absolute (w ∷ ws)
unfolding absolute
rstrip-absolute w ws h =
    rstrip_cons slash slash (join slash (w ∷ ws)) (rstrip-join slash w ws (nonempties (w ∷ ws) h))
      (joined w ws h)

pub strip_slash-absolute :
    (w : Text) (ws : List Text)
    → All Component (w ∷ ws)
    → strip_slash (absolute (w ∷ ws)) ≡ join slash (w ∷ ws)
unfolding strip_slash strip_slashes absolute
strip_slash-absolute w ws h = rw (rstrip-absolute w ws h) (strip_joined w ws (nonempty w h.0))

longer_than_root : (t : Text) → 0 < length t → text_eq (slash ∷ t) (slash ∷ []) ≡ false
unfolding text_eq
longer_than_root [] k = absurd (omega (arith, k))
longer_than_root (c ∷ t) k = refl

not_root :
    (w : Text) (ws : List Text)
    → All Component (w ∷ ws)
    → text_eq (absolute (w ∷ ws)) (slash ∷ []) ≡ false
unfolding absolute
not_root w ws h = longer_than_root (join slash (w ∷ ws)) (joined w ws h)

root_itself :
    (limit : ℕ) (s : FileSystem) (b : Bool) → getfile (suc limit) s (slash ∷ []) b ≡ ok (some s.fs)
unfolding getfile text_eq
root_itself limit s b = refl

-- getfile of such a path, where it ends.
pub getfile-absolute :
    (limit : ℕ) (s : FileSystem) (cs : List Text) (b : Bool)
    → NoLinks s
    → NamesDiffer s
    → All Component cs
    → getfile (suc limit) s (absolute cs) b ≡ ok (descend s s.fs cs)
unfolding getfile descend absolute join
getfile-absolute limit s [] b nl nd h = root_itself limit s b
getfile-absolute limit s (w ∷ ws) b nl nd h =
    rw (not_root w ws h, strip_slash-absolute w ws h, split-join slash w ws h.0.2 (words ws h.1))
      (follow_plain (λ t. getfile limit s t b) s b (last_of (w ∷ ws)) (w ∷ ws) s.fs nl nd)

pub get_path-absolute :
    (limit : ℕ) (s : FileSystem) (cs : List Text) (b : Bool)
    → NoLinks s
    → All Component cs
    → get_path limit s (absolute cs) b ≡ found_or file_not_found (descend s s.fs cs)
unfolding get_path components
get_path-absolute limit s cs b nl h =
    rw (components-absolute cs h) (walk_plain (λ t. getfile limit s t b) s cs s.fs nl)

-- Where no entry is a link and no directory has a name twice, getfile and get_path, whether links
-- are followed or not, find for the root and for an absolute path of plain components, without a
-- slash at its end, the entry that is reached by going down one component at a time, if there is
-- one; otherwise getfile returns False and get_path raises FileNotFound.
pub lookups_agree :
    (limit : ℕ) (s : FileSystem) (cs : List Text) (b : Bool)
    → NoLinks s
    → NamesDiffer s
    → All Component cs
    → (getfile (suc limit) s (absolute cs) b ≡ ok (descend s s.fs cs))
      × (get_path limit s (absolute cs) b ≡ found_or file_not_found (descend s s.fs cs))
lookups_agree limit s cs b nl nd h =
    (getfile-absolute limit s cs b nl nd h, get_path-absolute limit s cs b nl h)
