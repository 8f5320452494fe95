-- ===== src/Shell/Resolved.antt =====
-- Resolving a path once is enough.
use mathlib.Core.Path.{subst}
use vo_iphoneypot.Common.{
  All, List, Text, [], ap, arith, if_both, if◌then◌else◌, length, refl, select, some, sym, text_eq,
  ℕ, ◌<◌, ◌==◌, ◌∙◌, ◌∷◌, ◌≡◌,
}
use vo_iphoneypot.Shell.Normal.{Component, walk-Component, walk_components}
use vo_iphoneypot.Shell.Paths.{components, move, not_empty, resolve_path, slash, walk}
use vo_iphoneypot.Strings.{
  NonEmptyWord, Word, join, join_starts, rstrip, rstrip-join, rstrip_cons, split, split-Word,
  split-join,
}

pub nonempty : (w : Text) → Component w → NonEmptyWord slash w
unfolding text_eq
nonempty [] h = absurd (ground (arith, h.1))
nonempty (c ∷ w) h = (omega arith, h.2)

pub nonempties : (ws : List Text) → All Component ws → All (NonEmptyWord slash) ws
nonempties [] h = tt
nonempties (w ∷ ws) h = (nonempty w h.0, nonempties ws h.1)

pub words : (ws : List Text) → All Component ws → All (Word slash) ws
words [] h = tt
words (w ∷ ws) h = (h.0.2, words ws h.1)

unfoldable pub absolute : List Text → Text
absolute cs = slash ∷ join slash cs

pub joined : (w : Text) (ws : List Text) → All Component (w ∷ ws) → 0 < length (join slash (w ∷ ws))
joined [] ws h = absurd (omega (arith, (nonempty [] h.0).0))
joined (c ∷ v) ws h = join_starts slash c v ws

pub split-absolute :
    (w : Text) (ws : List Text)
    → All Component (w ∷ ws)
    → split slash (absolute (w ∷ ws)) ≡ [] ∷ w ∷ ws
unfolding split absolute
split-absolute w ws h = ap (λ x. [] ∷ x) (split-join slash w ws h.0.2 (words ws h.1))

pub select_every : (ws : List Text) → All (NonEmptyWord slash) ws → select not_empty ws ≡ ws
unfolding select
select_every [] h = refl
select_every ([] ∷ ws) h = absurd (omega (arith, h.0.0))
select_every ((c ∷ w) ∷ ws) h = ap (λ x. (c ∷ w) ∷ x) (select_every ws h.1)

-- The components of a path that was put together are those it was made of.
pub components-absolute : (cs : List Text) → All Component cs → components (absolute cs) ≡ cs
unfolding components absolute select split join
components-absolute [] h = refl
components-absolute (w ∷ ws) h =
    ap (select not_empty) (split-absolute w ws h) ∙ select_every (w ∷ ws) (nonempties (w ∷ ws) h)

from_root : (ws : List Text) → All Component ws → walk [] ([] ∷ ws) ≡ ws
unfolding walk move text_eq
from_root ws h = walk_components ws [] h

slash_only : (cwd : Text) → resolve_path (slash ∷ []) cwd ≡ some (slash ∷ [])
unfolding resolve_path rstrip split walk move text_eq join
slash_only cwd = refl

pub resolve_absolute :
    (cs : List Text) (cwd : Text)
    → All Component cs
    → resolve_path (absolute cs) cwd ≡ some (absolute cs)
unfolding resolve_path absolute join
resolve_absolute [] cwd h = slash_only cwd
resolve_absolute (w ∷ ws) cwd h =
    ap (λ x. some (slash ∷ join slash (walk [] (split slash x))))
      (rstrip_cons slash slash (join slash (w ∷ ws))
        (rstrip-join slash w ws (nonempties (w ∷ ws) h)) (joined w ws h))
    ∙ ap (λ x. some (slash ∷ join slash (walk [] x))) (split-absolute w ws h)
    ∙ ap (λ x. some (slash ∷ join slash x)) (from_root (w ∷ ws) h)

-- A directory whose components are plain: no `.` and no `..` is among them.
abbrev pub Normal : Text → Type 0
Normal cwd = All Component (components cwd)

start_Normal :
    (c : ℕ) (cwd : Text) → Normal cwd → All Component (if c == slash then [] else components cwd)
start_Normal c cwd h = if_both (All Component) (c == slash) [] (components cwd) tt h

-- What a path walks to from a directory.
abbrev pub target : ℕ → Text → Text → List Text
target c path cwd =
    walk (if c == slash then [] else components cwd) (split slash (rstrip slash (c ∷ path)))

target-Component : (c : ℕ) (path cwd : Text) → Normal cwd → All Component (target c path cwd)
target-Component c path cwd h =
    walk-Component (split slash (rstrip slash (c ∷ path)))
      (if c == slash then [] else components cwd) (split-Word slash (rstrip slash (c ∷ path)))
      (start_Normal c cwd h)

-- A path that is not empty, resolved from a directory with plain components, gives a path with plain
-- components, and resolving that one again, from any directory, changes nothing.
pub resolve_path-Normal :
    (c : ℕ) (path cwd cwd' : Text)
    → Normal cwd
    → (resolved : Text) × (resolve_path (c ∷ path) cwd ≡ some resolved)
      × Normal resolved
      × (resolve_path resolved cwd' ≡ some resolved)
unfolding resolve_path absolute
resolve_path-Normal c path cwd cwd' h = (
  absolute (target c path cwd),
  refl,
  subst (All Component)
      (sym (components-absolute (target c path cwd) (target-Component c path cwd h)))
      (target-Component c path cwd h),
  resolve_absolute (target c path cwd) cwd' (target-Component c path cwd h),
)
