-- ===== src/Shell/Normal.antt =====
-- The paths that resolve_path makes.
use vo_iphoneypot.Common.{
  All, All-append, Bool-cases, List, Text, [], append-nil, append_assoc, false, inl, inr, sym,
  text_eq, ◌++◌, ◌||◌, ◌∙◌, ◌∷◌, ◌≡◌,
}
use vo_iphoneypot.Shell.Paths.{dot, dot_dot, move, pop, slash, walk}
use vo_iphoneypot.Strings.{Word}

-- A component of a normal path: no separator in it, not empty, and neither `.` nor `..`.
abbrev pub Component : Text → Type 0
Component w = (text_eq w dot_dot ≡ false) × ((text_eq w dot || text_eq w []) ≡ false) × Word slash w

pop-All : (P : Text → Type 0) (cs : List Text) → All P cs → All P (pop cs)
unfolding pop
pop-All P [] h = h
pop-All P (c ∷ []) h = tt
pop-All P (c ∷ d ∷ cs) h = (h.0, pop-All P (d ∷ cs) h.1)

move-Component :
    (w : Text) (cwd : List Text) → Word slash w → All Component cwd → All Component (move w cwd)
unfolding move
move-Component w cwd h hs = elim (Bool-cases (text_eq w dot_dot)) [
  | inl up ↦ rw up (pop-All Component cwd hs)
  | inr not_up ↦ elim (Bool-cases (text_eq w dot || text_eq w [])) [
    | inl stay ↦ rw (not_up, stay) hs
    | inr plain ↦ rw (not_up, plain) (All-append Component cwd (w ∷ []) hs ((not_up, plain, h), tt))
  ]
]

pub walk-Component :
    (ps cwd : List Text) → All (Word slash) ps → All Component cwd → All Component (walk cwd ps)
unfolding walk
walk-Component [] cwd h hs = hs
walk-Component (p ∷ ps) cwd h hs = walk-Component ps (move p cwd) h.1 (move-Component p cwd h.0 hs)

-- Components are put behind the directory as they are.
pub walk_components : (ps cwd : List Text) → All Component ps → walk cwd ps ≡ cwd ++ ps
unfolding walk move
walk_components [] cwd h = sym (append-nil cwd)
walk_components (p ∷ ps) cwd h =
    rw (h.0.0, h.0.1) (walk_components ps (cwd ++ p ∷ []) h.1 ∙ append_assoc cwd (p ∷ []) ps)
