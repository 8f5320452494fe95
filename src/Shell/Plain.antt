-- ===== src/Shell/Plain.antt =====
-- Lookup where no entry is a link and no directory has a name twice: getfile and get_path walk down
-- the components of the path.
use vo_iphoneypot.Common.{
  Bool, Bool-cases, List, Option, Text, [], arith, contains, false, if_both, inl, inr, none, not,
  or_false, or_true, refl, some, sym, text_eq, text_eq→eq, true, ℕ, ◌&&◌, ◌∷◌, ◌≡◌,
}
use vo_iphoneypot.Shell.Files.{found_or}
use vo_iphoneypot.Shell.Lookup.{
  enter_entry, first_named, follow_pieces, go_to, if_found, search_contents, step_into, subscript,
  walk_parts,
}
use vo_iphoneypot.Shell.Objects.{
  FileSystem, FsResult, entry_at, file_not_found, is_kind, names, ok, t_link, ◌>>=◌,
}

abbrev pub and_down : (ℕ → Option ℕ) → Option ℕ → Option ℕ
and_down f none = none
and_down f (some q) = f q

-- The entry under an entry, a component at a time.
unfoldable pub descend : FileSystem → ℕ → List Text → Option ℕ
descend s p [] = some p
descend s p (w ∷ ws) = and_down (λ q. descend s q ws) (first_named s w (entry_at s p).a_contents)

-- No name is there twice.
abbrev pub NoRepeats : List Text → Type 0
NoRepeats [] = Unit
NoRepeats (w ∷ ws) = (contains w ws ≡ false) × NoRepeats ws

abbrev pub NoLinks : FileSystem → Type 0
NoLinks s = (i : ℕ) → is_kind (entry_at s i).a_type t_link ≡ false

abbrev pub NamesDiffer : FileSystem → Type 0
NamesDiffer s = (i : ℕ) → NoRepeats (names s (entry_at s i).a_contents)

enter_plain :
    (again : Text → FsResult (Option ℕ)) (s : FileSystem) (b last : Bool) (x : ℕ)
    → NoLinks s
    → enter_entry again s b last x ≡ ok (some x)
unfolding enter_entry
enter_plain again s b last x h = rw (h x) (
    if_both (λ (r : FsResult (Option ℕ)). r ≡ ok (some x)) (last && not b) (ok (some x))
      (ok (some x)) refl refl)

pub first_named-none :
    (s : FileSystem) (w : Text) (xs : List ℕ)
    → contains w (names s xs) ≡ false
    → first_named s w xs ≡ none
unfolding first_named contains
first_named-none s w [] h = refl
first_named-none s w (x ∷ xs) h =
    let (other, rest) = or_false (text_eq (entry_at s x).a_name w) (contains w (names s xs)) h in
    rw (other, first_named-none s w xs rest) refl

-- No entry of the name: the loop changes nothing.
search_none :
    (again : Text → FsResult (Option ℕ)) (s : FileSystem) (b last : Bool) (w : Text) (xs : List ℕ)
    (p : ℕ)
    → contains w (names s xs) ≡ false
    → search_contents again s b last w xs p ≡ ok (some p)
unfolding search_contents contains
search_none again s b last w [] p h = refl
search_none again s b last w (x ∷ xs) p h =
    let (other, rest) = or_false (text_eq (entry_at s x).a_name w) (contains w (names s xs)) h in
    rw (other, search_none again s b last w xs p rest) refl

pub repeat_none :
    (s : FileSystem) (w : Text) (x : ℕ) (xs : List ℕ)
    → NoRepeats (names s (x ∷ xs))
    → text_eq (entry_at s x).a_name w ≡ true
    → contains w (names s xs) ≡ false
repeat_none s w x xs h same = rw (sym (text_eq→eq (entry_at s x).a_name w same)) h.0

-- Names that differ: the last entry of the name is the first one.
search_first :
    (again : Text → FsResult (Option ℕ)) (s : FileSystem) (b last : Bool) (w : Text) (xs : List ℕ)
    (p : ℕ)
    → NoLinks s
    → NoRepeats (names s xs)
    → contains w (names s xs) ≡ true
    → search_contents again s b last w xs p ≡ ok (first_named s w xs)
unfolding search_contents contains first_named
search_first again s b last w [] p nl h k = absurd (ground (arith, k))
search_first again s b last w (x ∷ xs) p nl h k =
    elim (Bool-cases (text_eq (entry_at s x).a_name w)) [
      | inl same ↦
          rw
            (
              same,
              enter_plain again s b last x nl,
              search_none again s b last w xs x (repeat_none s w x xs h same),
            )
            refl
      | inr other ↦
          rw
            (
              other,
              search_first again s b last w xs p nl h.1
                  (or_true (text_eq (entry_at s x).a_name w) (contains w (names s xs)) k other),
            )
            refl
    ]

step_plain :
    (again : Text → FsResult (Option ℕ)) (s : FileSystem) (b last : Bool) (w : Text) (p : ℕ)
    → NoLinks s
    → NamesDiffer s
    → step_into again s b last w p ≡ ok (first_named s w (entry_at s p).a_contents)
unfolding step_into
step_plain again s b last w p nl nd =
    elim (Bool-cases (contains w (names s (entry_at s p).a_contents))) [
      | inl there ↦
          rw (there, search_first again s b last w (entry_at s p).a_contents p nl (nd p) there) refl
      | inr missing ↦ rw (missing, first_named-none s w (entry_at s p).a_contents missing) refl
    ]

follow_found :
    (again : Text → FsResult (Option ℕ)) (s : FileSystem) (b : Bool) (last : Text) (ws : List Text)
    (o : Option ℕ)
    → ((q : ℕ) → follow_pieces again s b last ws q ≡ ok (descend s q ws))
    → if_found (ok o) (λ q. follow_pieces again s b last ws q)
      ≡ ok (and_down (λ q. descend s q ws) o)
follow_found again s b last ws none h = refl
follow_found again s b last ws (some q) h = h q

pub follow_plain :
    (again : Text → FsResult (Option ℕ)) (s : FileSystem) (b : Bool) (last : Text) (ws : List Text)
    (p : ℕ)
    → NoLinks s
    → NamesDiffer s
    → follow_pieces again s b last ws p ≡ ok (descend s p ws)
unfolding follow_pieces descend
follow_plain again s b last [] p nl nd = refl
follow_plain again s b last (w ∷ ws) p nl nd =
    rw (step_plain again s b (text_eq w last) w p nl nd) (
      follow_found again s b last ws (first_named s w (entry_at s p).a_contents)
        (λ q. follow_plain again s b last ws q nl nd))

go_plain :
    (again : Text → FsResult (Option ℕ)) (s : FileSystem) (o : Option ℕ)
    → NoLinks s
    → go_to again s o ≡ (found_or file_not_found o >>= (λ q. ok (some q)))
unfolding go_to
go_plain again s none nl = refl
go_plain again s (some q) nl = rw (nl q) refl

parts_found :
    (again : Text → FsResult (Option ℕ)) (s : FileSystem) (ws : List Text) (o : Option ℕ)
    → ((q : ℕ) → walk_parts again s ws (some q) ≡ found_or file_not_found (descend s q ws))
    → (found_or file_not_found o >>= (λ q. ok (some q)) >>= (λ n. walk_parts again s ws n))
      ≡ found_or file_not_found (and_down (λ q. descend s q ws) o)
parts_found again s ws none h = refl
parts_found again s ws (some q) h = h q

pub walk_plain :
    (again : Text → FsResult (Option ℕ)) (s : FileSystem) (ws : List Text) (p : ℕ)
    → NoLinks s
    → walk_parts again s ws (some p) ≡ found_or file_not_found (descend s p ws)
unfolding walk_parts descend subscript
walk_plain again s [] p nl = refl
walk_plain again s (w ∷ ws) p nl =
    rw (go_plain again s (first_named s w (entry_at s p).a_contents) nl) (
      parts_found again s ws (first_named s w (entry_at s p).a_contents)
        (λ q. walk_plain again s ws q nl))
