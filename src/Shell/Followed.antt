-- ===== src/Shell/Followed.antt =====
-- getfile of cowrie/src/cowrie/shell/fs.py never ends at a link that it follows.
use vo_iphoneypot.Common.{
  Bool, Bool-cases, List, Option, Text, [], ap, arith, contains, false, if_both, if◌then◌else◌, inl,
  inr, none, not, some, suc, text_eq, true, zero, ℕ, ◌&&◌, ◌==◌, ◌∷◌, ◌≡◌, ◌≢◌,
}
use vo_iphoneypot.Shell.Lookup.{
  enter_entry, follow_pieces, getfile, if_found, islink, last_of, link_target, search_contents,
  step_into, strip_slash, type_is,
}
use vo_iphoneypot.Shell.Objects.{FileSystem, FsResult, entry_at, is_kind, names, ok, t_link, throws}
use vo_iphoneypot.Shell.Paths.{slash}
use vo_iphoneypot.Strings.{split}

abbrev pub PlainResult : FileSystem → FsResult (Option ℕ) → Type 0
PlainResult s (ok (some p)) = is_kind (entry_at s p).a_type t_link ≡ false
PlainResult s (ok none) = Unit
PlainResult s (throws e) = Unit

if_found_plain :
    (s : FileSystem) (r : FsResult (Option ℕ)) (f : ℕ → FsResult (Option ℕ))
    → PlainResult s r
    → ((p : ℕ) → is_kind (entry_at s p).a_type t_link ≡ false → PlainResult s (f p))
    → PlainResult s (if_found r f)
if_found_plain s (ok (some p)) f h k = k p h
if_found_plain s (ok none) f h k = tt
if_found_plain s (throws e) f h k = tt

module _ (again : Text → FsResult (Option ℕ)) (s : FileSystem)
    (again_plain : (t : Text) → PlainResult s (again t)) where
  link_plain : (o : Option Text) → PlainResult s (link_target again o)
  unfolding link_target
  link_plain none = tt
  link_plain (some []) = tt
  link_plain (some (c ∷ t)) =
      if_both (PlainResult s) (c == slash) (again (c ∷ t)) (again (slash ∷ c ∷ t))
        (again_plain (c ∷ t)) (again_plain (slash ∷ c ∷ t))

  entered_plain : (last : Bool) (x : ℕ) → PlainResult s (enter_entry again s true last x)
  unfolding enter_entry
  entered_plain last x = elim (Bool-cases (is_kind (entry_at s x).a_type t_link)) [
    | inl a_link ↦ rw (never last, a_link) (link_plain (entry_at s x).a_target)
    | inr plain ↦ rw (never last, plain) plain
  ]
    where
      never : (b : Bool) → (b && not true) ≡ false
      never b = ground arith

  search_plain :
      (last : Bool) (w : Text) (xs : List ℕ) (p : ℕ)
      → is_kind (entry_at s p).a_type t_link ≡ false
      → PlainResult s (search_contents again s true last w xs p)
  unfolding search_contents
  search_plain last w [] p h = h
  search_plain last w (x ∷ xs) p h =
      if_found_plain s
        (if text_eq (entry_at s x).a_name w then enter_entry again s true last x else ok (some p))
        (λ q. search_contents again s true last w xs q)
        (if_both (PlainResult s) (text_eq (entry_at s x).a_name w) (enter_entry again s true last x)
          (ok (some p)) (entered_plain last x) h)
        (λ q k. search_plain last w xs q k)

  stepped_plain :
      (last : Bool) (w : Text) (p : ℕ)
      → is_kind (entry_at s p).a_type t_link ≡ false
      → PlainResult s (step_into again s true last w p)
  unfolding step_into
  stepped_plain last w p h =
      if_both (PlainResult s) (contains w (names s (entry_at s p).a_contents))
        (search_contents again s true last w (entry_at s p).a_contents p) (ok none)
        (search_plain last w (entry_at s p).a_contents p h) tt

  followed_plain :
      (last : Text) (ws : List Text) (p : ℕ)
      → is_kind (entry_at s p).a_type t_link ≡ false
      → PlainResult s (follow_pieces again s true last ws p)
  unfolding follow_pieces
  followed_plain last [] p h = h
  followed_plain last (w ∷ ws) p h =
      if_found_plain s (step_into again s true (text_eq w last) w p)
        (λ q. follow_pieces again s true last ws q) (stepped_plain (text_eq w last) w p h)
        (λ q k. followed_plain last ws q k)

getfile-PlainResult :
    (limit : ℕ) (s : FileSystem) (path : Text)
    → is_kind (entry_at s s.fs).a_type t_link ≡ false
    → PlainResult s (getfile limit s path true)
unfolding getfile
getfile-PlainResult zero s path root = tt
getfile-PlainResult (suc limit) s path root =
    let pieces = split slash (strip_slash path) in
    if_both (PlainResult s) (text_eq path (slash ∷ [])) (ok (some s.fs))
      (follow_pieces (λ t. getfile limit s t true) s true (last_of pieces) pieces s.fs) root
      (followed_plain (λ t. getfile limit s t true) s (λ t. getfile-PlainResult limit s t root)
        (last_of pieces) pieces s.fs root)

got : FsResult Bool → Bool
got (ok b) = b
got (throws e) = false

type_is_false :
    (s : FileSystem) (r : FsResult (Option ℕ)) → PlainResult s r → type_is s t_link r ≢ ok true
unfolding got
type_is_false s (throws x) h e = ground (arith, ap got e)
type_is_false s (ok none) h e = ground (arith, ap got e)
type_is_false s (ok (some f)) h e = ground (arith, ap got e, h)

-- Whatever links there are, islink never returns True, if the root is no link: it asks for the type
-- of what the path leads to after links were followed.
pub islink_never :
    (limit : ℕ) (s : FileSystem) (path : Text)
    → is_kind (entry_at s s.fs).a_type t_link ≡ false
    → islink limit s path ≢ ok true
unfolding islink
islink_never limit s path root =
    type_is_false s (getfile limit s path true) (getfile-PlainResult limit s path root)
