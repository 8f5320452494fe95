-- ===== src/Shell/Split.antt =====
-- dirname and basename of a path with plain components.
use vo_iphoneypot.Common.{
  All, List, Text, [], ap, append_assoc, arith, false, if◌then◌else◌, length, refl, sym, true, ◌++◌,
  ◌<◌, ◌∙◌, ◌∷◌, ◌≡◌,
}
use vo_iphoneypot.Shell.Agree.{rstrip-absolute, strip_slash-absolute}
use vo_iphoneypot.Shell.Lookup.{strip_slash, strip_slashes}
use vo_iphoneypot.Shell.Names.{basename, dirname, has_slash, up_to_slash}
use vo_iphoneypot.Shell.Normal.{Component}
use vo_iphoneypot.Shell.Paths.{not_empty, slash}
use vo_iphoneypot.Shell.Resolved.{absolute, joined}
use vo_iphoneypot.Strings.{Word, join, keep_unless, rstrip}

slash_free : (w : Text) → Word slash w → has_slash w ≡ false
slash_free [] h = refl
slash_free (c ∷ w) h = rw (h.0) (slash_free w h.1)

pub slash_free_up : (w : Text) → Word slash w → up_to_slash w ≡ []
unfolding up_to_slash
slash_free_up [] h = refl
slash_free_up (c ∷ w) h = rw (slash_free_up w h.1, h.0) refl

pub up_last : (t w : Text) → Word slash w → up_to_slash (t ++ slash ∷ w) ≡ t ++ slash ∷ []
unfolding up_to_slash
up_last [] w h = rw (slash_free_up w h) refl
up_last (c ∷ []) w h = rw (up_last [] w h) refl
up_last (c ∷ d ∷ t) w h = rw (up_last (d ∷ t) w h) refl

slash_inside : (t w : Text) → has_slash (t ++ slash ∷ w) ≡ true
slash_inside [] w = refl
slash_inside (c ∷ t) w = ground (arith, slash_inside t w)

base_last : (t w : Text) → Word slash w → basename (t ++ slash ∷ w) ≡ w
unfolding basename
base_last [] [] h = refl
base_last [] (c ∷ w) h = rw (slash_free (c ∷ w) h) refl
base_last (c ∷ t) w h = rw (slash_inside (c ∷ t) w) (base_last t w h)

pub rstrip_snoc : (t : Text) → rstrip slash (t ++ slash ∷ []) ≡ rstrip slash t
unfolding rstrip keep_unless
rstrip_snoc [] = refl
rstrip_snoc (c ∷ t) = rw (rstrip_snoc t) refl

pub join_snoc :
    (w : Text) (ws : List Text) (n : Text)
    → join slash ((w ∷ ws) ++ n ∷ []) ≡ join slash (w ∷ ws) ++ slash ∷ n
unfolding join
join_snoc w [] n = refl
join_snoc w (v ∷ vs) n =
    ap (λ x. w ++ slash ∷ x) (join_snoc v vs n)
    ∙ sym (append_assoc w (slash ∷ join slash (v ∷ vs)) (slash ∷ n))

-- What stands before the last separator.
before : List Text → Text
before [] = []
before (w ∷ ws) = absolute (w ∷ ws)

absolute_snoc : (ds : List Text) (n : Text) → absolute (ds ++ n ∷ []) ≡ before ds ++ slash ∷ n
unfolding absolute before join
absolute_snoc [] n = refl
absolute_snoc (w ∷ ws) n = ap (λ x. slash ∷ x) (join_snoc w ws n)

pub not_empty_of : (t : Text) → 0 < length t → not_empty t ≡ true
not_empty_of [] h = absurd (omega (arith, h))
not_empty_of (c ∷ t) h = refl

only_slash :
    (if not_empty (strip_slash (slash ∷ [])) then rstrip slash (slash ∷ []) else slash ∷ [])
    ≡ absolute []
unfolding strip_slash strip_slashes rstrip keep_unless absolute join
only_slash = refl

strip_before :
    (w : Text) (ws : List Text)
    → All Component (w ∷ ws)
    → strip_slash (absolute (w ∷ ws) ++ slash ∷ []) ≡ join slash (w ∷ ws)
unfolding strip_slash
strip_before w ws h = rw (rstrip_snoc (absolute (w ∷ ws))) (strip_slash-absolute w ws h)

dir_before :
    (ds : List Text)
    → All Component ds
    → (let up = before ds ++ slash ∷ [] in
        if not_empty (strip_slash up) then rstrip slash up else up)
      ≡ absolute ds
unfolding before
dir_before [] h = only_slash
dir_before (w ∷ ws) h =
    rw
      (
        strip_before w ws h,
        not_empty_of (join slash (w ∷ ws)) (joined w ws h),
        rstrip_snoc (absolute (w ∷ ws)),
      )
      (rstrip-absolute w ws h)

pub dirname-absolute :
    (ds : List Text) (n : Text)
    → All Component ds
    → Word slash n
    → dirname (absolute (ds ++ n ∷ [])) ≡ absolute ds
unfolding dirname
dirname-absolute ds n h k = rw (absolute_snoc ds n, up_last (before ds) n k) (dir_before ds h)

pub basename-absolute :
    (ds : List Text) (n : Text) → Word slash n → basename (absolute (ds ++ n ∷ [])) ≡ n
basename-absolute ds n k = rw (absolute_snoc ds n) (base_last (before ds) n k)
