-- ===== src/Pool/Laws/Positions.antt =====
-- Searching for a guest and assigning to the guest that was found.
use vo_iphoneypot.Common.{
  All, Bool, List, [], ap, arith, false, get_elem?, if◌then◌else◌, none, refl, some, suc, true,
  zero, ℕ, ◌∷◌, ◌≡◌, ◌≢◌,
}
use vo_iphoneypot.Pool.Guest.{Guest}
use vo_iphoneypot.Pool.State.{find_index, update_at, update_first, update_where}

pub find_index_hit :
    (p : Guest → Bool) (gs : List Guest) (i : ℕ)
    → find_index p gs ≡ some i
    → (g : Guest) × (get_elem? gs i ≡ some g) × (p g ≡ true)
unfolding find_index
find_index_hit p [] i h = cc
find_index_hit p (g ∷ gs) zero h = (g, refl, ground arith)
find_index_hit p (g ∷ gs) (suc i) h = find_index_hit p gs i (ground arith)

-- No guest passes the test exactly when the search finds none.
pub find_index-none :
    (p : Guest → Bool) (gs : List Guest) → find_index p gs ≡ none → All (λ g. p g ≡ false) gs
unfolding find_index
find_index-none p [] h = tt
find_index-none p (g ∷ gs) h = (ground arith, find_index-none p gs (ground arith))

pub get_elem?-update_at :
    (i : ℕ) (f : Guest → Guest) (gs : List Guest) (g : Guest)
    → get_elem? gs i ≡ some g
    → get_elem? (update_at i f gs) i ≡ some (f g)
unfolding update_at
get_elem?-update_at i f [] g h = cc
get_elem?-update_at zero f (x ∷ gs) g h = ground arith
get_elem?-update_at (suc i) f (x ∷ gs) g h = get_elem?-update_at i f gs g h

pub get_elem?-update_at_ne :
    (i j : ℕ) (f : Guest → Guest) (gs : List Guest)
    → i ≢ j
    → get_elem? (update_at i f gs) j ≡ get_elem? gs j
unfolding update_at
get_elem?-update_at_ne i j f [] h = refl
get_elem?-update_at_ne zero zero f (x ∷ gs) h = absurd (h refl)
get_elem?-update_at_ne zero (suc j) f (x ∷ gs) h = refl
get_elem?-update_at_ne (suc i) zero f (x ∷ gs) h = refl
get_elem?-update_at_ne (suc i) (suc j) f (x ∷ gs) h =
    get_elem?-update_at_ne i j f gs (λ e. h (ap suc e))

-- The guest found first stays the first, if it passes after the assignment.
pub find_index-update_at_hit :
    (p : Guest → Bool) (f : Guest → Guest) (gs : List Guest) (i : ℕ) (g : Guest)
    → find_index p gs ≡ some i
    → get_elem? gs i ≡ some g
    → p (f g) ≡ true
    → find_index p (update_at i f gs) ≡ some i
unfolding find_index update_at
find_index-update_at_hit p f [] i g h at ok = cc
find_index-update_at_hit p f (x ∷ gs) zero g h at ok = ground arith
find_index-update_at_hit p f (x ∷ gs) (suc i) g h at ok =
    ground (arith, find_index-update_at_hit p f gs i g)

-- A guest that comes to pass a test which no guest passed is the one that it finds.
pub find_index-update_at_new :
    (p : Guest → Bool) (f : Guest → Guest) (gs : List Guest) (i : ℕ) (g : Guest)
    → find_index p gs ≡ none
    → get_elem? gs i ≡ some g
    → p (f g) ≡ true
    → find_index p (update_at i f gs) ≡ some i
unfolding find_index update_at
find_index-update_at_new p f [] i g h at ok = cc
find_index-update_at_new p f (x ∷ gs) zero g h at ok = ground arith
find_index-update_at_new p f (x ∷ gs) (suc i) g h at ok =
    ground (arith, find_index-update_at_new p f gs i g)

-- An assignment to the first match is an assignment at its position.
pub update_first_at :
    (p : Guest → Bool) (f : Guest → Guest) (gs : List Guest) (i : ℕ)
    → find_index p gs ≡ some i
    → update_first p f gs ≡ update_at i f gs
unfolding find_index update_first update_at
update_first_at p f [] i h = cc
update_first_at p f (g ∷ gs) zero h = ground arith
update_first_at p f (g ∷ gs) (suc i) h = ground (arith, update_first_at p f gs i)

pub update_at-update_at :
    (i : ℕ) (f f' : Guest → Guest) (gs : List Guest)
    → update_at i f (update_at i f' gs) ≡ update_at i (λ g. f (f' g)) gs
unfolding update_at
update_at-update_at i f f' [] = refl
update_at-update_at zero f f' (g ∷ gs) = refl
update_at-update_at (suc i) f f' (g ∷ gs) = rw (update_at-update_at i f f' gs)

pub get_elem?-update_where :
    (p : Guest → Bool) (f : Guest → Guest) (i : ℕ) (gs : List Guest) (g : Guest)
    → get_elem? gs i ≡ some g
    → get_elem? (update_where p f gs) i ≡ some (if p g then f g else g)
unfolding update_where
get_elem?-update_where p f i [] g h = cc
get_elem?-update_where p f zero (x ∷ gs) g h = ground arith
get_elem?-update_where p f (suc i) (x ∷ gs) g h = get_elem?-update_where p f i gs g h
