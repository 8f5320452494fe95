-- ===== src/Shell/Made.antt =====
-- mkfile of cowrie/src/cowrie/shell/fs.py on a file system without links in which no directory has a
-- name twice.
use vo_iphoneypot.Common.{
  ==_iff, All, List, Text, [], ap, ap₂, arith, contains, false, if_true, or_false, refl, some, sym,
  text_eq, text_eq_refl, ℕ, ℕ_discrete, ◌++◌, ◌<◌, ◌==◌, ◌∙◌, ◌∷◌, ◌≡◌, ◌≢◌,
}
use vo_iphoneypot.Shell.Files.{add_new, contents_at, set_contents}
use vo_iphoneypot.Shell.Lookup.{first_named}
use vo_iphoneypot.Shell.Objects.{Entry, FileSystem, allocate, entry_at, names, put_entry}
use vo_iphoneypot.Shell.Plain.{NamesDiffer, NoLinks}
use vo_iphoneypot.Shell.Update.{Children}

-- The addresses that are in use, and the tree that the contents make.
abbrev pub Tree : FileSystem → Type 0
Tree s = (depth : ℕ → ℕ) × (parent : ℕ → ℕ) × Children s depth parent × (s.fs < s.next_address)

-- A tree in which no directory has a name twice, without links.
abbrev pub WellFormed : FileSystem → Type 0
WellFormed s = Tree s × NoLinks s × NamesDiffer s

pub put_same : (i : ℕ) (e : Entry) (s : FileSystem) → entry_at (put_entry i e s) i ≡ e
unfolding put_entry
put_same i e s = if_true (i == i) e (entry_at s i) ((==_iff i i).1 refl)

pub put_other :
    (i j : ℕ) (e : Entry) (s : FileSystem) → j ≢ i → entry_at (put_entry i e s) j ≡ entry_at s j
unfolding put_entry
put_other i j e s h = ground (arith, h)

-- The file system after the directory at `d` was given the contents `cs` and a new entry.
module _ (s : FileSystem) (d : ℕ) (cs : List ℕ) (e : Entry) (in_use : d < s.next_address) where
  abbrev pub added : FileSystem
  added = add_new d cs e s

  allocated_other : (i : ℕ) → i ≢ s.next_address → entry_at (allocate e s) i ≡ entry_at s i
  unfolding allocate
  allocated_other i h = put_other s.next_address i e s h

  pub added_new : entry_at added s.next_address ≡ e
  unfolding add_new set_contents allocate
  added_new =
      put_other d s.next_address
        (record (entry_at (allocate e s) d) { a_contents = cs ++ s.next_address ∷ [] })
        (allocate e s) (λ h. omega (arith, h, in_use))
      ∙ put_same s.next_address e s

  pub added_dir :
      entry_at added d ≡ record (entry_at s d) { a_contents = cs ++ s.next_address ∷ [] }
  unfolding add_new set_contents
  added_dir =
      put_same d (record (entry_at (allocate e s) d) { a_contents = cs ++ s.next_address ∷ [] })
        (allocate e s)
      ∙ ap (λ (x : Entry). record x { a_contents = cs ++ s.next_address ∷ [] })
          (allocated_other d (λ h. omega (arith, h, in_use)))

  pub added_other : (i : ℕ) → i ≢ d → i ≢ s.next_address → entry_at added i ≡ entry_at s i
  unfolding add_new set_contents
  added_other i h k =
      put_other d i (record (entry_at (allocate e s) d) { a_contents = cs ++ s.next_address ∷ [] })
        (allocate e s) h
      ∙ allocated_other i k

  -- The names of the old entries, and the contents of the other directories, are kept.
  pub added_name : (i : ℕ) → i < s.next_address → (entry_at added i).a_name ≡ (entry_at s i).a_name
  added_name i h = elim (ℕ_discrete i d) [
    | yes same ↦
        ap (λ x. (entry_at added x).a_name) same
        ∙ ap (λ (x : Entry). x.a_name) added_dir
        ∙ ap (λ x. (entry_at s x).a_name) (sym same)
    | no other ↦ ap (λ (x : Entry). x.a_name) (added_other i other (λ k. omega (arith, h, k)))
  ]

  pub added-names : (xs : List ℕ) → All (λ c. c < s.next_address) xs → names added xs ≡ names s xs
  added-names [] h = refl
  added-names (x ∷ xs) h = ap₂ (λ w ws. w ∷ ws) (added_name x h.0) (added-names xs h.1)

  pub added_first :
      (w : Text) (xs : List ℕ)
      → All (λ c. c < s.next_address) xs
      → first_named added w xs ≡ first_named s w xs
  unfolding first_named
  added_first w [] h = refl
  added_first w (x ∷ xs) h = rw (added_name x h.0, added_first w xs h.1) refl

  added_last_name : (w : Text) → e.a_name ≡ w → (entry_at added s.next_address).a_name ≡ w
  added_last_name w h = ap (λ (x : Entry). x.a_name) added_new ∙ h

  pub first_last_other :
      (w : Text) (xs : List ℕ)
      → text_eq e.a_name w ≡ false
      → All (λ c. c < s.next_address) xs
      → first_named added w (xs ++ s.next_address ∷ []) ≡ first_named s w xs
  unfolding first_named
  first_last_other w [] k h = rw (added_last_name e.a_name refl, k) refl
  first_last_other w (x ∷ xs) k h = rw (added_name x h.0, first_last_other w xs k h.1) refl

  pub first_last_new :
      (w : Text) (xs : List ℕ)
      → e.a_name ≡ w
      → contains w (names s xs) ≡ false
      → All (λ c. c < s.next_address) xs
      → first_named added w (xs ++ s.next_address ∷ []) ≡ some s.next_address
  unfolding first_named contains
  first_last_new w [] k m h = rw (added_last_name w k, text_eq_refl w) refl
  first_last_new w (x ∷ xs) k m h =
      let (other, rest) = or_false (text_eq (entry_at s x).a_name w) (contains w (names s xs)) m in
      rw (added_name x h.0, other, first_last_new w xs k rest h.1) refl

  pub dir_contents : contents_at added d ≡ cs ++ s.next_address ∷ []
  dir_contents = ap (λ (x : Entry). x.a_contents) added_dir

  pub other_contents : (i : ℕ) → i ≢ d → i ≢ s.next_address → contents_at added i ≡ contents_at s i
  other_contents i h k = ap (λ (x : Entry). x.a_contents) (added_other i h k)
