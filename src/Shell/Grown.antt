-- ===== src/Shell/Grown.antt =====
-- A new entry in a directory keeps the file system well-formed, and puts one path into the map from
-- paths to entries; mkfile of cowrie/src/cowrie/shell/fs.py makes one.
use mathlib.Core.Path.{subst}
use vo_iphoneypot.Common.{
  ==_iff, All, All-append, All-imp, List, [], ap, arith, if_true, if◌then◌else◌, refl, suc, sym, ℕ,
  ℕ_discrete, ◌++◌, ◌<◌, ◌==◌, ◌∙◌, ◌∷◌, ◌≡◌, ◌≢◌,
}
use vo_iphoneypot.Shell.Files.{add_new, contents_at, set_contents}
use vo_iphoneypot.Shell.Made.{added, added_new, dir_contents, other_contents}
use vo_iphoneypot.Shell.Objects.{Entry, FileSystem, allocate, put_entry}
use vo_iphoneypot.Shell.Update.{Child, Children}

assign_at : ℕ → ℕ → (ℕ → ℕ) → ℕ → ℕ
assign_at n v f i = if i == n then v else f i

assign_same : (n v : ℕ) (f : ℕ → ℕ) → assign_at n v f n ≡ v
unfolding assign_at
assign_same n v f = if_true (n == n) v (f n) ((==_iff n n).1 refl)

assign_other : (n v : ℕ) (f : ℕ → ℕ) (i : ℕ) → i ≢ n → assign_at n v f i ≡ f i
unfolding assign_at
assign_other n v f i h = ground (arith, h)

module _ (s : FileSystem) (d : ℕ) (cs : List ℕ) (e : Entry) (in_use : d < s.next_address)
    (depth parent : ℕ → ℕ) (tree : Children s depth parent)
    (kept_children : All (Child s depth parent d) cs) (empty : e.a_contents ≡ []) where
  pub depth' : ℕ → ℕ
  depth' = assign_at s.next_address (suc (depth d)) depth

  pub parent' : ℕ → ℕ
  parent' = assign_at s.next_address d parent

  remains_below :
      (i c : ℕ)
      → i ≢ s.next_address
      → Child s depth parent i c
      → Child (added s d cs e in_use) depth' parent' i c
  unfolding depth' parent' add_new set_contents put_entry allocate
  remains_below i c k h = (
    omega (arith, h.0),
    assign_other s.next_address (suc (depth d)) depth c (λ x. omega (arith, x, h.0))
        ∙ h.1
        ∙ ap (λ x. suc x) (sym (assign_other s.next_address (suc (depth d)) depth i k)),
    assign_other s.next_address d parent c (λ x. omega (arith, x, h.0)) ∙ h.2,
  )

  lands_below : Child (added s d cs e in_use) depth' parent' d s.next_address
  unfolding depth' parent' add_new set_contents put_entry allocate
  lands_below = (
    omega arith,
    assign_same s.next_address (suc (depth d)) depth
        ∙ ap (λ x. suc x)
            (sym (
              assign_other s.next_address (suc (depth d)) depth d (λ x. omega (arith, x, in_use)))),
    assign_same s.next_address d parent,
  )

  in_dir : All (Child (added s d cs e in_use) depth' parent' d) (cs ++ s.next_address ∷ [])
  in_dir =
      All-append (Child (added s d cs e in_use) depth' parent' d) cs (s.next_address ∷ [])
        (All-imp (Child s depth parent d) (Child (added s d cs e in_use) depth' parent' d) cs
          (λ c. remains_below d c (λ x. omega (arith, x, in_use))) kept_children)
        (lands_below, tt)

  new_contents : contents_at (added s d cs e in_use) s.next_address ≡ []
  new_contents = ap (λ (x : Entry). x.a_contents) (added_new s d cs e in_use) ∙ empty

  -- What holds of the contents of the directory, of nothing, and of the other directories, holds of
  -- all contents.
  pub every_contents {κ} :
      (P : ℕ → List ℕ → Type κ)
      → P d (cs ++ s.next_address ∷ [])
      → P s.next_address []
      → ((i : ℕ) → i ≢ d → i ≢ s.next_address → P i (contents_at s i))
      → (i : ℕ) → P i (contents_at (added s d cs e in_use) i)
  every_contents P here' new' else' i = elim (ℕ_discrete i d) [
    | yes same ↦
        subst (λ j. P j (contents_at (added s d cs e in_use) j)) (sym same)
          (subst (P d) (sym (dir_contents s d cs e in_use)) here')
    | no other ↦ elim (ℕ_discrete i s.next_address) [
      | yes same ↦
          subst (λ j. P j (contents_at (added s d cs e in_use) j)) (sym same)
            (subst (P s.next_address) (sym new_contents) new')
      | no neither ↦
          subst (P i) (sym (other_contents s d cs e in_use i other neither)) (else' i other neither)
    ]
  ]

  pub grown_tree : Children (added s d cs e in_use) depth' parent'
  grown_tree =
      every_contents (λ i xs. All (Child (added s d cs e in_use) depth' parent' i) xs) in_dir tt
        λ i other neither.
          All-imp (Child s depth parent i) (Child (added s d cs e in_use) depth' parent' i)
            (contents_at s i) (λ c. remains_below i c neither) (tree i)
