-- ===== src/Shell/Rm.antt =====
-- What rm of cowrie/src/cowrie/commands/fs.py does to one path.
use mathlib.Core.Option.{some-injective, none-ne-some}
use vo_iphoneypot.Common.{
  All, All-unappend, Bool, Bool-cases, List, Text, [], ap, contains, false, if_false, if_true, inl,
  inr, or_false, refl, some, suc, sym, text_eq, text_eq_refl, true, ℕ, ◌++◌, ◌∙◌, ◌∷◌, ◌≡◌,
}
use vo_iphoneypot.Shell.Agree.{get_path-absolute}
use vo_iphoneypot.Shell.Commands.{
  Command, ShellState, done_with, last_part, parent_of, resolved, rm_all, rm_entries, rm_entry,
  rm_found, rm_one, then_with,
}
use vo_iphoneypot.Shell.Dropped.{remove_equal-first}
use vo_iphoneypot.Shell.Files.{contents_at, found_or}
use vo_iphoneypot.Shell.Forgets.{all_names, without, without_name}
use vo_iphoneypot.Shell.Lookup.{first_named, get_path, last_of}
use vo_iphoneypot.Shell.Mkdir.{get_path-join}
use vo_iphoneypot.Shell.Normal.{Component}
use vo_iphoneypot.Shell.Objects.{
  FileSystem, entry_at, file_not_found, index_error, is_kind, names, ok, t_dir,
}
use vo_iphoneypot.Shell.Paths.{pop, slash}
use vo_iphoneypot.Shell.Plain.{NamesDiffer, NoLinks, NoRepeats, descend, repeat_none}
use vo_iphoneypot.Shell.Resolved.{absolute, resolve_absolute, split-absolute}
use vo_iphoneypot.Shell.Update.{first_named_name}
use vo_iphoneypot.Strings.{join, split}

pop_last : (w : Text) (ws : List Text) (n : Text) → pop (w ∷ ws ++ n ∷ []) ≡ w ∷ ws
unfolding pop
pop_last w [] n = refl
pop_last w (v ∷ vs) n = ap (λ (x : List Text). w ∷ x) (pop_last v vs n)

last_snoc : (w : Text) (ws : List Text) (n : Text) → last_of (w ∷ ws ++ n ∷ []) ≡ n
last_snoc w [] n = refl
last_snoc w (v ∷ vs) n = last_snoc v vs n

split_pieces :
    (ds : List Text) (n : Text)
    → All Component (ds ++ n ∷ [])
    → split slash (absolute (ds ++ n ∷ [])) ≡ [] ∷ ds ++ n ∷ []
split_pieces [] n h = split-absolute n [] h
split_pieces (w ∷ ws) n h = split-absolute w (ws ++ n ∷ []) h

last_part-absolute :
    (ds : List Text) (n : Text)
    → All Component (ds ++ n ∷ [])
    → last_part (absolute (ds ++ n ∷ [])) ≡ n
last_part-absolute ds n h = ap last_of (split_pieces ds n h) ∙ last_snoc [] ds n

joined_path :
    (limit : ℕ) (s : FileSystem) (w : Text) (ws : List Text)
    → NoLinks s
    → All Component (w ∷ ws)
    → get_path limit s (join slash ([] ∷ w ∷ ws)) true
      ≡ found_or file_not_found (descend s s.fs (w ∷ ws))
unfolding join absolute
joined_path limit s w ws nl k = get_path-absolute limit s (w ∷ ws) true nl k

-- The directory of the path, as rm looks it up.
pub get_path-parent_of :
    (limit : ℕ) (s : FileSystem) (ds : List Text) (n : Text)
    → NoLinks s
    → All Component (ds ++ n ∷ [])
    → get_path limit s (parent_of (absolute (ds ++ n ∷ []))) true
      ≡ found_or file_not_found (descend s s.fs ds)
unfolding parent_of join
get_path-parent_of limit s ds n nl h =
    ap (λ (x : Text). get_path limit s x true)
      (ap (λ (x : List Text). join slash (pop x)) (split_pieces ds n h)
        ∙ ap (join slash) (pop_last [] ds n))
    ∙ from_join ds (All-unappend Component ds (n ∷ []) h).0
  where
    from_join :
        (ds : List Text)
        → All Component ds
        → get_path limit s (join slash ([] ∷ ds)) true ≡ found_or file_not_found (descend s s.fs ds)
    from_join [] k = get_path-join limit s [] true nl tt
    from_join (w ∷ ws) k = joined_path limit s w ws nl k

rm_none :
    (limit : ℕ) (r v : Bool) (n : Text) (d : ℕ) (xs : List ℕ) (s : ShellState)
    → contains n (names s.file_system xs) ≡ false
    → rm_entries limit r v n d xs s ≡ done_with s
unfolding rm_entries rm_entry contains
rm_none limit r v n d [] s h = refl
rm_none limit r v n d (x ∷ xs) s h =
    let (other, rest) =
      or_false (text_eq (entry_at s.file_system x).a_name n) (contains n (names s.file_system xs))
        h in
    rw other (rm_none limit r v n d xs s rest)

rm_other :
    (limit : ℕ) (r : Bool) (n : Text) (d y : ℕ) (s : ShellState)
    → text_eq (entry_at s.file_system y).a_name n ≡ false
    → rm_entry (suc limit) r false n d y s ≡ done_with s
unfolding rm_entry
rm_other limit r n d y s other = rw other refl

rm_match :
    (limit : ℕ) (r : Bool) (n : Text) (d x : ℕ) (s : ShellState)
    → (entry_at s.file_system x).a_name ≡ n
    → first_named s.file_system n (contents_at s.file_system d) ≡ some x
    → is_kind (entry_at s.file_system x).a_type t_dir ≡ false
    → rm_entry (suc limit) r false n d x s
      ≡ done_with (record s { file_system = without s.file_system d n })
unfolding rm_entry
rm_match limit r n d x s e at file =
    rw
      (
        ap (λ (t : Text). text_eq t n) e ∙ text_eq_refl n,
        file,
        remove_equal-first limit s.file_system n (contents_at s.file_system d) x at,
      )
      refl

rm_first :
    (limit : ℕ) (r : Bool) (n : Text) (d x : ℕ) (xs : List ℕ) (s : ShellState)
    → NoRepeats (names s.file_system xs)
    → first_named s.file_system n xs ≡ some x
    → first_named s.file_system n (contents_at s.file_system d) ≡ some x
    → is_kind (entry_at s.file_system x).a_type t_dir ≡ false
    → rm_entries (suc limit) r false n d xs s
      ≡ done_with (record s { file_system = without s.file_system d n })
unfolding rm_entries first_named
rm_first limit r n d x [] s nr e at file = absurd (none-ne-some x e)
rm_first limit r n d x (y ∷ ys) s nr e at file =
    elim (Bool-cases (text_eq (entry_at s.file_system y).a_name n)) [
      | inl same ↦
          let first = some-injective y x (
            sym (
              if_true (text_eq (entry_at s.file_system y).a_name n) (some y)
                (first_named s.file_system n ys) same)
            ∙ e) in
          let gone =
            all_names s.file_system (without s.file_system d n) ys
              (without_name s.file_system d n) in
          ap (λ (c : Command). then_with c (λ s'. rm_entries (suc limit) r false n d ys s'))
            (ap (λ (i : ℕ). rm_entry (suc limit) r false n d i s) first
              ∙ rm_match limit r n d x s
                  (first_named_name s.file_system n (contents_at s.file_system d) x at) at file)
          ∙ rm_none (suc limit) r false n d ys
              (record s { file_system = without s.file_system d n })
              (ap (contains n) gone ∙ repeat_none s.file_system n y ys nr same)
      | inr other ↦
          let later =
            sym (
              if_false (text_eq (entry_at s.file_system y).a_name n) (some y)
                (first_named s.file_system n ys) other)
            ∙ e in
          ap (λ (c : Command). then_with c (λ s'. rm_entries (suc limit) r false n d ys s'))
            (rm_other limit r n d y s other)
          ∙ rm_first limit r n d x ys s nr.1 later at file
    ]

pub resolved-absolute :
    (cs : List Text) (s : ShellState)
    → All Component cs
    → resolved (absolute cs) s ≡ ok (absolute cs)
resolved-absolute cs s h = ap (found_or index_error) (resolve_absolute cs s.cwd h)

pub rm_runs :
    (limit : ℕ) (r force : Bool) (s : ShellState) (ds : List Text) (n : Text) (d x : ℕ)
    → NoLinks s.file_system
    → NamesDiffer s.file_system
    → All Component (ds ++ n ∷ [])
    → descend s.file_system s.file_system.fs (ds ++ n ∷ []) ≡ some x
    → descend s.file_system s.file_system.fs ds ≡ some d
    → first_named s.file_system n (contents_at s.file_system d) ≡ some x
    → is_kind (entry_at s.file_system x).a_type t_dir ≡ false
    → rm_all (suc limit) r force false (absolute (ds ++ n ∷ []) ∷ []) s
      ≡ done_with (record s { file_system = without s.file_system d n })
unfolding rm_all rm_one rm_found
rm_runs limit r force s ds n d x nl nd h there dir at file =
    rw
      (
        resolved-absolute (ds ++ n ∷ []) s h,
        get_path-parent_of (suc limit) s.file_system ds n nl h,
        dir,
        get_path-absolute (suc limit) s.file_system (ds ++ n ∷ []) true nl h,
        there,
        last_part-absolute ds n h,
        rm_first limit r n d x (contents_at s.file_system d) s (nd d) at at file,
      )
      refl
