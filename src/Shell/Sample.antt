-- ===== src/Shell/Sample.antt =====
-- A small file system of cowrie/src/cowrie/shell/fs.py: /etc with a file, and an empty /home.
use vo_iphoneypot.Common.{
  Text, [], arith, codes, contains, false, none, pos, refl, some, suc, text_eq, zero, ℕ, ◌∷◌, ◌≡◌,
}
use vo_iphoneypot.Shell.Files.{new_entry}
use vo_iphoneypot.Shell.Lookup.{first_named}
use vo_iphoneypot.Shell.Made.{WellFormed}
use vo_iphoneypot.Shell.Names.{is_special}
use vo_iphoneypot.Shell.Normal.{Component}
use vo_iphoneypot.Shell.Objects.{Entry, FileSystem, t_dir, t_file}
use vo_iphoneypot.Shell.Plain.{NamesDiffer, NoLinks, descend}
use vo_iphoneypot.Shell.Resolved.{absolute}
use vo_iphoneypot.Shell.Update.{Children}
use vo_iphoneypot.Strings.{has_prefix, join}

abbrev pub etc : Text
etc = codes "etc"

abbrev pub home : Text
home = codes "home"

abbrev pub passwd : Text
passwd = codes "passwd"

abbrev pub sample_objects : ℕ → Entry
sample_objects zero = record (new_entry t_dir [] (pos 0) (pos 0) 4096 16877 0) {
  a_contents = 1 ∷ 3 ∷ [];
}
sample_objects (suc zero) = record (new_entry t_dir etc (pos 0) (pos 0) 4096 16877 0) {
  a_contents = 2 ∷ [];
}
sample_objects (suc (suc zero)) = new_entry t_file passwd (pos 0) (pos 0) 100 33188 0
sample_objects (suc (suc (suc i))) = new_entry t_dir home (pos 0) (pos 0) 4096 16877 0

abbrev pub sample : FileSystem
sample = record { fs = 0; objects = sample_objects; next_address = 4; newcount = 0 }

pub sample_depth : ℕ → ℕ
sample_depth zero = 0
sample_depth (suc zero) = 1
sample_depth (suc (suc zero)) = 2
sample_depth (suc (suc (suc i))) = 1

pub sample_parent : ℕ → ℕ
sample_parent (suc (suc zero)) = 1
sample_parent i = 0

pub sample_Tree : Children sample sample_depth sample_parent
unfolding sample_depth sample_parent
sample_Tree zero = ((omega arith, refl, refl), ((omega arith, refl, refl), tt))
sample_Tree (suc zero) = ((omega arith, refl, refl), tt)
sample_Tree (suc (suc zero)) = tt
sample_Tree (suc (suc (suc i))) = tt

pub sample-NoLinks : NoLinks sample
sample-NoLinks zero = refl
sample-NoLinks (suc zero) = refl
sample-NoLinks (suc (suc zero)) = refl
sample-NoLinks (suc (suc (suc i))) = refl

pub sample-NamesDiffer : NamesDiffer sample
unfolding contains text_eq
sample-NamesDiffer zero = (refl, (refl, tt))
sample-NamesDiffer (suc zero) = (refl, tt)
sample-NamesDiffer (suc (suc zero)) = tt
sample-NamesDiffer (suc (suc (suc i))) = tt

pub sample-WellFormed : WellFormed sample
sample-WellFormed =
    ((sample_depth, sample_parent, sample_Tree, omega arith), sample-NoLinks, sample-NamesDiffer)

abbrev pub new_name : Text
new_name = codes "a"

pub etc-Component : Component etc
unfolding text_eq
etc-Component = (refl, refl, (refl, (refl, (refl, tt))))

pub passwd_Component : Component passwd
unfolding text_eq
passwd_Component = (refl, refl, (refl, (refl, (refl, (refl, (refl, (refl, tt)))))))

pub new_Component : Component new_name
unfolding text_eq
new_Component = (refl, refl, (refl, tt))

pub etc_found : descend sample 0 (etc ∷ []) ≡ some 1
unfolding descend first_named text_eq
etc_found = refl

pub nothing_found : descend sample 0 (etc ∷ new_name ∷ []) ≡ none
unfolding descend first_named text_eq
nothing_found = refl

pub etc_plain : is_special (absolute (etc ∷ [])) ≡ false
unfolding is_special has_prefix absolute join
etc_plain = refl
