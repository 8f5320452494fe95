-- ===== src/Shell/Objects.antt =====
-- The objects of the fake file system of cowrie/src/cowrie/shell/fs.py. A Python list with the
-- attributes of an entry is an object with an address, since the methods hold references to
-- entries and change them in place.
use vo_iphoneypot.Common.{
  Bool, List, Option, Text, [], eqb_ℤ, false, if◌then◌else◌, length, map, none, some, suc, text_eq,
  true, zero, ℕ, ℤ, ◌&&◌, ◌==◌, ◌∷◌,
}

-- T_LINK … T_FIFO
pub data EntryKind : Type 0 where
  t_link : EntryKind
  t_dir : EntryKind
  t_file : EntryKind
  t_blk : EntryKind
  t_chr : EntryKind
  t_sock : EntryKind
  t_fifo : EntryKind

abbrev pub kind_number : EntryKind → ℕ
kind_number t_link = 0
kind_number t_dir = 1
kind_number t_file = 2
kind_number t_blk = 3
kind_number t_chr = 4
kind_number t_sock = 5
kind_number t_fifo = 6

abbrev pub is_kind : EntryKind → EntryKind → Bool
is_kind k k' = kind_number k == kind_number k'

-- A_NAME … A_REALFILE; the contents are the addresses of the entries in them.
pub record Entry : Type 0 where
  pub a_name : Text
  pub a_type : EntryKind
  pub a_uid : ℤ
  pub a_gid : ℤ
  pub a_size : ℕ
  pub a_mode : ℕ
  pub a_ctime : ℕ
  pub a_contents : List ℕ
  pub a_target : Option Text
  pub a_realfile : Option Text

-- `self`: the entry of the root, the objects by address, the first address that is free, and the
-- count of new files.
pub record FileSystem : Type 0 where
  pub fs : ℕ
  pub objects : ℕ → Entry
  pub next_address : ℕ
  pub newcount : ℕ

-- What the methods raise: the classes of the module, OSError with the errno, and what Python itself
-- raises.
pub data FsError : Type 0 where
  file_not_found : FsError
  permission_denied : FsError
  is_a_directory : FsError
  os_error : FsError
  enoent : FsError
  eexist : FsError
  edquot : FsError
  enotdir : FsError
  enotempty : FsError
  index_error : FsError
  type_error : FsError
  value_error : FsError
  attribute_error : FsError
  recursion_error : FsError
  unbound_local_error : FsError

pub data FsResult {ℓ} (A : Type ℓ) : Type ℓ where
  ok : A → FsResult A
  throws : FsError → FsResult A

module _ {ℓ} {A B : Type ℓ} where
  infixl 10 ◌>>=◌
  abbrev pub ◌>>=◌ : FsResult A → (A → FsResult B) → FsResult B
  ok a >>= f = f a
  throws e >>= f = throws e

-- A method that changes the file system: what it changed before it raised stays changed.
abbrev pub FsOutcome {ℓ} : Type ℓ → Type ℓ
FsOutcome A = FsResult A × FileSystem

-- The result None of a method.
abbrev pub Done : Type 0
Done = Unit

-- A step of a method that reads only.
abbrev pub or_raise {ℓ} : {A B : Type ℓ} → FsResult A → FileSystem → (A → FsOutcome B) → FsOutcome B
or_raise (ok a) s f = f a
or_raise (throws e) s f = (throws e, s)

abbrev pub entry_at : FileSystem → ℕ → Entry
entry_at s i = s.objects i

abbrev pub names : FileSystem → List ℕ → List Text
names s is = map (λ i. (entry_at s i).a_name) is

-- An assignment to an attribute of the entry at an address.
unfoldable pub put_entry : ℕ → Entry → FileSystem → FileSystem
put_entry i e s = record s { objects = λ j. if j == i then e else s.objects j }

-- A list literal is a new object.
unfoldable pub allocate : Entry → FileSystem → FileSystem
unfolding put_entry
allocate e s = record (put_entry s.next_address e s) { next_address = suc s.next_address }

abbrev option_eq : Option Text → Option Text → Bool
option_eq none none = true
option_eq none (some t) = false
option_eq (some t) none = false
option_eq (some t) (some t') = text_eq t t'

both_equal : FsResult Bool → FsResult Bool → FsResult Bool
both_equal (ok true) r = r
both_equal (ok false) r = ok false
both_equal (throws e) r = throws e

equal_each : (ℕ → ℕ → FsResult Bool) → List ℕ → List ℕ → FsResult Bool
unfolding both_equal
equal_each eq [] [] = ok true
equal_each eq [] (b ∷ bs) = ok false
equal_each eq (a ∷ rest) [] = ok false
equal_each eq (a ∷ rest) (b ∷ bs) = both_equal (eq a b) (equal_each eq rest bs)

unfoldable pub equal_before : Entry → Entry → Bool
equal_before e e' =
    text_eq e.a_name e'.a_name
    && is_kind e.a_type e'.a_type
    && eqb_ℤ e.a_uid e'.a_uid
    && eqb_ℤ e.a_gid e'.a_gid
    && e.a_size == e'.a_size
    && e.a_mode == e'.a_mode
    && e.a_ctime == e'.a_ctime
    && length e.a_contents == length e'.a_contents

equal_after : Entry → Entry → Bool
equal_after e e' = option_eq e.a_target e'.a_target && option_eq e.a_realfile e'.a_realfile

-- `==` of two entries, which Python compares attribute by attribute, the contents in their place;
-- the number bounds the depth.
unfoldable pub equal_objects : ℕ → FileSystem → ℕ → ℕ → FsResult Bool
unfolding equal_each both_equal equal_before equal_after
equal_objects zero s i j = throws recursion_error
equal_objects (suc n) s i j =
    if i == j
    then ok true
    else if equal_before (entry_at s i) (entry_at s j)
    then both_equal
        (equal_each (λ a b. equal_objects n s a b) (entry_at s i).a_contents
          (entry_at s j).a_contents)
        (ok (equal_after (entry_at s i) (entry_at s j)))
    else ok false

unfoldable pub kept : ℕ → FsResult Bool → List ℕ → FsResult (List ℕ) → FsResult (List ℕ)
kept x (ok true) xs rest = ok xs
kept x (ok false) xs (ok ys) = ok (x ∷ ys)
kept x (ok false) xs (throws e) = throws e
kept x (throws e) xs rest = throws e

-- `xs.remove(i)`
unfoldable pub remove_equal : ℕ → FileSystem → ℕ → List ℕ → FsResult (List ℕ)
unfolding kept
remove_equal limit s i [] = throws value_error
remove_equal limit s i (x ∷ xs) = kept x (equal_objects limit s x i) xs (remove_equal limit s i xs)
