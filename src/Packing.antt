-- ===== src/Packing.antt =====
-- The `struct` formats and byte orders that the protocols use. `none` is `struct.error`. A byte is a
-- number; what the network delivers is below 256.
use vo_iphoneypot.Common.{
  Bool, Option, Text, [], ap, arith, false, if◌then◌else◌, length, ltb, none, not, refl, some, suc,
  true, zero, ℕ, ◌%◌, ◌*◌, ◌+◌, ◌/◌, ◌<◌, ◌==◌, ◌∷◌, ◌≡◌,
}

infixl 5 ◌>>=◌
abbrev pub ◌>>=◌ {ℓ κ} : {A : Type ℓ} {B : Type κ} → Option A → (A → Option B) → Option B
none >>= f = none
some a >>= f = f a

-- !H
abbrev pub be16 : ℕ → Text
be16 n = (n / 256 % 256) ∷ (n % 256) ∷ []

unfoldable pub pack16 : ℕ → Option Text
pack16 n = if ltb n 0x10000 then some (be16 n) else none

unfoldable pub unpack16 : Text → Option ℕ
unpack16 (a ∷ b ∷ []) = some (a * 256 + b)
unpack16 _ = none

-- !I
abbrev pub be32 : ℕ → Text
be32 n = (n / 0x1000000 % 256) ∷ (n / 0x10000 % 256) ∷ (n / 256 % 256) ∷ (n % 256) ∷ []

unfoldable pub pack32 : ℕ → Option Text
pack32 n = if ltb n 0x100000000 then some (be32 n) else none

unfoldable pub unpack32 : Text → Option ℕ
unpack32 (a ∷ b ∷ c ∷ d ∷ []) = some (((a * 256 + b) * 256 + c) * 256 + d)
unpack32 _ = none

-- !?
unfoldable pub unpack_bool : Text → Option Bool
unpack_bool (a ∷ []) = some (not (a == 0))
unpack_bool _ = none

abbrev pub pack_bool : Bool → Text
pack_bool b = (if b then 1 else 0) ∷ []

-- `{n}s` cuts or fills with zeros.
unfoldable pub pack_s : ℕ → Text → Text
pack_s zero t = []
pack_s (suc n) [] = 0 ∷ pack_s n []
pack_s (suc n) (c ∷ t) = c ∷ pack_s n t

unfoldable pub unpack_s : ℕ → Text → Option Text
unpack_s n t = if length t == n then some t else none

-- `int.from_bytes(t, byteorder='big')`
unfoldable pub be_value_from : ℕ → Text → ℕ
be_value_from acc [] = acc
be_value_from acc (b ∷ t) = be_value_from (acc * 256 + b) t

abbrev pub be_value : Text → ℕ
be_value = be_value_from 0

pub unpack16-be16 : (n : ℕ) → n < 0x10000 → unpack16 (be16 n) ≡ some n
unfolding unpack16
unpack16-be16 n h = ap some (omega arith)

pub unpack32-be32 : (n : ℕ) → n < 0x100000000 → unpack32 (be32 n) ≡ some n
unfolding unpack32
unpack32-be32 n h = ap some (omega arith)

pub pack16_fits : (n : ℕ) → n < 0x10000 → pack16 n ≡ some (be16 n)
unfolding pack16
pack16_fits n h = ground arith

pub pack32_fits : (n : ℕ) → n < 0x100000000 → pack32 n ≡ some (be32 n)
unfolding pack32
pack32_fits n h = ground arith

pub unpack_s_self : (t : Text) → unpack_s (length t) t ≡ some t
unfolding unpack_s
unpack_s_self t = ground arith

pub pack_s_self : (t : Text) → pack_s (length t) t ≡ t
unfolding pack_s
pack_s_self [] = refl
pack_s_self (c ∷ t) = rw (pack_s_self t)

pub unpack_bool-pack : (b : Bool) → unpack_bool (pack_bool b) ≡ some b
unfolding unpack_bool
unpack_bool-pack true = refl
unpack_bool-pack false = refl
