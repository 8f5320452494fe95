-- ===== src/SshProxy/Halves.antt =====
-- Cutting a line at the cursor, and the moves of the cursor.
use vo_iphoneypot.Common.{
  Text, [], arith, drop, drop_append_left, length, refl, suc, sym, take, take_append_left, zero, ℕ,
  ◌++◌, ◌+◌, ◌∷◌, ◌≡◌,
}
use vo_iphoneypot.SshProxy.Editor.{gather, onto}

onto_append : (b a c : Text) → onto b (a ++ c) ≡ onto b a ++ c
onto_append [] a c = refl
onto_append (x ∷ b) a c = onto_append b (x ∷ a) c

pub length-onto : (b a : Text) → length (onto b a) ≡ length b + length a
length-onto [] a = omega arith
length-onto (x ∷ b) a = omega (arith, length-onto b (x ∷ a))

take_at : (n : ℕ) (s t : Text) → n ≡ length s → take n (s ++ t) ≡ s
take_at n s t h = rw h (take_append_left s t)

drop_at : (n : ℕ) (s t : Text) → n ≡ length s → drop n (s ++ t) ≡ t
drop_at n s t h = rw h (drop_append_left s t)

take-onto : (b a : Text) → take (length b) (onto b a) ≡ onto b []
take-onto b a =
    rw (onto_append b [] a) (take_at (length b) (onto b []) a (omega (arith, length-onto b [])))

drop-onto : (b a : Text) → drop (length b) (onto b a) ≡ a
drop-onto b a =
    rw (onto_append b [] a) (drop_at (length b) (onto b []) a (omega (arith, length-onto b [])))

-- A byte at the cursor.
pub insert-onto :
    (c : ℕ) (b a : Text)
    → take (length b) (onto b a) ++ c ∷ drop (length b) (onto b a) ≡ onto b (c ∷ a)
insert-onto c b a = rw (take-onto b a, drop-onto b a) (sym (onto_append b [] (c ∷ a)))

drop_more : (n : ℕ) (s : Text) → drop (suc n) s ≡ drop 1 (drop n s)
drop_more zero s = refl
drop_more (suc n) [] = refl
drop_more (suc n) (c ∷ s) = drop_more n s

-- The byte before the cursor goes.
pub rubout-onto :
    (x : ℕ) (b a : Text)
    → take (length b) (onto b (x ∷ a)) ++ drop (suc (length b)) (onto b (x ∷ a)) ≡ onto b a
rubout-onto x b a =
    rw (take-onto b (x ∷ a), drop_more (length b) (onto b (x ∷ a)), drop-onto b (x ∷ a))
      (sym (onto_append b [] a))

pub onto-gather : (a b : Text) → onto (gather a b) [] ≡ onto b a
onto-gather [] b = refl
onto-gather (x ∷ a) b = onto-gather a (x ∷ b)

pub length-gather : (a b : Text) → length (gather a b) ≡ length b + length a
length-gather [] b = omega arith
length-gather (x ∷ a) b = omega (arith, length-gather a (x ∷ b))
