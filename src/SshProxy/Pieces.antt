-- ===== src/SshProxy/Pieces.antt =====
-- A packet that arrives in pieces, and packets that arrive together.
use vo_iphoneypot.Common.{
  All, List, Text, [], ap, append-nil, append_assoc, arith, eqb_pos_false, length, length-append,
  ltb_pos_false, negsuc, pos, pos_sub, pos_sub_more, refl, some, suc, ℕ, ◌++◌, ◌+◌, ◌-ℤ◌, ◌<◌, ◌∙◌,
  ◌∷◌, ◌≡◌,
}
use vo_iphoneypot.Packing.{be32, be_value, be_value_from}
use vo_iphoneypot.SshProxy.BaseProtocol.{Packet}
use vo_iphoneypot.SshProxy.Reassembly.{begin_packet, concat, feed, feed_more, when_complete}

abbrev pub NonEmpty : Text → Type 0
NonEmpty t = 0 < length t

abbrev pub no_size : Text → Packet
no_size d = record { data_left = d; packet_size = pos 0 }

feed_inside :
    (x : Text) (p : Packet) (r : ℕ)
    → p.packet_size ≡ pos (length x + r)
    → NonEmpty x
    → feed x p ≡ some (when_complete (record { data_left = p.data_left ++ x; packet_size = pos r }))
unfolding feed
feed_inside x p r size some_byte = rw (
  size,
  eqb_pos_false (length x + r) 0 (omega (arith, some_byte)),
  ltb_pos_false (length x + r) (length x) (omega arith),
  pos_sub (length x) r,
)

when_done :
    (d : Text)
    → when_complete (record { data_left = d; packet_size = pos 0 })
      ≡ (record { data_left = d; packet_size = pos 0 }, d ∷ [])
unfolding when_complete
when_done d = refl

when_not_done :
    (d : Text) (r : ℕ)
    → 0 < r
    → when_complete (record { data_left = d; packet_size = pos r })
      ≡ (record { data_left = d; packet_size = pos r }, [])
unfolding when_complete
when_not_done d r h = rw (eqb_pos_false r 0 h)

some_left : (y : Text) (ys : List Text) → NonEmpty y → 0 < length (concat (y ∷ ys))
some_left y ys h = omega (arith, h, length-append y (concat ys))

feed_more_step :
    (x : Text) (xs : List Text) (p : Packet) (done : List Text) (q : Packet) (more : List Text)
    → feed x p ≡ some (q, more)
    → feed_more (x ∷ xs) (p, done) ≡ feed_more xs (q, done ++ more)
feed_more_step x xs p done q more e = rw (e, feed_more) refl

-- The pieces that are missing complete the packet, and it is handled once.
feed_rest :
    (x : Text) (xs : List Text) (d : Text) (done : List Text)
    → NonEmpty x
    → All NonEmpty xs
    → feed_more
        (x ∷ xs)
        (record { data_left = d; packet_size = pos (length x + length (concat xs)) }, done)
      ≡ some (no_size (d ++ (x ++ concat xs)), done ++ (d ++ (x ++ concat xs)) ∷ [])
feed_rest x [] d done h hs =
    feed_more_step x [] (record { data_left = d; packet_size = pos (length x + 0) }) done
      (no_size (d ++ x)) ((d ++ x) ∷ [])
      (feed_inside x (record { data_left = d; packet_size = pos (length x + 0) }) 0 refl h
        ∙ ap some (when_done (d ++ x)))
    ∙ rw (append-nil x) refl
feed_rest x (y ∷ ys) d done h hs =
    feed_more_step x (y ∷ ys)
      (record { data_left = d; packet_size = pos (length x + length (concat (y ∷ ys))) }) done
      (record { data_left = d ++ x; packet_size = pos (length (concat (y ∷ ys))) }) []
      (feed_inside x
          (record { data_left = d; packet_size = pos (length x + length (concat (y ∷ ys))) })
          (length (concat (y ∷ ys))) refl h
        ∙ ap some (when_not_done (d ++ x) (length (concat (y ∷ ys))) (some_left y ys hs.0)))
    ∙ rw (append-nil done, length-append y (concat ys))
        (feed_rest y ys (d ++ x) done hs.0 hs.1 ∙ rw (append_assoc d x (y ++ concat ys)) refl)

pub be_value-be32 : (n : ℕ) → n < 0x100000000 → be_value (be32 n) ≡ n
unfolding be_value_from
be_value-be32 n h = omega arith

begin_be32 :
    (n : ℕ) (first : Text)
    → n < 0x100000000
    → begin_packet (be32 n ++ first)
      ≡ some
          (when_complete (record { data_left = first; packet_size = pos n -ℤ pos (length first) }))
unfolding begin_packet
begin_be32 n first h = rw (be_value-be32 n h) refl

feed_first :
    (d : Text) (n : ℕ) (first : Text)
    → n < 0x100000000
    → feed (be32 n ++ first) (no_size d)
      ≡ some
          (when_complete (record { data_left = first; packet_size = pos n -ℤ pos (length first) }))
unfolding feed
feed_first d n first h = begin_be32 n first h

-- A packet of fewer than 2^32 bytes that arrives in pieces, the size with the first piece and no
-- further piece empty, is handled exactly once, as a whole, and the direction waits for the next.
pub feed_pieces :
    (d first : Text) (more : List Text)
    → All NonEmpty more
    → length first + length (concat more) < 0x100000000
    → feed_more ((be32 (length first + length (concat more)) ++ first) ∷ more) (no_size d, [])
      ≡ some (no_size (first ++ concat more), (first ++ concat more) ∷ [])
feed_pieces d first [] h size =
    feed_more_step (be32 (length first + 0) ++ first) [] (no_size d) [] (no_size first) (first ∷ [])
      (feed_first d (length first + 0) first size
        ∙ rw (pos_sub (length first) 0) (ap some (when_done first)))
    ∙ rw (append-nil first) refl
feed_pieces d first (y ∷ ys) h size =
    feed_more_step (be32 (length first + length (concat (y ∷ ys))) ++ first) (y ∷ ys) (no_size d) []
      (record { data_left = first; packet_size = pos (length (concat (y ∷ ys))) }) []
      (feed_first d (length first + length (concat (y ∷ ys))) first size
        ∙ rw (pos_sub (length first) (length (concat (y ∷ ys))))
            (ap some (when_not_done first (length (concat (y ∷ ys))) (some_left y ys h.0))))
    ∙ rw (length-append y (concat ys)) (feed_rest y ys first [] h.0 h.1)

when_negative :
    (d : Text) (r : ℕ)
    → when_complete (record { data_left = d; packet_size = negsuc r })
      ≡ (record { data_left = d; packet_size = negsuc r }, [])
unfolding when_complete
when_negative d r = ground arith

three : (n : ℕ) → suc (suc (suc n)) ≡ 3 + n
three n = omega arith

-- Two packets of fewer than 2^32 bytes in one payload: neither of them is handled, and the direction
-- waits for a negative number of bytes.
pub feed_together :
    (d a b : Text)
    → length a < 0x100000000
    → feed (be32 (length a) ++ (a ++ (be32 (length b) ++ b))) (no_size d)
      ≡ some (
        record { data_left = a ++ (be32 (length b) ++ b); packet_size = negsuc (3 + length b) },
        [],
      )
feed_together d a b size =
    feed_first d (length a) (a ++ (be32 (length b) ++ b)) size
    ∙ rw
        (
          length-append a (be32 (length b) ++ b),
          pos_sub_more (length a) (suc (suc (suc (length b)))),
        )
        (ap some (
          when_negative (a ++ (be32 (length b) ++ b)) (suc (suc (suc (length b))))
          ∙ rw (three (length b)) refl))
