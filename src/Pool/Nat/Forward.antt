-- ===== src/Pool/Nat/Forward.antt =====
-- ServerProtocol of nat.py: what an attacker sends is buffered until the connection to the guest is
-- made, and then written in order. A packet is a number here.
use vo_iphoneypot.Common.{
  Bool, Bool-cases, List, [], ap, append-nil, append_assoc, arith, false, if◌then◌else◌, inl, inr,
  refl, suc, sym, true, zero, ℕ, ◌++◌, ◌+◌, ◌<◌, ◌∙◌, ◌∷◌, ◌≡◌, ◌⊎◌,
}

pub record Proxy : Type 0 where
  -- `client_protocol` is set
  pub connected : Bool
  pub buffer : List ℕ
  -- what was written to the guest, oldest first
  pub written : List ℕ
  -- pending calls of `callLater(0.5, self.sendData)`
  pub pending : ℕ
  -- the connection to the guest was asked to close
  pub closed : Bool

-- `__init__`
abbrev pub fresh : Proxy
fresh = record { connected = false; buffer = []; written = []; pending = 0; closed = false }

-- The loop of `sendData` over the buffer.
unfoldable pub write_all : List ℕ → List ℕ → List ℕ
write_all written [] = written
write_all written (p ∷ ps) = write_all (written ++ p ∷ []) ps

unfoldable pub send_data : Proxy → Proxy
send_data x =
    if x.connected
    then record x { written = write_all x.written x.buffer; buffer = [] }
    else record x { pending = x.pending + 1 }

-- What happens to a proxy. A timer fires only while a call is pending.
pub data Event : Type 0 where
  client_made timer lost : Event
  packet : ℕ → Event

fire : Proxy → ℕ → Proxy
fire x zero = x
fire x (suc n) = send_data (record x { pending = n })

unfoldable pub react : Proxy → Event → Proxy
unfolding fire
react x client_made = record x { connected = true }
react x timer = fire x x.pending
react x lost = if x.connected then record x { closed = true } else x
react x (packet p) = send_data (record x { buffer = x.buffer ++ p ∷ [] })

unfoldable pub run : Proxy → List Event → Proxy
run x [] = x
run x (e ∷ es) = run (react x e) es

abbrev pub sent_by_attacker : List Event → List ℕ
sent_by_attacker [] = []
sent_by_attacker (packet p ∷ es) = p ∷ sent_by_attacker es
sent_by_attacker (client_made ∷ es) = sent_by_attacker es
sent_by_attacker (timer ∷ es) = sent_by_attacker es
sent_by_attacker (lost ∷ es) = sent_by_attacker es

write_all-append : (written ps : List ℕ) → write_all written ps ≡ written ++ ps
unfolding write_all
write_all-append written [] = sym (append-nil written)
write_all-append written (p ∷ ps) =
    write_all-append (written ++ p ∷ []) ps ∙ append_assoc written (p ∷ []) ps

-- Nothing is lost, repeated or reordered by one attempt to send.
send_data-all : (x : Proxy) → (send_data x).written ++ (send_data x).buffer ≡ x.written ++ x.buffer
unfolding send_data
send_data-all x = elim (Bool-cases x.connected) [
  | inl up ↦ simp (up, append-nil, write_all-append)
  | inr down ↦ simp down
]

fire-all : (x : Proxy) (n : ℕ) → (fire x n).written ++ (fire x n).buffer ≡ x.written ++ x.buffer
unfolding fire
fire-all x zero = refl
fire-all x (suc n) = send_data-all (record x { pending = n })

lost-all : (x : Proxy) → (react x lost).written ++ (react x lost).buffer ≡ x.written ++ x.buffer
unfolding react
lost-all x = elim (Bool-cases x.connected) [ inl up ↦ simp up | inr down ↦ simp down ]

run-all :
    (x : Proxy) (es : List Event)
    → (run x es).written ++ (run x es).buffer ≡ (x.written ++ x.buffer) ++ sent_by_attacker es
unfolding run react
run-all x [] = sym (append-nil _)
run-all x (client_made ∷ es) = run-all (react x client_made) es
run-all x (timer ∷ es) =
    run-all (react x timer) es ∙ ap (λ l. l ++ sent_by_attacker es) (fire-all x x.pending)
run-all x (lost ∷ es) = run-all (react x lost) es ∙ ap (λ l. l ++ sent_by_attacker es) (lost-all x)
run-all x (packet p ∷ es) =
    run-all (react x (packet p)) es
    ∙ ap (λ l. l ++ sent_by_attacker es)
        (send_data-all (record x { buffer = x.buffer ++ p ∷ [] })
          ∙ sym (append_assoc x.written x.buffer (p ∷ [])))
    ∙ append_assoc (x.written ++ x.buffer) (p ∷ []) (sent_by_attacker es)

-- A packet waits only while a call of `sendData` is pending.
abbrev IsTimed : Proxy → Type 0
IsTimed x = (x.buffer ≡ []) ⊎ (0 < x.pending)

send_data-IsTimed : (x : Proxy) → IsTimed (send_data x)
unfolding send_data
send_data-IsTimed x = elim (Bool-cases x.connected) [
  | inl up ↦ rw (up, send_data) (inl refl)
  | inr down ↦ rw (down, send_data) (inr (omega arith))
]

fire-IsTimed : (x : Proxy) (n : ℕ) → IsTimed x → IsTimed (fire x n)
unfolding fire
fire-IsTimed x zero v = v
fire-IsTimed x (suc n) v = send_data-IsTimed (record x { pending = n })

run-IsTimed : (x : Proxy) (es : List Event) → IsTimed x → IsTimed (run x es)
unfolding run react
run-IsTimed x [] v = v
run-IsTimed x (client_made ∷ es) v = run-IsTimed (react x client_made) es v
run-IsTimed x (timer ∷ es) v = run-IsTimed (react x timer) es (fire-IsTimed x x.pending v)
run-IsTimed x (lost ∷ es) v = run-IsTimed (react x lost) es (ground arith)
run-IsTimed x (packet p ∷ es) v =
    run-IsTimed (react x (packet p)) es
      (send_data-IsTimed (record x { buffer = x.buffer ++ p ∷ [] }))

timer-empties :
    (x : Proxy) (n : ℕ) → x.pending ≡ n → IsTimed x → x.connected ≡ true → (fire x n).buffer ≡ []
unfolding fire send_data
timer-empties x zero e v up = ground arith
timer-empties x (suc n) e v up = ground arith

-- After any sequence of events, what was written to the guest and what is still buffered is what the
-- attacker sent, in order. Once the guest is connected, the next timer writes all of it.
pub forward_complete :
    (es : List Event)
    → ((run fresh es).written ++ (run fresh es).buffer ≡ sent_by_attacker es)
      × ((run fresh es).connected ≡ true
          → (react (run fresh es) timer).written ≡ sent_by_attacker es)
unfolding react
forward_complete es =
    let x : Proxy = run fresh es in
    let kept = run-all fresh es in
    (
      kept,
      λ up.
          sym (append-nil (fire x x.pending).written)
          ∙ ap (λ l. (fire x x.pending).written ++ l)
              (sym (timer-empties x x.pending refl (run-IsTimed fresh es (inl refl)) up))
          ∙ fire-all x x.pending
          ∙ kept,
    )
