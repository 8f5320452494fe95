-- ===== src/Pool/Nat/Leak.antt =====
-- The count of a binding never gets above 0, so no listener is ever stopped.
use native.Mathlib.Nat.{add-zero}
use mathlib.Core.Path.{subst}
use vo_iphoneypot.Common.{
  All, Bool-cases, List, Option-cases, Text, [], arith, inl, inr, int_laws, none, pos, refl, some,
  ℕ, ◌*◌, ◌+◌, ◌==◌, ◌∷◌, ◌≡◌, ◌≤ℤ◌, -ℤ_parts,
}
use vo_iphoneypot.Pool.Nat.{
  Binding, Key, NatService, address, find, free_binding, guest, init, key_eq, request_binding,
  store,
}

-- What the clients of the service do.
pub data Call : Type 0 where
  asks : ℕ → Text → Call
  leaves : ℕ → Call

unfoldable pub call : NatService → Call → NatService
call n (asks guest_id dst_ip) = (request_binding n guest_id dst_ip).0
call n (leaves guest_id) = (free_binding n guest_id).0

unfoldable pub run : NatService → List Call → NatService
run n [] = n
run n (c ∷ cs) = run (call n c) cs

abbrev pub request_count : List Call → ℕ
request_count [] = 0
request_count (asks g ip ∷ cs) = request_count cs + 1
request_count (leaves g ∷ cs) = request_count cs

-- Every key is a guest id, and no count is positive.
abbrev Entry : Key × Binding → Type 0
Entry (guest n, b) = b.connected ≤ℤ pos 0
Entry (address t, b) = ⊥

no_address : (t : Text) (bs : List (Key × Binding)) → All Entry bs → find (address t) bs ≡ none
unfolding find key_eq
no_address t [] h = refl
no_address t ((guest n, b) ∷ bs) h = no_address t bs h.1
no_address t ((address s, b) ∷ bs) h = absurd h.0

found-Entry :
    (n : ℕ) (bs : List (Key × Binding)) (b : Binding)
    → All Entry bs
    → find (guest n) bs ≡ some b
    → b.connected ≤ℤ pos 0
unfolding find key_eq
found-Entry n [] b h e = cc
found-Entry n ((address t, c) ∷ bs) b h e = absurd h.0
found-Entry n ((guest m, c) ∷ bs) b h e = ground (arith, found-Entry n bs b h.1)

store-Entry :
    (n : ℕ) (b : Binding) (bs : List (Key × Binding))
    → b.connected ≤ℤ pos 0
    → All Entry bs
    → All Entry (store (guest n) b bs)
unfolding store key_eq
store-Entry n b [] hb h = (hb, tt)
store-Entry n b ((address t, c) ∷ bs) hb h = absurd h.0
store-Entry n b ((guest m, c) ∷ bs) hb h = elim (Bool-cases (m == n)) [
  | inl same ↦ rw same (hb, h.1)
  | inr other ↦ rw other (h.0, store-Entry n b bs hb h.1)
]

record Leaks (n : NatService) (k : ℕ) : Type 0 where
  entries : All Entry n.bindings
  none_stopped : n.stopped ≡ []
  opened : n.listeners ≡ 2 * k

asks-Leaks :
    (n : NatService) (k guest_id : ℕ) (ip : Text)
    → Leaks n k
    → Leaks (request_binding n guest_id ip).0 (k + 1)
unfolding request_binding
asks-Leaks n k guest_id ip v =
    rw (no_address ip n.bindings v.entries, request_binding)
      (record {
        entries = store-Entry guest_id _ n.bindings (omega arith) v.entries;
        none_stopped = v.none_stopped;
        opened = omega (arith, v.opened);
      })

leaves-Leaks : (n : NatService) (k guest_id : ℕ) → Leaks n k → Leaks (free_binding n guest_id).0 k
unfolding free_binding
leaves-Leaks n k guest_id v = elim (Option-cases (find (guest guest_id) n.bindings)) [
  | inl e ↦ rw (e, free_binding) v
  | inr (b, e) ↦
      let low = found-Entry guest_id n.bindings b v.entries e in
      rw (e, free_binding)
        (record {
          entries =
              store-Entry guest_id _ n.bindings (omega (int_laws, -ℤ_parts b.connected (pos 1)))
                v.entries;
          none_stopped = ground (arith, low, v.none_stopped, -ℤ_parts b.connected (pos 1));
          opened = v.opened;
        })
]

run-Leaks :
    (n : NatService) (k : ℕ) (cs : List Call) → Leaks n k → Leaks (run n cs) (k + request_count cs)
unfolding run call
run-Leaks n k [] v = rw (add-zero k) v
run-Leaks n k (asks g ip ∷ cs) v =
    subst (Leaks (run (call n (asks g ip)) cs)) (omega arith)
      (run-Leaks (request_binding n g ip).0 (k + 1) cs (asks-Leaks n k g ip v))
run-Leaks n k (leaves g ∷ cs) v = run-Leaks (free_binding n g).0 k cs (leaves-Leaks n k g v)

-- Whatever guests are requested and freed, each request opens two listeners, and none is ever
-- stopped: `request_binding` looks the IP up among ids, so that a binding is never found again, and
-- its count starts at 0.
pub listeners_leak :
    (cs : List Call)
    → ((run init cs).stopped ≡ []) × ((run init cs).listeners ≡ 2 * request_count cs)
listeners_leak cs =
    let v : Leaks (run init cs) (0 + request_count cs) =
      run-Leaks init 0 cs (record { entries = tt; none_stopped = refl; opened = omega arith }) in
    (v.none_stopped, omega (arith, v.opened))
