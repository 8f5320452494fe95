-- ===== src/Pool/Nat.antt =====
-- cowrie/src/backend_pool/nat.py: NATService, and the TCP proxies that its listeners build.
pub mod Leak
pub mod Forward
mod Examples
use vo_iphoneypot.Common.{
  Bool, List, Option, Text, [], eqb_ℤ, false, if◌then◌else◌, none, pos, some, text_eq, true, ℕ, ℤ,
  ◌+ℤ◌, ◌+◌, ◌-ℤ◌, ◌==◌, ◌∷◌,
}

-- A key of `self.bindings`: an int or a str.
pub data Key : Type 0 where
  guest : ℕ → Key
  address : Text → Key

unfoldable pub key_eq : Key → Key → Bool
key_eq (guest a) (guest b) = a == b
key_eq (guest a) (address t) = false
key_eq (address s) (guest b) = false
key_eq (address s) (address t) = text_eq s t

-- `[connected, nat_ssh, nat_telnet]`; a listener is its number, in the order of `listenTCP`.
pub record Binding : Type 0 where
  pub connected : ℤ
  pub nat_ssh : ℕ
  pub nat_telnet : ℕ

-- `listeners` counts the calls of `listenTCP`, and `stopped` are the listeners that were stopped.
pub record NatService : Type 0 where
  pub bindings : List (Key × Binding)
  pub listeners : ℕ
  pub stopped : List ℕ

abbrev pub init : NatService
init = record { bindings = []; listeners = 0; stopped = [] }

unfoldable pub find : Key → List (Key × Binding) → Option Binding
find k [] = none
find k ((j, b) ∷ bs) = if key_eq j k then some b else find k bs

-- `self.bindings[k] = b`
unfoldable pub store : Key → Binding → List (Key × Binding) → List (Key × Binding)
store k b [] = (k, b) ∷ []
store k b ((j, c) ∷ bs) = if key_eq j k then (j, b) ∷ bs else (j, c) ∷ store k b bs

abbrev pub count : Binding → ℤ → Binding
count b c = record b { connected = c }

-- The numbers of the two listeners, or `none` for a KeyError.
abbrev pub Ports : Type 0
Ports = Option (ℕ × ℕ)

join_binding : NatService → ℕ → Option Binding → NatService × Ports
join_binding n guest_id none = (n, none)
join_binding n guest_id (some b) = (
  record n { bindings = store (guest guest_id) (count b (b.connected +ℤ pos 1)) n.bindings },
  some (b.nat_ssh, b.nat_telnet),
)

open_binding : NatService → ℕ → NatService × Ports
open_binding n guest_id =
    let b : Binding = record {
      connected = pos 0;
      nat_ssh = n.listeners;
      nat_telnet = n.listeners + 1;
    } in
    (
      record n { bindings = store (guest guest_id) b n.bindings; listeners = n.listeners + 2 },
      some (b.nat_ssh, b.nat_telnet),
    )

unfoldable pub request_binding : NatService → ℕ → Text → NatService × Ports
unfolding join_binding open_binding
request_binding n guest_id dst_ip = elim (find (address dst_ip) n.bindings) [
  | none ↦ open_binding n guest_id
  | some _ ↦ join_binding n guest_id (find (guest guest_id) n.bindings)
]

leave_binding : NatService → ℕ → Binding → NatService
leave_binding n guest_id b =
    let left : ℤ = b.connected -ℤ pos 1 in
    record n {
      bindings = store (guest guest_id) (count b left) n.bindings;
      stopped = if eqb_ℤ left (pos 0) then b.nat_ssh ∷ b.nat_telnet ∷ n.stopped else n.stopped;
    }

-- The flag says that a KeyError was raised.
unfoldable pub free_binding : NatService → ℕ → NatService × Bool
unfolding leave_binding
free_binding n guest_id = elim (find (guest guest_id) n.bindings) [
  | none ↦ (n, true)
  | some b ↦ (leave_binding n guest_id b, false)
]
