-- ===== src/Pool/Guest.antt =====
-- The guests of cowrie/src/backend_pool/pool_service.py: the dicts that `__producer_create_guests`
-- appends to `self.guests`.
use vo_iphoneypot.Common.{
  ℕ, ℤ, Text, Bool, true, false, ◌&&◌, List, [], ◌∷◌, ◌==◌, eqb_ℤ, text_eq, contains, select,
}

-- What the slots `state` and `prev_state` hold; `absent` is `None`.
pub data GuestState : Type 0 where
  created available using used unavailable destroyed absent : GuestState

-- `domain` is the handle of the libvirt domain.
pub record Guest : Type 0 where
  pub id : ℕ
  pub state : GuestState
  pub prev_state : GuestState
  pub start_timestamp : ℤ
  pub guest_ip : Text
  pub connected : ℤ
  pub client_ips : List Text
  pub freed_timestamp : ℤ
  pub domain : ℕ
  pub snapshot : Text

abbrev pub state_eq : GuestState → GuestState → Bool
state_eq created created = true
state_eq available available = true
state_eq using using = true
state_eq used used = true
state_eq unavailable unavailable = true
state_eq destroyed destroyed = true
state_eq absent absent = true
state_eq _ _ = false

-- `g['state'] in states`
abbrev pub in_states : List GuestState → GuestState → Bool
in_states [] s = false
in_states (t ∷ ts) s = elim (state_eq t s) [ true ↦ true | false ↦ in_states ts s ]

-- `get_guest_states`: the guests in one of the states, in the order of the pool.
unfoldable pub get_guest_states : List GuestState → List Guest → List Guest
get_guest_states states = select (λ g. in_states states g.state)

-- Every text of the first list is in the second.
unfoldable pub subset : List Text → List Text → Bool
subset [] ys = true
subset (x ∷ xs) ys = contains x ys && subset xs ys

-- Python's `==` on two of these dicts.
unfoldable pub guest_eq : Guest → Guest → Bool
unfolding subset
guest_eq a b =
    state_eq a.state b.state
    && a.id == b.id
    && state_eq a.prev_state b.prev_state
    && eqb_ℤ a.start_timestamp b.start_timestamp
    && text_eq a.guest_ip b.guest_ip
    && eqb_ℤ a.connected b.connected
    && subset a.client_ips b.client_ips
    && subset b.client_ips a.client_ips
    && eqb_ℤ a.freed_timestamp b.freed_timestamp
    && a.domain == b.domain
    && text_eq a.snapshot b.snapshot
