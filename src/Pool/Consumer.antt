-- ===== src/Pool/Consumer.antt =====
-- The consumers of PoolService: `request_vm` with its three searches, `free_vm` and `reuse_vm`.
-- Each search holds the lock; the assignments of `request_vm` come after it is released.
use vo_iphoneypot.Common.{
  ℕ, suc, ℤ, pos, ◌+ℤ◌, ◌-ℤ◌, Text, Bool, true, ◌&&◌, Option, none, some, List, [], ◌∷◌, ltb_ℤ,
  eqb_ℤ, ◌==◌, contains, if◌then◌else◌,
}
use vo_iphoneypot.Pool.Guest.{Guest, absent, available, using, used, in_states}
use vo_iphoneypot.Pool.State.{Service, find_index, update_at, update_first}

unfoldable pub serves_ip : Text → Guest → Bool
serves_ip src_ip g = in_states (used ∷ using ∷ []) g.state && contains src_ip g.client_ips

-- `__consumers_get_guest_ip`
unfoldable pub get_guest_ip : Text → List Guest → Option ℕ
get_guest_ip src_ip = find_index (serves_ip src_ip)

-- `__consumers_get_available_guest`
unfoldable pub get_available_guest : List Guest → Option ℕ
get_available_guest = find_index (λ g. in_states (available ∷ []) g.state)

abbrev pub is_busy : Guest → Bool
is_busy g = in_states (using ∷ used ∷ []) g.state

-- `not least_conn or guest['connected'] < least_conn['connected']`
abbrev pub improves : Guest → Option (ℕ × ℤ) → Bool
improves g none = true
improves g (some (i, c)) = ltb_ℤ g.connected c

-- The loop of `__consumers_get_any_guest` from position `i` on; `least` is the position of
-- `least_conn` and its `connected`.
unfoldable pub least_from : List Guest → ℕ → Option (ℕ × ℤ) → Option (ℕ × ℤ)
least_from [] i least = least
least_from (g ∷ gs) i least =
    least_from gs (suc i) (if is_busy g && improves g least then some (i, g.connected) else least)

-- `__consumers_get_any_guest`
unfoldable pub get_any_guest : List Guest → Option ℕ
unfolding least_from
get_any_guest gs = elim (least_from gs 0 none) [ none ↦ none | some (i, c) ↦ some i ]

-- The guest that `request_vm` settles on.
unfoldable pub choose_guest : Bool → Text → List Guest → Option ℕ
choose_guest share_guests src_ip gs = elim (get_guest_ip src_ip gs) [
  | some i ↦ some i
  | none ↦ elim (get_available_guest gs) [
    | some i ↦ some i
    | none ↦ if share_guests then get_any_guest gs else none
  ]
]

-- `set.add`
unfoldable pub add_ip : Text → List Text → List Text
add_ip ip ips = if contains ip ips then ips else ip ∷ ips

-- The assignments at the end of `request_vm`.
unfoldable pub claim : Text → Guest → Guest
unfolding add_ip
claim src_ip g = record g {
  prev_state = g.state;
  state = using;
  connected = g.connected +ℤ pos 1;
  client_ips = add_ip src_ip g.client_ips;
}

unfoldable pub claim_at : ℕ → Text → Service → Service
claim_at i src_ip s = record s { guests = update_at i (claim src_ip) s.guests }

unfoldable pub freed : ℤ → Guest → Guest
freed now g =
    let left : ℤ = g.connected -ℤ pos 1 in
    record g {
      freed_timestamp = now;
      connected = left;
      state = if eqb_ℤ left (pos 0) then used else g.state;
    }

unfoldable pub free_vm : ℤ → ℕ → Service → Service
free_vm now guest_id s = record s {
  guests = update_first (λ g. g.id == guest_id) (freed now) s.guests;
}

-- The machine state goes back to `prev_state` with the last connection.
unfoldable pub reused : Guest → Guest
reused g =
    let left : ℤ = g.connected -ℤ pos 1 in
    let last : Bool = eqb_ℤ left (pos 0) in
    record g {
      connected = left;
      state = if last then g.prev_state else g.state;
      prev_state = if last then absent else g.prev_state;
    }

unfoldable pub reuse_vm : ℕ → Service → Service
reuse_vm guest_id s = record s { guests = update_first (λ g. g.id == guest_id) reused s.guests }
