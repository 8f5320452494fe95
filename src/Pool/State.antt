-- ===== src/Pool/State.antt =====
-- The fields of PoolService, and how its methods reach the guests.
use vo_iphoneypot.Common.{
  Bool, List, Option, Text, [], false, if◌then◌else◌, length, ltb_ℤ, map, none, not, pos, select,
  some, suc, text_eq, true, zero, ℕ, ℤ, ◌&&◌, ◌||◌, ◌∷◌,
}
use vo_iphoneypot.Pool.Backend.{Backend, World, nmap_port}
use vo_iphoneypot.Pool.Guest.{Guest, destroyed, state_eq}

-- `loop_next_call`: None, or the call of the reactor that runs the next pass of the producer, which
-- waits, was made, or was cancelled.
pub data NextCall : Type 0 where
  no_call : NextCall
  call_pending : NextCall
  call_made : NextCall
  call_cancelled : NextCall

abbrev pub is_pending : NextCall → Bool
is_pending call_pending = true
is_pending x = false

-- The reactor makes the call that waits.
abbrev pub fired : NextCall → NextCall
fired call_pending = call_made
fired x = x

pub record Service : Type 0 where
  pub qemu : Backend
  pub guests : List Guest
  pub guest_id : ℕ
  pub loop_next_call : NextCall
  pub max_vm : ℕ
  pub vm_unused_timeout : ℕ
  pub share_guests : Bool
  pub ssh_port : ℤ
  pub telnet_port : ℤ
  pub any_vm_up : Bool

-- `__init__`, with the service of libvirt already connected; `none` is the exit on a configuration
-- with neither port.
unfoldable pub init : Backend → ℤ → ℤ → Option Service
init qemu ssh_port telnet_port =
    if not (ltb_ℤ (pos 0) ssh_port) && not (ltb_ℤ (pos 0) telnet_port)
    then none
    else some (record {
      qemu = qemu;
      guests = [];
      guest_id = 0;
      loop_next_call = no_call;
      max_vm = 2;
      vm_unused_timeout = 600;
      share_guests = true;
      ssh_port = ssh_port;
      telnet_port = telnet_port;
      any_vm_up = false;
    })

unfoldable pub set_configs : Service → ℕ → ℕ → Bool → Service
set_configs s max_vm vm_unused_timeout share_guests = record s {
  max_vm = max_vm;
  vm_unused_timeout = vm_unused_timeout;
  share_guests = share_guests;
}

-- `[g for g in self.guests if g['state'] != 'destroyed']`
unfoldable pub live : List Guest → List Guest
live = select (λ g. not (state_eq g.state destroyed))

unfoldable pub existing_pool_size : List Guest → ℕ
unfolding live
existing_pool_size gs = length (live gs)

unfoldable pub is_ip_free : List Guest → Text → Bool
is_ip_free [] ip = true
is_ip_free (g ∷ gs) ip = if text_eq g.guest_ip ip then false else is_ip_free gs ip

unfoldable pub has_connectivity : World → Service → Text → Bool
has_connectivity w s ip =
    let has_ssh : Bool = if ltb_ℤ (pos 0) s.ssh_port then nmap_port w ip s.ssh_port else false in
    let has_telnet : Bool =
      if ltb_ℤ (pos 0) s.telnet_port && not has_ssh then nmap_port w ip s.telnet_port else true in
    has_ssh || has_telnet

-- `for g in self.guests: if p(g): f(g)`
unfoldable pub update_where : (Guest → Bool) → (Guest → Guest) → List Guest → List Guest
update_where p f = map (λ g. if p g then f g else g)

-- `for g in self.guests: if p(g): f(g); return`
unfoldable pub update_first : (Guest → Bool) → (Guest → Guest) → List Guest → List Guest
update_first p f [] = []
update_first p f (g ∷ gs) = if p g then f g ∷ gs else g ∷ update_first p f gs

-- A reference to a guest is its position.
unfoldable pub update_at : ℕ → (Guest → Guest) → List Guest → List Guest
update_at i f [] = []
update_at zero f (g ∷ gs) = f g ∷ gs
update_at (suc i) f (g ∷ gs) = g ∷ update_at i f gs

unfoldable pub find_index : (Guest → Bool) → List Guest → Option ℕ
find_index p [] = none
find_index p (g ∷ gs) =
    if p g then some 0 else elim (find_index p gs) [ none ↦ none | some i ↦ some (suc i) ]
