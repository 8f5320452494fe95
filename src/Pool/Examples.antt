-- ===== src/Pool/Examples.antt =====
-- Runs of the pool on small inputs.
-- A network of two addresses, where every virtual machine boots and answers on port 22.
use Prim.Native.Nat.{max}
use vo_iphoneypot.Common.{
  All, List, Text, [], arith, codes, false, get_elem?, negsuc, pos, refl, select, some, text_eq,
  true, ℕ, ℤ, ◌+ℤ◌, ◌+◌, ◌<◌, ◌==◌, ◌∷◌, ◌≡◌, ◌≤◌,
}
use vo_iphoneypot.Pool.Backend.{Backend, World, booted, nmap_port}
use vo_iphoneypot.Pool.Client.{PoolClient, client_received, received, send_vm_request}
use vo_iphoneypot.Pool.Consumer.{
  add_ip, choose_guest, claim_at, get_available_guest, get_guest_ip, reuse_vm, serves_ip,
}
use vo_iphoneypot.Pool.Guest.{Guest, absent, available, destroyed, get_guest_states, using}
use vo_iphoneypot.Pool.Laws.Invariant.{Inv, history-Inv}
use vo_iphoneypot.Pool.Laws.Lifecycle.{Along, producer_sections-Along}
use vo_iphoneypot.Pool.Laws.Replenish.{producer_loop-size}
use vo_iphoneypot.Pool.Laws.Requests.{request_vm_sticky}
use vo_iphoneypot.Pool.Laws.Returns.{reuse_vm_restores, reuse_vm_sticks}
use vo_iphoneypot.Pool.Laws.Sharing.{CanServe, request_vm_exact}
use vo_iphoneypot.Pool.Laws.Size.{remove_destroyed-live}
use vo_iphoneypot.Pool.Laws.Stall.{producer_loop-stalls}
use vo_iphoneypot.Pool.Producer.{
  after_destroy, check_health, clean_up, destroy_timed_out, destroy_unavailable, mark_available,
  mark_timed_out, producer_loop, remove_destroyed, remove_guests, retire_old, timed_out,
}
use vo_iphoneypot.Pool.Server.{
  Codec, Factory, ServerConfig, data_received, pack_guest, serve_request,
}
use vo_iphoneypot.Pool.Service.{Lease, grant, lease, request_vm}
use vo_iphoneypot.Pool.State.{
  Service, call_pending, existing_pool_size, find_index, has_connectivity, init, is_ip_free,
  is_pending, live, no_call, update_at, update_where,
}
use vo_iphoneypot.Pool.Steps.{Reach-trans, producer_loop-Reach, request_vm-Reach}
use vo_iphoneypot.Pool.Wire.{guest_round_trip, request_round_trip}

abbrev calm : World
calm = record {
  nmap = λ ip port. (pos 0, codes "22/tcp open ssh");
  now = pos 1000;
  draw = λ n k. n;
  launch = λ n mac. booted n (codes "snap");
  destroys = λ d. true;
}

abbrev backend : Backend
backend = record {
  ready = true;
  network_table =
      (codes "48:d2", codes "192.168.150.2") ∷ (codes "48:d3", codes "192.168.150.3") ∷ [];
  save_snapshots = true;
  has_snapshot_path = true;
  running = [];
  snapshots = [];
}

abbrev service : Service
service = record {
  qemu = backend;
  guests = [];
  guest_id = 0;
  loop_next_call = no_call;
  max_vm = 2;
  vm_unused_timeout = 600;
  share_guests = true;
  ssh_port = pos 22;
  telnet_port = pos 23;
  any_vm_up = false;
}

abbrev attacker : Text
attacker = codes "10.0.0.1"

abbrev other : Text
other = codes "10.0.0.2"

abbrev idle_guest : ℕ → Text → Guest
idle_guest n ip = record {
  id = n;
  state = available;
  prev_state = absent;
  start_timestamp = pos 1000;
  guest_ip = ip;
  connected = pos 0;
  client_ips = [];
  freed_timestamp = negsuc 0;
  domain = n;
  snapshot = codes "snap";
}

abbrev booted_up : Service
booted_up = record service {
  guests = idle_guest 0 (codes "192.168.150.2") ∷ idle_guest 1 (codes "192.168.150.3") ∷ [];
  guest_id = 2;
  any_vm_up = true;
}

history-Inv_example : Inv (request_vm calm attacker (producer_loop calm service).0).0
unfolding init
history-Inv_example =
    history-Inv backend (pos 22) (pos 23) service _ refl
      (Reach-trans (producer_loop-Reach calm service) (request_vm-Reach calm attacker _))

abbrev first_lease : Lease
first_lease = record { id = 0; guest_ip = codes "192.168.150.2"; snapshot = codes "snap" }

granted : (request_vm calm attacker booted_up).1 ≡ some first_lease
unfolding request_vm grant choose_guest get_guest_ip get_available_guest find_index serves_ip
granted = refl

request_vm_sticky_example :
    (request_vm calm attacker (request_vm calm attacker booted_up).0).1 ≡ some first_lease
request_vm_sticky_example = request_vm_sticky calm calm attacker booted_up first_lease granted

request_vm_exact_example :
    (i : ℕ) × (g : Guest) × (get_elem? booted_up.guests i ≡ some g)
    × (first_lease ≡ lease g)
    × CanServe true attacker g
request_vm_exact_example = (request_vm_exact calm attacker booted_up).0 first_lease granted

abbrev busy_guest : ℕ → ℤ → Guest
busy_guest n c = record (idle_guest n (codes "192.168.150.9")) {
  state = using;
  connected = c;
  client_ips = other ∷ [];
}

abbrev shared : List Guest
shared = busy_guest 0 (pos 2) ∷ busy_guest 1 (pos 1) ∷ []

producer_loop-size_example :
    existing_pool_size (producer_loop calm service).0.guests
    ≤ max service.max_vm (existing_pool_size service.guests)
producer_loop-size_example = (producer_loop-size calm service).0

abbrev one_destroyed : Service
one_destroyed = record booted_up {
  guests = record (idle_guest 0 attacker) { state = destroyed } ∷ idle_guest 1 other ∷ [];
}

remove_destroyed-live_example : (remove_destroyed one_destroyed).guests ≡ live one_destroyed.guests
remove_destroyed-live_example = remove_destroyed-live one_destroyed

producer_sections-Along_example :
    Along booted_up.guests (mark_timed_out calm 600 booted_up).guests
    × Along booted_up.guests (check_health calm booted_up).guests
    × Along booted_up.guests (destroy_timed_out calm booted_up).guests
    × Along booted_up.guests (mark_available calm booted_up).guests
producer_sections-Along_example = producer_sections-Along calm 600 booted_up

chosen : choose_guest true attacker booted_up.guests ≡ some 0
unfolding choose_guest get_guest_ip get_available_guest find_index serves_ip
chosen = refl

first_by_id : find_index (λ x. x.id == 0) booted_up.guests ≡ some 0
unfolding find_index
first_by_id = refl

abbrev guest_0 : Guest
guest_0 = idle_guest 0 (codes "192.168.150.2")

reuse_vm_restores_example :
    (reuse_vm 0 (request_vm calm attacker booted_up).0).guests
    ≡ update_at 0
        (λ _. record guest_0 { prev_state = absent; client_ips = add_ip attacker [] })
        booted_up.guests
reuse_vm_restores_example =
    reuse_vm_restores calm attacker booted_up 0 guest_0 chosen refl first_by_id refl

reuse_vm_sticks_example :
    let s' = reuse_vm 0 (reuse_vm 0 (claim_at 0 other (claim_at 0 attacker booted_up))) in
    (g' : Guest) × (get_elem? s'.guests 0 ≡ some g')
    × (g'.state ≡ using)
    × (g'.connected ≡ pos 0)
    × (get_elem? (mark_timed_out calm 600 s').guests 0 ≡ some g')
reuse_vm_sticks_example =
    reuse_vm_sticks calm 600 attacker other booted_up 0 guest_0 refl first_by_id refl

-- Three guests are wanted, and the network has two addresses.
abbrev crowded : Service
crowded = record booted_up { max_vm = 3 }

room_wanted : existing_pool_size (clean_up calm crowded).guests < 3
unfolding clean_up retire_old destroy_timed_out destroy_unavailable after_destroy mark_timed_out
    timed_out check_health remove_destroyed existing_pool_size live remove_guests get_guest_states
    has_connectivity nmap_port update_where select ◌+ℤ◌
room_wanted = omega arith

All-taken :
    All
      (λ row. is_ip_free (clean_up calm crowded).guests row.1 ≡ false)
      (clean_up calm crowded).qemu.network_table
unfolding clean_up retire_old destroy_timed_out destroy_unavailable after_destroy mark_timed_out
    timed_out check_health remove_destroyed existing_pool_size live remove_guests get_guest_states
    has_connectivity nmap_port update_where select is_ip_free text_eq ◌+ℤ◌
All-taken = (refl, (refl, tt))

producer_loop-stalls_example :
    ((producer_loop calm crowded).1 ≡ true)
    × (is_pending (producer_loop calm crowded).0.loop_next_call ≡ false)
producer_loop-stalls_example = producer_loop-stalls calm crowded room_wanted All-taken

-- ASCII texts, one byte a character.
abbrev ascii : Codec
ascii = record { encode = λ t. t; decode = λ t. some t }

abbrev server_config : ServerConfig
server_config = record {
  local_pool = true;
  pool_only = false;
  use_nat = true;
  nat_public_ip = codes "10.9.9.9";
  guest_ssh_port = 22;
  guest_telnet_port = 23;
  real_port = λ n. 40000 + n;
}

abbrev factory : Factory
factory = record {
  initialised = false;
  pool_service = booted_up;
  nat = record { bindings = []; listeners = 0; stopped = [] };
}

abbrev client : PoolClient
client = record { has_parent = true; vm_id = some 1 }

request_round_trip_example :
    (bytes : Text) × (send_vm_request ascii attacker ≡ some bytes)
    × (data_received ascii server_config calm factory bytes
        ≡ serve_request ascii server_config calm factory attacker)
request_round_trip_example =
    request_round_trip ascii server_config calm factory attacker (refl, refl) (omega arith)

guest_round_trip_example :
    (bytes : Text) × (pack_guest ascii 3 (codes "192.168.150.2") 22 23 (codes "snap") ≡ some bytes)
    × (client_received client bytes
        ≡ (record client { vm_id = some 3 }, received (codes "192.168.150.2") (codes "snap") 22 23))
guest_round_trip_example =
    guest_round_trip ascii client 3 22 23 (codes "192.168.150.2") (codes "snap") (refl, refl)
      (refl, refl) (omega arith) (omega arith) (omega arith) (omega arith) (omega arith) refl

abbrev waiting : Service
waiting = record service { loop_next_call = call_pending }
