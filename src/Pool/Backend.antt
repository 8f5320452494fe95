-- ===== src/Pool/Backend.antt =====
-- LibvirtBackendService of cowrie/src/backend_pool/libvirt/backend_service.py, and the part of
-- cowrie/src/backend_pool/util.py that it and the pool call. Qemu, nmap and the random numbers
-- are arguments.
use vo_iphoneypot.Common.{
  Bool, List, Option, Text, [], arith, codes, eqb_ℤ, false, get_elem?, if◌then◌else◌, length, none,
  not, pos, select, some, suc, text_eq, true, zero, ℕ, ℤ, ◌%◌, ◌&&◌, ◌==◌, ◌||◌, ◌∷◌, ◌≡◌,
}

-- What the virtual machines, the scanner and the clock answer during one pass of the producer.
pub data Launch : Type 0 where
  booted : ℕ → Text → Launch
  no_domain launch_raises : Launch

pub record World : Type 0 where
  -- the exit code and the output of nmap for an address and a port
  pub nmap : Text → ℤ → ℤ × Text
  -- time.time()
  pub now : ℤ
  -- the draw of random.choice in try `k` of the creation of guest number `n`
  pub draw : ℕ → ℕ → ℕ
  -- guest_handler.create_guest for guest number `n` and its MAC
  pub launch : ℕ → Text → Launch
  -- whether libvirt's `destroy` of a domain returns
  pub destroys : ℕ → Bool

-- The service, with what libvirt and the disk hold of it: the running domains whose names begin
-- with `cowrie`, and the snapshot files.
pub record Backend : Type 0 where
  pub ready : Bool
  -- `network_table`: MAC addresses with their IPs
  pub network_table : List (Text × Text)
  pub save_snapshots : Bool
  pub has_snapshot_path : Bool
  pub running : List ℕ
  pub snapshots : List Text

is_prefix : Text → Text → Bool
is_prefix [] t = true
is_prefix (a ∷ s) [] = false
is_prefix (a ∷ s) (b ∷ t) = a == b && is_prefix s t

-- `needle in haystack`, for bytes
is_infix : Text → Text → Bool
unfolding is_prefix
is_infix s [] = is_prefix s []
is_infix s (b ∷ t) = is_prefix s (b ∷ t) || is_infix s t

unfoldable pub nmap_port : World → Text → ℤ → Bool
unfolding is_infix
nmap_port w guest_ip port =
    let out = w.nmap guest_ip port in eqb_ℤ out.0 (pos 0) && is_infix (codes "open") out.1

-- random.choice(list(self.network_table.keys())), which raises on an empty table, and the IP of
-- the MAC drawn
unfoldable pub choose : List (Text × Text) → ℕ → Option (Text × Text)
choose table d = get_elem? table (d % length table)

-- `get_mac_ip` from try `k`, with the tries that are left; `none` is an exception.
unfoldable pub try_mac_ip :
    List (Text × Text) → (Text → Bool) → (ℕ → ℕ) → ℕ → ℕ → Option (Text × Text)
try_mac_ip table ip_tester draw zero k = none
try_mac_ip table ip_tester draw (suc retries) k =
    let again = try_mac_ip table ip_tester draw retries (suc k) in
    elim (choose table (draw k)) [
      | none ↦ none
      | some (mac, ip) ↦ if ip_tester ip then some (mac, ip) else again
    ]

unfoldable pub get_mac_ip : Backend → (Text → Bool) → (ℕ → ℕ) → Option (Text × Text)
unfolding try_mac_ip
get_mac_ip b ip_tester draw = try_mac_ip b.network_table ip_tester draw 500 0

-- What `create_guest` hands to the pool: domain, snapshot and IP.
pub record Created : Type 0 where
  pub domain : ℕ
  pub snapshot : Text
  pub ip : Text

abbrev add_domain : Backend → ℕ → Text → Backend
add_domain b dom snap = record b { running = dom ∷ b.running; snapshots = snap ∷ b.snapshots }

unfoldable pub launch_guest : Backend → Text → Launch → Option (Created × Backend)
launch_guest b ip (booted dom snap) =
    some (record { domain = dom; snapshot = snap; ip = ip }, add_domain b dom snap)
launch_guest b ip no_domain = none
launch_guest b ip launch_raises = none

pub launch_guest_ip :
    (b : Backend) (ip : Text) (l : Launch) (c : Created) (b' : Backend)
    → launch_guest b ip l ≡ some (c, b')
    → c.ip ≡ ip
unfolding launch_guest
launch_guest_ip b ip (booted dom snap) c b' h = ground arith
launch_guest_ip b ip no_domain c b' h = cc
launch_guest_ip b ip launch_raises c b' h = cc

-- `create_guest` for guest number `n`, as its caller unpacks the result: a `None` in place of the
-- triple raises there, and is `none` here as an exception is.
unfoldable pub create_guest : World → ℕ → Backend → (Text → Bool) → Option (Created × Backend)
create_guest w n b ip_tester =
    if b.ready
    then elim (get_mac_ip b ip_tester (w.draw n)) [
      | none ↦ none
      | some (mac, ip) ↦ launch_guest b ip (w.launch n mac)
    ]
    else none

unfoldable pub without_domain : ℕ → List ℕ → List ℕ
without_domain d = select (λ x. not (x == d))

-- `destroy_guest`. What it raises it logs and drops; before `start_backend` it does nothing.
unfoldable pub destroy_guest : World → Backend → ℕ → Text → Backend
unfolding without_domain
destroy_guest w b domain snapshot =
    if b.ready && w.destroys domain
    then record b {
      running = without_domain domain b.running;
      snapshots =
          if (not b.save_snapshots || not b.has_snapshot_path)
          then select (λ x. not (text_eq x snapshot)) b.snapshots
          else b.snapshots;
    }
    else b

-- The loop of `__destroy_all_guests`. The flag says that a `destroy` raised, which ends the loop.
unfoldable pub sweep : World → List ℕ → List ℕ × Bool
sweep w [] = ([], false)
sweep w (d ∷ ds) = let rest = sweep w ds in if w.destroys d then rest else (d ∷ ds, true)

-- `destroy_all_cowrie`; the networks and filters are libvirt's.
unfoldable pub destroy_all_cowrie : World → Backend → Backend × Bool
unfolding sweep
destroy_all_cowrie w b =
    let (left, raised) = sweep w b.running in (record b { running = left }, raised)

unfoldable pub start_backend : Backend → Backend
start_backend b = record b { ready = true }

unfoldable pub stop_backend : World → Backend → Backend × Bool
unfolding destroy_all_cowrie
stop_backend w b = destroy_all_cowrie w (record b { ready = false })
