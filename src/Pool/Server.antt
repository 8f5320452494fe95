-- ===== src/Pool/Server.antt =====
-- PoolServer.dataReceived of cowrie/src/backend_pool/pool_server.py. UTF-8 is the codec of Python:
-- `encode` and `decode` are arguments.
use vo_iphoneypot.Common.{
  Bool, Option, Text, [], drop, if◌then◌else◌, length, none, not, some, take, true, ℕ, ◌&&◌, ◌++◌,
  ◌==◌, ◌||◌, ◌∷◌,
}
use vo_iphoneypot.Packing.{
  be32, pack16, pack32, pack_s, unpack16, unpack32, unpack_bool, unpack_s, ◌>>=◌,
}
use vo_iphoneypot.Pool.Backend.{World}
use vo_iphoneypot.Pool.Consumer.{free_vm, reuse_vm}
use vo_iphoneypot.Pool.Nat.{NatService, free_binding, request_binding}
use vo_iphoneypot.Pool.Service.{Lease, request_vm, stop_pool}
use vo_iphoneypot.Pool.State.{Service, set_configs}

pub record Codec : Type 0 where
  pub encode : Text → Text
  pub decode : Text → Option Text

-- `self.local_pool`, `self.pool_only` and the rest of the configuration.
pub record ServerConfig : Type 0 where
  pub local_pool : Bool
  pub pool_only : Bool
  pub use_nat : Bool
  pub nat_public_ip : Text
  pub guest_ssh_port : ℕ
  pub guest_telnet_port : ℕ
  -- `_realPortNumber` of a listener
  pub real_port : ℕ → ℕ

-- PoolServerFactory
pub record Factory : Type 0 where
  pub initialised : Bool
  pub pool_service : Service
  pub nat : NatService

-- What a message leads to: bytes to write, nothing, or an exception.
pub data Reaction : Type 0 where
  response : Text → Reaction
  silent raises : Reaction

abbrev pub opcode_i : ℕ
opcode_i = b'i'

abbrev pub opcode_r : ℕ
opcode_r = b'r'

abbrev pub opcode_f : ℕ
opcode_f = b'f'

abbrev pub opcode_u : ℕ
opcode_u = b'u'

abbrev pub reply : Option Text → Reaction
reply none = raises
reply (some t) = response t

-- `not self.local_pool and self.use_nat or self.pool_only`
abbrev pub through_nat : ServerConfig → Bool
through_nat c = not c.local_pool && c.use_nat || c.pool_only

-- The pack of '!cIIH{0}sHHH{1}s', with the texts still to be encoded.
unfoldable pub pack_guest : Codec → ℕ → Text → ℕ → ℕ → Text → Option Text
pack_guest k guest_id ip ssh telnet snapshot = do
  id_bytes ← pack32 guest_id
  ip_len ← pack16 (length ip)
  ssh_bytes ← pack16 ssh
  telnet_bytes ← pack16 telnet
  snapshot_len ← pack16 (length snapshot)
  some (
      opcode_r ∷ be32 0
      ++ (id_bytes
          ++ (ip_len
              ++ (pack_s (length ip) (k.encode ip)
                  ++ (ssh_bytes
                      ++ (telnet_bytes
                          ++ (snapshot_len ++ pack_s (length snapshot) (k.encode snapshot))))))))

-- The guest's own address and ports, or those of its NAT binding.
unfoldable pub expose : Codec → ServerConfig → Factory → Lease → Factory × Reaction
expose k c f l =
    if through_nat c
    then (let (n, ports) = request_binding f.nat l.id l.guest_ip in
        (
          record f { nat = n },
          elim ports [
            | none ↦ raises
            | some (ssh, telnet) ↦ reply (
                pack_guest k l.id c.nat_public_ip (c.real_port ssh) (c.real_port telnet) l.snapshot)
          ],
        ))
    else (f, reply (pack_guest k l.id l.guest_ip c.guest_ssh_port c.guest_telnet_port l.snapshot))

-- NoAvailableVMs, unless `request_vm` raised the error of `stop_pool`
abbrev pub refuse : World → Service → Reaction
refuse w s = if s.any_vm_up && (stop_pool w s).1 then raises else response (opcode_r ∷ be32 1)

unfoldable pub serve_request : Codec → ServerConfig → World → Factory → Text → Factory × Reaction
serve_request k c w f attacker_ip =
    let (s, granted) = request_vm w attacker_ip f.pool_service in
    let f' : Factory = record f { pool_service = s } in
    elim granted [ none ↦ (f', refuse w f.pool_service) | some l ↦ expose k c f' l ]

-- The ops 'f' and 'u', after the id was read.
unfoldable pub give_back : ServerConfig → (Service → Service) → Factory → ℕ → Factory × Reaction
give_back c back f guest_id =
    if through_nat c
    then (let (n, raised) = free_binding f.nat guest_id in
        if raised
        then (record f { nat = n }, raises)
        else (record f { nat = n; pool_service = back f.pool_service }, silent))
    else (record f { pool_service = back f.pool_service }, silent)

-- '!II?'
unfoldable pub unpack_config : Text → Option (ℕ × ℕ × Bool)
unpack_config t = do
  max_vm ← unpack32 (take 4 t)
  timeout ← unpack32 (take 4 (drop 4 t))
  share ← unpack_bool (drop 8 t)
  some (max_vm, timeout, share)

-- The address in a request: '!H' of `data[1:3]`, then the rest.
unfoldable pub unpack_request : Codec → Text → Option Text
unpack_request k t = do ip_len ← unpack16 (take 2 t); raw ← unpack_s ip_len (drop 2 t); k.decode raw

unfoldable pub configure : Factory → Option (ℕ × ℕ × Bool) → Factory × Reaction
configure f none = (f, raises)
configure f (some (max_vm, timeout, share)) = (
  record f { initialised = true; pool_service = set_configs f.pool_service max_vm timeout share },
  response (opcode_i ∷ be32 0),
)

-- `dataReceived`; the clock is the world's.
unfoldable pub data_received : Codec → ServerConfig → World → Factory → Text → Factory × Reaction
data_received k c w f [] = (f, raises)
data_received k c w f (op ∷ rest) =
    if op == opcode_i
    then configure f (unpack_config rest)
    else if op == opcode_r
    then elim (unpack_request k rest) [ none ↦ (f, raises) | some ip ↦ serve_request k c w f ip ]
    else if op == opcode_f
    then elim (unpack32 rest) [
      | none ↦ (f, raises)
      | some guest_id ↦ give_back c (free_vm w.now guest_id) f guest_id
    ]
    else if op == opcode_u
    then elim (unpack32 rest) [
      | none ↦ (f, raises)
      | some guest_id ↦ give_back c (reuse_vm guest_id) f guest_id
    ]
    else (f, silent)
