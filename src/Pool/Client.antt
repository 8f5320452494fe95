-- ===== src/Pool/Client.antt =====
-- PoolClient of cowrie/src/cowrie/pool_interface/client.py.
use vo_iphoneypot.Common.{
  Bool, Option, Text, [], drop, if◌then◌else◌, length, none, not, some, take, ℕ, ◌++◌, ◌==◌, ◌∷◌,
}
use vo_iphoneypot.Packing.{pack16, pack32, pack_bool, pack_s, unpack16, unpack32, unpack_s, ◌>>=◌}
use vo_iphoneypot.Pool.Server.{Codec, opcode_f, opcode_i, opcode_r, opcode_u}

pub record PoolClient : Type 0 where
  pub has_parent : Bool
  pub vm_id : Option ℕ

-- What the client calls on its parent.
pub data Signal : Type 0 where
  discarded silent raises lose_connection : Signal
  initialised : ℕ → Signal
  received : Text → Text → ℕ → ℕ → Signal

unfoldable pub send_initialisation : ℕ → ℕ → Bool → Option Text
send_initialisation max_vms vm_unused_timeout share_guests = do
  m ← pack32 max_vms
  t ← pack32 vm_unused_timeout
  some (opcode_i ∷ m ++ (t ++ pack_bool share_guests))

unfoldable pub send_vm_request : Codec → Text → Option Text
send_vm_request k src_ip = do
  n ← pack16 (length src_ip)
  some (opcode_r ∷ n ++ pack_s (length src_ip) (k.encode src_ip))

-- Nothing is sent where the connection had no guest: `some []`.
unfoldable pub send_vm_free : PoolClient → Bool → Option Text
send_vm_free c backend_dirty = elim c.vm_id [
  | none ↦ some []
  | some vm_id ↦ pack32 vm_id >>= λ n. some ((if backend_dirty then opcode_f else opcode_u) ∷ n)
]

-- The part of a response behind the guest's id.
unfoldable pub unpack_guest : Text → Option (Text × Text × ℕ × ℕ)
unpack_guest t = do
  ip_len ← unpack16 (take 2 t)
  let t₁ = drop 2 t
  honey_ip ← unpack_s ip_len (take ip_len t₁)
  let t₂ = drop ip_len t₁
  ssh_port ← unpack16 (take 2 t₂)
  telnet_port ← unpack16 (take 2 (drop 2 t₂))
  let t₃ = drop 4 t₂
  snapshot_len ← unpack16 (take 2 t₃)
  snapshot ← unpack_s snapshot_len (take snapshot_len (drop 2 t₃))
  some (honey_ip, snapshot, ssh_port, telnet_port)

abbrev pub tell : Option (Text × Text × ℕ × ℕ) → Signal
tell none = raises
tell (some (honey_ip, snapshot, ssh_port, telnet_port)) =
    received honey_ip snapshot ssh_port telnet_port

-- `self.vm_id` is set before the rest is read.
unfoldable pub take_guest : PoolClient → Text → PoolClient × Signal
take_guest c t = elim (unpack32 (take 4 t)) [
  | none ↦ (c, raises)
  | some vm_id ↦ (record c { vm_id = some vm_id }, tell (unpack_guest (drop 4 t)))
]

unfoldable pub on_response : PoolClient → ℕ → ℕ → Text → PoolClient × Signal
on_response c res_op res_code rest =
    if res_op == opcode_i
    then (c, initialised res_code)
    else if res_op == opcode_r
    then (if res_code == 0 then take_guest c rest else (c, lose_connection))
    else (c, silent)

-- The op and the code: '!cI' of `data[0:5]`.
unfoldable pub unpack_header : Text → Option (ℕ × ℕ)
unpack_header [] = none
unpack_header (op ∷ t) = unpack32 (take 4 t) >>= λ code. some (op, code)

-- `dataReceived`
unfoldable pub client_received : PoolClient → Text → PoolClient × Signal
client_received c t = if not c.has_parent then (c, discarded) else elim (unpack_header t) [
  | none ↦ (c, raises)
  | some (op, code) ↦ on_response c op code (drop 5 t)
]
