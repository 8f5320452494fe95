-- ===== src/Pool/Wire.antt =====
-- The pool protocol end to end: what one side sends the other reads back.
-- The codec carries a text with one byte for each of its characters, as UTF-8 does for ASCII.
use vo_iphoneypot.Common.{
  Bool, Text, ap, arith, drop_append_left, false, if◌then◌else◌, length, some, sym, take-length,
  take_append_left, true, ℕ, ◌++◌, ◌<◌, ◌∙◌, ◌∷◌, ◌≡◌,
}
use vo_iphoneypot.Packing.{
  be16, be32, pack16_fits, pack32_fits, pack_bool, pack_s, pack_s_self, unpack16-be16, unpack32,
  unpack32-be32, unpack_bool-pack, unpack_s_self,
}
use vo_iphoneypot.Pool.Backend.{World}
use vo_iphoneypot.Pool.Client.{
  PoolClient, client_received, initialised, on_response, received, send_initialisation,
  send_vm_free, send_vm_request, take_guest, tell, unpack_guest, unpack_header,
}
use vo_iphoneypot.Pool.Consumer.{free_vm, reuse_vm}
use vo_iphoneypot.Pool.Server.{
  Codec, Factory, Reaction, ServerConfig, configure, data_received, give_back, opcode_f, opcode_i,
  opcode_r, opcode_u, pack_guest, response, serve_request, through_nat, unpack_config,
  unpack_request,
}
use vo_iphoneypot.Pool.State.{set_configs}

abbrev pub Carries : Codec → Text → Type 0
Carries k t = (k.decode (k.encode t) ≡ some t) × (length (k.encode t) ≡ length t)

fits_s :
    (k : Codec) (t : Text)
    → length (k.encode t) ≡ length t
    → pack_s (length t) (k.encode t) ≡ k.encode t
fits_s k t h = rw (sym h) (pack_s_self (k.encode t))

pub send_vm_request_lem :
    (k : Codec) (ip : Text)
    → Carries k ip
    → length ip < 0x10000
    → send_vm_request k ip ≡ some (opcode_r ∷ be16 (length ip) ++ k.encode ip)
unfolding send_vm_request
send_vm_request_lem k ip carried h = rw (pack16_fits (length ip) h, fits_s k ip carried.1)

unpack_request_lem :
    (k : Codec) (ip : Text)
    → Carries k ip
    → length ip < 0x10000
    → unpack_request k (be16 (length ip) ++ k.encode ip) ≡ some ip
unfolding unpack_request
unpack_request_lem k ip carried h =
    rw (unpack16-be16 (length ip) h)
      (rw (sym carried.1) (rw (unpack_s_self (k.encode ip)) carried.0))

-- The bytes that the client sends for an attacker's address make the server run the request for
-- exactly that address.
pub request_round_trip :
    (k : Codec) (c : ServerConfig) (w : World) (f : Factory) (ip : Text)
    → Carries k ip
    → length ip < 0x10000
    → (bytes : Text) × (send_vm_request k ip ≡ some bytes)
      × (data_received k c w f bytes ≡ serve_request k c w f ip)
unfolding data_received
request_round_trip k c w f ip carried h = (
  opcode_r ∷ be16 (length ip) ++ k.encode ip,
  send_vm_request_lem k ip carried h,
  rw (unpack_request_lem k ip carried h, data_received),
)

unpack_config_lem :
    (m t : ℕ) (share : Bool)
    → m < 0x100000000
    → t < 0x100000000
    → unpack_config (be32 m ++ (be32 t ++ pack_bool share)) ≡ some (m, t, share)
unfolding unpack_config
unpack_config_lem m t share hm ht =
    rw (unpack32-be32 m hm, unpack32-be32 t ht, unpack_bool-pack share)

-- The initialisation sets the three settings, answers with code 0, and the client tells its parent
-- so.
pub initialisation_round_trip :
    (k : Codec) (c : ServerConfig) (w : World) (f : Factory) (p : PoolClient) (m t : ℕ)
    (share : Bool)
    → m < 0x100000000
    → t < 0x100000000
    → p.has_parent ≡ true
    → (bytes : Text) × (answer : Text) × (send_initialisation m t share ≡ some bytes)
      × (data_received k c w f bytes ≡ (
        record f { initialised = true; pool_service = set_configs f.pool_service m t share },
        response answer,
      ))
      × (client_received p answer ≡ (p, initialised 0))
unfolding data_received send_initialisation configure unpack_config client_received unpack_header
    on_response unpack32
initialisation_round_trip k c w f p m t share hm ht parent = (
  opcode_i ∷ be32 m ++ (be32 t ++ pack_bool share),
  opcode_i ∷ be32 0,
  rw (pack32_fits m hm, pack32_fits t ht),
  ap (configure f) (unpack_config_lem m t share hm ht),
  rw parent,
)

unpack_guest_lem :
    (ip snapshot : Text) (ssh telnet : ℕ)
    → length ip < 0x10000
    → length snapshot < 0x10000
    → ssh < 0x10000
    → telnet < 0x10000
    → unpack_guest (
        be16 (length ip)
        ++ (ip ++ (be16 ssh ++ (be16 telnet ++ (be16 (length snapshot) ++ snapshot)))))
      ≡ some (ip, snapshot, ssh, telnet)
unfolding unpack_guest
unpack_guest_lem ip snapshot ssh telnet hi hs h1 h2 = rw (unpack16-be16 (length ip) hi) (
    rw (take_append_left ip _) (
      rw (unpack_s_self ip) (
        rw (drop_append_left ip _) (
          rw (
            unpack16-be16 ssh h1,
            unpack16-be16 telnet h2,
            unpack16-be16 (length snapshot) hs,
            take-length snapshot,
            unpack_s_self snapshot,
          )))))

-- The same, where the lengths are those of the texts before they were encoded.
unpack_guest_at :
    (n m : ℕ) (ip snapshot : Text) (ssh telnet : ℕ)
    → length ip ≡ n
    → length snapshot ≡ m
    → n < 0x10000
    → m < 0x10000
    → ssh < 0x10000
    → telnet < 0x10000
    → unpack_guest (be16 n ++ (ip ++ (be16 ssh ++ (be16 telnet ++ (be16 m ++ snapshot)))))
      ≡ some (ip, snapshot, ssh, telnet)
unpack_guest_at n m ip snapshot ssh telnet e e' hi hs h1 h2 =
    rw (sym e, sym e') (unpack_guest_lem ip snapshot ssh telnet (omega arith) (omega arith) h1 h2)

take_guest_lem :
    (p : PoolClient) (id : ℕ) (rest : Text) (found : Text × Text × ℕ × ℕ)
    → id < 0x100000000
    → unpack_guest rest ≡ some found
    → take_guest p (be32 id ++ rest) ≡ (record p { vm_id = some id }, tell (some found))
unfolding take_guest unpack32
take_guest_lem p id rest found h e = rw (unpack32-be32 id h, e)

client_received_lem :
    (p : PoolClient) (rest : Text)
    → p.has_parent ≡ true
    → client_received p (opcode_r ∷ be32 0 ++ rest) ≡ take_guest p rest
unfolding client_received unpack_header unpack32 on_response
client_received_lem p rest parent = ground arith

-- A guest that the server reports, with an id below 2^32 and ports and lengths below 2^16, and with an
-- address and a snapshot path that decode to themselves and have as many bytes as characters, is what
-- a client with a parent hands to it: the same id, the encoded address and snapshot, and the ports.
pub guest_round_trip :
    (k : Codec) (p : PoolClient) (id ssh telnet : ℕ) (ip snapshot : Text)
    → Carries k ip
    → Carries k snapshot
    → id < 0x100000000
    → length ip < 0x10000
    → length snapshot < 0x10000
    → ssh < 0x10000
    → telnet < 0x10000
    → p.has_parent ≡ true
    → (bytes : Text) × (pack_guest k id ip ssh telnet snapshot ≡ some bytes)
      × (client_received p bytes
          ≡ (record p { vm_id = some id }, received (k.encode ip) (k.encode snapshot) ssh telnet))
unfolding pack_guest
guest_round_trip k p id ssh telnet ip snapshot ci cs h hi hs h1 h2 parent = (
  opcode_r ∷ be32 0
      ++ (be32 id
          ++ (be16 (length ip)
              ++ (k.encode ip
                  ++ (be16 ssh
                      ++ (be16 telnet ++ (be16 (length snapshot) ++ k.encode snapshot)))))),
  rw (
    pack32_fits id h,
    pack16_fits (length ip) hi,
    pack16_fits ssh h1,
    pack16_fits telnet h2,
    pack16_fits (length snapshot) hs,
    fits_s k ip ci.1,
    fits_s k snapshot cs.1,
  ),
  client_received_lem p _ parent
      ∙ take_guest_lem p id _ (k.encode ip, k.encode snapshot, ssh, telnet) h
          (unpack_guest_at _ _ (k.encode ip) (k.encode snapshot) ssh telnet ci.1 cs.1 hi hs h1 h2),
)

-- Where the pool runs without NAT, the message that ends a session frees the guest of the session if
-- the attacker used it, and makes it as it was otherwise.
pub release_round_trip :
    (k : Codec) (c : ServerConfig) (w : World) (f : Factory) (p : PoolClient) (id : ℕ)
    (dirty : Bool)
    → through_nat c ≡ false
    → p.vm_id ≡ some id
    → id < 0x100000000
    → (bytes : Text) × (send_vm_free p dirty ≡ some bytes)
      × (data_received k c w f bytes ≡ (
        record f {
          pool_service =
              if dirty then free_vm w.now id f.pool_service else reuse_vm id f.pool_service;
        },
        Reaction.silent,
      ))
unfolding send_vm_free data_received give_back
release_round_trip k c w f p id true direct holds h =
    (opcode_f ∷ be32 id, rw (holds, pack32_fits id h), rw (unpack32-be32 id h, direct))
release_round_trip k c w f p id false direct holds h =
    (opcode_u ∷ be32 id, rw (holds, pack32_fits id h), rw (unpack32-be32 id h, direct))
