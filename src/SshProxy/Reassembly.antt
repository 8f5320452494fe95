-- ===== src/SshProxy/Reassembly.antt =====
-- How SFTP.parse_packet of cowrie/src/cowrie/ssh_proxy/protocols/sftp.py puts a packet together from
-- the payloads of one direction.
use vo_iphoneypot.Common.{
  List, Option, Text, [], drop, eqb_ℤ, if◌then◌else◌, length, ltb_ℤ, none, pos, some, take, ◌++◌,
  ◌-ℤ◌, ◌∷◌,
}
use vo_iphoneypot.Packing.{be_value}
use vo_iphoneypot.SshProxy.BaseProtocol.{Packet}
use vo_iphoneypot.SshProxy.Term.{slice_from, slice_to}

-- A payload in the middle of a packet, and the packets that are complete.
abbrev pub Fed : Type 0
Fed = Packet × List Text

-- `if packetSize == 0: handle_packet`
unfoldable pub when_complete : Packet → Fed
when_complete p = if eqb_ℤ p.packet_size (pos 0) then (p, p.data_left ∷ []) else (p, [])

-- The first payload of a packet begins with its size; `none` is ValueError of int('', 16).
unfoldable pub begin_packet : Text → Option Fed
begin_packet [] = none
begin_packet (c ∷ rest) =
    let payload = drop 4 (c ∷ rest) in
    some (
      when_complete (record {
        data_left = payload;
        packet_size = pos (be_value (take 4 (c ∷ rest))) -ℤ pos (length payload);
      }))

abbrev pub after_first : List Text → Option Fed → Option Fed
after_first done none = none
after_first done (some (p, more)) = some (p, done ++ more)

-- What is left of a payload begins the next packet: the size is 0 then.
unfoldable pub next_packet : Text → Fed → Option Fed
next_packet [] fed = some fed
next_packet (c ∷ rest) (p, done) = after_first done (begin_packet (c ∷ rest))

-- `parse_packet` up to the handling of the complete packets, in their order
unfoldable pub feed : Text → Packet → Option Fed
feed payload p =
    if eqb_ℤ p.packet_size (pos 0)
    then begin_packet payload
    else if ltb_ℤ p.packet_size (pos (length payload))
    then next_packet (slice_from p.packet_size payload) (
        when_complete (record {
          data_left = p.data_left ++ slice_to p.packet_size payload;
          packet_size = pos 0;
        }))
    else some (
        when_complete (record {
          data_left = p.data_left ++ payload;
          packet_size = p.packet_size -ℤ pos (length payload);
        }))

-- Several payloads, one after the other.
abbrev pub feed_more : List Text → Fed → Option Fed
feed_more [] fed = some fed
feed_more (x ∷ xs) (p, done) = elim (after_first done (feed x p)) [
  | none ↦ none
  | some fed ↦ feed_more xs fed
]

abbrev pub no_packet : Packet
no_packet = record { data_left = []; packet_size = pos 0 }

-- The bodies of the packets that are handled.
abbrev pub bodies : Option Fed → Option (List Text)
bodies none = none
bodies (some (p, done)) = some done

abbrev pub concat : List Text → Text
concat [] = []
concat (x ∷ xs) = x ++ concat xs
