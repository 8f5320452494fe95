-- ===== src/Sip/Session.antt =====
-- SipSession of src/sipsession.py: the messages that it prepares, and its states.
use vo_iphoneypot.Common.{
  Bool, List, Option, Text, [], codes, false, if◌then◌else◌, none, some, true, ◌++◌, ◌∷◌,
}
use vo_iphoneypot.Packing.{◌>>=◌}
use vo_iphoneypot.Sip.Message.{Headers, SipConfig, header, join_lines, sip_address}

pub data SipState : Type 0 where
  no_session : SipState
  session_setup : SipState
  active_session : SipState
  session_teardown : SipState

pub record SipSession : Type 0 where
  pub state : SipState
  pub invite_headers : Headers
  pub remote_address : Text
  pub remote_sip_port : Text
  pub remote_rtp_port : Text
  pub sip_to : Text
  pub sip_from : Text
  pub sip_via : Text
  pub call_id : Text
  pub msg_ringing : Text
  pub msg_ok : Text
  pub msg_bye : Option Text

-- The lines that the three messages have in common.
unfoldable pub common_lines : Text → Text → Text → Text → Text → Text → Text → List Text
common_lines status via to from call_id cseq useragent =
    status
    ∷ (codes "Via: " ++ via)
    ∷ codes "Max-Forwards: 70"
    ∷ (codes "To: " ++ to)
    ∷ (codes "From: " ++ from)
    ∷ (codes "Call-ID: " ++ call_id)
    ∷ (codes "CSeq: " ++ cseq)
    ∷ (codes "Contact: " ++ from)
    ∷ (codes "User-Agent: " ++ useragent)
    ∷ []

unfoldable pub ringing : SipConfig → Text → Text → Text → Text → Text
unfolding common_lines
ringing config via to from call_id = join_lines (
    common_lines (codes "SIP/2.0 180 Ringing") via to from call_id (codes "1 INVITE")
      config.useragent)

unfoldable pub invite_ok : SipConfig → Text → Text → Text → Text → Text
unfolding common_lines
invite_ok config via to from call_id = join_lines (
    common_lines (codes "SIP/2.0 200 OK") via to from call_id (codes "1 INVITE") config.useragent
    ++ codes "Content-Type: application/sdp"
      ∷ (10 ∷ codes "v=0")
      ∷ codes "o=... 0 0 IN IP4 localhost"
      ∷ codes "t=0 0"
      ∷ (codes "m=audio " ++ config.port ++ codes " RTP/AVP 0")
      ∷ [])

-- `__init__`; `none` is KeyError. `sipConnection` is never set.
unfoldable pub new_session : SipConfig → Text → Text → Text → Headers → Option SipSession
unfolding header
new_session config host sip_port rtp_port headers = do
  to ← header (codes "From") headers
  call_id ← header (codes "Call-ID") headers
  let from = sip_address config.user config.ip in
      let via = codes "SIP/2.0/UDP " ++ config.ip ++ codes ":" ++ config.port in
      some (record {
        state = session_setup;
        invite_headers = headers;
        remote_address = host;
        remote_sip_port = sip_port;
        remote_rtp_port = rtp_port;
        sip_to = to;
        sip_from = from;
        sip_via = via;
        call_id = call_id;
        msg_ringing = ringing config via to from call_id;
        msg_ok = invite_ok config via to from call_id;
        msg_bye = none;
      })

abbrev pub is_setup : SipState → Bool
is_setup session_setup = true
is_setup _ = false

-- `handle_ACK`
unfoldable pub handle_ack : SipSession → SipSession
handle_ack s = if is_setup s.state then record s { state = active_session } else s

-- `handle_BYE`
unfoldable pub handle_bye : SipConfig → SipSession → SipSession
unfolding common_lines
handle_bye config s = record s {
  state = no_session;
  msg_bye = some (
      join_lines (
        common_lines (codes "SIP/2.0 200 OK") s.sip_via s.sip_to s.sip_from s.call_id
          (codes "1 BYE") config.useragent));
}
