-- ===== src/Sip/Worker.antt =====
-- OPTIONS, and worker of src/voipclient.py, which chooses the method and hands the reports over.
use vo_iphoneypot.Common.{
  Bool, List, Option, Text, [], codes, false, if◌then◌else◌, none, some, true, ℕ, ◌++◌, ◌==◌, ◌||◌,
  ◌∷◌,
}
use vo_iphoneypot.Packing.{◌>>=◌}
use vo_iphoneypot.Sip.Calls.{
  Answer, CallReport, VoipClient, answer_if, report_accepted, sip_ack, sip_bye, sip_cancel,
  sip_register,
}
use vo_iphoneypot.Sip.Headers.{get_headers}
use vo_iphoneypot.Sip.Invite.{InviteResult, one_answer, sip_invite, two_answers}
use vo_iphoneypot.Sip.Message.{Headers, SipConfig, crlf, header, join_lines, sip_address}
use vo_iphoneypot.Strings.{has_prefix, split, strip_chars}

abbrev pub is_eol : ℕ → Bool
is_eol c = c == 13 || c == 10

-- The last piece that begins with the prefix, without line ends; without one, the variable is not
-- bound, and its use raises.
unfoldable pub last_piece : Text → List Text → Option Text → Option Text
last_piece prefix [] found = found
last_piece prefix (l ∷ ls) found =
    last_piece prefix ls (if has_prefix prefix l then some (strip_chars is_eol l) else found)

unfoldable pub parameter : Text → Text → Option Text
parameter prefix line = last_piece prefix (split b';' line) none

abbrev pub filled : Text → Bool
filled [] = false
filled (c ∷ t) = true

unfoldable pub options_lines : SipConfig → VoipClient → Text → Text → Text → Text → Text → List Text
options_lines config c branch tag from call_id cseq =
    codes "SIP/2.0 200 OK"
    ∷ (codes "Via: SIP/2.0/"
        ++ c.proto
        ++ codes " "
        ++ c.addr_host
        ++ codes ":"
        ++ c.addr_port
        ++ codes ";rport="
        ++ c.addr_port
        ++ (if filled branch then codes ";" ++ branch else []))
    ∷ (codes "To: " ++ from)
    ∷ (codes "From: "
        ++ sip_address config.user c.local_ip
        ++ (if filled tag then codes " " ++ tag else []))
    ∷ (codes "Call-ID: " ++ call_id)
    ∷ (codes "CSeq: " ++ cseq)
    ∷ (codes "Contact: " ++ sip_address config.user c.local_ip)
    ∷ codes "Supported: 100rel, replaces, timer"
    ∷ codes "Allow: INVITE, ACK, OPTIONS, BYE, CANCEL, REFER, NOTIFY, INFO, PRACK, UPDATE, MESSAGE"
    ∷ codes "Accept: application/sdp, message/sipfrag, application/dtmf-relay"
    ∷ codes "Accept-Language: en"
    ∷ crlf
    ∷ []

-- The text of the answer to OPTIONS.
unfoldable pub options_text : SipConfig → Headers → VoipClient → Option Text
options_text config headers c = do
  via ← header (codes "Via") headers
  from ← header (codes "From") headers
  branch ← parameter (codes "branch=") via
  tag ← parameter (codes "tag=") from
  call_id ← header (codes "Call-ID") headers
  cseq ← header (codes "CSeq") headers
  some (join_lines (options_lines config c branch tag from call_id cseq))

-- `sip_OPTIONS`
unfoldable pub sip_options : SipConfig → Headers → Text → VoipClient → Answer
sip_options config headers message c = answer_if message c (options_text config headers c)

-- `data`
pub data WorkerData : Type 0 where
  no_data : WorkerData
  text_data : Text → WorkerData
  pair_data : Text → Text → WorkerData

-- The methods, by the first word of a message.
pub data SipMethod : Type 0 where
  options : SipMethod
  invite : SipMethod
  cancel : SipMethod
  bye : SipMethod
  ack : SipMethod
  register : SipMethod
  sip_response : SipMethod
  get : SipMethod
  other_method : SipMethod

unfoldable pub method_of : Text → SipMethod
method_of message =
    if has_prefix (codes "OPTIONS") message
    then options
    else if has_prefix (codes "INVITE") message
    then invite
    else if has_prefix (codes "CANCEL") message
    then cancel
    else if has_prefix (codes "BYE") message
    then bye
    else if has_prefix (codes "ACK") message
    then ack
    else if has_prefix (codes "REGISTER") message
    then register
    else if has_prefix (codes "RESPONSE") message
    then sip_response
    else if has_prefix (codes "GET") message
    then get
    else other_method

abbrev pub Handled : Type 0
Handled = Option WorkerData × VoipClient

abbrev pub as_text : Answer → Handled
as_text (none, c) = (none, c)
as_text (some t, c) = (some (text_data t), c)

-- `data = None`
abbrev pub as_nothing : Answer → Handled
as_nothing (none, c) = (none, c)
as_nothing (some t, c) = (some no_data, c)

abbrev pub as_data : InviteResult → Handled
as_data (none, c) = (none, c)
as_data (some (one_answer t), c) = (some (text_data t), c)
as_data (some (two_answers t u), c) = (some (pair_data t u), c)

-- The handler of a method.
unfoldable pub handle_method :
    (Text → Text) → Text → SipConfig → Headers → Text → VoipClient → SipMethod → Handled
handle_method get_hash opaqueue config headers message c options =
    as_text (sip_options config headers message c)
handle_method get_hash opaqueue config headers message c invite =
    as_data (sip_invite get_hash opaqueue config headers message c)
handle_method get_hash opaqueue config headers message c cancel =
    as_text (sip_cancel config headers message c)
handle_method get_hash opaqueue config headers message c bye =
    as_text (sip_bye config headers message c)
handle_method get_hash opaqueue config headers message c ack =
    as_nothing (sip_ack config headers message c)
handle_method get_hash opaqueue config headers message c register =
    as_nothing (sip_register message c)
handle_method get_hash opaqueue config headers message c sip_response =
    as_nothing (sip_register message c)
handle_method get_hash opaqueue config headers message c get = (some (text_data []), c)
handle_method get_hash opaqueue config headers message c other_method =
    (some (text_data []), report_accepted message [] c)

-- `final_data`, and the list of reports that is cleared.
unfoldable pub hand_over : Handled → Option (WorkerData × List CallReport) × VoipClient
hand_over (none, c) = (none, c)
hand_over (some d, c) = (some (d, c.json_list), record c { json_list = [] })

-- `worker`
unfoldable pub worker :
    (Text → Text)
    → Text
    → SipConfig
    → Text
    → VoipClient
    → Option (WorkerData × List CallReport) × VoipClient
worker get_hash opaqueue config message c =
    hand_over
      (handle_method get_hash opaqueue config (get_headers message) message c (method_of message))
