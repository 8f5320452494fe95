-- ===== src/Sip/Runs.antt =====
-- Runs of worker of src/voipclient.py.
use vo_iphoneypot.Common.{
  All, Bool, Text, [], ap, arith, codes, contains, false, none, not, refl, some, text_eq, true, ℕ,
  ◌&&◌, ◌++◌, ◌==◌, ◌∷◌, ◌≡◌, ◌≢◌,
}
use vo_iphoneypot.Sip.Calls.{VoipClient, add_report, call_of, cseq_method, put_call}
use vo_iphoneypot.Sip.Headers.{
  concat_lines, find_all, get_headers, line_header, put_header, put_line, put_lines,
}
use vo_iphoneypot.Sip.Invite.{
  auth_dict, check_authorization, check_invite, check_method, check_response, credentials,
  establish, expected_digest, media_call, new_call, parse_auth, report_answers, sip_invite,
  store_call,
}
use vo_iphoneypot.Sip.Message.{Headers, SipConfig, crlf, header, sip_address}
use vo_iphoneypot.Sip.OnlyInvite.{KnowsSecret, worker_call}
use vo_iphoneypot.Sip.Reported.{Delivered, worker-Delivered}
use vo_iphoneypot.Sip.RoundTrip.{DistinctKeys, Writable, get_headers-write_headers, write_headers}
use vo_iphoneypot.Sip.Session.{SipSession, invite_ok, new_session, ringing, session_setup}
use vo_iphoneypot.Sip.Worker.{SipMethod, get, hand_over, handle_method, invite, method_of, worker}
use vo_iphoneypot.Strings.{
  Word, has_prefix, has_suffix, split, split_once, split_two, strip, strip_chars,
}

-- A hash that keeps the text.
abbrev same_text : Text → Text
same_text t = t

abbrev trunk : SipConfig
trunk = record {
  user = codes "u";
  ip = codes "h";
  port = codes "5";
  useragent = codes "x";
  secret = codes "s";
  bad_answers = λ code. some code;
}

abbrev caller : VoipClient
caller = record {
  calls = [];
  json_list = [];
  proto = codes "UDP";
  local_ip = codes "h";
  local_port = codes "5";
  addr_host = codes "a";
  addr_port = codes "6";
}

abbrev digest : Text
digest = codes "u:u@h:s:s:INVITE:sip:u@h"

abbrev auth_rest : Text
auth_rest = codes "username=e,response=" ++ digest

abbrev auth_value : Text
auth_value = codes "Digest " ++ auth_rest

abbrev invite_headers_sent : Headers
invite_headers_sent =
    (codes "From", codes "eve")
    ∷ (codes "Call-ID", codes "c")
    ∷ (codes "CSeq", codes "1")
    ∷ (codes "Authorization", auth_value)
    ∷ (codes "m", codes "audio 9")
    ∷ []

-- The text of the message.
abbrev invite_sent : Text
invite_sent = codes "INVITE sip:u" ++ crlf ++ write_headers invite_headers_sent

free_of : ℕ → Text → Bool
free_of sep [] = true
free_of sep (c ∷ t) = not (c == sep) && free_of sep t

free_Word : (sep : ℕ) (t : Text) → free_of sep t ≡ true → Word sep t
unfolding free_of
free_Word sep [] h = tt
free_Word sep (c ∷ t) h = (ground (arith, h), free_Word sep t (ground (arith, h)))

writable :
    (key value : Text)
    → free_of b':' key ≡ true
    → free_of 13 key ≡ true
    → free_of 10 key ≡ true
    → free_of 13 value ≡ true
    → free_of 10 value ≡ true
    → strip key ≡ key
    → strip value ≡ value
    → Writable (key, value)
writable key value a b c d e f g = (
  free_Word b':' key a,
  free_Word 13 key b,
  free_Word 10 key c,
  free_Word 13 value d,
  free_Word 10 value e,
  f,
  g,
)

sent_Writable : All Writable invite_headers_sent
unfolding free_of strip
sent_Writable = (
  writable (codes "From") (codes "eve") refl refl refl refl refl refl refl,
  (
    writable (codes "Call-ID") (codes "c") refl refl refl refl refl refl refl,
    (
      writable (codes "CSeq") (codes "1") refl refl refl refl refl refl refl,
      (
        writable (codes "Authorization") auth_value refl refl refl refl refl refl refl,
        (writable (codes "m") (codes "audio 9") refl refl refl refl refl refl refl, tt),
      ),
    ),
  ),
)

sent_DistinctKeys : DistinctKeys invite_headers_sent
unfolding contains text_eq
sent_DistinctKeys = (refl, (refl, (refl, (refl, (refl, tt)))))

get_headers-write_headers_example :
    get_headers (write_headers invite_headers_sent) ≡ invite_headers_sent
get_headers-write_headers_example =
    get_headers-write_headers (codes "From", codes "eve")
      ((codes "Call-ID", codes "c")
        ∷ (codes "CSeq", codes "1")
        ∷ (codes "Authorization", auth_value)
        ∷ (codes "m", codes "audio 9")
        ∷ [])
      sent_Writable sent_DistinctKeys

abbrev sent_session : SipSession
sent_session = record {
  state = session_setup;
  invite_headers = invite_headers_sent;
  remote_address = codes "a";
  remote_sip_port = codes "6";
  remote_rtp_port = codes "9";
  sip_to = codes "eve";
  sip_from = sip_address (codes "u") (codes "h");
  sip_via = codes "SIP/2.0/UDP h:5";
  call_id = codes "c";
  msg_ringing =
      ringing trunk (codes "SIP/2.0/UDP h:5") (codes "eve") (sip_address (codes "u") (codes "h"))
        (codes "c");
  msg_ok =
      invite_ok trunk (codes "SIP/2.0/UDP h:5") (codes "eve") (sip_address (codes "u") (codes "h"))
        (codes "c");
  msg_bye = none;
}

not_get : method_of (codes "INVITE") ≢ get
unfolding method_of has_prefix
not_get e = ground (arith, ap is_get e)
  where
    is_get : SipMethod → Bool
    is_get get = true
    is_get _ = false

worker-Delivered_example :
    Delivered (codes "INVITE") caller (worker same_text [] trunk (codes "INVITE") caller)
worker-Delivered_example = worker-Delivered same_text [] trunk (codes "INVITE") caller not_get

-- The client that hears the whole message.
abbrev heard : VoipClient
heard = (worker same_text [] trunk invite_sent caller).1

abbrev heard_session : SipSession
heard_session = record sent_session {
  invite_headers = (codes "INVITE sip", codes "u") ∷ invite_headers_sent;
}

call_made : call_of (codes "c") heard.calls ≡ some heard_session
unfolding worker hand_over handle_method sip_invite check_invite check_authorization check_method
    check_response establish new_call store_call report_answers method_of has_prefix get_headers
    find_all split_two has_suffix concat_lines split put_lines line_header split_once strip put_line
    put_header header text_eq credentials parse_auth auth_dict strip_chars expected_digest
    media_call cseq_method new_session call_of put_call add_report
call_made = refl

none_before : call_of (codes "c") caller.calls ≡ none
unfolding call_of
none_before = refl

worker_call_example :
    (method_of invite_sent ≡ invite) × KnowsSecret same_text trunk (get_headers invite_sent) caller
worker_call_example =
    worker_call same_text [] trunk invite_sent (codes "c") heard_session caller none_before
      call_made
