-- ===== src/Sip/Invite.antt =====
-- INVITE in src/voipclient.py: the digest that it is checked against, and the call that it makes.
use vo_iphoneypot.Common.{
  Bool, List, Option, Text, [], codes, false, if◌then◌else◌, map, none, not, some, text_eq, true, ℕ,
  ◌++◌, ◌==◌, ◌||◌, ◌∷◌,
}
use vo_iphoneypot.Packing.{◌>>=◌}
use vo_iphoneypot.Sip.Calls.{
  Answer, VoipClient, add_report, answer_lines, authorization, bad_answer, call_of, cseq_method,
  put_call, report_accepted,
}
use vo_iphoneypot.Sip.Headers.{put_header}
use vo_iphoneypot.Sip.Message.{Headers, SipConfig, crlf, header, join_lines}
use vo_iphoneypot.Sip.Session.{SipSession, new_session}
use vo_iphoneypot.Strings.{split, split_once, strip_chars}

-- What INVITE returns: one text, or two; `none` is an exception.
pub data InviteAnswer : Type 0 where
  one_answer : Text → InviteAnswer
  two_answers : Text → Text → InviteAnswer

abbrev pub InviteResult : Type 0
InviteResult = Option InviteAnswer × VoipClient

abbrev pub as_invite : Answer → InviteResult
as_invite (none, c) = (none, c)
as_invite (some t, c) = (some (one_answer t), c)

abbrev pub quote_char : ℕ
quote_char = 34

-- `x.strip(' \t\r\n')`
abbrev pub blank : ℕ → Bool
blank c = c == b' ' || c == 9 || c == 13 || c == 10

-- `parts[1].strip(' \n\r\t"\'')`
abbrev pub quoting : ℕ → Bool
quoting c = blank c || c == quote_char || c == 39

abbrev second : List Text → Option (Text × Text)
second (a ∷ b ∷ more) = some (a, b)
second _ = none

-- The loop over the parts of the Authorization header; `none` is IndexError.
unfoldable pub auth_dict : List Text → Headers → Option Headers
auth_dict [] d = some d
auth_dict (x ∷ xs) d =
    second (split b'=' x) >>= λ (k, v). auth_dict xs (put_header k (strip_chars quoting v) d)

unfoldable pub parse_auth : Text → Option Headers
parse_auth auth_line = auth_dict (map (λ x. strip_chars blank x) (split b',' auth_line)) []

abbrev pub realm_of : SipConfig → VoipClient → Text
realm_of config c = config.user ++ codes "@" ++ c.local_ip

-- `nonce`
abbrev pub nonce_of : (Text → Text) → SipConfig → Text
nonce_of get_hash config = get_hash config.secret

-- `expected`; `get_hash` is the hexadecimal MD5 of the text in UTF-8.
unfoldable pub expected_digest : (Text → Text) → SipConfig → VoipClient → Text
expected_digest get_hash config c =
    let realm = realm_of config c in
    let a1 = get_hash (config.user ++ codes ":" ++ realm ++ codes ":" ++ config.secret) in
    let a2 = get_hash (codes "INVITE:" ++ codes "sip:" ++ realm) in
    get_hash (a1 ++ codes ":" ++ nonce_of get_hash config ++ codes ":" ++ a2)

-- The answer 401, which gives the nonce.
unfoldable pub unauthorized : (Text → Text) → Text → SipConfig → Headers → VoipClient → Option Text
unauthorized get_hash opaqueue config headers c = do
  from ← header (codes "From") headers
  call_id ← header (codes "Call-ID") headers
  cseq ← header (codes "CSeq") headers
  some (
      join_lines (
        answer_lines config c (codes "401 Unauthorized") from call_id cseq
        ++ (codes "WWW-Authenticate: Digest realm="
            ++ quote_char ∷ realm_of config c
            ++ quote_char ∷ codes ",nonce="
            ++ quote_char ∷ nonce_of get_hash config
            ++ quote_char ∷ codes ",opaque="
            ++ quote_char ∷ opaqueue
            ++ quote_char ∷ [])
          ∷ crlf
          ∷ []))

-- `mediaDescriptionParts[1]` and the call of the message.
unfoldable pub media_call : Headers → Option (Text × Text)
media_call headers = do
  m ← header (codes "m") headers
  rtp_port ← cseq_method m
  call_id ← header (codes "Call-ID") headers
  some (rtp_port, call_id)

-- The call is new: the session is stored.
unfoldable pub store_call : Text → Text → VoipClient → Option SipSession → InviteResult
store_call username call_id c none = (none, c)
store_call username call_id c (some s) = (
  some (two_answers s.msg_ringing s.msg_ok),
  add_report (authorization true (some username)) (record c { calls = put_call call_id s c.calls }),
)

unfoldable pub new_call :
    SipConfig → Headers → Text → Text → VoipClient → Text → Text → Option SipSession → InviteResult
new_call config headers message username c rtp_port call_id (some s) = as_invite (
    bad_answer config message headers (codes "403")
      (add_report (authorization false (some username)) c))
new_call config headers message username c rtp_port call_id none =
    store_call username call_id c (new_session config c.addr_host c.addr_port rtp_port headers)

-- The response is right; the call must be new.
unfoldable pub establish :
    SipConfig → Headers → Text → Text → VoipClient → Option (Text × Text) → InviteResult
establish config headers message username c none = (none, c)
establish config headers message username c (some (rtp_port, call_id)) =
    new_call config headers message username c rtp_port call_id (call_of call_id c.calls)

-- The user name and the response of the Authorization header.
unfoldable pub credentials : Text → Option (Text × Text)
credentials auth_line = do
  d ← parse_auth auth_line
  username ← header (codes "username") d
  given ← header (codes "response") d
  some (username, given)

unfoldable pub check_response :
    (Text → Text) → SipConfig → Headers → Text → VoipClient → Option (Text × Text) → InviteResult
check_response get_hash config headers message c none = (none, c)
check_response get_hash config headers message c (some (username, given)) =
    if not (text_eq (expected_digest get_hash config c) given)
    then as_invite (
        bad_answer config message headers (codes "400")
          (add_report (authorization false (some username)) c))
    else establish config headers message username c (media_call headers)

unfoldable pub check_method :
    (Text → Text) → SipConfig → Headers → Text → VoipClient → Option (Text × Text) → InviteResult
check_method get_hash config headers message c none = (none, c)
check_method get_hash config headers message c (some (auth_method, auth_line)) =
    if not (text_eq auth_method (codes "Digest"))
    then as_invite
        (bad_answer config message headers (codes "400") (add_report (authorization false none) c))
    else check_response get_hash config headers message c (credentials auth_line)

abbrev pub with_client : VoipClient → Option Text → Answer
with_client c t = (t, c)

unfoldable pub check_authorization :
    (Text → Text) → Text → SipConfig → Headers → Text → VoipClient → Option Text → InviteResult
check_authorization get_hash opaqueue config headers message c none =
    as_invite (with_client c (unauthorized get_hash opaqueue config headers c))
check_authorization get_hash opaqueue config headers message c (some auth) =
    check_method get_hash config headers message c (split_once b' ' auth)

-- `__check_invite`; `opaqueue` is the hash of a new uuid.
unfoldable pub check_invite :
    (Text → Text) → Text → SipConfig → Headers → Text → VoipClient → InviteResult
check_invite get_hash opaqueue config headers message c =
    check_authorization get_hash opaqueue config headers message c
      (header (codes "Authorization") headers)

-- The reports of `sip_INVITE`, of each text that is answered.
unfoldable pub report_answers : Text → InviteResult → InviteResult
report_answers message (none, c) = (none, c)
report_answers message (some (one_answer t), c) = (some (one_answer t), report_accepted message t c)
report_answers message (some (two_answers t u), c) =
    (some (two_answers t u), report_accepted message u (report_accepted message t c))

-- `sip_INVITE`
unfoldable pub sip_invite :
    (Text → Text) → Text → SipConfig → Headers → Text → VoipClient → InviteResult
sip_invite get_hash opaqueue config headers message c =
    report_answers message (check_invite get_hash opaqueue config headers message c)
