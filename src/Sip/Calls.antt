-- ===== src/Sip/Calls.antt =====
-- The calls of VoipClient in src/voipclient.py: ACK, BYE, CANCEL, REGISTER, RESPONSE, and the answer to
-- a bad request. An answer that is `none` is an exception: KeyError, IndexError, or TypeError where a
-- str is indexed by a name; the client is what it is at that time.
use vo_iphoneypot.Common.{
  Bool, List, Option, Text, [], codes, if◌then◌else◌, none, some, text_eq, ◌++◌, ◌||◌, ◌∷◌,
}
use vo_iphoneypot.Packing.{◌>>=◌}
use vo_iphoneypot.Pool.Nat.Leak.{call}
use vo_iphoneypot.Sip.Message.{Headers, SipConfig, crlf, header, join_lines, sip_address}
use vo_iphoneypot.Sip.Session.{SipSession, handle_bye}
use vo_iphoneypot.Strings.{split}

-- The reports: `command_accept` with input and output, and `authorization` with the status and the
-- user name, where that was read (the password of the report is always empty).
pub data CallReport : Type 0 where
  accepted : Text → Text → CallReport
  authorization : Bool → Option Text → CallReport

pub record VoipClient : Type 0 where
  pub calls : List (Text × SipSession)
  pub json_list : List CallReport
  pub proto : Text
  pub local_ip : Text
  pub local_port : Text
  pub addr_host : Text
  pub addr_port : Text

-- `self.__sessions[call_id]`
unfoldable pub call_of : Text → List (Text × SipSession) → Option SipSession
call_of call_id [] = none
call_of call_id ((k, v) ∷ d) = if text_eq k call_id then some v else call_of call_id d

unfoldable pub put_call : Text → SipSession → List (Text × SipSession) → List (Text × SipSession)
put_call call_id s [] = (call_id, s) ∷ []
put_call call_id s ((k, v) ∷ d) =
    if text_eq k call_id then (k, s) ∷ d else (k, v) ∷ put_call call_id s d

unfoldable pub delete_call : Text → List (Text × SipSession) → List (Text × SipSession)
delete_call call_id [] = []
delete_call call_id ((k, v) ∷ d) = if text_eq k call_id then d else (k, v) ∷ delete_call call_id d

-- `report`
unfoldable pub add_report : CallReport → VoipClient → VoipClient
add_report r c = record c { json_list = c.json_list ++ r ∷ [] }

abbrev pub report_accepted : Text → Text → VoipClient → VoipClient
report_accepted input output c = add_report (accepted input output) c

abbrev pub or_code : Option Text → Option Text → Option Text
or_code none other = other
or_code (some a) other = some a

-- `Via` to `Contact` of an answer
unfoldable pub answer_lines : SipConfig → VoipClient → Text → Text → Text → Text → List Text
answer_lines config c status from call_id cseq =
    (codes "SIP/2.0 " ++ status)
    ∷ (codes "Via: SIP/2.0/" ++ c.proto ++ codes " " ++ c.local_ip ++ codes ":" ++ c.local_port)
    ∷ (codes "To: " ++ from)
    ∷ (codes "From: " ++ sip_address config.user c.local_ip)
    ∷ (codes "Call-ID: " ++ call_id)
    ∷ (codes "CSeq: " ++ cseq)
    ∷ (codes "Contact: " ++ sip_address config.user c.local_ip)
    ∷ []

abbrev pub Answer : Type 0
Answer = Option Text × VoipClient

-- The answer is reported and returned.
abbrev pub answer_with : Text → Text → VoipClient → Answer
answer_with input output c = (some output, report_accepted input output c)

abbrev pub answer_if : Text → VoipClient → Option Text → Answer
answer_if input c none = (none, c)
answer_if input c (some output) = answer_with input output c

-- The lines of `bad_answer`, by what `headers[name]` gives; a code that is not known is taken for 400.
unfoldable pub bad_lines_of : SipConfig → (Text → Option Text) → Text → VoipClient → Option Text
bad_lines_of config item code c = do
  status ← or_code (config.bad_answers code) (config.bad_answers (codes "400"))
  from ← item (codes "From")
  call_id ← item (codes "Call-ID")
  cseq ← item (codes "CSeq")
  some (join_lines (answer_lines config c status from call_id cseq ++ crlf ∷ []))

unfoldable pub bad_lines : SipConfig → Headers → Text → VoipClient → Option Text
bad_lines config headers code c = bad_lines_of config (λ name. header name headers) code c

-- `bad_answer`
unfoldable pub bad_answer : SipConfig → Text → Headers → Text → VoipClient → Answer
bad_answer config message headers code c = answer_if message c (bad_lines config headers code c)

-- The call of a message, if it is known.
unfoldable pub find_call : Headers → VoipClient → Option (Text × SipSession)
find_call headers c = do
  call_id ← header (codes "Call-ID") headers
  s ← call_of call_id c.calls
  some (call_id, s)

-- `text[name]` of a str: TypeError.
unfoldable pub text_item : Text → Text → Option Text
text_item text name = none

-- For a call that is not known, the arguments of `bad_answer` are swapped: what it takes for the
-- headers is the text of the message.
unfoldable pub ack_call : SipConfig → Text → VoipClient → Option (Text × SipSession) → Answer
ack_call config message c none =
    answer_if message c (bad_lines_of config (text_item message) (codes "481") c)
ack_call config message c (some call) = (some [], report_accepted message [] c)

-- `sip_ACK`, which returns nothing.
unfoldable pub sip_ack : SipConfig → Headers → Text → VoipClient → Answer
sip_ack config headers message c = ack_call config message c (find_call headers c)

abbrev pub bye_text : SipSession → Text
bye_text s = elim s.msg_bye [ none ↦ [] | some t ↦ t ]

unfoldable pub bye_call :
    SipConfig → Headers → Text → VoipClient → Option (Text × SipSession) → Answer
bye_call config headers message c none = bad_answer config message headers (codes "481") c
bye_call config headers message c (some (call_id, s)) =
    answer_with message (bye_text (handle_bye config s))
      (record c { calls = put_call call_id (handle_bye config s) c.calls })

-- `sip_BYE`; the call stays in the table.
unfoldable pub sip_bye : SipConfig → Headers → Text → VoipClient → Answer
sip_bye config headers message c = bye_call config headers message c (find_call headers c)

-- `cseq[1]` of `headers['CSeq'].split(' ')`
unfoldable pub cseq_method : Text → Option Text
cseq_method cseq = elim (split b' ' cseq) [ number ∷ method ∷ more ↦ some method | _ ↦ none ]

unfoldable pub cancelled : SipConfig → Text → Headers → Text → Text → VoipClient → Answer
cancelled config message headers call_id cseq c = answer_if message c (
    header (codes "From") headers >>= λ from.
    some (join_lines (answer_lines config c (codes "200 OK") from call_id cseq)))

-- CANCEL of an INVITE: the call is deleted before the answer is put together.
unfoldable pub cancel_call :
    SipConfig → Headers → Text → Text → Text → VoipClient → Option SipSession → Answer
cancel_call config headers message call_id cseq c none =
    bad_answer config message headers (codes "404") c
cancel_call config headers message call_id cseq c (some s) =
    cancelled config message headers call_id cseq (record c { calls = delete_call call_id c.calls })

-- The call, the CSeq and its method.
unfoldable pub cancel_parts : Headers → Option (Text × Text × Text)
cancel_parts headers = do
  call_id ← header (codes "Call-ID") headers
  cseq ← header (codes "CSeq") headers
  method ← cseq_method cseq
  some (call_id, cseq, method)

unfoldable pub cancel_with :
    SipConfig → Headers → Text → VoipClient → Option (Text × Text × Text) → Answer
cancel_with config headers message c none = (none, c)
cancel_with config headers message c (some (call_id, cseq, method)) =
    if text_eq method (codes "INVITE") || text_eq method (codes "ACK")
    then cancel_call config headers message call_id cseq c (call_of call_id c.calls)
    else cancelled config message headers call_id cseq c

-- `sip_CANCEL`
unfoldable pub sip_cancel : SipConfig → Headers → Text → VoipClient → Answer
sip_cancel config headers message c = cancel_with config headers message c (cancel_parts headers)

-- `sip_REGISTER` and `sip_RESPONSE`, which return nothing
unfoldable pub sip_register : Text → VoipClient → Answer
sip_register message c = (some [], report_accepted message [] c)
