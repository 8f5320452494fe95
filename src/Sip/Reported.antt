-- ===== src/Sip/Reported.antt =====
-- What worker of src/voipclient.py reports.
use vo_iphoneypot.Common.{
  List, Option, Text, [], ap, append-nil, append_assoc, codes, false, if_both, none, not, refl,
  some, sym, text_eq, true, ◌++◌, ◌||◌, ◌∙◌, ◌∷◌, ◌≡◌, ◌≢◌,
}
use vo_iphoneypot.Packing.{◌>>=◌}
use vo_iphoneypot.Sip.Calls.{
  Answer, CallReport, VoipClient, accepted, ack_call, add_report, answer_if, answer_lines,
  authorization, bad_answer, bad_lines, bad_lines_of, bye_call, call_of, cancel_call, cancel_parts,
  cancel_with, cancelled, delete_call, find_call, or_code, sip_ack, sip_bye, sip_cancel,
  sip_register, text_item,
}
use vo_iphoneypot.Sip.Headers.{get_headers}
use vo_iphoneypot.Sip.Invite.{
  InviteResult, as_invite, check_authorization, check_invite, check_method, check_response,
  credentials, establish, expected_digest, media_call, new_call, one_answer, report_answers,
  sip_invite, store_call, two_answers, unauthorized, with_client,
}
use vo_iphoneypot.Sip.Message.{Headers, SipConfig, header, join_lines}
use vo_iphoneypot.Sip.Session.{SipSession, new_session}
use vo_iphoneypot.Sip.Worker.{
  Handled, SipMethod, WorkerData, ack, as_data, as_nothing, as_text, bye, cancel, get, hand_over,
  handle_method, invite, method_of, no_data, options, options_text, other_method, pair_data,
  register, sip_options, sip_response, text_data, worker,
}
use vo_iphoneypot.Strings.{split_once}

-- The reports of what a message was reports_of, in order.
abbrev pub reports_of : Text → WorkerData → List CallReport
reports_of message no_data = accepted message [] ∷ []
reports_of message (text_data t) = accepted message t ∷ []
reports_of message (pair_data t u) = accepted message t ∷ accepted message u ∷ []

-- The reports of a client are those of an earlier one, and more behind them.
abbrev pub Extends : VoipClient → VoipClient → Type 0
Extends c c' = (more : List CallReport) × (c'.json_list ≡ c.json_list ++ more)

Extends-refl : (c : VoipClient) → Extends c c
Extends-refl c = ([], sym (append-nil c.json_list))

Extends-report : (c c' : VoipClient) (r : CallReport) → Extends c c' → Extends c (add_report r c')
unfolding add_report
Extends-report c c' r (more, e) = (
  more ++ r ∷ [],
  ap (λ (l : List CallReport). l ++ r ∷ []) e ∙ append_assoc c.json_list more (r ∷ []),
)

-- The last reports are those of the answer, if there is one.
abbrev pub Reported : Text → VoipClient → Handled → Type 0
Reported message c (none, c') = Extends c c'
Reported message c (some d, c') =
    (more : List CallReport) × (c'.json_list ≡ c.json_list ++ (more ++ reports_of message d))

ends_with :
    (c c' : VoipClient) (rs : List CallReport) (l : List CallReport)
    → Extends c c'
    → l ≡ c'.json_list ++ rs
    → (more : List CallReport) × (l ≡ c.json_list ++ (more ++ rs))
ends_with c c' rs l (more, e) h =
    (more, h ∙ ap (λ (x : List CallReport). x ++ rs) e ∙ append_assoc c.json_list more rs)

text-Reported :
    (message : Text) (c c' : VoipClient) (o : Option Text)
    → Extends c c'
    → Reported message c (as_text (answer_if message c' o))
unfolding add_report
text-Reported message c c' none h = h
text-Reported message c c' (some t) h =
    ends_with c c' (accepted message t ∷ []) (c'.json_list ++ accepted message t ∷ []) h refl

answer_Extends :
    (message : Text) (c c' : VoipClient) (o : Option Text)
    → Extends c c'
    → Extends c (answer_if message c' o).1
answer_Extends message c c' none h = h
answer_Extends message c c' (some t) h = Extends-report c c' (accepted message t) h

as_invite-Extends : (c : VoipClient) (a : Answer) → Extends c a.1 → Extends c (as_invite a).1
as_invite-Extends c (none, c') h = h
as_invite-Extends c (some t, c') h = h

abbrev or_nothing : Option Text → Option Text
or_nothing o = o >>= λ (s : Text). none

-- The headers that are a text make bad_answer raise.
text_item-none :
    (config : SipConfig) (message : Text) (c : VoipClient)
    → bad_lines_of config (text_item message) (codes "481") c ≡ none
unfolding bad_lines_of text_item
text_item-none config message c =
    no_status (or_code (config.bad_answers (codes "481")) (config.bad_answers (codes "400")))
  where
    no_status : (o : Option Text) → or_nothing o ≡ none
    no_status none = refl
    no_status (some s) = refl

module _ (get_hash : Text → Text) (config : SipConfig) (message : Text) (headers : Headers)
    (c : VoipClient) where
  refused_Extends :
      (code : Text) (r : CallReport)
      → Extends c (as_invite (bad_answer config message headers code (add_report r c))).1
  unfolding bad_answer
  refused_Extends code r =
      as_invite-Extends c (bad_answer config message headers code (add_report r c)) (
        answer_Extends message c (add_report r c) (bad_lines config headers code (add_report r c))
          (Extends-report c c r (Extends-refl c)))

  stored_Extends :
      (username call_id : Text) (o : Option SipSession)
      → Extends c (store_call username call_id c o).1
  unfolding store_call add_report
  stored_Extends username call_id none = Extends-refl c
  stored_Extends username call_id (some s) = (authorization true (some username) ∷ [], refl)

  new_Extends :
      (username rtp_port call_id : Text) (o : Option SipSession)
      → Extends c (new_call config headers message username c rtp_port call_id o).1
  unfolding new_call
  new_Extends username rtp_port call_id none =
      stored_Extends username call_id (new_session config c.addr_host c.addr_port rtp_port headers)
  new_Extends username rtp_port call_id (some s) =
      refused_Extends (codes "403") (authorization false (some username))

  establish-Extends :
      (username : Text) (o : Option (Text × Text))
      → Extends c (establish config headers message username c o).1
  unfolding establish
  establish-Extends username none = Extends-refl c
  establish-Extends username (some (rtp_port, call_id)) =
      new_Extends username rtp_port call_id (call_of call_id c.calls)

  response_Extends :
      (o : Option (Text × Text)) → Extends c (check_response get_hash config headers message c o).1
  unfolding check_response
  response_Extends none = Extends-refl c
  response_Extends (some (username, given)) =
      if_both (λ (r : InviteResult). Extends c r.1)
        (not (text_eq (expected_digest get_hash config c) given))
        (as_invite (
          bad_answer config message headers (codes "400")
            (add_report (authorization false (some username)) c)))
        (establish config headers message username c (media_call headers))
        (refused_Extends (codes "400") (authorization false (some username)))
        (establish-Extends username (media_call headers))

  method_Extends :
      (o : Option (Text × Text)) → Extends c (check_method get_hash config headers message c o).1
  unfolding check_method
  method_Extends none = Extends-refl c
  method_Extends (some (word, line)) =
      if_both (λ (r : InviteResult). Extends c r.1) (not (text_eq word (codes "Digest")))
        (as_invite (
          bad_answer config message headers (codes "400")
            (add_report (authorization false none) c)))
        (check_response get_hash config headers message c (credentials line))
        (refused_Extends (codes "400") (authorization false none))
        (response_Extends (credentials line))

  authorization_Extends :
      (opaqueue : Text) (o : Option Text)
      → Extends c (check_authorization get_hash opaqueue config headers message c o).1
  unfolding check_authorization
  authorization_Extends opaqueue none =
      as_invite-Extends c (with_client c (unauthorized get_hash opaqueue config headers c))
        (Extends-refl c)
  authorization_Extends opaqueue (some auth) = method_Extends (split_once b' ' auth)

  invite-Reported :
      (r : InviteResult) → Extends c r.1 → Reported message c (as_data (report_answers message r))
  unfolding report_answers add_report
  invite-Reported (none, c') h = h
  invite-Reported (some (one_answer t), c') h =
      ends_with c c' (accepted message t ∷ []) (c'.json_list ++ accepted message t ∷ []) h refl
  invite-Reported (some (two_answers t u), c') h =
      ends_with c c' (accepted message t ∷ accepted message u ∷ [])
        ((c'.json_list ++ accepted message t ∷ []) ++ accepted message u ∷ []) h
        (append_assoc c'.json_list (accepted message t ∷ []) (accepted message u ∷ []))

  bye-Reported :
      (o : Option (Text × SipSession))
      → Reported message c (as_text (bye_call config headers message c o))
  unfolding bye_call bad_answer add_report
  bye-Reported none =
      text-Reported message c c (bad_lines config headers (codes "481") c) (Extends-refl c)
  bye-Reported (some (k, s)) = ([], refl)

  cancelled-Reported :
      (call_id cseq : Text) (c' : VoipClient)
      → Extends c c'
      → Reported message c (as_text (cancelled config message headers call_id cseq c'))
  unfolding cancelled
  cancelled-Reported call_id cseq c' h =
      text-Reported message c c'
        (header (codes "From") headers >>= λ from.
          some (join_lines (answer_lines config c' (codes "200 OK") from call_id cseq)))
        h

  cancel_call-Reported :
      (call_id cseq : Text) (o : Option SipSession)
      → Reported message c (as_text (cancel_call config headers message call_id cseq c o))
  unfolding cancel_call bad_answer
  cancel_call-Reported call_id cseq none =
      text-Reported message c c (bad_lines config headers (codes "404") c) (Extends-refl c)
  cancel_call-Reported call_id cseq (some s) =
      cancelled-Reported call_id cseq (record c { calls = delete_call call_id c.calls })
        (Extends-refl c)

  cancel-Reported :
      (o : Option (Text × Text × Text))
      → Reported message c (as_text (cancel_with config headers message c o))
  unfolding cancel_with
  cancel-Reported none = Extends-refl c
  cancel-Reported (some (call_id, cseq, method)) =
      if_both (λ (a : Answer). Reported message c (as_text a))
        (text_eq method (codes "INVITE") || text_eq method (codes "ACK"))
        (cancel_call config headers message call_id cseq c (call_of call_id c.calls))
        (cancelled config message headers call_id cseq c)
        (cancel_call-Reported call_id cseq (call_of call_id c.calls))
        (cancelled-Reported call_id cseq c (Extends-refl c))

  ack-Reported :
      (o : Option (Text × SipSession))
      → Reported message c (as_nothing (ack_call config message c o))
  unfolding ack_call add_report
  ack-Reported none = rw (text_item-none config message c) (Extends-refl c)
  ack-Reported (some x) = ([], refl)

  pub method-Reported :
      (opaqueue : Text) (m : SipMethod)
      → m ≢ get
      → Reported message c (handle_method get_hash opaqueue config headers message c m)
  unfolding handle_method sip_options sip_cancel sip_bye sip_ack sip_register sip_invite
      check_invite add_report
  method-Reported opaqueue options h =
      text-Reported message c c (options_text config headers c) (Extends-refl c)
  method-Reported opaqueue invite h =
      invite-Reported (check_invite get_hash opaqueue config headers message c)
        (authorization_Extends opaqueue (header (codes "Authorization") headers))
  method-Reported opaqueue cancel h = cancel-Reported (cancel_parts headers)
  method-Reported opaqueue bye h = bye-Reported (find_call headers c)
  method-Reported opaqueue ack h = ack-Reported (find_call headers c)
  method-Reported opaqueue register h = ([], refl)
  method-Reported opaqueue sip_response h = ([], refl)
  method-Reported opaqueue get h = absurd (h refl)
  method-Reported opaqueue other_method h = ([], refl)

-- What worker hands over: all the reports that were waiting, then those of the message, the last of
-- which are of the answer; nothing waits afterwards. If it raises, all reports wait.
abbrev pub Delivered :
    Text → VoipClient → Option (WorkerData × List CallReport) × VoipClient → Type 0
Delivered message c (none, c') = Extends c c'
Delivered message c (some (d, reports), c') =
    (c'.json_list ≡ [])
    × ((more : List CallReport) × (reports ≡ c.json_list ++ (more ++ reports_of message d)))

hand_over-Delivered :
    (message : Text) (c : VoipClient) (h : Handled)
    → Reported message c h
    → Delivered message c (hand_over h)
unfolding hand_over
hand_over-Delivered message c (none, c') h = h
hand_over-Delivered message c (some d, c') h = (refl, h)

-- For a message that is no GET, worker hands over the reports that were waiting and then those of the
-- message, the last of which hold each text that it answers, in order; nothing waits afterwards. If
-- it raises, no report is lost: they wait for the next message.
pub worker-Delivered :
    (get_hash : Text → Text) (opaqueue : Text) (config : SipConfig) (message : Text)
    (c : VoipClient)
    → method_of message ≢ get
    → Delivered message c (worker get_hash opaqueue config message c)
unfolding worker
worker-Delivered get_hash opaqueue config message c h =
    hand_over-Delivered message c
      (handle_method get_hash opaqueue config (get_headers message) message c (method_of message))
      (method-Reported get_hash config message (get_headers message) c opaqueue (method_of message)
        h)
