-- ===== src/Sip/OnlyInvite.antt =====
-- worker of src/voipclient.py makes a call only for an INVITE with the digest of the secret.
use mathlib.Core.Option.{none-ne-some}
use vo_iphoneypot.Common.{
  Bool-cases, Option, Text, ap, codes, false, inl, inr, none, refl, some, sym, text_eq, text_eq→eq,
  ◌∙◌, ◌≡◌, ◌⊎◌,
}
use vo_iphoneypot.Shell.Mkfile.{after}
use vo_iphoneypot.Sip.Calls.{
  Answer, CallReport, VoipClient, add_report, authorization, bad_answer, call_of, cancel_parts,
  find_call, sip_ack, sip_bye, sip_cancel, sip_register,
}
use vo_iphoneypot.Sip.Headers.{get_headers}
use vo_iphoneypot.Sip.Invite.{
  InviteResult, as_invite, check_authorization, check_invite, check_method, check_response,
  credentials, expected_digest, one_answer, report_answers, sip_invite, two_answers, unauthorized,
  with_client,
}
use vo_iphoneypot.Sip.Message.{Headers, SipConfig, header}
use vo_iphoneypot.Sip.Secret.{
  Unknown, acked-Unknown, answer-Unknown, bad-Unknown, byed-Unknown, cancel_with-Unknown,
}
use vo_iphoneypot.Sip.Session.{SipSession}
use vo_iphoneypot.Sip.Worker.{
  Handled, SipMethod, ack, as_data, as_nothing, as_text, bye, cancel, get, hand_over, handle_method,
  invite, method_of, options, options_text, other_method, register, sip_options, sip_response,
  worker,
}
use vo_iphoneypot.Strings.{split_once}

-- The headers hold a digest that is the expected one.
abbrev pub KnowsSecret : (Text → Text) → SipConfig → Headers → VoipClient → Type 0
KnowsSecret get_hash config headers c =
    (auth line username : Text) × (header (codes "Authorization") headers ≡ some auth)
    × (split_once b' ' auth ≡ some (codes "Digest", line))
    × (credentials line ≡ some (username, expected_digest get_hash config c))

as_invite_calls : (id : Text) (a : Answer) → Unknown id a.1 → Unknown id (as_invite a).1
as_invite_calls id (none, c) h = h
as_invite_calls id (some t, c) h = h

refused :
    (config : SipConfig) (id message : Text) (headers : Headers) (code : Text) (r : CallReport)
    (c : VoipClient)
    → Unknown id c
    → Unknown id (as_invite (bad_answer config message headers code (add_report r c))).1
unfolding add_report
refused config id message headers code r c h =
    as_invite_calls id (bad_answer config message headers code (add_report r c))
      (bad-Unknown config id message headers code (add_report r c) h)

module _ (get_hash : Text → Text) (config : SipConfig) (id message : Text) (headers : Headers)
    (c : VoipClient) (unknown : Unknown id c) where
  abbrev Guarded : InviteResult → Type 0
  Guarded r = Unknown id r.1 ⊎ KnowsSecret get_hash config headers c

  response-Guarded :
      (auth line : Text) (o : Option (Text × Text))
      → header (codes "Authorization") headers ≡ some auth
      → split_once b' ' auth ≡ some (codes "Digest", line)
      → credentials line ≡ o
      → Guarded (check_response get_hash config headers message c o)
  unfolding check_response
  response-Guarded auth line none ha hs hc = inl unknown
  response-Guarded auth line (some (username, given)) ha hs hc =
      elim (Bool-cases (text_eq (expected_digest get_hash config c) given)) [
        | inl same ↦ inr (
          auth,
          line,
          username,
          ha,
          hs,
          hc
              ∙ ap (λ (x : Text). some (username, x))
                  (sym (text_eq→eq (expected_digest get_hash config c) given same)),
        )
        | inr differs ↦ rw differs (
            inl (
              refused config id message headers (codes "400") (authorization false (some username))
                c unknown))
      ]

  method-Guarded :
      (auth : Text) (o : Option (Text × Text))
      → header (codes "Authorization") headers ≡ some auth
      → split_once b' ' auth ≡ o
      → Guarded (check_method get_hash config headers message c o)
  unfolding check_method
  method-Guarded auth none ha hs = inl unknown
  method-Guarded auth (some (word, line)) ha hs =
      elim (Bool-cases (text_eq word (codes "Digest"))) [
        | inl same ↦ rw same (
            response-Guarded auth line (credentials line) ha
              (hs ∙ ap (λ (x : Text). some (x, line)) (text_eq→eq word (codes "Digest") same)) refl)
        | inr differs ↦ rw differs (
            inl (
              refused config id message headers (codes "400") (authorization false none) c unknown))
      ]

  authorization-Guarded :
      (opaqueue : Text) (o : Option Text)
      → header (codes "Authorization") headers ≡ o
      → Guarded (check_authorization get_hash opaqueue config headers message c o)
  unfolding check_authorization
  authorization-Guarded opaqueue none ha =
      inl (
        as_invite_calls id (with_client c (unauthorized get_hash opaqueue config headers c))
          unknown)
  authorization-Guarded opaqueue (some auth) ha = method-Guarded auth (split_once b' ' auth) ha refl

  check-Guarded :
      (opaqueue : Text) → Guarded (check_invite get_hash opaqueue config headers message c)
  unfolding check_invite
  check-Guarded opaqueue =
      authorization-Guarded opaqueue (header (codes "Authorization") headers) refl

  reported_calls : (r : InviteResult) → (report_answers message r).1.calls ≡ r.1.calls
  unfolding report_answers add_report
  reported_calls (none, c') = refl
  reported_calls (some (one_answer t), c') = refl
  reported_calls (some (two_answers t u), c') = refl

  data_calls : (r : InviteResult) → (as_data r).1.calls ≡ r.1.calls
  data_calls (none, c') = refl
  data_calls (some (one_answer t), c') = refl
  data_calls (some (two_answers t u), c') = refl

  text_calls : (a : Answer) → Unknown id a.1 → Unknown id (as_text a).1
  text_calls (none, c') h = h
  text_calls (some t, c') h = h

  nothing_calls : (a : Answer) → Unknown id a.1 → Unknown id (as_nothing a).1
  nothing_calls (none, c') h = h
  nothing_calls (some t, c') h = h

  invite_guarded :
      (opaqueue : Text)
      → Unknown id (as_data (sip_invite get_hash opaqueue config headers message c)).1
        ⊎ KnowsSecret get_hash config headers c
  unfolding sip_invite
  invite_guarded opaqueue =
      let r = check_invite get_hash opaqueue config headers message c in
      elim (check-Guarded opaqueue) [
        | inl h ↦
            inl (ap (call_of id) (data_calls (report_answers message r) ∙ reported_calls r) ∙ h)
        | inr k ↦ inr k
      ]

  -- What a method makes of the calls.
  method_calls :
      (opaqueue : Text) (m : SipMethod)
      → Unknown id (handle_method get_hash opaqueue config headers message c m).1
        ⊎ ((m ≡ invite) × KnowsSecret get_hash config headers c)
  unfolding handle_method sip_options sip_cancel sip_bye sip_ack sip_register add_report
  method_calls opaqueue options = inl (
      text_calls (sip_options config headers message c)
        (answer-Unknown id message c (options_text config headers c) unknown))
  method_calls opaqueue invite = elim (invite_guarded opaqueue) [
    | inl h ↦ inl h
    | inr k ↦ inr (refl, k)
  ]
  method_calls opaqueue cancel = inl (
      text_calls (sip_cancel config headers message c)
        (cancel_with-Unknown config id message headers c (cancel_parts headers) unknown))
  method_calls opaqueue bye = inl (
      text_calls (sip_bye config headers message c)
        (byed-Unknown config id message headers c (find_call headers c) refl unknown))
  method_calls opaqueue ack = inl (
      nothing_calls (sip_ack config headers message c)
        (acked-Unknown config id message c (find_call headers c) unknown))
  method_calls opaqueue register = inl unknown
  method_calls opaqueue sip_response = inl unknown
  method_calls opaqueue get = inl unknown
  method_calls opaqueue other_method = inl unknown

handed_calls : (h : Handled) → (hand_over h).1.calls ≡ h.1.calls
unfolding hand_over
handed_calls (none, c) = refl
handed_calls (some d, c) = refl

-- A call that is in the table after a message and was not there before was made by an INVITE, whose
-- headers hold a Digest authorization with the response that is expected, which takes the secret.
pub worker_call :
    (get_hash : Text → Text) (opaqueue : Text) (config : SipConfig) (message id : Text)
    (s : SipSession) (c : VoipClient)
    → call_of id c.calls ≡ none
    → call_of id (worker get_hash opaqueue config message c).1.calls ≡ some s
    → (method_of message ≡ invite) × KnowsSecret get_hash config (get_headers message) c
unfolding worker
worker_call get_hash opaqueue config message id s c before after =
    let h =
      handle_method get_hash opaqueue config (get_headers message) message c (method_of message) in
    elim (method_calls get_hash config id message (get_headers message) c before opaqueue
      (method_of message)) [
        | inl unknown ↦
            absurd (none-ne-some s (sym unknown ∙ ap (call_of id) (sym (handed_calls h)) ∙ after))
        | inr made ↦ made
      ]
