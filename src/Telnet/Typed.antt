-- ===== src/Telnet/Typed.antt =====
-- The password that an attacker types, in cowrie/src/cowrie/telnet_proxy/handler.py.
use vo_iphoneypot.Common.{
  Bool-cases, List, Text, [], ap, false, if◌then◌else◌, inl, inr, map, none, refl, some, true, ℕ,
  ◌++◌, ◌==◌, ◌∙◌, ◌∷◌, ◌≡◌,
}
use vo_iphoneypot.Strings.{has_prefix}
use vo_iphoneypot.Telnet.Bytes.{
  after_return, delete_char, edit_line, encode_char, holds_byte, remove_all, replace, replace_from,
  without_last,
}
use vo_iphoneypot.Telnet.Handler.{
  TelnetConfig, TelnetHandler, TelnetStep, add_frontend, and_next, check_password, end_password,
  finish_frontend, pass_negotiation, password_controls, process_password_input, returns,
  set_processing_state_frontend, spoof_frontend, take_password, take_username, use_negotiated,
}

edit_line-append : (n s t : Text) → edit_line n (s ++ t) ≡ edit_line (edit_line n s) t
unfolding edit_line
edit_line-append n [] t = refl
edit_line-append n (c ∷ s) t =
    edit_line-append (if c == delete_char then without_last n else n ++ encode_char c) s t

-- Single bytes are removed from the two parts of a text.
replace_byte-append :
    (b : ℕ) (s t : Text)
    → replace (b ∷ []) [] (s ++ t) ≡ replace (b ∷ []) [] s ++ replace (b ∷ []) [] t
unfolding replace_from has_prefix
replace_byte-append b [] t = refl
replace_byte-append b (c ∷ s) t = elim (Bool-cases (b == c)) [
  | inl same ↦ rw (replace_from, same, replace_byte-append b s t) refl
  | inr other ↦ rw (replace_from, other, replace_byte-append b s t) refl
]

abbrev single_bytes : List ℕ → List Text
single_bytes bs = map (λ b. b ∷ []) bs

remove_bytes-append :
    (s t : Text) (bs : List ℕ)
    → remove_all (s ++ t) (single_bytes bs)
      ≡ remove_all s (single_bytes bs) ++ remove_all t (single_bytes bs)
unfolding remove_all
remove_bytes-append s t [] = refl
remove_bytes-append s t (b ∷ bs) =
    ap (λ (x : Text). remove_all x (single_bytes bs)) (replace_byte-append b s t)
    ∙ remove_bytes-append (replace (b ∷ []) [] s) (replace (b ∷ []) [] t) bs

-- What is left of a packet of the password.
abbrev pub cleaned : Text → Text
cleaned d = remove_all d password_controls

pub cleaned-append : (s t : Text) → cleaned (s ++ t) ≡ cleaned s ++ cleaned t
cleaned-append s t = remove_bytes-append s t (255 ∷ 253 ∷ 1 ∷ 13 ∷ 0 ∷ 10 ∷ [])

-- The packets that the attacker sends.
unfoldable pub feed_frontend : TelnetConfig → List Text → TelnetHandler → TelnetStep
feed_frontend config [] h = returns h
feed_frontend config (d ∷ ds) h = and_next (add_frontend config d h) (feed_frontend config ds)

-- At the prompt for the password, with no user name to be typed and nothing of the negotiation to be
-- passed on.
abbrev pub at_prompt : TelnetHandler → TelnetHandler
at_prompt h = record h {
  auth_done = false;
  inputing_password = true;
  inputing_login = false;
  pre_password_data = false;
}

-- A packet without a user name of the negotiation.
abbrev pub Plain : TelnetConfig → Text → Type 0
Plain config d = config.negotiated d ≡ none

abbrev pub more_typed : Text → TelnetHandler → TelnetHandler
more_typed d h = record h {
  current_data = d;
  send_data = false;
  password_state = h.password_state ++ cleaned d;
}

pub piece_typed :
    (config : TelnetConfig) (d : Text) (h : TelnetHandler)
    → config.spoof_authentication_data ≡ true
    → Plain config d
    → holds_byte 13 d ≡ false
    → add_frontend config d (at_prompt h) ≡ returns (at_prompt (more_typed d h))
unfolding add_frontend spoof_frontend set_processing_state_frontend use_negotiated take_password
    take_username process_password_input pass_negotiation finish_frontend
piece_typed config d h on plain open' = rw (on, plain, open') refl

pub last_typed :
    (config : TelnetConfig) (d : Text) (h : TelnetHandler) (c : ℕ)
    → config.spoof_authentication_data ≡ true
    → Plain config d
    → holds_byte 13 d ≡ true
    → after_return d ≡ some c
    → add_frontend config d (at_prompt h)
      ≡ returns (finish_frontend d (check_password config (at_prompt (more_typed d h)) c))
unfolding add_frontend spoof_frontend set_processing_state_frontend use_negotiated take_password
    take_username process_password_input pass_negotiation end_password check_password
last_typed config d h c on plain closed at = rw (on, plain, closed, at) refl
