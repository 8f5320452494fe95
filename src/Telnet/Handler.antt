-- ===== src/Telnet/Handler.antt =====
-- TelnetHandler of cowrie/src/cowrie/telnet_proxy/handler.py, but for close, which renames the log.
use vo_iphoneypot.Common.{
  Bool, List, Option, Text, [], codes, drop, false, if◌then◌else◌, length, ltb, none, not, some,
  take, true, ℕ, ◌&&◌, ◌++◌, ◌||◌, ◌∷◌,
}
use vo_iphoneypot.Telnet.Bytes.{
  after_return, encode_char, holds, holds_byte, process_backspaces, remove_all, replace,
}

-- The configuration, and what the code calls: the searches for the prompts, the match of a user name
-- in the negotiation (the name, and the data with the name of the backend in its place), whether
-- bytes are UTF-8, and the check of a login.
pub record TelnetConfig : Type 0 where
  pub spoof_authentication_data : Bool
  pub backend_login : Text
  pub backend_password : Text
  pub is_password_prompt : Text → Bool
  pub is_username_prompt : Text → Bool
  pub negotiated : Text → Option (Text × Text)
  pub is_utf8 : Text → Bool
  pub check_user_pass : Text → Text → Bool

-- A record of the terminal log: TYPE_INPUT or TYPE_OUTPUT, and the data.
pub data TtyEntry : Type 0 where
  tty_input : Text → TtyEntry
  tty_output : Text → TtyEntry

-- The fields of the handler, what was written to the two ends, and the commands that were logged.
pub record TelnetHandler : Type 0 where
  pub current_data : Text
  pub send_data : Bool
  pub client_set : Bool
  pub current_command : Text
  pub auth_started : Bool
  pub auth_done : Bool
  pub username_state : Text
  pub inputing_login : Bool
  pub password_state : Text
  pub inputing_password : Bool
  pub waiting_login_echo : Bool
  pub pre_password_data : Bool
  pub backend_buffer : List Text
  pub to_backend : List Text
  pub to_frontend : List Text
  pub ttylog_enabled : Bool
  pub tty : List TtyEntry
  pub logged_commands : List Text

abbrev pub telnet_log_tty : Bool → TtyEntry → List TtyEntry → List TtyEntry
telnet_log_tty on e es = if on then es ++ e ∷ [] else es

-- The loop of sendBackend: a packet is written, and `data` is logged, whichever packet it is.
unfoldable pub write_packets : Text → List Text → TelnetHandler → TelnetHandler
write_packets data' [] h = h
write_packets data' (packet' ∷ packets) h = write_packets data' packets (record h {
  to_backend = h.to_backend ++ packet' ∷ [];
  tty =
      telnet_log_tty (h.ttylog_enabled && h.auth_started)
        (tty_input (replace (0 ∷ []) (10 ∷ []) data')) h.tty;
  backend_buffer = drop 1 h.backend_buffer;
})

unfoldable pub append_buffer : Text → TelnetHandler → TelnetHandler
append_buffer data' h = record h { backend_buffer = h.backend_buffer ++ data' ∷ [] }

-- `sendBackend`
unfoldable pub send_backend : Text → TelnetHandler → TelnetHandler
unfolding append_buffer
send_backend data' h =
    let h' = append_buffer data' h in
    if h.client_set then write_packets data' h'.backend_buffer h' else h'

-- `sendFrontend`
unfoldable pub send_frontend : Text → TelnetHandler → TelnetHandler
send_frontend data' h = record h {
  to_frontend = h.to_frontend ++ data' ∷ [];
  tty = telnet_log_tty (h.ttylog_enabled && h.auth_started) (tty_output data') h.tty;
}

-- What a method does: it returns, or it raises in this state.
pub data TelnetStep : Type 0 where
  returns : TelnetHandler → TelnetStep
  fails : TelnetHandler → TelnetStep

abbrev pub and_next : TelnetStep → (TelnetHandler → TelnetStep) → TelnetStep
and_next (returns h) f = f h
and_next (fails h) f = fails h

abbrev username_controls : List Text
username_controls = (13 ∷ []) ∷ (0 ∷ []) ∷ (10 ∷ []) ∷ []

-- The user name is complete: the data for the backend are its own user name.
unfoldable pub end_username : TelnetConfig → TelnetHandler → Option ℕ → TelnetStep
end_username config h none = fails h
end_username config h (some c) = returns (record h {
  username_state = process_backspaces h.username_state;
  inputing_login = false;
  current_data = config.backend_login ++ 13 ∷ encode_char c;
  send_data = true;
  waiting_login_echo = true;
})

-- `processUsernameInput`
unfoldable pub process_username_input : TelnetConfig → TelnetHandler → TelnetStep
process_username_input config h =
    let h' =
      send_frontend
        (replace (0 ∷ []) (10 ∷ []) (replace (127 ∷ []) (8 ∷ 32 ∷ 8 ∷ []) h.current_data))
        (record h {
          send_data = false;
          username_state = h.username_state ++ remove_all h.current_data username_controls;
        }) in
    if holds_byte 13 h.current_data
    then end_username config h' (after_return h.current_data)
    else returns h'

abbrev pub password_controls : List Text
password_controls = (255 ∷ []) ∷ (253 ∷ []) ∷ (1 ∷ []) ∷ (13 ∷ []) ∷ (0 ∷ []) ∷ (10 ∷ []) ∷ []

abbrev pub fake : Text
fake = codes "fake"

-- The password is complete and checked with the user name.
unfoldable pub check_password : TelnetConfig → TelnetHandler → ℕ → TelnetHandler
check_password config h c =
    let password = process_backspaces h.password_state in
    let good = config.check_user_pass h.username_state password in
    record h {
      password_state = password;
      inputing_password = false;
      auth_done = good || h.auth_done;
      current_data =
          (if good then config.backend_password else config.backend_password ++ fake)
          ++ 13 ∷ encode_char c;
      send_data = true;
    }

unfoldable pub end_password : TelnetConfig → TelnetHandler → Option ℕ → TelnetStep
end_password config h none = fails h
end_password config h (some c) = returns (check_password config h c)

-- What was captured before the password is passed on.
unfoldable pub pass_negotiation : TelnetHandler → TelnetHandler
pass_negotiation h =
    if h.pre_password_data
    then record (send_backend (take 3 h.current_data) h) { pre_password_data = false }
    else h

-- `processPasswordInput`
unfoldable pub process_password_input : TelnetConfig → TelnetHandler → TelnetStep
process_password_input config h0 =
    let h = pass_negotiation (record h0 { send_data = false }) in
    let h' = record h {
      password_state = h.password_state ++ remove_all h0.current_data password_controls;
    } in
    if holds_byte 13 h0.current_data
    then end_password config h' (after_return h0.current_data)
    else returns h'

abbrev saw_password_prompt : Bool → TelnetHandler → TelnetHandler
saw_password_prompt true h = record h {
  auth_started = true;
  inputing_password = true;
  password_state = [];
}
saw_password_prompt false h = h

abbrev saw_username_prompt : Bool → TelnetHandler → TelnetHandler
saw_username_prompt true h = record h {
  auth_started = true;
  inputing_login = true;
  username_state = [];
}
saw_username_prompt false h = h

-- `setProcessingStateBackend`
unfoldable pub set_processing_state_backend : TelnetConfig → TelnetHandler → TelnetHandler
set_processing_state_backend config h =
    record (saw_username_prompt (config.is_username_prompt h.current_data)
      (saw_password_prompt (config.is_password_prompt h.current_data) h)) {
        pre_password_data = holds (255 ∷ 251 ∷ 1 ∷ []) h.current_data;
      }

unfoldable pub use_negotiated : TelnetConfig → TelnetHandler → Option (Text × Text) → TelnetStep
use_negotiated config h none = returns h
use_negotiated config h (some (name, substituted)) =
    if config.is_utf8 name
    then returns (record h { username_state = name; current_data = substituted })
    else fails (record h { username_state = name })

-- `setProcessingStateFrontend`
unfoldable pub set_processing_state_frontend : TelnetConfig → TelnetHandler → TelnetStep
set_processing_state_frontend config h = use_negotiated config h (config.negotiated h.current_data)

unfoldable pub take_password : TelnetConfig → TelnetHandler → TelnetStep
take_password config h = if h.inputing_password then process_password_input config h else returns h

unfoldable pub take_username : TelnetConfig → TelnetHandler → TelnetStep
take_username config h = if h.inputing_login then process_username_input config h else returns h

-- The authentication, for a packet of the frontend.
unfoldable pub spoof_frontend : TelnetConfig → TelnetHandler → TelnetStep
spoof_frontend config h =
    and_next (and_next (set_processing_state_frontend config h) (take_password config))
      (take_username config)

-- The authentication, for a packet of the backend.
unfoldable pub spoof_backend : TelnetConfig → TelnetHandler → TelnetHandler
spoof_backend config h0 =
    let h = set_processing_state_backend config h0 in
    if h.waiting_login_echo
    then record h {
      current_data = replace (config.backend_login ++ 13 ∷ 10 ∷ []) [] h.current_data;
      waiting_login_echo = false;
    }
    else h

unfoldable pub end_command : TelnetHandler → TelnetHandler
end_command h = record h {
  logged_commands =
      (if ltb 0 (length h.current_command)
        then h.logged_commands ++ h.current_command ∷ []
        else h.logged_commands);
  current_command = [];
}

-- The log of the commands of the frontend.
unfoldable pub note_command : Text → TelnetHandler → TelnetHandler
note_command data' h =
    let h' = record h {
      current_command =
          h.current_command ++ replace (13 ∷ 10 ∷ []) [] (replace (13 ∷ 0 ∷ []) [] data');
    } in
    if holds_byte 13 data' then end_command h' else h'

-- The end of addPacket, for a packet of the frontend.
unfoldable pub finish_frontend : Text → TelnetHandler → TelnetHandler
finish_frontend data' h0 =
    let h = if h0.auth_done then note_command data' h0 else h0 in
    if h.send_data && ltb 0 (length h.current_data) then send_backend h.current_data h else h

-- `addPacket('frontend', data)`
unfoldable pub add_frontend : TelnetConfig → Text → TelnetHandler → TelnetStep
add_frontend config data' h0 =
    let h = record h0 { current_data = data'; send_data = true } in
    and_next
      (if config.spoof_authentication_data && not h.auth_done
        then spoof_frontend config h
        else returns h)
      λ h'. returns (finish_frontend data' h')

-- `addPacket('backend', data)`
unfoldable pub add_backend : TelnetConfig → Text → TelnetHandler → TelnetHandler
add_backend config data' h0 =
    let h1 = record h0 { current_data = data'; send_data = true } in
    let h =
      if config.spoof_authentication_data && not h1.auth_done
      then spoof_backend config h1
      else h1 in
    if h.send_data && ltb 0 (length h.current_data) then send_frontend h.current_data h else h
