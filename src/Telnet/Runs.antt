-- ===== src/Telnet/Runs.antt =====
-- Runs of the Telnet proxy and of the terminal log.
use vo_iphoneypot.Common.{
  Text, [], arith, codes, false, none, refl, some, text_eq, true, ◌++◌, ◌∷◌, ◌≡◌,
}
use vo_iphoneypot.Strings.{has_prefix}
use vo_iphoneypot.Telnet.Bytes.{
  after_return, edit_line, encode_char, holds, process_backspaces, remove_all, replace_from,
  without_last,
}
use vo_iphoneypot.Telnet.Checked.{password_sent, typed_password}
use vo_iphoneypot.Telnet.Handler.{
  TelnetConfig, TelnetHandler, append_buffer, returns, send_backend, tty_input, write_packets,
}
use vo_iphoneypot.Telnet.Hashed.{TtyRecord, inputs_of, ttylog_inputhash-whole_log, whole_log}
use vo_iphoneypot.Telnet.Password.{password_checked, password_logged}
use vo_iphoneypot.Telnet.Ttylog.{ttylog_inputhash}
use vo_iphoneypot.Telnet.Typed.{at_prompt, feed_frontend}

abbrev proxy_config : TelnetConfig
proxy_config = record {
  spoof_authentication_data = true;
  backend_login = codes "root";
  backend_password = codes "pw";
  is_password_prompt = holds (codes "Password");
  is_username_prompt = holds (codes "login");
  negotiated = λ d. none;
  is_utf8 = λ d. true;
  check_user_pass = λ user password. text_eq password (codes "abc");
}

abbrev started : TelnetHandler
started = record {
  current_data = [];
  send_data = true;
  client_set = true;
  current_command = [];
  auth_started = true;
  auth_done = false;
  username_state = codes "eve";
  inputing_login = false;
  password_state = [];
  inputing_password = true;
  waiting_login_echo = false;
  pre_password_data = false;
  backend_buffer = [];
  to_backend = [];
  to_frontend = [];
  ttylog_enabled = true;
  tty = [];
  logged_commands = [];
}

-- The password is typed as `ax`, a deletion, and `bc`.
abbrev first_piece : Text
first_piece = b'a' ∷ b'x' ∷ []

abbrev middle_piece : Text
middle_piece = 127 ∷ []

abbrev end_piece : Text
end_piece = b'b' ∷ b'c' ∷ 13 ∷ 0 ∷ []

password_checked_example :
    (h' : TelnetHandler) × (feed_frontend proxy_config
        (first_piece ∷ middle_piece ∷ end_piece ∷ [])
        (at_prompt started)
      ≡ returns h')
    × (h'.auth_done
        ≡ text_eq
            (typed_password started (first_piece ∷ middle_piece ∷ end_piece ∷ []))
            (codes "abc"))
    × (h'.to_frontend ≡ [])
    × (h'.to_backend ++ h'.backend_buffer
        ≡ password_sent proxy_config
            (text_eq
              (typed_password started (first_piece ∷ middle_piece ∷ end_piece ∷ []))
              (codes "abc"))
            0
          ∷ [])
unfolding after_return
password_checked_example =
    password_checked proxy_config started (first_piece ∷ middle_piece ∷ []) end_piece 0 refl
      ((refl, refl), ((refl, refl), tt)) refl refl refl

-- The answer of the check.
lets_in :
    text_eq (typed_password started (first_piece ∷ middle_piece ∷ end_piece ∷ [])) (codes "abc")
    ≡ true
unfolding process_backspaces edit_line without_last encode_char remove_all replace_from has_prefix
    text_eq
lets_in = refl

password_logged_example :
    (h' : TelnetHandler) × (feed_frontend proxy_config
        (first_piece ∷ middle_piece ∷ end_piece ∷ [])
        (at_prompt started)
      ≡ returns h')
    × (h'.logged_commands ≡ codes "bc" ∷ [])
password_logged_example =
    password_logged proxy_config started (first_piece ∷ middle_piece ∷ []) (codes "bc") refl
      ((refl, refl), ((refl, refl), tt)) refl (refl, (refl, tt)) refl lets_in

abbrev keys_written : TtyRecord
keys_written = record { direction = 1; sec = 9; usec = 5; written = codes "ls" }

abbrev screen_written : TtyRecord
screen_written = record { direction = 2; sec = 9; usec = 6; written = codes "README" }

ttylog_inputhash-whole_log_example :
    (file : Text) × (whole_log 8 0 (keys_written ∷ screen_written ∷ []) 10 0 ≡ some file)
    × (ttylog_inputhash (λ t. t) file ≡ inputs_of (keys_written ∷ screen_written ∷ []))
ttylog_inputhash-whole_log_example =
    ttylog_inputhash-whole_log (λ t. t) 8 0 (keys_written ∷ screen_written ∷ []) 10 0
      (
        (omega arith, omega arith, omega arith, omega arith),
        ((omega arith, omega arith, omega arith, omega arith), tt),
      )
      (omega arith) (omega arith) (omega arith) (omega arith)

-- A byte of 128 or more takes two bytes, and a deletion takes one of them.
half_deleted : process_backspaces (200 ∷ 127 ∷ []) ≡ 195 ∷ []
unfolding process_backspaces edit_line without_last encode_char
half_deleted = refl

-- Two packets that wait for the backend: the log holds the later one twice.
abbrev waiting : TelnetHandler
waiting = record started { backend_buffer = codes "a" ∷ [] }

logged_twice :
    (send_backend (codes "b") waiting).tty ≡ tty_input (codes "b") ∷ tty_input (codes "b") ∷ []
unfolding send_backend append_buffer write_packets replace_from has_prefix
logged_twice = refl
