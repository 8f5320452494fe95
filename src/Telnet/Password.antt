-- ===== src/Telnet/Password.antt =====
-- What happens to a password, in cowrie/src/cowrie/telnet_proxy/handler.py.
use vo_iphoneypot.Common.{
  All, Bool, List, Text, [], ap, append-nil, append_assoc, ap₂, arith, false, if_true,
  if◌then◌else◌, length, ltb, refl, some, sym, true, ℕ, ◌++◌, ◌==◌, ◌||◌, ◌∙◌, ◌∷◌, ◌≡◌,
}
use vo_iphoneypot.Strings.{Word, has_prefix}
use vo_iphoneypot.Telnet.Bytes.{
  after_return, encode_char, holds_byte, process_backspaces, replace, replace_from,
}
use vo_iphoneypot.Telnet.Checked.{
  Piece, after_pieces, finish_sends, joined_pieces, more_than_none, noted, noted_keep, passed_on,
  password_sent, pieces_keep, pieces_password, pieces_typed, send_backend-passed_on, send_keep,
  typed_password,
}
use vo_iphoneypot.Telnet.Handler.{
  TelnetConfig, TelnetHandler, TelnetStep, add_frontend, and_next, check_password, end_command,
  fake, finish_frontend, note_command, returns, send_backend,
}
use vo_iphoneypot.Telnet.Typed.{
  Plain, at_prompt, cleaned, cleaned-append, feed_frontend, last_typed, more_typed,
}

fed_one :
    (config : TelnetConfig) (d : Text) (h h' : TelnetHandler)
    → add_frontend config d h ≡ returns h'
    → feed_frontend config (d ∷ []) h ≡ returns h'
unfolding feed_frontend
fed_one config d h h' e = ap (λ (s : TelnetStep). and_next s (λ x. returns x)) e

no_match : (c x : ℕ) (t : Text) → (c == 13) ≡ false → has_prefix (13 ∷ x ∷ []) (c ∷ t) ≡ false
unfolding has_prefix
no_match c x t h = rw (turned c h) refl
  where
    turned : (c : ℕ) → (c == 13) ≡ false → (13 == c) ≡ false
    turned c h = ground (arith, h)

replace_kept :
    (x : ℕ) (w t : Text)
    → Word 13 w
    → replace (13 ∷ x ∷ []) [] (w ++ t) ≡ w ++ replace (13 ∷ x ∷ []) [] t
unfolding replace_from
replace_kept x [] t h = refl
replace_kept x (c ∷ w) t h =
    rw (replace_from, no_match c x (w ++ t) h.0, replace_kept x w t h.1) refl

one_end : replace (13 ∷ 0 ∷ []) [] (13 ∷ 0 ∷ []) ≡ []
unfolding replace_from has_prefix
one_end = refl

no_ends : (w : Text) → Word 13 w → replace (13 ∷ 10 ∷ []) [] w ≡ w
unfolding replace_from
no_ends w h =
    ap (replace (13 ∷ 10 ∷ []) []) (sym (append-nil w)) ∙ replace_kept 10 w [] h ∙ append-nil w

-- The text of a line that ends in a carriage return and a zero.
line_text :
    (w : Text)
    → Word 13 w
    → replace (13 ∷ 10 ∷ []) [] (replace (13 ∷ 0 ∷ []) [] (w ++ 13 ∷ 0 ∷ [])) ≡ w
line_text w h =
    ap (replace (13 ∷ 10 ∷ []) [])
      (replace_kept 0 w (13 ∷ 0 ∷ []) h ∙ ap (λ (t : Text). w ++ t) one_end ∙ append-nil w)
    ∙ no_ends w h

returns_held : (w : Text) → holds_byte 13 (w ++ 13 ∷ 0 ∷ []) ≡ true
returns_held [] = refl
returns_held (c ∷ w) = ground (arith, returns_held w)

zero_behind : (w : Text) → Word 13 w → after_return (w ++ 13 ∷ 0 ∷ []) ≡ some 0
unfolding after_return
zero_behind [] h = refl
zero_behind (c ∷ []) h = rw h.0 refl
zero_behind (c ∷ d ∷ w) h = rw (h.0, zero_behind (d ∷ w) h.1) refl

abbrev with_command : TelnetHandler → Text → TelnetHandler
with_command h d = record h {
  current_command = h.current_command ++ replace (13 ∷ 10 ∷ []) [] (replace (13 ∷ 0 ∷ []) [] d);
}

command_noted :
    (w : Text) (h : TelnetHandler)
    → Word 13 w
    → h.auth_done ≡ true
    → ltb 0 (length (h.current_command ++ w)) ≡ true
    → (noted (w ++ 13 ∷ 0 ∷ []) h).logged_commands
      ≡ h.logged_commands ++ (h.current_command ++ w) ∷ []
unfolding note_command end_command
command_noted w h k done some' =
    ap (λ (x : TelnetHandler). x.logged_commands)
      (if_true h.auth_done (note_command (w ++ 13 ∷ 0 ∷ []) h) h done)
    ∙ ap
        (λ (b : Bool).
          (if b
            then end_command (with_command h (w ++ 13 ∷ 0 ∷ []))
            else with_command h (w ++ 13 ∷ 0 ∷ [])).logged_commands)
        (returns_held w)
    ∙ ap
        (λ (t : Text).
          if ltb 0 (length (h.current_command ++ t))
          then h.logged_commands ++ (h.current_command ++ t) ∷ []
          else h.logged_commands)
        (line_text w k)
    ∙ if_true (ltb 0 (length (h.current_command ++ w)))
        (h.logged_commands ++ (h.current_command ++ w) ∷ []) h.logged_commands some'

module _ (config : TelnetConfig) (h : TelnetHandler) (ps : List Text) (d : Text) (c : ℕ) where
  -- The handler when the password is complete.
  complete : TelnetHandler
  complete = check_password config (at_prompt (more_typed d (after_pieces ps h))) c

  judged : Bool
  judged = config.check_user_pass h.username_state (typed_password h (ps ++ d ∷ []))

  joined_last : (xs : List Text) → joined_pieces (xs ++ d ∷ []) ≡ joined_pieces xs ++ d
  joined_last [] = append-nil d
  joined_last (x ∷ xs) =
      ap (λ (t : Text). x ++ t) (joined_last xs) ∙ sym (append_assoc x (joined_pieces xs) d)

  all_typed :
      (after_pieces ps h).password_state ++ cleaned d
      ≡ h.password_state ++ cleaned (joined_pieces (ps ++ d ∷ []))
  all_typed =
      ap (λ (t : Text). t ++ cleaned d) (pieces_password ps h)
      ∙ append_assoc h.password_state (cleaned (joined_pieces ps)) (cleaned d)
      ∙ ap (λ (t : Text). h.password_state ++ t)
          (sym (ap cleaned (joined_last ps) ∙ cleaned-append (joined_pieces ps) d))

  judged_here :
      config.check_user_pass
        (after_pieces ps h).username_state
        (process_backspaces ((after_pieces ps h).password_state ++ cleaned d))
      ≡ judged
  unfolding judged
  judged_here =
      ap₂ config.check_user_pass
        (pieces_keep (λ (x : TelnetHandler). x.username_state) ps h (λ d' h'. refl))
        (ap process_backspaces all_typed)

  complete_done : complete.auth_done ≡ judged
  unfolding complete check_password
  complete_done = ap (λ b. b || false) judged_here ∙ or_nothing judged
    where
      or_nothing : (b : Bool) → (b || false) ≡ b
      or_nothing true = refl
      or_nothing false = refl

  complete_data : complete.current_data ≡ password_sent config judged c
  unfolding complete check_password
  complete_data = ap (λ b. password_sent config b c) judged_here

  complete_sends : complete.send_data ≡ true
  unfolding complete check_password
  complete_sends = refl

  complete_passed : passed_on complete ≡ passed_on h
  unfolding complete check_password
  complete_passed = pieces_keep passed_on ps h (λ d' h'. refl)

  complete_frontend : complete.to_frontend ≡ h.to_frontend
  unfolding complete check_password
  complete_frontend = pieces_keep (λ (x : TelnetHandler). x.to_frontend) ps h (λ d' h'. refl)

  sends : Text
  sends = password_sent config judged c

  something : ltb 0 (length sends) ≡ true
  unfolding sends
  something =
      more_than_none (if judged then config.backend_password else config.backend_password ++ fake)
        13 (encode_char c)

  finished : finish_frontend d complete ≡ send_backend sends (noted d complete)
  unfolding sends
  finished =
      finish_sends d (password_sent config judged c) complete complete_sends complete_data something

-- The password that lets an attacker in is logged as a command. A handler that spoofs the
-- authentication is at the prompt for a password, with no user name to be typed and nothing of the
-- negotiation to be passed on (`prePasswordData` is not set); no piece has a user name of the negotiation, and only the last one
-- holds a carriage return, with a zero behind it, at its end. If the check lets the attacker in, the
-- text of the last piece, behind what was waiting of a command, is added to the log of commands, if
-- it is not empty.
pub password_logged :
    (config : TelnetConfig) (h : TelnetHandler) (ps : List Text) (w : Text)
    → config.spoof_authentication_data ≡ true
    → All (Piece config) ps
    → Plain config (w ++ 13 ∷ 0 ∷ [])
    → Word 13 w
    → ltb 0 (length (h.current_command ++ w)) ≡ true
    → config.check_user_pass h.username_state (typed_password h (ps ++ (w ++ 13 ∷ 0 ∷ []) ∷ []))
      ≡ true
    → (h' : TelnetHandler) × (feed_frontend config (ps ++ (w ++ 13 ∷ 0 ∷ []) ∷ []) (at_prompt h)
        ≡ returns h')
      × (h'.logged_commands ≡ h.logged_commands ++ (h.current_command ++ w) ∷ [])
unfolding complete judged sends check_password
password_logged config h ps w on ws plain k some' good =
    let d = w ++ 13 ∷ 0 ∷ [] in
    let x = complete config h ps d 0 in
    let same = pieces_keep (λ (y : TelnetHandler). y.current_command) ps h (λ d' h'. refl) in
    (
      send_backend (sends config h ps d 0) (noted d x),
      pieces_typed config ps d h on ws
          ∙ fed_one config d (at_prompt (after_pieces ps h)) (finish_frontend d x) (
              last_typed config d (after_pieces ps h) 0 on plain (returns_held w) (zero_behind w k))
          ∙ ap returns (finished config h ps d 0),
      send_keep (λ (y : TelnetHandler). y.logged_commands) (sends config h ps d 0) (noted d x)
            (λ xs ys es h'. refl)
          ∙ command_noted w x k (complete_done config h ps d 0 ∙ good)
              (ap (λ (t : Text). ltb 0 (length (t ++ w))) same ∙ some')
          ∙ ap₂ (λ (l : List Text) (t : Text). l ++ (t ++ w) ∷ [])
              (pieces_keep (λ (y : TelnetHandler). y.logged_commands) ps h (λ d' h'. refl)) same,
    )

-- A handler that spoofs the authentication is at the prompt for a password, no user name is to be
-- typed, and nothing of the negotiation is to be passed on: `prePasswordData` is not set, as it is
-- behind a prompt with the telnet option of echoing, after which the first three bytes that come go
-- to the backend. The handler gets the pieces of a password, none with a user name of the
-- negotiation, of which only the last one holds a carriage return, with a byte behind it. None of it
-- is passed on and nothing is echoed. The text of all pieces, without control characters and with
-- deletions done, is checked with the user name, and one text goes to the backend: its own
-- password, with the end of the line, if the check lets the attacker in, and otherwise a wrong one.
pub password_checked :
    (config : TelnetConfig) (h : TelnetHandler) (ps : List Text) (d : Text) (c : ℕ)
    → config.spoof_authentication_data ≡ true
    → All (Piece config) ps
    → Plain config d
    → holds_byte 13 d ≡ true
    → after_return d ≡ some c
    → (h' : TelnetHandler) × (feed_frontend config (ps ++ d ∷ []) (at_prompt h) ≡ returns h')
      × (h'.auth_done ≡ config.check_user_pass h.username_state (typed_password h (ps ++ d ∷ [])))
      × (h'.to_frontend ≡ h.to_frontend)
      × (h'.to_backend ++ h'.backend_buffer
          ≡ (h.to_backend ++ h.backend_buffer)
            ++ password_sent config
                (config.check_user_pass h.username_state (typed_password h (ps ++ d ∷ [])))
                c
              ∷ [])
unfolding judged sends complete
password_checked config h ps d c on w plain closed at = (
  send_backend (sends config h ps d c) (noted d (complete config h ps d c)),
  pieces_typed config ps d h on w ∙ last_fed ∙ ap returns (finished config h ps d c),
  send_keep (λ (x : TelnetHandler). x.auth_done) (sends config h ps d c)
        (noted d (complete config h ps d c)) (λ xs ys es h'. refl)
      ∙ noted_keep (λ (x : TelnetHandler). x.auth_done) d (complete config h ps d c)
          (λ x xs h'. refl)
      ∙ (complete_done config h ps d c),
  send_keep (λ (x : TelnetHandler). x.to_frontend) (sends config h ps d c)
        (noted d (complete config h ps d c)) (λ xs ys es h'. refl)
      ∙ noted_keep (λ (x : TelnetHandler). x.to_frontend) d (complete config h ps d c)
          (λ x xs h'. refl)
      ∙ (complete_frontend config h ps d c),
  send_backend-passed_on (sends config h ps d c) (noted d (complete config h ps d c))
      ∙ ap (λ (xs : List Text). xs ++ (sends config h ps d c) ∷ [])
          (noted_keep passed_on d (complete config h ps d c) (λ x xs h'. refl)
            ∙ (complete_passed config h ps d c)),
)
  where
    last_fed :
        feed_frontend config (d ∷ []) (at_prompt (after_pieces ps h))
        ≡ returns (finish_frontend d (complete config h ps d c))
    last_fed =
        fed_one config d (at_prompt (after_pieces ps h))
          (finish_frontend d (complete config h ps d c))
          (last_typed config d (after_pieces ps h) c on plain closed at)
