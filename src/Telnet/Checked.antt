-- ===== src/Telnet/Checked.antt =====
-- A password that comes in pieces, in cowrie/src/cowrie/telnet_proxy/handler.py.
use vo_iphoneypot.Common.{
  All, Bool, List, Text, [], ap, append-nil, append_assoc, ap₂, arith, drop, false, if_both,
  if◌then◌else◌, length, ltb, refl, sym, true, ℕ, ◌&&◌, ◌++◌, ◌∙◌, ◌∷◌, ◌≡◌,
}
use vo_iphoneypot.Telnet.Bytes.{
  encode_char, holds_byte, process_backspaces, remove_all, replace, replace_from,
}
use vo_iphoneypot.Telnet.Handler.{
  TelnetConfig, TelnetHandler, TelnetStep, TtyEntry, and_next, append_buffer, end_command, fake,
  finish_frontend, note_command, send_backend, telnet_log_tty, tty_input, write_packets,
}
use vo_iphoneypot.Telnet.Typed.{
  Plain, at_prompt, cleaned, cleaned-append, feed_frontend, more_typed, piece_typed,
}

abbrev pub joined_pieces : List Text → Text
joined_pieces [] = []
joined_pieces (d ∷ ds) = d ++ joined_pieces ds

-- A piece that does not end the password.
abbrev pub Piece : TelnetConfig → Text → Type 0
Piece config d = Plain config d × (holds_byte 13 d ≡ false)

-- The password that is checked.
abbrev pub typed_password : TelnetHandler → List Text → Text
typed_password h ds = process_backspaces (h.password_state ++ cleaned (joined_pieces ds))

-- What the backend gets in its place.
abbrev pub password_sent : TelnetConfig → Bool → ℕ → Text
password_sent config good c =
    (if good then config.backend_password else config.backend_password ++ fake)
    ++ 13 ∷ encode_char c

-- All that was passed to the backend, or waits for it.
abbrev pub passed_on : TelnetHandler → List Text
passed_on h = h.to_backend ++ h.backend_buffer

packets_written :
    (d : Text) (ps : List Text) (h : TelnetHandler)
    → (write_packets d ps h).to_backend ≡ h.to_backend ++ ps
unfolding write_packets
packets_written d [] h = sym (append-nil h.to_backend)
packets_written d (p ∷ ps) h =
    packets_written d ps (record h {
      to_backend = h.to_backend ++ p ∷ [];
      tty =
          telnet_log_tty (h.ttylog_enabled && h.auth_started)
            (tty_input (replace (0 ∷ []) (10 ∷ []) d)) h.tty;
      backend_buffer = drop 1 h.backend_buffer;
    })
    ∙ append_assoc h.to_backend (p ∷ []) ps

written_buffer :
    (d : Text) (ps : List Text) (h : TelnetHandler)
    → h.backend_buffer ≡ ps
    → (write_packets d ps h).backend_buffer ≡ []
unfolding write_packets
written_buffer d [] h e = e
written_buffer d (p ∷ ps) h e =
    written_buffer d ps
      (record h {
        to_backend = h.to_backend ++ p ∷ [];
        tty =
            telnet_log_tty (h.ttylog_enabled && h.auth_started)
              (tty_input (replace (0 ∷ []) (10 ∷ []) d)) h.tty;
        backend_buffer = drop 1 h.backend_buffer;
      })
      (ap (drop 1) e)

passed_later :
    (b : Bool) (d : Text) (h : TelnetHandler)
    → passed_on (if b then write_packets d h.backend_buffer h else h) ≡ passed_on h
passed_later true d h =
    ap₂ (λ (x y : List Text). x ++ y) (packets_written d h.backend_buffer h)
      (written_buffer d h.backend_buffer h refl)
    ∙ append-nil (h.to_backend ++ h.backend_buffer)
passed_later false d h = refl

-- What is sent to the backend goes behind all that was sent before, whether the backend is
-- connected or not.
pub send_backend-passed_on :
    (d : Text) (h : TelnetHandler) → passed_on (send_backend d h) ≡ passed_on h ++ d ∷ []
unfolding send_backend append_buffer
send_backend-passed_on d h =
    passed_later h.client_set d (append_buffer d h)
    ∙ sym (append_assoc h.to_backend h.backend_buffer (d ∷ []))

-- The handler after the pieces.
abbrev pub after_pieces : List Text → TelnetHandler → TelnetHandler
after_pieces [] h = h
after_pieces (d ∷ ds) h = after_pieces ds (more_typed d h)

pub pieces_typed :
    (config : TelnetConfig) (ds : List Text) (d : Text) (h : TelnetHandler)
    → config.spoof_authentication_data ≡ true
    → All (Piece config) ds
    → feed_frontend config (ds ++ d ∷ []) (at_prompt h)
      ≡ feed_frontend config (d ∷ []) (at_prompt (after_pieces ds h))
unfolding feed_frontend
pieces_typed config [] d h on w = refl
pieces_typed config (p ∷ ds) d h on w =
    ap (λ (s : TelnetStep). and_next s (feed_frontend config (ds ++ d ∷ [])))
      (piece_typed config p h on w.0.0 w.0.1)
    ∙ pieces_typed config ds d (more_typed p h) on w.1

pub pieces_password :
    (ds : List Text) (h : TelnetHandler)
    → (after_pieces ds h).password_state ≡ h.password_state ++ cleaned (joined_pieces ds)
unfolding remove_all replace_from
pieces_password [] h = sym (append-nil h.password_state)
pieces_password (d ∷ ds) h =
    pieces_password ds (more_typed d h)
    ∙ append_assoc h.password_state (cleaned d) (cleaned (joined_pieces ds))
    ∙ ap (λ (x : Text). h.password_state ++ x) (sym (cleaned-append d (joined_pieces ds)))

-- A field that the pieces do not change.
pub pieces_keep {ℓ} :
    {A : Type ℓ} (f : TelnetHandler → A) (ds : List Text) (h : TelnetHandler)
    → ((d : Text) (h' : TelnetHandler) → f (more_typed d h') ≡ f h')
    → f (after_pieces ds h) ≡ f h
pieces_keep f [] h k = refl
pieces_keep f (d ∷ ds) h k = pieces_keep f ds (more_typed d h) k ∙ k d h

abbrev pub noted : Text → TelnetHandler → TelnetHandler
noted d h = if h.auth_done then note_command d h else h

-- A field that the log of commands does not change.
pub noted_keep {ℓ} :
    {A : Type ℓ} (f : TelnetHandler → A) (d : Text) (h : TelnetHandler)
    → ((x : Text) (xs : List Text) (h' : TelnetHandler)
        → f (record h' { current_command = x; logged_commands = xs }) ≡ f h')
    → f (noted d h) ≡ f h
unfolding note_command end_command
noted_keep f d h k =
    let command = h.current_command ++ replace (13 ∷ 10 ∷ []) [] (replace (13 ∷ 0 ∷ []) [] d) in
    let logged =
      if ltb 0 (length command) then h.logged_commands ++ command ∷ [] else h.logged_commands in
    if_both (λ (x : TelnetHandler). f x ≡ f h) h.auth_done (note_command d h) h
      (if_both (λ (x : TelnetHandler). f x ≡ f h) (holds_byte 13 d)
        (record h { current_command = []; logged_commands = logged })
        (record h { current_command = command; logged_commands = h.logged_commands })
        (k [] logged h) (k command h.logged_commands h))
      refl

write_keep {ℓ} :
    {A : Type ℓ} (f : TelnetHandler → A) (d : Text) (ps : List Text) (h : TelnetHandler)
    → ((xs ys : List Text) (es : List TtyEntry) (h' : TelnetHandler)
        → f (record h' { to_backend = xs; backend_buffer = ys; tty = es }) ≡ f h')
    → f (write_packets d ps h) ≡ f h
unfolding write_packets
write_keep f d [] h k = refl
write_keep f d (p ∷ ps) h k =
    write_keep f d ps
      (record h {
        to_backend = h.to_backend ++ p ∷ [];
        tty =
            telnet_log_tty (h.ttylog_enabled && h.auth_started)
              (tty_input (replace (0 ∷ []) (10 ∷ []) d)) h.tty;
        backend_buffer = drop 1 h.backend_buffer;
      })
      k
    ∙ k (h.to_backend ++ p ∷ []) (drop 1 h.backend_buffer)
        (telnet_log_tty (h.ttylog_enabled && h.auth_started)
          (tty_input (replace (0 ∷ []) (10 ∷ []) d)) h.tty)
        h

-- A field that sending does not change.
pub send_keep {ℓ} :
    {A : Type ℓ} (f : TelnetHandler → A) (d : Text) (h : TelnetHandler)
    → ((xs ys : List Text) (es : List TtyEntry) (h' : TelnetHandler)
        → f (record h' { to_backend = xs; backend_buffer = ys; tty = es }) ≡ f h')
    → f (send_backend d h) ≡ f h
unfolding send_backend append_buffer
send_keep f d h k =
    let h' = append_buffer d h in
    if_both (λ (x : TelnetHandler). f x ≡ f h) h.client_set (write_packets d h'.backend_buffer h')
      h' (write_keep f d h'.backend_buffer h' k ∙ k h.to_backend h'.backend_buffer h.tty h)
      (k h.to_backend h'.backend_buffer h.tty h)

pub finish_sends :
    (d t : Text) (h : TelnetHandler)
    → h.send_data ≡ true
    → h.current_data ≡ t
    → ltb 0 (length t) ≡ true
    → finish_frontend d h ≡ send_backend t (noted d h)
unfolding finish_frontend
finish_sends d t h hs hc some' =
    let s = noted_keep (λ (x : TelnetHandler). x.send_data) d h (λ x xs h'. refl) ∙ hs in
    let c = noted_keep (λ (x : TelnetHandler). x.current_data) d h (λ x xs h'. refl) ∙ hc in
    ap (λ (b : Bool). if b then send_backend (noted d h).current_data (noted d h) else noted d h)
      (ap₂ (λ (x : Bool) (y : Text). x && ltb 0 (length y)) s c ∙ some')
    ∙ ap (λ (x : Text). send_backend x (noted d h)) c

pub more_than_none : (s : Text) (c : ℕ) (t : Text) → ltb 0 (length (s ++ c ∷ t)) ≡ true
more_than_none [] c t = ground arith
more_than_none (a ∷ s) c t = ground arith
