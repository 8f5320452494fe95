-- ===== src/Sip/Secret.antt =====
-- Only an INVITE that knows the secret makes a call, in src/voipclient.py.
use mathlib.Core.Option.{none-ne-some, some-injective}
use mathlib.Core.Path.{subst}
use vo_iphoneypot.Common.{
  Bool, Bool-cases, List, Option, Text, [], ap, codes, false, if_both, if◌then◌else◌, inl, inr,
  none, refl, some, sym, text_eq, text_eq→eq, true, ◌||◌, ◌∙◌, ◌∷◌, ◌≡◌,
}
use vo_iphoneypot.Packing.{◌>>=◌}
use vo_iphoneypot.Sip.Calls.{
  Answer, VoipClient, ack_call, add_report, answer_if, answer_lines, bad_answer, bad_lines,
  bad_lines_of, bye_call, call_of, cancel_call, cancel_with, cancelled, delete_call, find_call,
  put_call, text_item,
}
use vo_iphoneypot.Sip.Message.{Headers, SipConfig, header, join_lines}
use vo_iphoneypot.Sip.Session.{SipSession, handle_bye}

-- The call is not in the table.
abbrev pub Unknown : Text → VoipClient → Type 0
Unknown id c = call_of id c.calls ≡ none

if_none :
    (b : Bool) (s : SipSession) (o : Option SipSession)
    → (if b then some s else o) ≡ none
    → (b ≡ false) × (o ≡ none)
if_none true s o h = absurd (none-ne-some s (sym h))
if_none false s o h = (refl, h)

put_known :
    (id k : Text) (s : SipSession) (d : List (Text × SipSession))
    → call_of id d ≡ none
    → text_eq k id ≡ false
    → call_of id (put_call k s d) ≡ none
unfolding call_of put_call
put_known id k s [] h other = rw other refl
put_known id k s ((k', v) ∷ d) h other =
    let (apart, rest) = if_none (text_eq k' id) v (call_of id d) h in
    elim (Bool-cases (text_eq k' k)) [
      | inl same ↦ rw same (rw (apart, rest) refl)
      | inr differs ↦ rw differs (rw (apart, put_known id k s d rest other) refl)
    ]

delete_unknown :
    (id k : Text) (d : List (Text × SipSession))
    → call_of id d ≡ none
    → call_of id (delete_call k d) ≡ none
unfolding call_of delete_call
delete_unknown id k [] h = refl
delete_unknown id k ((k', v) ∷ d) h =
    let (apart, rest) = if_none (text_eq k' id) v (call_of id d) h in
    elim (Bool-cases (text_eq k' k)) [
      | inl same ↦ rw same rest
      | inr differs ↦ rw differs (rw (apart, delete_unknown id k d rest) refl)
    ]

apart_names :
    (id k : Text) (s : SipSession) (d : List (Text × SipSession))
    → call_of id d ≡ none
    → call_of k d ≡ some s
    → text_eq k id ≡ false
apart_names id k s d h there = elim (Bool-cases (text_eq k id)) [
  | inl same ↦
      absurd (
        none-ne-some s
          (sym h ∙ ap (λ (x : Text). call_of x d) (sym (text_eq→eq k id same)) ∙ there))
  | inr differs ↦ differs
]

pub answer-Unknown :
    (id input : Text) (c : VoipClient) (o : Option Text)
    → Unknown id c
    → Unknown id (answer_if input c o).1
unfolding add_report
answer-Unknown id input c none h = h
answer-Unknown id input c (some t) h = h

pub bad-Unknown :
    (config : SipConfig) (id message : Text) (headers : Headers) (code : Text) (c : VoipClient)
    → Unknown id c
    → Unknown id (bad_answer config message headers code c).1
unfolding bad_answer
bad-Unknown config id message headers code c h =
    answer-Unknown id message c (bad_lines config headers code c) h

pub of_bind {ℓ κ} :
    {A : Type ℓ} {B : Type κ} (o : Option A) (f : A → Option B) (b : B)
    → (o >>= f) ≡ some b
    → (a : A) × (o ≡ some a) × (f a ≡ some b)
of_bind none f b h = absurd (none-ne-some b h)
of_bind (some a) f b h = (a, refl, h)

pub find_call-some :
    (headers : Headers) (c : VoipClient) (k : Text) (s : SipSession)
    → find_call headers c ≡ some (k, s)
    → call_of k c.calls ≡ some s
unfolding find_call
find_call-some headers c k s h =
    let (i, at, rest) =
      of_bind (header (codes "Call-ID") headers) (λ i. call_of i c.calls >>= λ v. some (i, v))
        (k, s) h in
    let (v, there, same) = of_bind (call_of i c.calls) (λ v. some (i, v)) (k, s) rest in
    let pair = some-injective (i, v) (k, s) same in
    subst (λ (x : Text). call_of x c.calls ≡ some s) (ap (λ p. p.0) pair)
      (there ∙ ap (λ p. some p.1) pair)

pub byed-Unknown :
    (config : SipConfig) (id message : Text) (headers : Headers) (c : VoipClient)
    (o : Option (Text × SipSession))
    → find_call headers c ≡ o
    → Unknown id c
    → Unknown id (bye_call config headers message c o).1
unfolding bye_call add_report
byed-Unknown config id message headers c none e h =
    bad-Unknown config id message headers (codes "481") c h
byed-Unknown config id message headers c (some (k, s)) e h =
    put_known id k (handle_bye config s) c.calls h
      (apart_names id k s c.calls h (find_call-some headers c k s e))

cancelled-Unknown :
    (config : SipConfig) (id message : Text) (headers : Headers) (call_id cseq : Text)
    (c : VoipClient)
    → Unknown id c
    → Unknown id (cancelled config message headers call_id cseq c).1
unfolding cancelled
cancelled-Unknown config id message headers call_id cseq c h =
    answer-Unknown id message c
      (header (codes "From") headers >>= λ from.
        some (join_lines (answer_lines config c (codes "200 OK") from call_id cseq)))
      h

cancel_call-Unknown :
    (config : SipConfig) (id message : Text) (headers : Headers) (call_id cseq : Text)
    (c : VoipClient) (o : Option SipSession)
    → Unknown id c
    → Unknown id (cancel_call config headers message call_id cseq c o).1
unfolding cancel_call
cancel_call-Unknown config id message headers call_id cseq c none h =
    bad-Unknown config id message headers (codes "404") c h
cancel_call-Unknown config id message headers call_id cseq c (some s) h =
    cancelled-Unknown config id message headers call_id cseq
      (record c { calls = delete_call call_id c.calls }) (delete_unknown id call_id c.calls h)

pub cancel_with-Unknown :
    (config : SipConfig) (id message : Text) (headers : Headers) (c : VoipClient)
    (o : Option (Text × Text × Text))
    → Unknown id c
    → Unknown id (cancel_with config headers message c o).1
unfolding cancel_with
cancel_with-Unknown config id message headers c none h = h
cancel_with-Unknown config id message headers c (some (call_id, cseq, method)) h =
    if_both (λ (a : Answer). Unknown id a.1)
      (text_eq method (codes "INVITE") || text_eq method (codes "ACK"))
      (cancel_call config headers message call_id cseq c (call_of call_id c.calls))
      (cancelled config message headers call_id cseq c)
      (cancel_call-Unknown config id message headers call_id cseq c (call_of call_id c.calls) h)
      (cancelled-Unknown config id message headers call_id cseq c h)

pub acked-Unknown :
    (config : SipConfig) (id message : Text) (c : VoipClient) (o : Option (Text × SipSession))
    → Unknown id c
    → Unknown id (ack_call config message c o).1
unfolding ack_call add_report
acked-Unknown config id message c none h =
    answer-Unknown id message c (bad_lines_of config (text_item message) (codes "481") c) h
acked-Unknown config id message c (some call') h = h
