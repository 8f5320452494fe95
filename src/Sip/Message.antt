-- ===== src/Sip/Message.antt =====
-- Headers as a dictionary, and the lines of a SIP message.
use vo_iphoneypot.Common.{
  List, Option, Text, [], codes, if◌then◌else◌, none, some, text_eq, ◌++◌, ◌∷◌,
}

abbrev pub Headers : Type 0
Headers = List (Text × Text)

-- `headers[name]`; `none` is KeyError.
unfoldable pub header : Text → Headers → Option Text
header name [] = none
header name ((k, v) ∷ d) = if text_eq k name then some v else header name d

abbrev pub crlf : Text
crlf = 13 ∷ 10 ∷ []

-- `'\r\n'.join(lines)`
unfoldable pub join_lines : List Text → Text
join_lines [] = []
join_lines (l ∷ []) = l
join_lines (l ∷ m ∷ ms) = l ++ crlf ++ join_lines (m ∷ ms)

-- What config.json holds; numbers are written out.
pub record SipConfig : Type 0 where
  pub user : Text
  pub ip : Text
  pub port : Text
  pub useragent : Text
  pub secret : Text
  pub bad_answers : Text → Option Text

-- `"{0} <sip:{0}@{1}>".format(user, ip)`
abbrev pub sip_address : Text → Text → Text
sip_address user ip = user ++ codes " <sip:" ++ user ++ codes "@" ++ ip ++ codes ">"
