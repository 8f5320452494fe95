-- ===== src/SshProxy/Examples.antt =====
-- Runs of the terminal watcher.
use vo_iphoneypot.Common.{List, [], arith, codes, false, refl, true, ◌++◌, ◌∷◌}
use vo_iphoneypot.SshProxy.Cursor.{InLineAfter, server_loop-InLine}
use vo_iphoneypot.SshProxy.Editor.{Key, encode_keys, no_line, rubout, typed}
use vo_iphoneypot.SshProxy.Fuel.{Ends, loops_end}
use vo_iphoneypot.SshProxy.Loops.{
  client_loop, client_round, parse_packet, server, server_loop, server_round,
}
use vo_iphoneypot.SshProxy.Term.{init, is_ascii, up_key}
use vo_iphoneypot.SshProxy.Typing.{Entered, parse_packet-edit}

abbrev keys : List Key
keys = typed 108 ∷ typed 120 ∷ rubout ∷ typed 115 ∷ []

parse_packet-edit_example :
    Entered (parse_packet server (encode_keys keys ++ 0x0d ∷ []) (init true)) [] (codes "ls")
unfolding is_ascii
parse_packet-edit_example =
    parse_packet-edit keys (init true) no_line
      (
        (omega arith, omega arith),
        ((omega arith, omega arith), (tt, ((omega arith, omega arith), tt))),
      )
      (refl, refl) refl

loops_end_example :
    Ends server_round up_key (init false) (server_loop 3 up_key (init false))
    × Ends client_round up_key (init false) (client_loop 3 up_key (init false))
loops_end_example = loops_end 3 up_key (init false) (omega arith)

server_loop-InLine_example : InLineAfter (server_loop 2 (0x61 ∷ 0x08 ∷ []) (init true))
server_loop-InLine_example =
    server_loop-InLine 2 (0x61 ∷ 0x08 ∷ []) (init true) (no_line, (refl, refl))
