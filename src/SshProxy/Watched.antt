-- ===== src/SshProxy/Watched.antt =====
-- Runs of the SFTP watcher.
use vo_iphoneypot.Common.{Text, [], arith, codes, negsuc, some, ◌++◌, ◌∷◌, ◌≡◌}
use vo_iphoneypot.Packing.{be32}
use vo_iphoneypot.SshProxy.Pieces.{feed_pieces, feed_together, no_size}
use vo_iphoneypot.SshProxy.Reassembly.{feed, feed_more, no_packet}
use vo_iphoneypot.SshProxy.Sftp.{Sftp, init}

abbrev etc : Text
etc = codes "/etc"

abbrev waiting : Sftp
waiting = record init {
  id = some 7;
  file_handle = some (codes "h1");
  the_file = some (codes "data");
}

feed_pieces_example :
    feed_more ((be32 4 ++ codes "/e") ∷ codes "t" ∷ codes "c" ∷ []) (no_packet, [])
    ≡ some (no_size etc, etc ∷ [])
feed_pieces_example =
    feed_pieces [] (codes "/e") (codes "t" ∷ codes "c" ∷ []) (omega arith, (omega arith, tt))
      (omega arith)

feed_together_example :
    feed (be32 1 ++ (codes "a" ++ (be32 1 ++ codes "b"))) no_packet
    ≡ some (record { data_left = codes "a" ++ (be32 1 ++ codes "b"); packet_size = negsuc 4 }, [])
feed_together_example = feed_together [] (codes "a") (codes "b") (omega arith)
