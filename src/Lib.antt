-- ===== src/Lib.antt =====
-- A verification of the VoIP honeypot and of the SSH and Telnet honeypot (cowrie) that it runs.
--
-- The program. Attackers log in over SSH or Telnet. cowrie/src/cowrie/core/auth.py decides who
-- gets in. In proxy mode the session is served by a virtual machine of the backend pool
-- (cowrie/src/backend_pool): a producer thread creates guests, checks them and destroys them,
-- and cowrie, by a binary protocol over TCP, requests a guest for an address and gives it back.
-- With NAT, the pool opens listeners that pass bytes to the guest. The SSH proxy
-- (cowrie/src/cowrie/ssh_proxy) looks at the bytes between the attacker and the guest, and logs
-- what was typed and which files were transferred. Without a proxy, a fake shell works on a fake
-- file system (cowrie/src/cowrie/shell). A server of its own (src/sip_server.py) answers SIP
-- over UDP and TCP, and keeps a session for each address that sends datagrams.
--
-- Files, with the source of each:
--   Common: names of the libraries passed on; tests on numbers (Tests), lists over the native
--   numbers (Lists), Python's integers (Int), texts and byte strings as lists of numbers
--   (Texts).
--   Packing: the formats of `struct` that the protocols use, and int.from_bytes.
--   Pool.Guest, Pool.State: a guest and the fields of PoolService
--   (backend_pool/pool_service.py). Pool.Producer: producer_loop and the sections it is made of.
--   Pool.Consumer: request_vm, free_vm, reuse_vm and the choice of a guest. Pool.Service:
--   start_pool, stop_pool, restart_pool. Pool.Steps: a history, as a relation whose steps are
--   the sections that hold the lock, of the single producer and of any number of consumers, in
--   any order. A round of the creation loop holds no lock, and is taken as one step all the
--   same: the consumers change no address of a guest, but a start of the pool in the middle of a
--   round is not modelled.
--   Pool.Backend: get_mac_ip, create_guest, destroy_guest and the sweep of
--   backend_pool/libvirt/backend_service.py, and nmap_port of backend_pool/util.py.
--   Pool.Nat: backend_pool/nat.py. Pool.Server: backend_pool/pool_server.py. Pool.Client:
--   cowrie/pool_interface/client.py.
--   Pool.Laws: what is proved of the service, a module per subject. Pool.Wire: of the two ends
--   of the protocol. Pool.Nat.Leak and Pool.Nat.Forward: of the NAT service.
--   Auth.UserDb and Auth.Random: UserDB and AuthRandom of cowrie/core/auth.py. Auth.Policy,
--   Auth.Cache, Auth.Attempts, Auth.Turns: what is proved of them.
--   SshProxy.Term, SshProxy.Loops: Term of cowrie/ssh_proxy/protocols/term.py. SshProxy.Editor:
--   the line editor that it follows. The other modules of SshProxy: what is proved of it.
--   SshProxy.BaseProtocol, SshProxy.Reassembly, SshProxy.Sftp: base_protocol.py and sftp.py of
--   cowrie/ssh_proxy/protocols. SshProxy.Pieces and SshProxy.Transfers: what is proved of them.
--   Strings: split, join, strip and rstrip of Python's strings.
--   Shell.Paths: resolve_path of cowrie/shell/fs.py. Shell.Normal and Shell.Resolved: what is
--   proved of it.
--   Shell.Objects: the entries of the fake file system, by their addresses, and the comparison
--   of two entries. Shell.Lookup: getfile, get_path and the tests. Shell.Names: dirname,
--   basename and the special paths. Shell.Files: mkfile, mkdir, mkdir2, rmdir, remove, rename.
--   Shell.Attributes: utime, chmod, chown, readlink, stat, update_size, the real files,
--   file_contents and wildcards. All are of cowrie/shell/fs.py.
--   Shell.Plain, Shell.Split, Shell.Agree: lookup as a walk down a tree. Shell.Update,
--   Shell.Replaced: what a change of one directory does to the map from paths to entries.
--   Shell.Dropped, Shell.Made, Shell.Grown, Shell.Mkfile, Shell.Mkdir: of new entries.
--   Shell.Removed, Shell.Forgets, Shell.Remove: of entries that go. Shell.Followed: of links.
--   Shell.Commands: cd, pwd, mkdir, touch, and rm behind the parsing of its options, of
--   cowrie/commands/fs.py. Shell.Rmdir: rmdir, and what is proved of it. Shell.Rm,
--   Shell.CameAndWent, Shell.TouchRm: what is proved of touch and rm.
--   Shell.Passwd: cowrie/shell/pwd.py. Shell.Users: what is proved of it.
--   Telnet.Bytes, Telnet.Handler: cowrie/telnet_proxy/handler.py. Telnet.Typed, Telnet.Checked,
--   Telnet.Password: what becomes of a password. Telnet.Ttylog: cowrie/core/ttylog.py.
--   Telnet.Hashed: the hash of a log.
--   Sip.Udp: the sessions of UDPServer in src/sip_server.py. Sip.OneEach, Sip.Idle and
--   Sip.Sticky: what is proved of them.
--   Sip.Message, Sip.Session, Sip.Calls: src/sipsession.py, and ACK, BYE, CANCEL, REGISTER and
--   RESPONSE of src/voipclient.py. Sip.Headers: get_headers. Sip.Invite: INVITE and its digest.
--   Sip.Worker: OPTIONS and worker. Sip.Secret, Sip.OnlyInvite, Sip.Reported, Sip.RoundTrip:
--   what is proved of them.
--   Every module Examples or Runs, and SshProxy.Watched: runs at concrete inputs.
--
-- State is passed explicitly: a method is a function from a record to a record. An exception is
-- none, or a result of its own where the state at the time matters. Where methods change objects
-- that others refer to, as the entries of the file system, the objects have addresses. A lock is
-- held for a whole step; what happens in between is another step.
--
-- Outside of the program, and so an argument: libvirt, nmap, random numbers, the clock and the
-- configuration (the World of the backend), UTF-8 (a codec that takes back what it gave),
-- regular expressions (Search), str of a byte string, the number drawn by randint, the minutes
-- that relativedelta counts, uuids, hashes, the matching of wildcards, and the files of the
-- host.
--
-- Bounds. get_mac_ip tries 500 times, as the code does. A loop over a buffer runs on fuel, the
-- length of the buffer, which is enough since every round takes a byte or more; the loops over
-- guests are structural. A lookup of a path runs on the number of calls that Python allows,
-- since each link takes one, and running out is RecursionError; a walk without links needs one.
-- Numbers are unbounded, as Python's are, but in the formats of `struct`, which refuse numbers
-- that are too large. A pointer of the terminal watcher may be negative, and slices count from
-- the end then. Python 3 is meant throughout; where its bytes and str differ in a comparison,
-- the comparison is false.
--
-- Not modelled: logging, and the XML and images handed to libvirt; front ends that subclass
-- twisted; output plugins; OSfooler, a copy of another project. Of the file system, what works
-- on descriptors of the host; of the Telnet proxy, the renaming of its log; of SIP, the TCP
-- server and the sockets. Of the shell, only the six commands named above: the parser of command
-- lines and the commands that write the text of imitated programs are left out, as are the other
-- protocols of the SSH proxy.
pub mod Auth
pub mod Common
pub mod Packing
pub mod Pool
pub mod Shell
pub mod Sip
pub mod SshProxy
pub mod Strings
pub mod Telnet
