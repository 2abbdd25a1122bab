-- ===== src/Lib.antt =====
-- A model of sencd, a tunnel of IP packets over encrypted datagrams, and theorems about it.
--
-- The program. A client and a server speak over a stream socket in control packets
-- (src/shared/packet.c). With them they run a handshake (src/sessions/session.c, messages in
-- src/shared/auth.h): each side signs the server's nonce with its own ephemeral key, and both derive
-- session keys (src/shared/security/crypto.c over libsodium). The server keeps its sessions in a
-- table (src/sessions/session_manager.c). IP packets from a TUN device are then compressed
-- (src/tunnel/tunnel_compress.c over zstd), encrypted and framed (src/tunnel/tunnel_packet.c), and
-- sent as datagrams; the other end undoes this and writes to its own TUN device.
--
-- The files.
--   Base      shared names: tests, lists, integers, bytes of numbers, and the control flow of C
--             functions that return early (M, with do blocks).
--   Platform  what is not in the repository, as records of operations and records of laws: Os for
--             the calls of libc and the system, Stdin for its standard input, Sodium and Random for
--             libsodium, Zstd. A world W is passed through every call; malloc, send, recv and the
--             rest may fail at any time.
--   Packet    src/shared/packet.c: PACKET is Packet, packet_send is packet_send, and so on. Stream
--             has the two loops, Frame a packet's bytes, Send, Receive and Transfer whole packets.
--   Crypto    src/shared/security/crypto.c. Nonce has nonces and key exchange, Identity key files.
--   Tunnel    src/tunnel: Frame, Compress, Udp; Pipeline is the path of one packet in the threads of
--             src/commands/client_env.c and src/sessions/session_manager.c.
--   Session   src/sessions/session.c: SESSION_T is Session, each handshake function is the function
--             of its name on a session and a world. State has the session itself, Auth the messages,
--             Steps what single steps keep, Server and Client the two sides. Phases cuts both handshakes at the points where
--             a side waits for the other, Link has two connected sockets, and Complete runs both
--             sides against each other. Keeps and Sockets say what the handshakes leave alone.
--   Manager   src/sessions/session_manager.c: the table is a list of 1024 slots, whose index stands
--             for the pointer in the slot. Slots has the loops over it, Connect what opens and
--             closes, Start session_manager_init, Rounds the rounds of its two threads and Traffic
--             what they do with a packet; Count, Removal, Lookup, Admission, Forward, Deliver,
--             Trusted, Held and Found have the theorems.
--   Endpoint  src/server/server_core.c (Server) and src/client/client_core.c (Client); Descriptors and
--             Connections say which descriptors they and Tunnel.Udp leave open. Device is
--             src/platform/linux/tun.c, over the kernel's interface requests (Interfaces).
--   Command   src/commands: Server has the rounds of server_listener, the start and the end of
--             server_env.c, Server/Launch what the start leaves, Server/Reach its rounds and the
--             manager's as steps in any order, and Server/Stop what its end closes. Shell has its
--             shell and commands, Idle src/server/serverinit/idle.c, which reads in the same input,
--             Shell/Script what is typed into them, and Shell/Ends how that ends. Client has the start
--             of client_env.c, Client/Steps the rounds of its threads and its commands, as steps in any
--             order, and Client/Race the statements with which two of the client's threads tear the
--             session down, as turns in any order; Client/Program is its start from the arguments and
--             Client/Ends what the whole leaves open. Entry has main/client.c and main/server.c, Logs
--             src/debug/logs.c. The two Nonces follow the nonces of the senders, and Carries follows a
--             packet from one device to the other and back.
--   Sim       a concrete platform that keeps the laws. Examples has the theorems at concrete inputs.
--
-- Conventions. A result 0 is `some`, any other result is `none`. A byte string is the list of its
-- bytes, an out buffer and its length are one list. Unsigned integers wrap where the source can
-- exceed their width: tx_nonce at 2^64, the octet at 2^8. Integers that travel in host order are
-- little-endian. The handshake keeps the session as it is at the point of the return.
--
-- Fuel. send_loop and recv_loop run on as many rounds as there are bytes to move. Every round moves
-- one byte at least or returns an error, so the rounds never run out; send_all-total and
-- recv_all-total are the proofs. The server's shell and the idle mode, which may never end, have a
-- number of rounds each: with as many as have been typed the shell ends, and where it hangs it does
-- so whatever the numbers.
--
-- Not modelled. Printing and freeing, which no result depends on. The threads of the session manager
-- and of the two environments are modelled from the return of select or of a blocking call on. Each
-- such round, each command and each function of the session manager is one step, and an
-- interleaving is a sequence of steps; only where the client's shell and its receiver tear the same
-- session down is a single statement the step. What else another thread does in the middle of a
-- round, as between finding a session and writing to it, is left out. So are the creation of
-- threads and their buffers, the lock, the terminal's modes (the clear command, the raw mode of the
-- idle mode), the texts that the entry points print, and the unfinished
-- src/platform/windows/tun.c.
pub mod Base
pub mod Platform
pub mod Packet
pub mod Crypto
pub mod Tunnel
pub mod Session
pub mod Manager
pub mod Endpoint
pub mod Command
pub mod Sim
pub mod Examples
