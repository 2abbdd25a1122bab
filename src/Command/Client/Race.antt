-- ===== src/Command/Client/Race.antt =====
-- src/commands/client_env.c: the shell's cmd_disconnect and the end of client_receiver when they run
-- at the same time, one statement of session_destroy and of its callers after the other.
pub mod Torn
pub mod Closes
pub mod Statements
pub mod Ends
use sencd.Base.{
  ℕ, zero, suc, ◌+◌, ◌≡◌, refl, Bool, true, false, List, [], ◌∷◌, if◌then◌else◌, no_fd, pos,
}
use sencd.Platform.Os.{Os}
use sencd.Tunnel.Udp.{close_open}
use sencd.Session.{Session, connecting, server, cleared_session}
use sencd.Endpoint.Client.{disconnected}
use sencd.Command.Client.{ClientRun}
use sencd.Command.Client.Steps.{is_up, with_session}

-- Who runs the code.
pub data Ender : Type 0 where
  shell : Ender
  receiver_thread : Ender

-- The next statement: the test of the state, the two closes of session_destroy, the assignments
-- after the second, the memset, the two assignments after it, those to the connection, and
-- `should_exit = 1`.
pub data Stage : Type 0 where
  tests : Stage
  closes_stream : Stage
  closes_datagrams : Stage
  marks_tunnel : Stage
  zeroes : Stage
  resets : Stage
  disconnects : Stage
  exits : Stage
  done : Stage

-- Where the test leads if the session is not established: cmd_disconnect returns.
abbrev pub otherwise : Ender → Stage
otherwise shell = done
otherwise receiver_thread = exits

-- `should_exit = 1`, after which client_receiver returns.
abbrev pub told : Ender → ClientRun → ClientRun
told shell r = record r { should_exit = 1 }
told receiver_thread r = record r { should_exit = 1; receiving = false }

abbrev pub tunnel_marked : ClientRun → ClientRun
tunnel_marked r =
    let s = r.client.session in
    with_session r (record s { udp = record s.udp { socket = no_fd; peer_known = 0 } })

abbrev pub connection_dropped : ClientRun → ClientRun
connection_dropped r =
    let c = record r.client.connection { socket = no_fd; state = disconnected } in
    record r { client = record r.client { connection = c } }

-- The session after the memset: all zero bytes are the state SESSION_CONNECTING and socket 0.
unfoldable pub zeroed : Session
unfolding cleared_session
zeroed = record (cleared_session server) { state = connecting; socket = pos 0 }

abbrev pub reset : ClientRun → ClientRun
reset r =
    with_session r (record r.client.session { socket = no_fd; state = sencd.Session.disconnected })

-- The stages of the shell and of the receiver, the client and the world.
abbrev pub Race : Type 0 → Type 0
Race W = Stage × Stage × ClientRun × W

module _ {W : Type 0} ⦃os : Os W⦄ where
  unfoldable pub advance : Ender → Stage → ClientRun × W → Stage × ClientRun × W
  unfolding is_up zeroed
  advance t tests (r, w) = ((if is_up r then closes_stream else otherwise t), r, w)
  advance t closes_stream (r, w) = (closes_datagrams, r, close_open r.client.session.socket w)
  advance t closes_datagrams (r, w) = (marks_tunnel, r, close_open r.client.session.udp.socket w)
  advance t marks_tunnel (r, w) = (zeroes, tunnel_marked r, w)
  advance t zeroes (r, w) = (resets, with_session r zeroed, w)
  advance t resets (r, w) = (disconnects, reset r, w)
  advance t disconnects (r, w) = (exits, connection_dropped r, w)
  advance t exits (r, w) = (done, told t r, w)
  advance t done (r, w) = (done, r, w)

  unfoldable pub turn : Ender → Race W → Race W
  turn shell (a, b, r, w) = let (a', r', w') = advance shell a (r, w) in (a', b, r', w')
  turn receiver_thread (a, b, r, w) =
      let (b', r', w') = advance receiver_thread b (r, w) in (a, b', r', w')

  -- The turns that a schedule gives, one after the other.
  unfoldable pub race : List Ender → Race W → Race W
  race [] x = x
  race (t ∷ rest) x = race rest (turn t x)

abbrev pub count_turn : Ender → Ender → ℕ → ℕ
count_turn shell shell n = suc n
count_turn shell receiver_thread n = n
count_turn receiver_thread shell n = n
count_turn receiver_thread receiver_thread n = suc n

-- How many turns a schedule gives a thread.
unfoldable pub turns : Ender → List Ender → ℕ
turns t [] = 0
turns t (u ∷ rest) = count_turn t u (turns t rest)
