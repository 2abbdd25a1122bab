-- ===== src/Platform/Os.antt =====
-- The calls of the operating system and of libc that the modelled code makes. A call changes the
-- world; what it returns and does is the platform's, so the operations are parameters of the model.
use sencd.Base.{
  ℕ, suc, ◌≤◌, ◌≡◌, Bool, true, false, not, ◌&&◌, ◌||◌, ◌==◌, Option, some, List, ◌++◌, length,
  take, ℤ, pos, negsuc,
}

-- An IPv4 socket address: the address and the port as numbers.
pub record SockAddr : Type 0 where
  pub addr : ℕ
  pub port : ℕ

pub record Os (W : Type 0) : Type 0 where
  -- `malloc(n)`: false is NULL.
  pub malloc : W → ℕ → Bool × W
  -- The two bytes that follow `type` in a `PACKET_HEADER`: C leaves them unspecified.
  pub padding : W → List ℕ
  -- `send(fd, buffer, length, 0)` returns a count, or a negative number.
  pub send : W → ℤ → List ℕ → ℤ × W
  -- `recv(fd, buffer, n, 0)`: the result, and the bytes put into the buffer.
  pub recv : W → ℤ → ℕ → ℤ × List ℕ × W
  -- `socket(AF_INET, type, 0)`: `true` for a stream, `false` for datagrams.
  pub socket : W → Bool → ℤ × W
  pub close : W → ℤ → W
  pub set_reuse_addr : W → ℤ → ℤ × W
  -- `bind` to INADDR_ANY at a port, `listen`, `connect`, `accept`.
  pub bind : W → ℤ → ℕ → ℤ × W
  pub listen : W → ℤ → ℤ × W
  pub connect : W → ℤ → SockAddr → ℤ × W
  pub accept : W → ℤ → ℤ × SockAddr × W
  -- `inet_pton`: the address that a text stands for; `inet_ntop`: the text of an address.
  pub inet_pton : List ℕ → Option ℕ
  pub inet_ntop : ℕ → ℕ → Option (List ℕ)
  -- `recvfrom` and `sendto` on a datagram socket.
  pub recvfrom : W → ℤ → ℕ → ℤ × List ℕ × SockAddr × W
  pub sendto : W → ℤ → List ℕ → SockAddr → W
  -- `read` and `write` on a descriptor that is no socket.
  pub read : W → ℤ → ℕ → ℤ × List ℕ × W
  pub write : W → ℤ → List ℕ → W
  -- A whole file's bytes after a successful `fopen(path, "rb")`, `none` if that fails.
  pub read_file : W → List ℕ → Option (List ℕ)
  -- `fopen(path, "wb")`, one or two `fwrite`s, `fclose` and `chmod`: false if `fopen` fails.
  pub write_file : W → List ℕ → List ℕ → Bool × W
  -- `getenv("HOME")`, and `getpwuid(getuid())->pw_dir`.
  pub home : W → Option (List ℕ)
  pub passwd_dir : W → Option (List ℕ)
  -- `mkdir(path, S_IRWXU)`: true if it succeeds or the directory exists.
  pub mkdir : W → List ℕ → Bool × W

-- Stream sockets, as POSIX documents them: `send` takes a prefix of the buffer and appends it to
-- what the socket has sent, `recv` hands out a prefix of what is pending. No other call used
-- between two of these touches a stream.
pub record StreamLaws {W : Type 0} (os : Os W) : Type 0 where
  pub sent : W → ℤ → List ℕ
  pub pending : W → ℤ → List ℕ
  pub send_count :
      (w : W) (fd : ℤ) (buf : List ℕ) (n : ℕ) → (os.send w fd buf).0 ≡ pos n → n ≤ length buf
  pub send_appends :
      (w : W) (fd : ℤ) (buf : List ℕ) (n : ℕ)
      → (os.send w fd buf).0 ≡ pos n
      → sent (os.send w fd buf).1 fd ≡ sent w fd ++ take n buf
  pub recv_count :
      (w : W) (fd : ℤ) (want n : ℕ)
      → (os.recv w fd want).0 ≡ pos n
      → (length (os.recv w fd want).1 ≡ n) × (n ≤ want)
  pub recv_takes :
      (w : W) (fd : ℤ) (want n : ℕ)
      → (os.recv w fd want).0 ≡ pos n
      → pending w fd ≡ (os.recv w fd want).1 ++ pending (os.recv w fd want).2 fd
  pub malloc_pending : (w : W) (n : ℕ) (fd : ℤ) → pending (os.malloc w n).1 fd ≡ pending w fd
  pub length-padding : (w : W) → length (os.padding w) ≡ 2

-- A peer that keeps up: no call fails, and `recv` does not block for ever on bytes that are there.
pub record Responsive {W : Type 0} (os : Os W) (laws : StreamLaws os) : Type 0 where
  pub send_some :
      (w : W) (fd : ℤ) (buf : List ℕ)
      → 1 ≤ length buf
      → (n : ℕ) × ((os.send w fd buf).0 ≡ pos (suc n))
  pub recv_some :
      (w : W) (fd : ℤ) (want : ℕ)
      → 1 ≤ want
      → 1 ≤ length (laws.pending w fd)
      → (n : ℕ) × ((os.recv w fd want).0 ≡ pos (suc n))
  pub malloc_some : (w : W) (n : ℕ) → (os.malloc w n).0 ≡ true

-- A disk that takes whole files: what was written is read back. (The program does not look at the
-- results of its `fwrite` calls.)
pub record FileLaws {W : Type 0} (os : Os W) : Type 0 where
  pub read-write :
      (w : W) (path bytes : List ℕ)
      → (os.write_file w path bytes).0 ≡ true
      → os.read_file (os.write_file w path bytes).1 path ≡ some bytes

-- Descriptors, as POSIX documents them: a new socket has a number that was free, `close` frees its
-- argument, and the other calls on sockets neither open nor close any.
pub record DescriptorLaws {W : Type 0} (os : Os W) : Type 0 where
  pub is_open : W → ℕ → Bool
  pub socket_fresh :
      (w : W) (stream : Bool) (n : ℕ) → (os.socket w stream).0 ≡ pos n → is_open w n ≡ false
  pub socket_opens :
      (w : W) (stream : Bool) (n k : ℕ)
      → (os.socket w stream).0 ≡ pos n
      → is_open (os.socket w stream).1 k ≡ (k == n || is_open w k)
  pub socket_fails :
      (w : W) (stream : Bool) (n k : ℕ)
      → (os.socket w stream).0 ≡ negsuc n
      → is_open (os.socket w stream).1 k ≡ is_open w k
  pub close_frees :
      (w : W) (n k : ℕ) → is_open (os.close w (pos n)) k ≡ (not (k == n) && is_open w k)
  pub set_reuse_addr_keeps :
      (w : W) (fd : ℤ) (k : ℕ) → is_open (os.set_reuse_addr w fd).1 k ≡ is_open w k
  pub bind_keeps : (w : W) (fd : ℤ) (port k : ℕ) → is_open (os.bind w fd port).1 k ≡ is_open w k
  pub listen_keeps : (w : W) (fd : ℤ) (k : ℕ) → is_open (os.listen w fd).1 k ≡ is_open w k
  pub connect_keeps :
      (w : W) (fd : ℤ) (a : SockAddr) (k : ℕ) → is_open (os.connect w fd a).1 k ≡ is_open w k
