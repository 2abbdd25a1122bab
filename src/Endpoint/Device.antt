-- ===== src/Endpoint/Device.antt =====
-- src/platform/linux/tun.c, with the types of src/tunnel/tun.h: the TUN device on Linux. The kernel's
-- calls on network interfaces are parameters. `tun_write` and `tun_close` stand with the session
-- manager, which calls them.
pub mod Opening
use sencd.Base.{
  ℕ, ◌+◌, ◌-◌, ◌/◌, ◌%◌, ◌^◌, false, Option, none, some, List, ◌==◌, if◌then◌else◌, ℤ, pos, negsuc,
  nonneg, take,
}
use sencd.Base.Control.{M, ◌>>=◌, ◌>>◌, pure, guard, or_fail}
use sencd.Platform.Os.{Os}

pub record TunConfig : Type 0 where
  pub address : List ℕ
  pub netmask : List ℕ
  pub ifname : List ℕ

pub record TunDevice : Type 0 where
  pub name : List ℕ
  pub fd : ℤ

unfoldable pub tun_get_fd : TunDevice → ℤ
tun_get_fd dev = dev.fd

-- The calls on network interfaces, each on a descriptor: opening /dev/net/tun, and the `ioctl`
-- requests on an interface of a name.
pub record Interfaces (W : Type 0) : Type 0 where
  pub open_tun : W → ℤ × W
  -- TUNSETIFF with flags: the result and the name that the kernel wrote back.
  pub set_iff : W → ℤ → ℕ → List ℕ → ℤ × List ℕ × W
  -- SIOCSIFADDR and SIOCSIFNETMASK.
  pub set_addr : W → ℤ → List ℕ → ℕ → ℤ × W
  pub set_netmask : W → ℤ → List ℕ → ℕ → ℤ × W
  -- SIOCGIFFLAGS and SIOCSIFFLAGS.
  pub get_flags : W → ℤ → List ℕ → ℤ × ℕ × W
  pub set_flags : W → ℤ → List ℕ → ℕ → ℤ × W

-- IFF_TUN | IFF_NO_PI.
abbrev pub tun_flags : ℕ
tun_flags = 4097

abbrev pub ifnamsiz : ℕ
ifnamsiz = 16

-- `flags | 1 << bit`.
unfoldable pub with_bit : ℕ → ℕ → ℕ
with_bit bit flags = if (flags / 2 ^ bit) % 2 == 0 then flags + 2 ^ bit else flags

-- `flags | (IFF_UP | IFF_RUNNING)`, the bits 0 and 6.
unfoldable pub running_flags : ℕ → ℕ
unfolding with_bit
running_flags flags = with_bit 6 (with_bit 0 flags)

-- `if (result < 0) return 1;` after a call.
abbrev pub checked : {W : Type 0} → ℤ → W → Option (Unit {0}) × W
checked result w = guard (nonneg result) w

module _ {W : Type 0} ⦃os : Os W⦄ where
  -- A call after which `fd` is closed, however it ended.
  abbrev pub closing : {A : Type 0} → ℤ → M W A → M W A
  closing fd m w = let (result, w') = m w in (result, os.close w' fd)

  -- The end of a call after which `fd` is closed if it failed.
  abbrev pub or_close : {A : Type 0} → ℤ → Option A × W → Option A × W
  or_close fd (none, w) = (none, os.close w fd)
  or_close fd (some a, w) = (some a, w)

  unfoldable pub tun_read : TunDevice → ℕ → W → ℤ × List ℕ × W
  tun_read dev size w = os.read w dev.fd size

module _ {W : Type 0} ⦃os : Os W⦄ ⦃net : Interfaces W⦄ where
  -- SIOCGIFFLAGS, and TUNSETIFF, with the name that it gives the interface.
  unfoldable pub read_flags : ℤ → List ℕ → M W ℕ
  read_flags sock ifname w =
      let (result, flags, w') = net.get_flags w sock ifname in
      ((if nonneg result then some flags else none), w')

  unfoldable pub create_interface : ℤ → TunConfig → M W (List ℕ)
  create_interface fd config w =
      let (result, name, w') = net.set_iff w fd tun_flags (take (ifnamsiz - 1) config.ifname) in
      ((if nonneg result then some name else none), w')

  -- The calls on the control socket.
  unfoldable pub configure : ℤ → List ℕ → TunConfig → M W (Unit {0})
  unfolding running_flags
  configure sock ifname config = do
    addr ← or_fail (os.inet_pton config.address)
    (λ w. let (result, w') = net.set_addr w sock ifname addr in checked result w')
    mask ← or_fail (os.inet_pton config.netmask)
    (λ w. let (result, w') = net.set_netmask w sock ifname mask in checked result w')
    flags ← read_flags sock ifname
    (λ w. let (result, w') = net.set_flags w sock ifname (running_flags flags) in checked result w')

  -- The socket is closed at each `return` after its creation. The name is cut by `strncpy`.
  unfoldable pub tun_assign_address : List ℕ → TunConfig → M W (Unit {0})
  unfolding configure
  tun_assign_address ifname config w =
      let (sock, w') = os.socket w false in
      if nonneg sock
      then closing sock (configure sock (take (ifnamsiz - 1) ifname) config) w'
      else (none, w')

  -- What is done with the open descriptor; `size` is `sizeof(TUN_DEVICE_T)`.
  unfoldable pub make_device : ℕ → ℤ → TunConfig → M W TunDevice
  unfolding tun_assign_address
  make_device size fd config = do
    name ← create_interface fd config
    tun_assign_address name config
    (λ w. let (allocated, w') = os.malloc w size in guard allocated w')
    pure (record { name = take (ifnamsiz - 1) name; fd = fd })

  -- `none` is NULL.
  unfoldable pub tun_open : ℕ → TunConfig → M W TunDevice
  tun_open size config w =
      let (fd, w') = net.open_tun w in
      if nonneg fd then or_close fd (make_device size fd config w') else (none, w')
