-- ===== src/Endpoint/Device/Opening.antt =====
-- src/platform/linux/tun.c: which descriptors opening the TUN device leaves open.
use sencd.Base.{
  ℕ, ◌-◌, ◌≡◌, refl, sym, ap, ◌∙◌, subst, false, ◌||◌, Option, none, some, List, arith, ◌==◌, ℤ,
  pos, negsuc, inl, inr, take,
}
use sencd.Base.Control.{guard, or_fail, then_with-keeps, guard-keeps}
use sencd.Platform.Os.{Os, DescriptorLaws}
use sencd.Endpoint.Descriptors.{Same, Opened, close-Same, ℤ-cases}
use sencd.Endpoint.Device.{
  TunConfig, TunDevice, Interfaces, tun_flags, ifnamsiz, running_flags, checked, or_close,
  configure, read_flags, create_interface, tun_assign_address, make_device, tun_open,
}

-- Opening the device opens a number that was free; the requests open and close none.
pub record InterfaceLaws {W : Type 0} {os : Os W} (net : Interfaces W) (laws : DescriptorLaws os)
    : Type 0 where
  pub open_fresh : (w : W) (n : ℕ) → (net.open_tun w).0 ≡ pos n → laws.is_open w n ≡ false
  pub open_opens :
      (w : W) (n k : ℕ)
      → (net.open_tun w).0 ≡ pos n
      → laws.is_open (net.open_tun w).1 k ≡ (k == n || laws.is_open w k)
  pub open_fails :
      (w : W) (n k : ℕ)
      → (net.open_tun w).0 ≡ negsuc n
      → laws.is_open (net.open_tun w).1 k ≡ laws.is_open w k
  pub set_iff_keeps :
      (w : W) (fd : ℤ) (flags : ℕ) (name : List ℕ) (k : ℕ)
      → laws.is_open (net.set_iff w fd flags name).2 k ≡ laws.is_open w k
  pub set_addr_keeps :
      (w : W) (fd : ℤ) (name : List ℕ) (addr k : ℕ)
      → laws.is_open (net.set_addr w fd name addr).1 k ≡ laws.is_open w k
  pub set_netmask_keeps :
      (w : W) (fd : ℤ) (name : List ℕ) (mask k : ℕ)
      → laws.is_open (net.set_netmask w fd name mask).1 k ≡ laws.is_open w k
  pub get_flags_keeps :
      (w : W) (fd : ℤ) (name : List ℕ) (k : ℕ)
      → laws.is_open (net.get_flags w fd name).2 k ≡ laws.is_open w k
  pub set_flags_keeps :
      (w : W) (fd : ℤ) (name : List ℕ) (flags k : ℕ)
      → laws.is_open (net.set_flags w fd name flags).1 k ≡ laws.is_open w k
  pub malloc_keeps : (w : W) (n k : ℕ) → laws.is_open (os.malloc w n).1 k ≡ laws.is_open w k

module _ {W : Type 0} ⦃os : Os W⦄ ⦃net : Interfaces W⦄ (laws : DescriptorLaws os)
    (calls : InterfaceLaws net laws) where
  open laws use {is_open}

  configure-Same :
      (sock : ℤ) (name : List ℕ) (config : TunConfig) (w : W)
      → Same laws w (configure sock name config w).1
  unfolding configure read_flags
  configure-Same sock name config w k =
      let see = λ (x : W). is_open x k in
      then_with-keeps see (or_fail (os.inet_pton config.address) w) _ _ refl λ addr u.
        then_with-keeps see
          (checked (net.set_addr u sock name addr).0 (net.set_addr u sock name addr).1) _ _
          (guard-keeps see _ _ ∙ calls.set_addr_keeps u sock name addr k)
          λ _ u. then_with-keeps see (or_fail (os.inet_pton config.netmask) u) _ _ refl λ mask u.
            then_with-keeps see
              (checked (net.set_netmask u sock name mask).0 (net.set_netmask u sock name mask).1) _
              _ (guard-keeps see _ _ ∙ calls.set_netmask_keeps u sock name mask k)
              λ _ u.
                then_with-keeps see (read_flags sock name u) _ _
                  (calls.get_flags_keeps u sock name k)
                  λ flags u.
                    guard-keeps see _ _ ∙ calls.set_flags_keeps u sock name (running_flags flags) k

  tun_assign_address-Same :
      (name : List ℕ) (config : TunConfig) (w : W)
      → Same laws w (tun_assign_address name config w).1
  unfolding tun_assign_address
  tun_assign_address-Same name config w = elim (ℤ-cases (os.socket w false).0) [
    | inr (m, failed) ↦ λ k. ground (arith, laws.socket_fails w false m k failed)
    | inl (n, here) ↦
        let u = (os.socket w false).1 in
        let v = (configure (pos n) (take (ifnamsiz - 1) name) config u).1 in
        let more : Opened laws w n v = (
          laws.socket_fresh w false n here,
          λ k.
              configure-Same (pos n) (take (ifnamsiz - 1) name) config u k
              ∙ laws.socket_opens w false n k here,
        ) in
        λ k. rw here (close-Same laws w v n more k)
  ]

  make_device-Same :
      (size : ℕ) (fd : ℤ) (config : TunConfig) (w : W)
      → Same laws w (make_device size fd config w).1
  unfolding make_device create_interface
  make_device-Same size fd config w k =
      let see = λ (x : W). is_open x k in
      then_with-keeps see (create_interface fd config w) _ _
        (calls.set_iff_keeps w fd tun_flags (take (ifnamsiz - 1) config.ifname) k)
        λ name u.
          then_with-keeps see (tun_assign_address name config u) _ _
            (tun_assign_address-Same name config u k)
            λ _ u.
              then_with-keeps see (guard (os.malloc u size).0 (os.malloc u size).1) _ _
                (guard-keeps see _ _ ∙ calls.malloc_keeps u size k) λ _ u. refl

  make_device-fd :
      (size : ℕ) (fd : ℤ) (config : TunConfig) (w u : W) (dev : TunDevice)
      → make_device size fd config w ≡ (some dev, u)
      → dev.fd ≡ fd
  unfolding make_device
  make_device-fd size fd config w u dev e = ground arith

  -- How opening the device ends.
  abbrev pub DeviceOpened : W → Option TunDevice × W → Type 0
  DeviceOpened w (none, u) = Same laws w u
  DeviceOpened w (some dev, u) = (n : ℕ) × (dev.fd ≡ pos n) × Opened laws w n u

  made :
      (size n : ℕ) (config : TunConfig) (w u : W) (r : Option TunDevice × W)
      → Opened laws w n u
      → make_device size (pos n) config u ≡ r
      → DeviceOpened w (or_close (pos n) r)
  made size n config w u (none, v) (free, opened) e = close-Same laws w v n (
    free,
    λ k. ap (λ x. is_open x.1 k) (sym e) ∙ make_device-Same size (pos n) config u k ∙ opened k,
  )
  made size n config w u (some dev, v) (free, opened) e = (
    n,
    make_device-fd size (pos n) config u v dev e,
    (
      free,
      λ k. ap (λ x. is_open x.1 k) (sym e) ∙ make_device-Same size (pos n) config u k ∙ opened k,
    ),
  )

  -- Opening the TUN device either fails, with the same descriptors open as before, whichever of its
  -- calls failed, or gives a device on one descriptor that was free and is the only one opened: the
  -- control socket is closed again.
  pub tun_open-DeviceOpened :
      (size : ℕ) (config : TunConfig) (w : W) → DeviceOpened w (tun_open size config w)
  unfolding tun_open
  tun_open-DeviceOpened size config w = elim (ℤ-cases (net.open_tun w).0) [
    | inr (m, failed) ↦
        let same : (none, (net.open_tun w).1) ≡ tun_open size config w = ground arith in
        subst (DeviceOpened w) same (λ k. calls.open_fails w m k failed)
    | inl (n, here) ↦
        let u = (net.open_tun w).1 in
        let same : or_close (pos n) (make_device size (pos n) config u) ≡ tun_open size config w =
          rw here refl in
        subst (DeviceOpened w) same (
          made size n config w u _ (calls.open_fresh w n here, λ k. calls.open_opens w n k here)
            refl)
  ]
