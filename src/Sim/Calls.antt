-- ===== src/Sim/Calls.antt =====
-- The concrete platform's descriptors: the calls that open and close none, and its TUN device.
use sencd.Base.{suc, ◌&&◌, refl, not, ◌==◌, arith, pos}
use sencd.Platform.Calls.{QuietLaws}
use sencd.Endpoint.Device.{Interfaces}
use sencd.Endpoint.Device.Opening.{InterfaceLaws}
use sencd.Sim.{World, sim_os, sim_random, sim_descriptors}

instance unfoldable pub sim_net : Interfaces World
sim_net = record {
  open_tun = λ w.
      (pos w.next, record w { next = suc w.next; closed = λ k. not (k == w.next) && w.closed k });
  set_iff = λ w fd flags name. (pos 0, name, w);
  set_addr = λ w fd name addr. (pos 0, w);
  set_netmask = λ w fd name mask. (pos 0, w);
  get_flags = λ w fd name. (pos 0, 0, w);
  set_flags = λ w fd name flags. (pos 0, w);
}

pub sim_quiet : QuietLaws sim_os sim_random sim_descriptors
unfolding sim_os sim_random sim_descriptors
sim_quiet = record {
  send_keeps = λ w fd buf k. refl;
  recv_keeps = λ w fd n k. refl;
  malloc_keeps = λ w n k. refl;
  read_keeps = λ w fd n k. refl;
  write_keeps = λ w fd bytes k. refl;
  mkdir_keeps = λ w path k. refl;
  write_file_keeps = λ w path bytes k. refl;
  randombytes_keeps = λ w n k. refl;
  kx_keypair_keeps = λ w k. refl;
  sign_keypair_keeps = λ w k. refl;
  accept_fresh = λ w fd n e. ground arith;
  accept_opens = λ w fd n k e. ground arith;
  accept_fails = λ w fd n k e. cc e;
}

pub sim_interfaces : InterfaceLaws sim_net sim_descriptors
unfolding sim_os sim_net sim_descriptors
sim_interfaces = record {
  open_fresh = λ w n e. ground arith;
  open_opens = λ w n k e. ground arith;
  open_fails = λ w n k e. cc e;
  set_iff_keeps = λ w fd flags name k. refl;
  set_addr_keeps = λ w fd name addr k. refl;
  set_netmask_keeps = λ w fd name mask k. refl;
  get_flags_keeps = λ w fd name k. refl;
  set_flags_keeps = λ w fd name flags k. refl;
  malloc_keeps = λ w n k. refl;
}
