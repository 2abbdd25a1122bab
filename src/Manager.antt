-- ===== src/Manager.antt =====
-- src/sessions/session_manager.h and session_manager.c: the table of sessions on the server. Each of
-- its functions, and each round of its two threads, is one step on the table; the lock itself is not
-- modelled.
pub mod Slots
pub mod Connect
pub mod Traffic
pub mod Count
pub mod Removal
pub mod Lookup
pub mod Forward
pub mod Admission
pub mod Deliver
pub mod Start
pub mod Rounds
pub mod Trusted
pub mod Held
pub mod Found
use sencd.Base.{ℕ, ◌+◌, ◌-◌, Option, none, some, List, replicate, ℤ, no_fd}
use sencd.Platform.Os.{Os}
use sencd.Crypto.{CryptoContext, crypto_context_init}
use sencd.Session.{Session, session_destroy}
use Slots.{SlotTable, insert, remove_id, find_id}

abbrev pub max_sessions : ℕ
max_sessions = 1024

-- A slot of the table stands for the pointer that it holds. `tun` is the descriptor of the TUN
-- device, `none` for NULL.
pub record SessionManager : Type 0 where
  pub sessions : SlotTable
  pub identity : CryptoContext
  pub tun : Option ℤ
  pub session_count : ℕ
  pub udp_socket : ℤ

-- What `session_manager_init` sets before it loads the identity and opens the device.
unfoldable pub cleared_manager : SessionManager
unfolding crypto_context_init
cleared_manager = record {
  sessions = replicate max_sessions none;
  identity = crypto_context_init;
  tun = none;
  session_count = 0;
  udp_socket = no_fd;
}

-- The first free slot takes the session; `none` is the result 1, which changes nothing.
unfoldable pub session_manager_add : SessionManager → Session → Option SessionManager
session_manager_add m s = elim (insert 0 s m.sessions) [
  | none ↦ none
  | some slots ↦ some (record m { sessions = slots; session_count = m.session_count + 1 })
]

-- The first session with the number, and its slot.
unfoldable pub session_manager_get : SessionManager → ℕ → Option (ℕ × Session)
session_manager_get m id = find_id 0 id m.sessions

module _ {W : Type 0} ⦃os : Os W⦄ where
  unfoldable pub session_manager_remove :
      SessionManager → ℕ → W → Option (Unit {0}) × SessionManager × W
  session_manager_remove m id w = elim (remove_id id m.sessions) [
    | none ↦ (none, m, w)
    | some (s, slots) ↦ (
      some tt,
      record m { sessions = slots; session_count = m.session_count - 1 },
      (session_destroy s w).1,
    )
  ]
