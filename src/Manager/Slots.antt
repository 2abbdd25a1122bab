-- ===== src/Manager/Slots.antt =====
-- The loops over the table in src/sessions/session_manager.c.
use sencd.Base.{
  ℕ, suc, ◌+◌, ◌%◌, ◌^◌, Bool, true, false, ◌&&◌, not, Option, none, some, List, [], ◌∷◌, ◌==◌,
  if◌then◌else◌,
}
use sencd.Session.{Session, SessionState, established}

abbrev pub SlotTable : Type 0
SlotTable = List (Option Session)

-- `(uint8_t)(i + 2)`.
unfoldable pub octet_of : ℕ → ℕ
octet_of i = (i + 2) % 2 ^ 8

abbrev pub put_front : {A : Type 0} → A → Option (List A) → Option (List A)
put_front a none = none
put_front a (some rest) = some (a ∷ rest)

-- The loop of `session_manager_add` from slot `i`.
unfoldable pub insert : ℕ → Session → SlotTable → Option SlotTable
unfolding octet_of
insert i s [] = none
insert i s (none ∷ rest) = some (some (record s { tunnel_ip_octet = octet_of i }) ∷ rest)
insert i s (some t ∷ rest) = put_front (some t) (insert (suc i) s rest)

-- The session as it stands in slot `i`.
abbrev pub in_slot : ℕ → Session → Session
in_slot i s = record s { tunnel_ip_octet = octet_of i }

-- The loop of `session_manager_get` from slot `i`.
unfoldable pub find_id : ℕ → ℕ → SlotTable → Option (ℕ × Session)
find_id i id [] = none
find_id i id (none ∷ rest) = find_id (suc i) id rest
find_id i id (some t ∷ rest) =
    let later = find_id (suc i) id rest in if t.session_id == id then some (i, t) else later

abbrev pub keep_front : Option Session → Option (Session × SlotTable) → Option (Session × SlotTable)
keep_front slot none = none
keep_front slot (some (s, rest)) = some (s, slot ∷ rest)

-- The loop of `session_manager_remove`: the session taken out, and the slots it leaves.
unfoldable pub remove_id : ℕ → SlotTable → Option (Session × SlotTable)
remove_id id [] = none
remove_id id (none ∷ rest) = keep_front none (remove_id id rest)
remove_id id (some t ∷ rest) =
    let later = keep_front (some t) (remove_id id rest) in
    if t.session_id == id then some (t, none ∷ rest) else later

unfoldable pub is_established : SessionState → Bool
is_established established = true
is_established _ = false

-- The conditions under which `session_manager_tun_sender` sends to a session.
unfoldable pub takes_octet : ℕ → Session → Bool
unfolding is_established
takes_octet octet s =
    is_established s.state && not (s.udp.peer_known == 0) && s.tunnel_ip_octet == octet

-- The loop of `session_manager_tun_sender` from slot `i`.
unfoldable pub find_octet : ℕ → ℕ → SlotTable → Option (ℕ × Session)
unfolding takes_octet
find_octet i octet [] = none
find_octet i octet (none ∷ rest) = find_octet (suc i) octet rest
find_octet i octet (some t ∷ rest) =
    let later = find_octet (suc i) octet rest in if takes_octet octet t then some (i, t) else later
