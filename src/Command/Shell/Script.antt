-- ===== src/Command/Shell/Script.antt =====
-- What a user types into the shell of src/commands/server_env.c.
use sencd.Base.{
  ℕ, suc, ◌+◌, ◌≡◌, Bool, true, false, ◌&&◌, not, List, [], ◌∷◌, ◌++◌, ◌==◌, length, ltb,
}
use sencd.Base.Tests.{bytes_eq}
use sencd.Platform.Stdin.{is_text}
use sencd.Command.Idle.{exit_key, has_no_exit}
use sencd.Command.Shell.{Flags, idle_name, shutdown_name}

-- What is typed up to the next prompt: a line, or the idle mode's line, what it reads over, and its
-- exit key.
pub data Typed : Type 0 where
  line : List ℕ → Typed
  idling : List ℕ → Typed

-- The bytes of it.
unfoldable pub keys : List Typed → List ℕ → List ℕ
keys [] tail = tail
keys (line text ∷ rest) tail = text ++ 10 ∷ keys rest tail
keys (idling before ∷ rest) tail = idle_name ++ 10 ∷ before ++ exit_key ∷ keys rest tail

-- A line of at most 254 bytes that is not one of the two commands, and an idle mode that stops at the
-- key that it is given.
unfoldable pub is_harmless : Typed → Bool
is_harmless (line text) =
    is_text text
    && (ltb (length text) 255
        && (not (bytes_eq text idle_name) && not (bytes_eq text shutdown_name)))
is_harmless (idling before) = has_no_exit before

unfoldable pub all_harmless : List Typed → Bool
unfolding is_harmless
all_harmless [] = true
all_harmless (t ∷ rest) = is_harmless t && all_harmless rest

-- The rounds of the longest idle mode's loop.
unfoldable pub idle_length : List Typed → ℕ
idle_length [] = 0
idle_length (line text ∷ rest) = idle_length rest
idle_length (idling before ∷ rest) = suc (length before) + idle_length rest

-- The flags of a running server that no one has asked to shut down.
abbrev pub Serving : Flags → Type 0
Serving f = ((f.running == 0) ≡ false) × ((f.shutdown_requested == 0) ≡ true)
