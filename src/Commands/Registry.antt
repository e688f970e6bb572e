-- ===== src/Commands/Registry.antt =====
-- commands/registry.py
use krafton_week.Prelude.{ℕ, String, Bool, false, ◌||◌, List, [], ◌∷◌, ◌==◌}

abbrev pub supported_commands : List String
supported_commands =
    "SET" ∷ "GET" ∷ "DEL" ∷ "EXPIRE" ∷ "TTL" ∷ "RESERVE_SEAT" ∷ "CONFIRM_SEAT"
    ∷ "FORCE_CONFIRM_SEAT" ∷ "RELEASE_SEAT" ∷ "SEAT_STATUS" ∷ "JOIN_QUEUE" ∷ "QUEUE_POSITION"
    ∷ "POP_QUEUE" ∷ "LEAVE_QUEUE" ∷ "PEEK_QUEUE" ∷ []

-- The least and the greatest number of tokens, the name included.
abbrev pub command_arity : List (String × (ℕ × ℕ))
command_arity =
    ("SET", (3, 3))
    ∷ ("GET", (2, 2))
    ∷ ("DEL", (2, 2))
    ∷ ("EXPIRE", (3, 4))
    ∷ ("TTL", (2, 2))
    ∷ ("RESERVE_SEAT", (5, 5))
    ∷ ("CONFIRM_SEAT", (4, 4))
    ∷ ("FORCE_CONFIRM_SEAT", (4, 4))
    ∷ ("RELEASE_SEAT", (4, 4))
    ∷ ("SEAT_STATUS", (3, 3))
    ∷ ("JOIN_QUEUE", (3, 3))
    ∷ ("QUEUE_POSITION", (3, 3))
    ∷ ("POP_QUEUE", (2, 2))
    ∷ ("LEAVE_QUEUE", (3, 3))
    ∷ ("PEEK_QUEUE", (2, 2))
    ∷ []

-- `name in SUPPORTED_COMMANDS`
unfoldable pub is_one_of : String → List String → Bool
is_one_of name [] = false
is_one_of name (x ∷ xs) = x == name || is_one_of name xs
