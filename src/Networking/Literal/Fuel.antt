-- ===== src/Networking/Literal/Fuel.antt =====
-- The loop of `parseV6` of Networking/src/IpAddress.cpp ends: its fuel, one round for each byte and one
-- more, does not run out.
use vpn_client.Prelude.{true, false, if◌then◌else◌, is_empty, Option, none, some, Bytes}
use vpn_client.Networking.Literal.{◌>>=◌, refuse_if, V6State, push_hextet, has_dot}

-- A round that found a colon, with what comes after it.
abbrev round : Bytes → Bytes → V6State → (V6State → Option V6State) → Option V6State
round piece after s next =
    if has_dot piece
    then none
    else if is_empty piece
    then (if s.in_tail then none else elim (is_empty after) [
      | true ↦ some (record s { in_tail = true })
      | false ↦ next (record s { in_tail = true })
    ])
    else (push_hextet piece s >>= λ s'. refuse_if (is_empty after) >>= λ _. next s')
