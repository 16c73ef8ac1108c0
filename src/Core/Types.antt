-- ===== src/Core/Types.antt =====
-- Core/include/NovaVPN/Core/Types.h and Core/src/Types.cpp: the shared enumerations.
use vpn_client.Prelude.{
  ℕ, zero, suc, Bool, true, false, Bytes, codes, ◌==◌, ◌≡◌, ◌↔◌, refl, sym, ap, ◌∙◌, ==_iff,
}

pub data Transport : Type 0 where
  udp tcp : Transport

pub data AddressFamily : Type 0 where
  ipv4 ipv6 : AddressFamily

-- The lifecycle of a tunnel.
pub data ConnectionState : Type 0 where
  disconnected resolving connecting authenticating configuring : ConnectionState
  connected reconnecting disconnecting faulted : ConnectionState

unfoldable pub transport_to_string : Transport → Bytes
transport_to_string udp = codes "udp"
transport_to_string tcp = codes "tcp"

unfoldable pub holds_network_state : ConnectionState → Bool
holds_network_state configuring = true
holds_network_state connected = true
holds_network_state reconnecting = true
holds_network_state disconnecting = true
holds_network_state _ = false

unfoldable pub is_transitional : ConnectionState → Bool
is_transitional resolving = true
is_transitional connecting = true
is_transitional authenticating = true
is_transitional configuring = true
is_transitional reconnecting = true
is_transitional disconnecting = true
is_transitional _ = false

-- The underlying value of the enumeration.
unfoldable pub state_value : ConnectionState → ℕ
state_value disconnected = 0
state_value resolving = 1
state_value connecting = 2
state_value authenticating = 3
state_value configuring = 4
state_value connected = 5
state_value reconnecting = 6
state_value disconnecting = 7
state_value faulted = 8

-- `==` of the enumeration.
unfoldable pub same_state : ConnectionState → ConnectionState → Bool
unfolding state_value
same_state a b = state_value a == state_value b

state_of : ℕ → ConnectionState
state_of zero = disconnected
state_of (suc zero) = resolving
state_of (suc (suc zero)) = connecting
state_of (suc (suc (suc zero))) = authenticating
state_of (suc (suc (suc (suc zero)))) = configuring
state_of (suc (suc (suc (suc (suc zero))))) = connected
state_of (suc (suc (suc (suc (suc (suc zero)))))) = reconnecting
state_of (suc (suc (suc (suc (suc (suc (suc zero))))))) = disconnecting
state_of n = faulted

state_of-state_value : (s : ConnectionState) → state_of (state_value s) ≡ s
unfolding state_of state_value
state_of-state_value disconnected = refl
state_of-state_value _ = refl

pub same_state_iff : (a b : ConnectionState) → (same_state a b ≡ true) ↔ (a ≡ b)
unfolding same_state
same_state_iff a b = (
  λ h. sym (state_of-state_value a) ∙ ap state_of ((==_iff _ _).0 h) ∙ state_of-state_value b,
  λ e. (==_iff _ _).1 (ap state_value e),
)
