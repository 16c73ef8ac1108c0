-- ===== src/Routing/Routes/Machine.antt =====
-- Programs that call the machine: the forwarding table of Windows, through `GetBestRoute2`,
-- `CreateIpForwardEntry2` and `DeleteIpForwardEntry2`, and the write of the ledger to its file, `save`. A
-- program names each call and goes on with any answer.
use vpn_client.Prelude.{ℕ}
use vpn_client.Core.Status.{Status, Result}
use vpn_client.Networking.Address.{IpAddress}

-- What identifies a row of the table, and the row.
pub record RowId : Type 0 where
  pub interface_index : ℕ
  pub prefix : IpAddress
  pub prefix_length : ℕ
  pub next_hop : IpAddress

pub record Row : Type 0 where
  pub id : RowId
  pub metric : ℕ

-- A program over documents `J`, which ends in an `A`.
pub data Program (J A : Type 0) : Type 0 where
  done : A → Program J A
  save : J → (Status → Program J A) → Program J A
  create : Row → (ℕ → Program J A) → Program J A
  delete : Row → (ℕ → Program J A) → Program J A
  best_route : IpAddress → ℕ → (ℕ → Result IpAddress → Program J A) → Program J A

infixl 5 ◌>>=◌
unfoldable pub ◌>>=◌ : {J A B : Type 0} → Program J A → (A → Program J B) → Program J B
done a >>= f = f a
save document k >>= f = save document (λ status. k status >>= f)
create row k >>= f = create row (λ status. k status >>= f)
delete row k >>= f = delete row (λ status. k status >>= f)
best_route address index k >>= f = best_route address index (λ status hop. k status hop >>= f)

abbrev pub no_error : ℕ
no_error = 0

abbrev pub object_already_exists : ℕ
object_already_exists = 5010

abbrev pub not_found_code : ℕ
not_found_code = 1168
