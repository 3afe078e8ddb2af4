-- ===== src/Gateway/Messages.antt =====
-- api/gateway.go: what goes over the socket. nhooyr.io/websocket is what gives and takes it.
use pikonode.Prelude.{ℕ, Bool, true, false, none, List, [], ◌∷◌, ◌++◌, map, if◌then◌else◌}
use pikonode.Prelude.Bits.{Bytes, ascii}
use pikonode.Api.{GatewayMsg, ping}
use pikonode.Api.Client.{Api}
use pikonode.Gateway.{Dial, served}

abbrev pub endpoint_gateway : Bytes
endpoint_gateway = ascii "/gateway"

-- The address and the header `Authorization` of `dialGateway`.
unfoldable pub dial_gateway : Api → Bytes × Bytes
dial_gateway a = (a.server ++ endpoint_gateway, ascii "Bearer " ++ a.token)

-- The message of `gwConnected`.
unfoldable pub gw_connected : ℕ → GatewayMsg
gw_connected dev = record {
  type = ping;
  device = none;
  network = none;
  remove = false;
  endpoint = [];
  device_id = dev;
  network_id = 0;
}

-- A message that is read, and whether the channel takes it before the context ends.
pub record Read : Type 0 where
  pub msg : GatewayMsg
  pub taken : Bool

-- `gwReadLoop`, until a read fails: what the channel gets, and whether there is an error.
unfoldable pub gw_read_loop : List Read → List GatewayMsg × Bool
gw_read_loop [] = ([], true)
gw_read_loop (r ∷ reads) =
    let (passed, failed) = gw_read_loop reads in
    if r.taken then (r.msg ∷ passed, failed) else ([], false)

-- A connection that was made, for the loop of `Gateway`.
unfoldable pub connection : List Read → Dial
unfolding gw_read_loop
connection reads = served (map (λ (m : GatewayMsg). m.type) (gw_read_loop reads).0)
