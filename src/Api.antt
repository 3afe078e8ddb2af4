-- ===== src/Api.antt =====
-- api/types.go and the message of api/gateway.go. An int64 identifier is only compared with others,
-- and stands as the number of its bit pattern; a string is the list of its bytes.
pub mod Client
pub mod Responses
pub mod Tests
use pikonode.Prelude.{ℕ, Bool, Option, List}
use pikonode.Prelude.Bits.{Bytes}

-- The field `Networks`, which only pikonodectl prints, is left out.
pub record Device : Type 0 where
  pub id : ℕ
  pub owner : ℕ
  pub name : Bytes
  pub public_key : Bytes
  pub ip : Bytes
  pub endpoint : Bytes
  pub private_key : Bytes

pub record Network : Type 0 where
  pub id : ℕ
  pub owner : ℕ
  pub name : Bytes
  pub devices : List Device

-- `gatewayMsgType`; `unknown` is any other number that a server may send.
pub data GatewayMsgType : Type 0 where
  ping network_join network_leave device_update disconnect connect : GatewayMsgType
  unknown : GatewayMsgType

-- `Delay` and `Error`, which no part of the program reads, are left out.
pub record GatewayMsg : Type 0 where
  pub type : GatewayMsgType
  pub device : Option Device
  pub network : Option Network
  pub remove : Bool
  pub endpoint : Bytes
  pub device_id : ℕ
  pub network_id : ℕ
