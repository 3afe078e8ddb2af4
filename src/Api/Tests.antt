-- ===== src/Api/Tests.antt =====
-- The client and a server that answers every request.
use pikonode.Prelude.{ℕ, true, some, [], ◌∷◌, ◌++◌}
use pikonode.Prelude.Bits.{Bytes, ascii}
use pikonode.Api.{Device, Network}
use pikonode.Api.Client.{Api, answered, Http, Formats}

abbrev pub device_named : Bytes → Device
device_named name = record {
  id = 7;
  owner = 1;
  name = name;
  public_key = [];
  ip = [];
  endpoint = [];
  private_key = [];
}

abbrev no_network : Network
no_network = record { id = 0; owner = 0; name = []; devices = [] }

-- A device is its name, and a token its text.
abbrev pub formats : Formats
formats = record {
  device = record { zero_value = device_named []; decode = λ body. (device_named body, true) };
  devices = record { zero_value = []; decode = λ body. ([], true) };
  network = record { zero_value = no_network; decode = λ body. (no_network, true) };
  networks = record { zero_value = []; decode = λ body. (no_network ∷ [], true) };
  punch_details = record {
    zero_value = record { endpoint = []; ip = []; public_key = [] };
    decode = λ body. (record { endpoint = body; ip = []; public_key = [] }, true);
  };
  login_token = record { zero_value = []; decode = λ body. (body, true) };
  anything = record { zero_value = tt; decode = λ body. (tt, true) };
  encode_login = λ name password method. some (name ++ password);
  encode_device = λ name key. some name;
  encode_network = λ name. some name;
  encode_pair = λ dev nw. some (dev ∷ nw ∷ []);
  show_id = λ id. id ∷ [];
}

-- A server that answers all with this status.
abbrev pub always : ℕ → Http
always status = record { accepts = λ url. true; do_request = λ r. answered status (ascii "abc") }

abbrev pub client : Api
client = record { server = ascii "http://s"; token = [] }
