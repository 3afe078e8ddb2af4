-- ===== src/Api/Client.antt =====
-- api/api.go: the requests to the rendezvous server. HTTP is a parameter, from a request to what
-- comes back of it, and so is JSON for each type that is sent or received.
use pikonode.Prelude.{
  ℕ, Bool, true, false, not, Option, none, some, List, [], ◌∷◌, ◌++◌, ◌==◌, if◌then◌else◌, Outcome,
  returns, panics, ◌>>=◌,
}
use pikonode.Prelude.Bits.{Bytes, ascii}
use pikonode.Api.{Device, Network}

pub record Api : Type 0 where
  pub server : Bytes
  pub token : Bytes

-- The endpoints.
abbrev pub endpoint_auth : Bytes
endpoint_auth = ascii "/auth"

abbrev pub endpoint_list_networks : Bytes
endpoint_list_networks = ascii "/list/networks"

abbrev pub endpoint_list_devices : Bytes
endpoint_list_devices = ascii "/list/devices"

abbrev pub endpoint_new_device : Bytes
endpoint_new_device = ascii "/new/device"

abbrev pub endpoint_new_network : Bytes
endpoint_new_network = ascii "/new/network"

abbrev pub endpoint_network_info : Bytes
endpoint_network_info = ascii "/network/info"

abbrev pub endpoint_device_join : Bytes
endpoint_device_join = ascii "/device/join"

abbrev pub endpoint_device_leave : Bytes
endpoint_device_leave = ascii "/device/leave"

abbrev pub endpoint_device_info : Bytes
endpoint_device_info = ascii "/device/info"

abbrev pub endpoint_punch : Bytes
endpoint_punch = ascii "/punch"

-- `Endpoint`
unfoldable pub endpoint : Api → Bytes → Bytes
endpoint a ep = a.server ++ ep

-- The query is what is set over the query of the URL. A body is JSON.
pub record Request : Type 0 where
  pub post : Bool
  pub url : Bytes
  pub query : List (Bytes × Bytes)
  pub authorization : Bytes
  pub body : Option Bytes

-- What `HTTP.Do` gives: an error, or a status with a body.
pub data Answer : Type 0 where
  unreachable : Answer
  answered : ℕ → Bytes → Answer

-- net/http: whether a request to the URL can be made, and the exchange.
pub record Http : Type 0 where
  pub accepts : Bytes → Bool
  pub do_request : Request → Answer

pub data ApiError : Type 0 where
  bad_request encode_failed no_answer decode_failed : ApiError
  http_error : ℕ → ApiError

-- `ErrNotFound`
abbrev pub err_not_found : ApiError
err_not_found = http_error 404

-- A type with its zero value and its decoder, which says whether there is no error.
pub record Decoder (A : Type 0) : Type 0 where
  pub zero_value : A
  pub decode : Bytes → A × Bool

-- The loop over the pairs of `q`: a last one without a value is an index out of range.
unfoldable pub set_query : List Bytes → Outcome (List (Bytes × Bytes))
set_query [] = returns []
set_query (k ∷ []) = panics
set_query (k ∷ v ∷ q) = do rest ← set_query q; returns ((k, v) ∷ rest)

module _ {A : Type 0} (json : Decoder A) where
  -- The end of both makers: the status, and the body of a success.
  unfoldable pub read_response : Answer → A × Option ApiError
  read_response unreachable = (json.zero_value, some no_answer)
  read_response (answered status body) =
      let (value, ok) = json.decode body in
      if status == 204
      then (json.zero_value, none)
      else if not (status == 200)
      then (json.zero_value, some (http_error status))
      else (value, if ok then none else some decode_failed)

  -- The request behind `http.NewRequestWithContext`.
  unfoldable pub send :
      Http → Api → Bool → Bytes → Option Bytes → List Bytes → Outcome (A × Option ApiError)
  unfolding endpoint set_query read_response
  send http a post ep body q =
      if not (http.accepts (endpoint a ep))
      then returns (json.zero_value, some bad_request)
      else set_query q >>= (λ query. returns (
          read_response (
            http.do_request (record {
              post = post;
              url = endpoint a ep;
              query = query;
              authorization = ascii "Bearer " ++ a.token;
              body = body;
            }))))

  -- `makeGetJSONResp`
  unfoldable pub get_json_resp : Http → Api → Bytes → List Bytes → Outcome (A × Option ApiError)
  unfolding send
  get_json_resp http a ep q = send http a false ep none q

  -- `makePostJSONResp`; `body` is what `encodeJSON` gives.
  unfoldable pub post_json_resp :
      Http → Api → Bytes → Option Bytes → List Bytes → Outcome (A × Option ApiError)
  unfolding send
  post_json_resp http a ep none q = returns (json.zero_value, some encode_failed)
  post_json_resp http a ep (some body) q = send http a true ep (some body) q

pub record PunchDetails : Type 0 where
  pub endpoint : Bytes
  pub ip : Bytes
  pub public_key : Bytes

-- encoding/json on the types of the API, and fmt.Sprint of an identifier. The answers to a join and
-- to a leave are decoded to any value, which is thrown away.
pub record Formats : Type 0 where
  pub device : Decoder Device
  pub devices : Decoder (List Device)
  pub network : Decoder Network
  pub networks : Decoder (List Network)
  pub punch_details : Decoder PunchDetails
  pub login_token : Decoder Bytes
  pub anything : Decoder (Unit {0})
  pub encode_login : Bytes → Bytes → Bytes → Option Bytes
  pub encode_device : Bytes → Bytes → Option Bytes
  pub encode_network : Bytes → Option Bytes
  pub encode_pair : ℕ → ℕ → Option Bytes
  pub show_id : ℕ → Bytes

-- The client behind the answer to a login.
unfoldable pub logged_in : Api → Bytes × Option ApiError → Api × Option ApiError
logged_in a (token, some e) = (a, some e)
logged_in a (token, none) = (record a { token = token }, none)

module _ (formats : Formats) (http : Http) where
  -- `Login`: the token of the answer becomes that of the client.
  unfoldable pub login : Bytes → Bytes → Api → Outcome (Api × Option ApiError)
  unfolding post_json_resp logged_in
  login username password a = do
    let body = formats.encode_login username password (ascii "username-password")
    answer ← post_json_resp formats.login_token http a endpoint_auth body []
    returns (logged_in a answer)

  -- `Devices`, `Device`, `Networks` and `Network`
  unfoldable pub devices : Api → Outcome (List Device × Option ApiError)
  unfolding get_json_resp
  devices a = get_json_resp formats.devices http a endpoint_list_devices []

  unfoldable pub device : Api → ℕ → Outcome (Device × Option ApiError)
  unfolding get_json_resp
  device a id =
      get_json_resp formats.device http a endpoint_device_info
        (ascii "id" ∷ formats.show_id id ∷ [])

  unfoldable pub networks : Api → Outcome (List Network × Option ApiError)
  unfolding get_json_resp
  networks a = get_json_resp formats.networks http a endpoint_list_networks []

  unfoldable pub network : Api → ℕ → Outcome (Network × Option ApiError)
  unfolding get_json_resp
  network a id =
      get_json_resp formats.network http a endpoint_network_info
        (ascii "id" ∷ formats.show_id id ∷ [])

  -- `NewDevice` and `NewNetwork`
  unfoldable pub new_device : Api → Bytes → Bytes → Outcome (Device × Option ApiError)
  unfolding post_json_resp
  new_device a name key =
      post_json_resp formats.device http a endpoint_new_device (formats.encode_device name key) []

  unfoldable pub new_network : Api → Bytes → Outcome (Network × Option ApiError)
  unfolding post_json_resp
  new_network a name =
      post_json_resp formats.network http a endpoint_new_network (formats.encode_network name) []

  -- `JoinNetwork` and `LeaveNetwork`
  unfoldable pub join_network : Api → ℕ → ℕ → Outcome (Option ApiError)
  unfolding post_json_resp
  join_network a dev nw = do
    let body = formats.encode_pair dev nw
    (value, err) ← post_json_resp formats.anything http a endpoint_device_join body []
    returns err

  unfoldable pub leave_network : Api → ℕ → ℕ → Outcome (Option ApiError)
  unfolding post_json_resp
  leave_network a dev nw = do
    let body = formats.encode_pair dev nw
    (value, err) ← post_json_resp formats.anything http a endpoint_device_leave body []
    returns err

  -- `PunchDetails`
  unfoldable pub punch : Api → Outcome (PunchDetails × Option ApiError)
  unfolding get_json_resp
  punch a = get_json_resp formats.punch_details http a endpoint_punch []
