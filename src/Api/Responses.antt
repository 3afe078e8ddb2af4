-- ===== src/Api/Responses.antt =====
-- Which answers of the server count as a success.
use pikonode.Prelude.{
  ℕ, ◌≡◌, refl, sym, ap, ◌∙◌, ◌↔◌, Bool, true, false, Option, none, some, [], ◌∷◌, ◌++◌, ◌==◌,
  ==_iff, if◌then◌else◌, returns, ◌>>=◌, returns_inj, Bool-cases, inl, inr,
}
use pikonode.Prelude.Bits.{Bytes, ascii}
use pikonode.Api.{Device}
use pikonode.Api.Client.{
  Api, Request, Answer, unreachable, answered, Http, ApiError, http_error, no_answer, bad_request,
  encode_failed, Decoder, read_response, send, get_json_resp, post_json_resp, Formats,
  endpoint_auth, endpoint_list_networks, endpoint_device_info, logged_in, login, device, networks,
}

-- The answers that give a value: no content, which gives the zero value, or a body that decodes.
pub data Fetched {A : Type 0} (json : Decoder A) (answer : Answer) (v : A) : Type 0 where
  no_content :
      (body : Bytes) → answer ≡ answered 204 body → v ≡ json.zero_value → Fetched json answer v
  content :
      (body : Bytes)
      → answer ≡ answered 200 body
      → json.decode body ≡ (v, true)
      → Fetched json answer v

without_error : (ok : Bool) (e : ApiError) → (if ok then none else some e) ≡ none → ok ≡ true
without_error true e h = refl
without_error false e h = cc

module _ {A : Type 0} (json : Decoder A) where
  answered-Fetched :
      (status : ℕ) (body : Bytes) (v : A)
      → read_response json (answered status body) ≡ (v, none)
      → Fetched json (answered status body) v
  unfolding read_response
  answered-Fetched status body v e = elim (Bool-cases (status == 204)) [
    | inl empty ↦
        (let status_is = (==_iff status 204).0 empty in
          no_content body (ap (λ n. answered n body) status_is)
            (sym (ap (λ r. r.0) (rw (empty, read_response) at e))))
    | inr other ↦ elim (Bool-cases (status == 200)) [
      | inl good ↦
          (let status_is = (==_iff status 200).0 good in
            let read = rw (other, good, read_response) at e in
            content body (ap (λ n. answered n body) status_is) (λ i.
              (ap (λ r. r.0) read i, without_error (json.decode body).1 _ (ap (λ r. r.1) read) i)))
      | inr bad ↦
          (let err : some (http_error status) ≡ none =
              ap (λ r. r.1) (rw (other, bad, read_response) at e) in
            cc)
    ]
  ]

  Fetched-read_response :
      (answer : Answer) (v : A) → Fetched json answer v → read_response json answer ≡ (v, none)
  unfolding read_response
  Fetched-read_response answer v (no_content body e z) = rw (e, z) refl
  Fetched-read_response answer v (content body e d) = rw (e, d) refl

  unreachable-Fetched :
      (v : A) → read_response json unreachable ≡ (v, none) → Fetched json unreachable v
  unfolding read_response
  unreachable-Fetched v e = let err : some no_answer ≡ none = ap (λ r. r.1) e in absurd (cc)

  pub read_response_iff :
      (answer : Answer) (v : A) → (read_response json answer ≡ (v, none)) ↔ Fetched json answer v
  read_response_iff unreachable v = (unreachable-Fetched v, Fetched-read_response unreachable v)
  read_response_iff (answered status body) v =
      (answered-Fetched status body v, Fetched-read_response (answered status body) v)

module _ (formats : Formats) (http : Http) (a : Api) where
  abbrev pub device_request : ℕ → Request
  device_request id = record {
    post = false;
    url = a.server ++ endpoint_device_info;
    query = (ascii "id", formats.show_id id) ∷ [];
    authorization = ascii "Bearer " ++ a.token;
    body = none;
  }

  device_sent :
      (id : ℕ)
      → http.accepts (a.server ++ endpoint_device_info) ≡ true
      → device formats http a id
        ≡ returns (read_response formats.device (http.do_request (device_request id)))
  unfolding device get_json_resp send
  device_sent id ok = rw ok refl

  device_refused :
      (id : ℕ)
      → http.accepts (a.server ++ endpoint_device_info) ≡ false
      → device formats http a id ≡ returns (formats.device.zero_value, some bad_request)
  unfolding device get_json_resp send
  device_refused id bad = rw bad refl

  -- Device gives a device without an error exactly when the request can be made and the server
  -- answers it, sent with the token and the identifier, with 204 and the device is the zero value,
  -- or with 200 and a body that decodes to the device.
  pub device_iff :
      (id : ℕ) (d : Device)
      → (device formats http a id ≡ returns (d, none)) ↔ (
          (http.accepts (a.server ++ endpoint_device_info) ≡ true)
          × Fetched formats.device (http.do_request (device_request id)) d)
  device_iff id d = elim (Bool-cases (http.accepts (a.server ++ endpoint_device_info))) [
    | inl ok ↦
        (let answer = http.do_request (device_request id) in
          (
            λ e. (
              ok,
              (read_response_iff formats.device answer d).0
                  (returns_inj (sym (device_sent id ok) ∙ e)),
            ),
            λ h.
                (device_sent id ok
                  ∙ ap returns ((read_response_iff formats.device answer d).1 h.1)),
          ))
    | inr bad ↦ (
      λ e.
          (let err : some bad_request ≡ none =
              ap (λ r. r.1) (returns_inj (sym (device_refused id bad) ∙ e)) in
            absurd (cc)),
      λ h. absurd (cc),
    )
  ]

  abbrev pub login_request : Bytes → Request
  login_request body = record {
    post = true;
    url = a.server ++ endpoint_auth;
    query = [];
    authorization = ascii "Bearer " ++ a.token;
    body = some body;
  }

  abbrev pub networks_request : Bytes → Request
  networks_request token = record {
    post = false;
    url = a.server ++ endpoint_list_networks;
    query = [];
    authorization = ascii "Bearer " ++ token;
    body = none;
  }

  -- The answer to a login that reached the server.
  login_post :
      (body : Option Bytes) (a' : Api)
      → (post_json_resp formats.login_token http a endpoint_auth body []
          >>= (λ answer. returns (logged_in a answer)))
        ≡ returns (a', none)
      → (text : Bytes) × (body ≡ some text)
        × (logged_in a (read_response formats.login_token (http.do_request (login_request text)))
            ≡ (a', none))
  unfolding post_json_resp send logged_in
  login_post none a' e =
      let err : some encode_failed ≡ none = ap (λ r. r.1) (returns_inj e) in absurd (cc)
  login_post (some text) a' e = elim (Bool-cases (http.accepts (a.server ++ endpoint_auth))) [
    | inl ok ↦ (text, refl, returns_inj (rw (ok) at e))
    | inr bad ↦
        (let err : some bad_request ≡ none = ap (λ r. r.1) (returns_inj (rw (bad) at e)) in
          absurd (cc))
  ]

  logged_in_ok :
      (token : Bytes) (err : Option ApiError) (a' : Api)
      → logged_in a (token, err) ≡ (a', none)
      → (err ≡ none) × (a' ≡ record a { token = token })
  unfolding logged_in
  logged_in_ok token none a' e = (refl, sym (ap (λ r. r.0) e))
  logged_in_ok token (some x) a' e = let err : some x ≡ none = ap (λ r. r.1) e in absurd (cc)

  pub networks_sent :
      (token : Bytes)
      → http.accepts (a.server ++ endpoint_list_networks) ≡ true
      → networks formats http (record a { token = token })
        ≡ returns (read_response formats.networks (http.do_request (networks_request token)))
  unfolding networks get_json_resp send
  networks_sent token ok = rw ok refl

  -- After a Login without an error the credentials were sent to the server, the token of the client
  -- is the one that it gave, and the next Networks reads the answer to a request with that token.
  pub networks-login :
      (username password : Bytes) (a' : Api)
      → http.accepts (a.server ++ endpoint_list_networks) ≡ true
      → login formats http username password a ≡ returns (a', none)
      → (body : Bytes) × (formats.encode_login username password (ascii "username-password")
          ≡ some body)
        × Fetched formats.login_token (http.do_request (login_request body)) a'.token
        × (networks formats http a'
            ≡ returns
                (read_response formats.networks (http.do_request (networks_request a'.token))))
  unfolding login
  networks-login username password a' ok e =
      let body = formats.encode_login username password (ascii "username-password") in
      let (text, encoded, answered_ok) = login_post body a' e in
      let answer = http.do_request (login_request text) in
      let read = read_response formats.login_token answer in
      let (no_err, client) = logged_in_ok read.0 read.1 a' answered_ok in
      let token_is : a'.token ≡ read.0 = ap (λ c. c.token) client in
      let fetched : read ≡ (a'.token, none) = λ i. (sym token_is i, no_err i) in
      (
        text,
        encoded,
        (read_response_iff formats.login_token answer a'.token).0 fetched,
        rw client (networks_sent read.0 ok),
      )
