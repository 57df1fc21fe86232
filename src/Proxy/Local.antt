-- ===== src/Proxy/Local.antt =====
-- src/routes/proxy.rs, `proxy` as a whole, and where its requests go.
use pishoo.Base.{
  Bool, true, false, not, ◌&&◌, ◌||◌, Option, none, some, [], ◌∷◌, Text, chars, text_eq, any_of_In,
  text_eq_refl, eq_of_text_eq, bind-ok, passed, refuse_if-ok, ok_or, ok_or-ok, ap, ok, ◌>>=◌, ◌≡◌,
  ◌≢◌, inl, inr, refl, ◌∙◌, subst, Result-cases, or-false, arith,
}
use pishoo.Failure.{Fallible, bad_request}
use pishoo.Routes.{UriParts, ProxyLocation}
use pishoo.Routes.Upstream.{proxy_uri}
use pishoo.Setup.{SocketAddr, is_text}
use pishoo.Proxy.Headers.{HeaderMap}
use pishoo.Proxy.Exchange.{
  Web, Incoming, Outgoing, Reply, Forwarded, is_websocket, bad_websocket, or_root, local_target,
  cleaned, upgrade, outgoing,
}
use pishoo.Proxy.Cleaning.{IsHopByHop, clean_hop_headers_lem}
use pishoo.Proxy.Handshake.{finish_exchange}

module _ (H : HeaderMap) (web : Web) where
  -- `exchange` sends a request; what it gives is the response and the switch of its connection.
  unfoldable pub proxy :
      (Outgoing H.Fields → Fallible (Reply H.Fields × Fallible (Unit {0})))
      → ProxyLocation
      → Incoming H.Fields
      → Fallible (Forwarded H.Fields)
  unfolding outgoing finish_exchange
  proxy exchange route request = outgoing H web route request >>= λ sent.
      exchange sent.0 >>= λ answer. finish_exchange H web answer.1 sent.1 request.headers answer.0

  hop-not_host : (name : Text) → IsHopByHop name → name ≢ chars "host"
  unfolding text_eq
  hop-not_host name m e =
      let listed : IsHopByHop (chars "host") = subst IsHopByHop e m in
      let found = any_of_In (text_eq (chars "host")) _ listed (text_eq_refl (chars "host")) in
      ground arith

  -- No hop-by-hop field goes on, and this is the one host.
  abbrev pub IsCleaned : Text → H.Fields → Type 0
  IsCleaned host fields =
      ((name : Text) → IsHopByHop name → H.get_all name fields ≡ [])
      × (H.get_all (chars "host") fields ≡ some host ∷ [])

  cleaned-IsCleaned : (host : Text) (fields : H.Fields) → IsCleaned host (cleaned H web host fields)
  unfolding cleaned
  cleaned-IsCleaned host fields = (
    (λ name m.
        H.get_all-insert_other (chars "host") name host _ (hop-not_host name m)
        ∙ (clean_hop_headers_lem H web.parse_name fields).0 name (inl m)),
    H.get_all-insert (chars "host") host _,
  )

  -- The upstream of the request, whose authority is its address and its host.
  abbrev pub IsUpstream : ProxyLocation → Incoming H.Fields → Text → SocketAddr → Text → Type 0
  IsUpstream route request authority address host =
      ((uri : UriParts) × (proxy_uri web.parse_path web.from_parts route request.path request.query
          ≡ ok uri)
        × (uri.authority ≡ some authority)
        × (uri.scheme ≡ some (chars "http")))
      × (web.parse_address authority ≡ some address)
      × (address.is_loopback ≡ true)
      × (web.parse_value authority ≡ some host)

  abbrev pub IsSentTo : SocketAddr → Text → Outgoing H.Fields × Option Text → Type 0
  IsSentTo address host sent =
      (sent.0.address ≡ address) × ((sent.1 ≡ none) → IsCleaned host sent.0.headers)

  abbrev pub IsLocalSend :
      ProxyLocation → Incoming H.Fields → Outgoing H.Fields × Option Text → Type 0
  IsLocalSend route request sent =
      (authority : Text) × (address : SocketAddr) × (host : Text) × IsUpstream route request
        authority address host
      × IsSentTo address host sent

  upgrade-IsSentTo :
      (b : Bool) (host : Text) (address : SocketAddr) (target : Text) (request : Incoming H.Fields)
      {sent : Outgoing H.Fields × Option Text}
      → upgrade H web b host address target request ≡ ok sent
      → IsSentTo address host sent
  unfolding upgrade
  upgrade-IsSentTo true host address target request {sent} h = elim (Result-cases web.nonce) [
    | inl (key, e) ↦ (ground arith, λ none_sent. ground arith)
    | inr (e, fails) ↦ ground arith
  ]
  upgrade-IsSentTo false host address target request {sent} h =
      let same : (
        record {
          method = request.method;
          address = address;
          target = target;
          headers = cleaned H web host request.headers;
        },
        none,
      )
          ≡ sent =
        ground arith in
      subst (IsSentTo address host) same (refl, λ e. cleaned-IsCleaned host request.headers)

  is_text-same : (t : Text) (o : Option Text) → is_text t o ≡ true → o ≡ some t
  is_text-same t none h = ground arith
  is_text-same t (some s) h = ap some (eq_of_text_eq s t (ground arith))

  local_target-parts :
      (uri : UriParts) {local : Text × SocketAddr}
      → local_target H web uri ≡ ok local
      → (uri.authority ≡ some local.0)
        × (uri.scheme ≡ some (chars "http"))
        × (web.parse_address local.0 ≡ some local.1)
        × (local.1.is_loopback ≡ true)
  unfolding local_target
  local_target-parts uri {local} h =
      elim (bind-ok (ok_or uri.authority (bad_request "invalid proxy authority")) _ h) [
        | passed authority e1 h1 ↦
            elim (bind-ok
              (ok_or (web.parse_address authority) (bad_request "invalid proxy address")) _ h1) [
                | passed address e2 h2 ↦
                    let (fine, h3) =
                      refuse_if-ok
                        (not (is_text (chars "http") uri.scheme) || not address.is_loopback)
                        (bad_request "proxy target must be local HTTP/TCP") _ h2 in
                    let both =
                      or-false (not (is_text (chars "http") uri.scheme)) (not address.is_loopback)
                        fine in
                    let same : (authority, address) ≡ local = ground arith in
                    subst
                      (λ l.
                        (uri.authority ≡ some l.0)
                        × (uri.scheme ≡ some (chars "http"))
                        × (web.parse_address l.0 ≡ some l.1)
                        × (l.1.is_loopback ≡ true))
                      same
                      (
                        ok_or-ok _ _ e1,
                        is_text-same (chars "http") uri.scheme (ground (arith, both.0)),
                        ok_or-ok _ _ e2,
                        ground (arith, both.1),
                      )
              ]
      ]

  -- Every request is sent to the authority of the upstream's URI, which is plain HTTP and a loopback
  -- address. One that is no WebSocket handshake carries none of the eight hop-by-hop fields, and its
  -- only host is that authority.
  pub outgoing-IsLocalSend :
      (route : ProxyLocation) (request : Incoming H.Fields) {sent : Outgoing H.Fields × Option Text}
      → outgoing H web route request ≡ ok sent
      → IsLocalSend route request sent
  unfolding outgoing
  outgoing-IsLocalSend route request {sent} h =
      let (fine, h1) =
        refuse_if-ok (is_websocket H request && bad_websocket H request)
          (bad_request "WebSocket requires version 13 and no trailers") _ h in
      elim (bind-ok (proxy_uri web.parse_path web.from_parts route request.path request.query) _
        h1) [
          | passed uri e2 h2 ↦ elim (bind-ok (local_target H web uri) _ h2) [
            | passed local e3 h3 ↦
                let (authority, scheme, address, loops) =
                  local_target-parts uri {local = local} e3 in
                elim (bind-ok
                  (ok_or (web.parse_value local.0) (bad_request "invalid proxy authority")) _ h3) [
                    | passed host e4 h4 ↦
                        elim (bind-ok
                          (ok_or (web.parse_target (or_root uri.path_and_query))
                            (bad_request "invalid upstream path"))
                          _ h4) [
                            | passed target e5 h5 ↦ (
                              local.0,
                              local.1,
                              host,
                              ((uri, e2, authority, scheme), address, loops, ok_or-ok _ _ e4),
                              upgrade-IsSentTo (is_websocket H request) host local.1 target request
                                  h5,
                            )
                          ]
                  ]
          ]
        ]
