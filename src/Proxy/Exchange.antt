-- ===== src/Proxy/Exchange.antt =====
-- src/routes/proxy.rs, `proxy`: the request that goes to the upstream and what comes back. The
-- connection, the nonce of a WebSocket key, its encoding with the digest, and the parsers are
-- parameters; bodies are passed on unread.
use pishoo.Base.{
  ℕ, Bool, true, false, not, ◌&&◌, ◌||◌, Option, none, some, Text, chars, text_eq, is_some, ok,
  ◌>>=◌, ◌>>◌, refuse_if, ok_or,
}
use pishoo.Failure.{Fallible, bad_request}
use pishoo.Routes.{PathAndQuery, UriParts, ProxyLocation, with_query}
use pishoo.Routes.Upstream.{proxy_uri}
use pishoo.Setup.{SocketAddr, is_text}
use pishoo.Proxy.Headers.{HeaderMap, get, clean_hop_headers}

-- What the code takes from other crates: the parsers of `http` and `std`, the random nonce in
-- base64 and the answer that RFC 6455 asks for it.
pub record Web : Type 0 where
  pub parse_path : Text → Option PathAndQuery
  -- The text of a path as a whole URI.
  pub parse_target : Text → Option Text
  pub from_parts : UriParts → Option UriParts
  pub parse_address : Text → Option SocketAddr
  pub parse_value : Text → Option Text
  pub parse_name : Text → Option Text
  pub nonce : Fallible Text
  pub accept_of : Text → Text

pub record Incoming (Fields : Type 0) : Type 0 where
  pub method : Text
  pub path : Text
  pub query : Option Text
  -- The extension `:protocol`.
  pub protocol : Option Text
  pub headers : Fields

-- The request that is sent in HTTP/1.1, without extensions.
pub record Outgoing (Fields : Type 0) : Type 0 where
  pub method : Text
  pub address : SocketAddr
  pub target : Text
  pub headers : Fields

pub record Reply (Fields : Type 0) : Type 0 where
  pub status : ℕ
  pub headers : Fields

-- The response of the upstream with its body, or the tunnel of a WebSocket.
pub data Forwarded (Fields : Type 0) : Type 0 where
  response : Reply Fields → Forwarded Fields
  tunnel : Reply Fields → Forwarded Fields

abbrev pub is_value : Text → Option (Option Text) → Bool
is_value t (some (some v)) = text_eq v t
is_value t _ = false

abbrev pub or_root : Option PathAndQuery → Text
or_root none = chars "/"
or_root (some p) = with_query p.path p.query

module _ (H : HeaderMap) where
  unfoldable pub is_websocket : Incoming H.Fields → Bool
  is_websocket request =
      text_eq request.method (chars "CONNECT") && is_text (chars "websocket") request.protocol

  unfoldable pub bad_websocket : Incoming H.Fields → Bool
  bad_websocket request =
      not (is_value (chars "13") (get H (chars "sec-websocket-version") request.headers))
      || is_some (get H (chars "trailer") request.headers)

  -- The headers of a WebSocket handshake in HTTP/1.1.
  unfoldable pub handshake_headers : Text → H.Fields → H.Fields
  handshake_headers key fields =
      let bare =
        H.remove (chars "sec-websocket-accept") (H.remove (chars "content-length") fields) in
      H.insert (chars "sec-websocket-key") key (
        H.insert (chars "sec-websocket-version") (chars "13") (
          H.insert (chars "upgrade") (chars "websocket")
            (H.insert (chars "connection") (chars "Upgrade") bare)))

  module _ (web : Web) where
    unfoldable pub local_target : UriParts → Fallible (Text × SocketAddr)
    local_target uri = ok_or uri.authority (bad_request "invalid proxy authority") >>= λ authority.
        ok_or (web.parse_address authority) (bad_request "invalid proxy address") >>= λ address.
        refuse_if (not (is_text (chars "http") uri.scheme) || not address.is_loopback)
          (bad_request "proxy target must be local HTTP/TCP")
        >> ok (authority, address)

    unfoldable pub cleaned : Text → H.Fields → H.Fields
    unfolding clean_hop_headers
    cleaned host fields = H.insert (chars "host") host (clean_hop_headers H web.parse_name fields)

    -- The request that is sent, and the key of its WebSocket handshake.
    unfoldable pub upgrade :
        Bool
        → Text
        → SocketAddr
        → Text
        → Incoming H.Fields
        → Fallible (Outgoing H.Fields × Option Text)
    unfolding cleaned handshake_headers
    upgrade true host address target request = web.nonce >>= λ key. ok (
      record {
        method = chars "GET";
        address = address;
        target = target;
        headers = handshake_headers key (cleaned host request.headers);
      },
      some key,
    )
    upgrade false host address target request = ok (
      record {
        method = request.method;
        address = address;
        target = target;
        headers = cleaned host request.headers;
      },
      none,
    )

    unfoldable pub outgoing :
        ProxyLocation → Incoming H.Fields → Fallible (Outgoing H.Fields × Option Text)
    unfolding local_target upgrade bad_websocket is_websocket
    outgoing route request =
        refuse_if (is_websocket request && bad_websocket request)
          (bad_request "WebSocket requires version 13 and no trailers")
        >> proxy_uri web.parse_path web.from_parts route request.path request.query
        >>= λ uri. local_target uri >>= λ local.
            ok_or (web.parse_value local.0) (bad_request "invalid proxy authority") >>= λ host.
            ok_or (web.parse_target (or_root uri.path_and_query))
              (bad_request "invalid upstream path")
            >>= λ target. upgrade (is_websocket request) host local.1 target request
