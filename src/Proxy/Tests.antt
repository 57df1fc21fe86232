-- ===== src/Proxy/Tests.antt =====
-- A request through a header map that is a function, and a WebSocket that is agreed on.
use pishoo.Base.{
  true, Option, none, some, List, [], ◌∷◌, ◌++◌, Text, chars, text_eq, text_eq_refl, eq_of_text_eq,
  trim, trim_start, trim_end, split, strip_prefix, starts_with, contains_char, eq_ignore_ascii_case,
  to_ascii_lowercase, ok, ◌≡◌, ◌≢◌, ◌⊎◌, inl, inr, refl, if◌then◌else◌, Bool-cases,
}
use pishoo.Routes.{ProxyLocation}
use pishoo.Routes.Upstream.{proxy_uri, target_path, suffix_of}
use pishoo.Setup.{SocketAddr}
use pishoo.Proxy.Headers.{
  HeaderMap, elements, hop_names, parsed_names, remove_all, named_fields, clean_hop_headers,
  header_token,
}
use pishoo.Proxy.Exchange.{
  Web, Incoming, Reply, tunnel, is_websocket, bad_websocket, handshake_headers, local_target,
  cleaned, upgrade, outgoing,
}
use pishoo.Proxy.Cleaning.{IsHopByHop, IsNamed, clean_hop_headers_lem}
use pishoo.Proxy.Handshake.{
  bad_upgrade, bad_protocol, check_protocol, cleaned_reply, tunnel_reply, finish_websocket,
  finish_exchange, IsAgreed, finish_exchange-IsAgreed,
}
use pishoo.Proxy.Local.{IsLocalSend, outgoing-IsLocalSend}

exchange : Unit {0}
unfolding text_eq trim trim_start trim_end split strip_prefix starts_with contains_char
    eq_ignore_ascii_case to_ascii_lowercase proxy_uri target_path suffix_of elements hop_names
    parsed_names remove_all named_fields clean_hop_headers header_token is_websocket bad_websocket
    handshake_headers local_target cleaned upgrade outgoing bad_upgrade bad_protocol check_protocol
    cleaned_reply tunnel_reply finish_websocket finish_exchange
exchange = tt

abbrev Map : Type 0
Map = Text → List (Option Text)

abbrev set_map : Text → List (Option Text) → Map → Map
set_map name values fields key = if text_eq key name then values else fields key

set_map-same :
    (name : Text) (values : List (Option Text)) (fields : Map)
    → set_map name values fields name ≡ values
set_map-same name values fields = rw (text_eq_refl name) refl

set_map-other :
    (name other : Text) (values : List (Option Text)) (fields : Map)
    → other ≢ name
    → set_map name values fields other ≡ fields other
set_map-other name other values fields differ = elim (Bool-cases (text_eq other name)) [
  | inl same ↦ absurd (differ (eq_of_text_eq other name same))
  | inr apart ↦ rw apart refl
]

abbrev maps : HeaderMap
maps = record {
  Fields = Map;
  get_all = λ name fields. fields name;
  remove = λ name fields. set_map name [] fields;
  insert = λ name value fields. set_map name (some value ∷ []) fields;
  get_all-remove = λ name fields. set_map-same name [] fields;
  get_all-remove_other = λ name other fields differ. set_map-other name other [] fields differ;
  get_all-insert = λ name value fields. set_map-same name (some value ∷ []) fields;
  get_all-insert_other =
      λ name other value fields differ. set_map-other name other (some value ∷ []) fields differ;
}

abbrev no_fields : Map
no_fields name = []

abbrev sent_fields : Map
sent_fields = set_map (chars "connection") (some (chars "x-hop") ∷ []) no_fields

abbrev loopback : SocketAddr
loopback = record { text = chars "127.0.0.1:80"; is_loopback = true; port = 80 }

abbrev web : Web
web = record {
  parse_path = λ p. some (record { path = p; query = none });
  parse_target = some;
  from_parts = some;
  parse_address = λ t. some loopback;
  parse_value = some;
  parse_name = some;
  nonce = ok (chars "key");
  accept_of = λ k. k ++ chars "-accepted";
}

abbrev route : ProxyLocation
route = record {
  location = chars "/api/";
  proxy_pass = record {
    scheme = some (chars "http");
    authority = some (chars "127.0.0.1:80");
    path_and_query = none;
  };
}

abbrev plain : Incoming Map
plain = record {
  method = chars "GET";
  path = chars "/api/x";
  query = none;
  protocol = none;
  headers = sent_fields;
}

plain_sent :
    outgoing maps web route plain
    ≡ ok (
      record {
        method = chars "GET";
        address = loopback;
        target = chars "/api/x";
        headers = cleaned maps web (chars "127.0.0.1:80") sent_fields;
      },
      none,
    )
unfolding exchange
plain_sent = refl

outgoing-IsLocalSend_example : IsLocalSend maps web route plain (
  record {
    method = chars "GET";
    address = loopback;
    target = chars "/api/x";
    headers = cleaned maps web (chars "127.0.0.1:80") sent_fields;
  },
  none,
)
outgoing-IsLocalSend_example = outgoing-IsLocalSend maps web route plain plain_sent

clean_hop_headers_example :
    ((name : Text)
      → IsHopByHop name ⊎ IsNamed maps some sent_fields name
      → maps.get_all name (clean_hop_headers maps some sent_fields) ≡ [])
    × ((name : Text)
        → (IsHopByHop name → ⊥)
        → (IsNamed maps some sent_fields name → ⊥)
        → maps.get_all name (clean_hop_headers maps some sent_fields)
          ≡ maps.get_all name sent_fields)
clean_hop_headers_example = clean_hop_headers_lem maps some sent_fields

abbrev agreed_fields : Map
agreed_fields = set_map (chars "connection") (some (chars "Upgrade") ∷ []) (
    set_map (chars "upgrade") (some (chars "websocket") ∷ [])
      (set_map (chars "sec-websocket-accept") (some (chars "key-accepted") ∷ []) no_fields))

abbrev agreed : Reply Map
agreed = record { status = 101; headers = agreed_fields }

agreed_tunnel :
    finish_exchange maps web (ok tt) (some (chars "key")) no_fields agreed
    ≡ ok (tunnel (tunnel_reply maps web agreed))
unfolding exchange
agreed_tunnel = refl

finish_exchange-IsAgreed_example :
    (k : Text) × (some (chars "key") ≡ some k)
    × IsAgreed maps web k no_fields agreed
    × ((tunnel_reply maps web agreed).status ≡ 200)
finish_exchange-IsAgreed_example =
    finish_exchange-IsAgreed maps web (ok tt) (some (chars "key")) no_fields agreed agreed_tunnel
