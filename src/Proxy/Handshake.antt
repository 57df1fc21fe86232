-- ===== src/Proxy/Handshake.antt =====
-- src/routes/proxy.rs, `proxy`: what is done with the response of the upstream.
use pishoo.Base.{
  ℕ, Bool, false, not, ◌&&◌, ◌||◌, Option, none, some, Text, chars, text_eq, any, trim,
  contains_char, is_nil, length, if◌then◌else◌, ok, err, ◌>>◌, refuse_if, ◌==◌, leb, ltb, ◌≡◌, ◌⊎◌,
  ◌≢◌, List, [], ◌∷◌, true, any-In, eq_ignore_ascii_case, eq_of_text_eq, text_eq_refl, sym, ap,
  subst, inl, inr, refl, Bool-cases, Result-cases, Option-cases, arith,
}
use pishoo.Failure.{Fallible, io}
use pishoo.Proxy.Headers.{HeaderMap, elements, first_value, get, clean_hop_headers, header_token}
use pishoo.Proxy.Cleaning.{IsElement, elements-IsElement}
use pishoo.Proxy.Exchange.{Web, Reply, Forwarded, response, tunnel, is_value}

module _ (H : HeaderMap) where
  -- The first four tests of a response with status 101.
  unfoldable pub bad_upgrade : Text → H.Fields → Bool
  unfolding header_token
  bad_upgrade accept headers =
      not (header_token H (chars "connection") (chars "upgrade") headers)
      || not (header_token H (chars "upgrade") (chars "websocket") headers)
      || not (length (H.get_all (chars "sec-websocket-accept") headers) == 1)
      || not (is_value accept (get H (chars "sec-websocket-accept") headers))

  -- A subprotocol that the client did not offer, or that is not a single name.
  unfoldable pub bad_protocol : H.Fields → H.Fields → Text → Bool
  unfolding elements
  bad_protocol offered headers protocol =
      is_nil protocol
      || contains_char b',' protocol
      || not (length (H.get_all (chars "sec-websocket-protocol") headers) == 1)
      || not (
          any (λ v. text_eq (trim v) protocol)
            (elements (H.get_all (chars "sec-websocket-protocol") offered)))

  unfoldable pub check_protocol : H.Fields → H.Fields → Fallible (Unit {0})
  unfolding bad_protocol
  check_protocol offered headers = elim (get H (chars "sec-websocket-protocol") headers) [
    | none ↦ ok tt
    | some none ↦ err io
    | some (some protocol) ↦ refuse_if (bad_protocol offered headers protocol) io
  ]

  abbrev pub is_success : ℕ → Bool
  is_success s = leb 200 s && ltb s 300

  module _ (web : Web) where
    unfoldable pub cleaned_reply : Reply H.Fields → Reply H.Fields
    unfolding clean_hop_headers
    cleaned_reply reply = record {
      status = reply.status;
      headers = clean_hop_headers H web.parse_name reply.headers;
    }

    unfoldable pub tunnel_reply : Reply H.Fields → Reply H.Fields
    unfolding clean_hop_headers
    tunnel_reply reply = record {
      status = 200;
      headers = H.remove (chars "content-length") (
          H.remove (chars "sec-websocket-accept")
            (clean_hop_headers H web.parse_name reply.headers));
    }

    -- A response to the handshake with this key; `upgraded` is the switch of the connection.
    unfoldable pub finish_websocket :
        Fallible (Unit {0}) → Text → H.Fields → Reply H.Fields → Fallible (Forwarded H.Fields)
    unfolding cleaned_reply tunnel_reply check_protocol bad_upgrade
    finish_websocket upgraded key offered reply =
        if not (reply.status == 101)
        then (if is_success reply.status then err io else ok (response (cleaned_reply reply)))
        else (refuse_if (bad_upgrade (web.accept_of key) reply.headers) io
            >> check_protocol offered reply.headers
            >> upgraded
            >> ok (tunnel (tunnel_reply reply)))

    unfoldable pub finish_exchange :
        Fallible (Unit {0})
        → Option Text
        → H.Fields
        → Reply H.Fields
        → Fallible (Forwarded H.Fields)
    unfolding finish_websocket
    finish_exchange upgraded none offered reply = ok (response (cleaned_reply reply))
    finish_exchange upgraded (some key) offered reply = finish_websocket upgraded key offered reply

  -- Some value of the header has the token between its commas.
  abbrev pub HasToken : Text → Text → H.Fields → Type 0
  HasToken name token fields =
      (part : Text) × IsElement part (H.get_all name fields)
      × (eq_ignore_ascii_case (trim part) token ≡ true)

  header_token-HasToken :
      (name token : Text) (fields : H.Fields)
      → header_token H name token fields ≡ true
      → HasToken name token fields
  unfolding header_token
  header_token-HasToken name token fields h =
      let (part, m, e) =
        any-In (λ v. eq_ignore_ascii_case (trim v) token) (elements (H.get_all name fields)) h in
      (part, elements-IsElement part (H.get_all name fields) m, e)

  -- The header stands there once, with this value.
  only_value :
      (values : List (Option Text)) (value : Text)
      → length values ≡ 1
      → is_value value (first_value H values) ≡ true
      → values ≡ some value ∷ []
  only_value [] value one h = ground arith
  only_value (none ∷ values) value one h = ground arith
  only_value (some v ∷ w ∷ values) value one h = absurd (omega (arith, one))
  only_value (some v ∷ []) value one h = ap (λ t. some t ∷ []) (eq_of_text_eq v value h)

  only_first :
      (values : List (Option Text)) (value : Text)
      → length values ≡ 1
      → first_value H values ≡ some (some value)
      → values ≡ some value ∷ []
  only_first values value one h =
      only_value values value one
        (subst (λ v. is_value value v ≡ true) (sym h) (text_eq_refl value))

  -- The answer of the upstream to the key: the tokens and the one accept value.
  abbrev pub IsUpgrade : Text → H.Fields → Type 0
  IsUpgrade accept headers =
      HasToken (chars "connection") (chars "upgrade") headers
      × HasToken (chars "upgrade") (chars "websocket") headers
      × (H.get_all (chars "sec-websocket-accept") headers ≡ some accept ∷ [])

  bad_upgrade-IsUpgrade :
      (accept : Text) (headers : H.Fields)
      → bad_upgrade accept headers ≡ false
      → IsUpgrade accept headers
  unfolding bad_upgrade
  bad_upgrade-IsUpgrade accept headers h = (
    header_token-HasToken (chars "connection") (chars "upgrade") headers (ground arith),
    header_token-HasToken (chars "upgrade") (chars "websocket") headers (ground arith),
    only_value (H.get_all (chars "sec-websocket-accept") headers) accept (ground arith)
        (ground arith),
  )

  -- No subprotocol, or one single name that is a part of what was offered.
  abbrev pub IsChosen : H.Fields → H.Fields → Type 0
  IsChosen offered headers =
      (H.get_all (chars "sec-websocket-protocol") headers ≡ [])
      ⊎ ((protocol : Text) × (H.get_all (chars "sec-websocket-protocol") headers
            ≡ some protocol ∷ [])
          × (protocol ≢ [])
          × (contains_char b',' protocol ≡ false)
          × ((part : Text) × IsElement part (H.get_all (chars "sec-websocket-protocol") offered)
              × (trim part ≡ protocol)))

  -- The upstream proved that it knows the key, and took no subprotocol or an offered one.
  abbrev pub IsAgreed : Web → Text → H.Fields → Reply H.Fields → Type 0
  IsAgreed web key offered reply =
      (reply.status ≡ 101)
      × IsUpgrade (web.accept_of key) reply.headers
      × IsChosen offered reply.headers

  bad_protocol-IsChosen :
      (offered headers : H.Fields) (protocol : Text)
      → get H (chars "sec-websocket-protocol") headers ≡ some (some protocol)
      → bad_protocol offered headers protocol ≡ false
      → IsChosen offered headers
  unfolding bad_protocol
  bad_protocol-IsChosen offered headers protocol e h =
      let (part, m, same) =
        any-In (λ v. text_eq (trim v) protocol)
          (elements (H.get_all (chars "sec-websocket-protocol") offered)) (ground arith) in
      inr (
        protocol,
        only_first (H.get_all (chars "sec-websocket-protocol") headers) protocol (ground arith) e,
        (λ empty. ground (arith, subst (λ p. is_nil p ≡ false) empty (ground arith))),
        ground arith,
        (
          part,
          elements-IsElement part (H.get_all (chars "sec-websocket-protocol") offered) m,
          eq_of_text_eq (trim part) protocol same,
        ),
      )

  none_first : (values : List (Option Text)) → first_value H values ≡ none → values ≡ []
  none_first [] h = refl
  none_first (v ∷ values) h = ground arith

  check_protocol-ok :
      (offered headers : H.Fields) {u : Unit {0}}
      → check_protocol offered headers ≡ ok u
      → IsChosen offered headers
  unfolding check_protocol
  check_protocol-ok offered headers h =
      elim (Option-cases (get H (chars "sec-websocket-protocol") headers)) [
        | inl absent ↦ inl (none_first (H.get_all (chars "sec-websocket-protocol") headers) absent)
        | inr (none, e) ↦ ground arith
        | inr (some protocol, e) ↦ elim (Bool-cases (bad_protocol offered headers protocol)) [
          | inl bad ↦ ground arith
          | inr fine ↦ bad_protocol-IsChosen offered headers protocol e fine
        ]
      ]

  module _ (web : Web) where
    -- A tunnel is opened only for a WebSocket handshake to which the upstream answered 101, with the
    -- token upgrade in Connection and websocket in Upgrade, with the accept value of the key alone,
    -- and with no subprotocol or just one, which is not empty, has no comma and is a part of what the
    -- client offered. The client sees status 200.
    pub finish_exchange-IsAgreed :
        (upgraded : Fallible (Unit {0})) (key : Option Text) (offered : H.Fields)
        (reply : Reply H.Fields) {r : Reply H.Fields}
        → finish_exchange web upgraded key offered reply ≡ ok (tunnel r)
        → (k : Text) × (key ≡ some k) × IsAgreed web k offered reply × (r.status ≡ 200)
    unfolding finish_exchange finish_websocket tunnel_reply
    finish_exchange-IsAgreed upgraded none offered reply h = ground arith
    finish_exchange-IsAgreed upgraded (some k) offered reply {r} h =
        elim (Bool-cases (reply.status == 101)) [
          | inr other ↦ ground arith
          | inl switching ↦ elim (Bool-cases (bad_upgrade (web.accept_of k) reply.headers)) [
            | inl bad ↦ ground arith
            | inr fine ↦ elim (Result-cases (check_protocol offered reply.headers)) [
              | inr (e, fails) ↦ ground arith
              | inl (u, e) ↦ elim (Result-cases upgraded) [
                | inr (e2, fails) ↦ ground arith
                | inl (u2, e2) ↦
                    let same : tunnel_reply web reply ≡ r = ground arith in
                    (
                      k,
                      refl,
                      (
                        ground arith,
                        bad_upgrade-IsUpgrade (web.accept_of k) reply.headers fine,
                        check_protocol-ok offered reply.headers e,
                      ),
                      ground arith,
                    )
              ]
            ]
          ]
        ]
