-- ===== src/Xml/Wellformed.antt =====
-- The request of a host is well formed: tspc-advanced/src/xml/xml_req.c.
use gw6c.Base.{codes, ℕ, ◌≤◌, ◌≡◌, refl, List, [], ◌∷◌, false, ◌=s◌, if_both, length, All, arith}
use gw6c.Xml.{is_name, is_blank, starts_alpha}
use gw6c.Xml.Scan.{Passes, IsAttribute}
use gw6c.Xml.Clear.{Clear, Clear-Closes, Clear-flat, not_lt}
use gw6c.Xml.Elements.{IsElement, print_elements}
use gw6c.Xml.Nested.{Apart, print_elements-Clear}
use gw6c.Xml.Redirection.{ipv4, ipv6, type-IsAttribute}
use gw6c.Xml.Request.{Mode, v6v4, v6udpv4, v6anyv4, v4v6, Config, decimal_int, build_create_request}
use gw6c.Xml.Asks.{
  kind_of, own_address, address_element, pinged, keepalive_element, client_nodes, client_element,
  request_element, print_request,
}
use gw6c.Xml.Asked.{
  different, interval-IsAttribute, kind-IsAttribute, mode-IsAttribute, proxy-IsAttribute,
}

address-IsElement :
    (gap kind text : List ℕ)
    → Passes is_blank gap
    → IsAttribute (codes "type", kind)
    → Passes not_lt text
    → IsElement (address_element gap kind text)
unfolding starts_alpha
address-IsElement gap kind text blank attribute flat = record {
  blank = blank;
  starts = refl;
  named = (refl, (refl, (refl, (refl, (refl, (refl, (refl, tt)))))));
  short = omega arith;
  attributed = (attribute, tt);
  closes = Clear-Closes (codes "address") text (Clear-flat (codes "address") text flat);
}

module _ (name : List ℕ) (named : Passes is_name name)
    (differs : (name =s codes "address") ≡ false) where
  address-Apart :
      (gap kind text : List ℕ)
      → Passes is_blank gap
      → IsAttribute (codes "type", kind)
      → Passes not_lt text
      → Apart name (address_element gap kind text)
  address-Apart gap kind text blank attribute flat = record {
    wellformed = address-IsElement gap kind text blank attribute flat;
    differs = different name (codes "address") differs;
    inner = Clear-flat name text flat;
  }

  pinged-Apart : (m : Mode) → Apart name (pinged m)
  pinged-Apart v4v6 =
      address-Apart (codes "\r\n    ") (codes "ipv4") (codes "127.0.0.1")
        (refl, (refl, (refl, (refl, (refl, (refl, tt)))))) (type-IsAttribute ipv4)
        (refl, (refl, (refl, (refl, (refl, (refl, (refl, (refl, (refl, tt)))))))))
  pinged-Apart v6v4 =
      address-Apart (codes "\r\n    ") (codes "ipv6") (codes "::")
        (refl, (refl, (refl, (refl, (refl, (refl, tt)))))) (type-IsAttribute ipv6)
        (refl, (refl, tt))
  pinged-Apart v6udpv4 =
      address-Apart (codes "\r\n    ") (codes "ipv6") (codes "::")
        (refl, (refl, (refl, (refl, (refl, (refl, tt)))))) (type-IsAttribute ipv6)
        (refl, (refl, tt))
  pinged-Apart v6anyv4 =
      address-Apart (codes "\r\n    ") (codes "ipv6") (codes "::")
        (refl, (refl, (refl, (refl, (refl, (refl, tt)))))) (type-IsAttribute ipv6)
        (refl, (refl, tt))

  -- The content of keepalive.
  pinged-Clear : (m : Mode) → Clear name (print_elements (pinged m ∷ []) (codes "\r\n  "))
  pinged-Clear m =
      print_elements-Clear name named (pinged m ∷ []) (codes "\r\n  ") (pinged-Apart m, tt)
        (refl, (refl, (refl, (refl, tt))))

keepalive-IsElement : (conf : Config) → IsElement (keepalive_element conf)
unfolding starts_alpha
keepalive-IsElement conf = record {
  blank = (refl, (refl, (refl, (refl, tt))));
  starts = refl;
  named = (refl, (refl, (refl, (refl, (refl, (refl, (refl, (refl, (refl, tt)))))))));
  short = omega arith;
  attributed = (interval-IsAttribute conf.keepalive_interval, tt);
  closes = Clear-Closes (codes "keepalive") _ (
      pinged-Clear (codes "keepalive")
        (refl, (refl, (refl, (refl, (refl, (refl, (refl, (refl, (refl, tt))))))))) refl
        conf.tunnel_mode);
}

module _ (conf : Config) (flat : Passes not_lt (own_address conf)) (name : List ℕ)
    (named : Passes is_name name) (differs : (name =s codes "address") ≡ false)
    (differs' : (name =s codes "keepalive") ≡ false) where
  client_nodes-Apart : All (Apart name) (client_nodes conf)
  client_nodes-Apart = (
    address-Apart name named differs (codes "\r\n  ") (kind_of conf.tunnel_mode) (own_address conf)
        (refl, (refl, (refl, (refl, tt)))) (kind-IsAttribute conf.tunnel_mode) flat,
    if_both (All (Apart name)) conf.keepalive
        (
          record {
            wellformed = keepalive-IsElement conf;
            differs = different name (codes "keepalive") differs';
            inner = pinged-Clear name named differs conf.tunnel_mode;
          },
          tt,
        )
        tt,
  )

  client_nodes-Clear : Clear name (print_elements (client_nodes conf) (codes "\r\n "))
  client_nodes-Clear =
      print_elements-Clear name named (client_nodes conf) (codes "\r\n ") client_nodes-Apart
        (refl, (refl, (refl, tt)))

client-IsElement :
    (conf : Config) → Passes not_lt (own_address conf) → IsElement (client_element conf)
unfolding starts_alpha
client-IsElement conf flat = record {
  blank = (refl, (refl, (refl, tt)));
  starts = refl;
  named = (refl, (refl, (refl, (refl, (refl, (refl, tt))))));
  short = omega arith;
  attributed = tt;
  closes = Clear-Closes (codes "client") _ (
      client_nodes-Clear conf flat (codes "client")
        (refl, (refl, (refl, (refl, (refl, (refl, tt)))))) refl refl);
}

request-IsElement :
    (conf : Config) → Passes not_lt (own_address conf) → IsElement (request_element conf)
unfolding starts_alpha
request-IsElement conf flat = record {
  blank = tt;
  starts = refl;
  named = (refl, (refl, (refl, (refl, (refl, (refl, tt))))));
  short = omega arith;
  attributed = (
    record {
      starts = refl;
      named = (refl, (refl, (refl, (refl, (refl, (refl, tt))))));
      valued = (refl, (refl, (refl, (refl, (refl, (refl, tt))))));
      flat = (refl, (refl, (refl, (refl, (refl, (refl, tt))))));
    },
    (mode-IsAttribute conf.tunnel_mode, (proxy-IsAttribute conf.proxy_client, tt)),
  );
  closes = Clear-Closes (codes "tunnel") _ (
      print_elements-Clear (codes "tunnel") (refl, (refl, (refl, (refl, (refl, (refl, tt))))))
        (client_element conf ∷ []) (codes "\r\n")
        (
          record {
            wellformed = client-IsElement conf flat;
            differs = different (codes "tunnel") (codes "client") refl;
            inner =
                client_nodes-Clear conf flat (codes "tunnel")
                  (refl, (refl, (refl, (refl, (refl, (refl, tt)))))) refl refl;
          },
          tt,
        )
        (refl, (refl, tt)));
}

-- The request of a client that is no router, whose address for the mode of the tunnel has at most
-- 900 bytes and no `<`, and whose keepalive interval prints in at most 900 bytes: it is a document
-- of one well-formed node and an end of line. The node is a tunnel with the action create, the mode
-- and whether there is a proxy, around a client with this address and, if it wants one, a keepalive
-- with its interval and an address. The configuration is left as it was.
pub build_create_request-IsElement :
    (conf : Config)
    → (conf.host_type =s codes "router") ≡ false
    → length (own_address conf) ≤ 900
    → Passes not_lt (own_address conf)
    → length (decimal_int conf.keepalive_interval) ≤ 900
    → (build_create_request conf
        ≡ (print_elements (request_element conf ∷ []) (codes "\r\n"), conf))
      × IsElement (request_element conf)
build_create_request-IsElement conf host short flat interval =
    (print_request conf host short interval, request-IsElement conf flat)
