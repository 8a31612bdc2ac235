-- ===== src/Util/Endpoint.antt =====
-- Endpoints of gRPC servers, pkg/util/grpcutil.go and pkg/types/types.go.
use longhorn_engine_launcher.Prelude.{◌≡◌, ◌⊎◌, refl, some, [], ◌∷◌, arith}
use longhorn_engine_launcher.Prelude.Text.{Text, codes, text_eq, text_eq_iff}
use longhorn_engine_launcher.Prelude.Strings.{split_once}
use longhorn_engine_launcher.Util.{parse_endpoint, add_tcp_prefix_for_address}

-- An address is parsed back, with the protocol tcp, from the endpoint that AddTcpPrefixForAddress
-- makes of it, the empty one included.
pub parse_endpoint-add_tcp_prefix :
    (address : Text)
    → parse_endpoint (add_tcp_prefix_for_address address) ≡ some (codes "tcp", address)
unfolding parse_endpoint add_tcp_prefix_for_address split_once text_eq
parse_endpoint-add_tcp_prefix [] = refl
parse_endpoint-add_tcp_prefix (c ∷ cs) = refl

-- An endpoint that is parsed has the protocol unix or tcp.
pub parse_endpoint-proto :
    (ep proto address : Text)
    → parse_endpoint ep ≡ some (proto, address)
    → (proto ≡ codes "unix") ⊎ (proto ≡ codes "tcp")
unfolding parse_endpoint
parse_endpoint-proto ep proto address h =
    ground (arith, text_eq_iff proto (codes "unix"), text_eq_iff proto (codes "tcp"))
