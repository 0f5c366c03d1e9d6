-- ===== src/Params/Port.antt =====
-- pkg/util/portUtil.go: the port that a request speaks to, kept in its request store.
use goto.Prelude.{
  ◌≡◌, true, [], ◌∷◌, arith, drop, length, if◌then◌else◌, ℤ, Text, codes, has_prefix, before,
  text_eq,
}
use goto.Params.Numbers.{value, atoi, itoa, IsInt64}
use goto.Params.Numbers.RoundTrip.{atoi-itoa}
use goto.Params.Mux.{Request, RequestStore, get_string_param_value}

abbrev port_prefix : Text
port_prefix = codes "/port="

-- strings.Split(uri, "/port=")[1], where the URI begins with the separator.
port_in_uri : Text → Text
port_in_uri uri = before (codes "/") (before port_prefix (drop (length port_prefix) uri))

abbrev checked : RequestStore → Text → ℤ → RequestStore
checked rs port num = record rs {
  request_port = port;
  request_port_num = num;
  request_port_checked = true;
}

port_of_param : Request → Text → RequestStore
port_of_param r [] = checked r.store (itoa r.listener_port) r.listener_port
port_of_param r (c ∷ s) = checked r.store (c ∷ s) (value (atoi (c ∷ s)))

check_request_port : Request → RequestStore
unfolding port_in_uri port_of_param
check_request_port r =
    let uri = r.request_uri in
    if has_prefix uri port_prefix
    then checked r.store (port_in_uri uri) (value (atoi (port_in_uri uri)))
    else port_of_param r (get_string_param_value r (codes "port"))

-- The store after the call.
unfoldable pub get_request_or_listener_port : Request → RequestStore
unfolding check_request_port
get_request_or_listener_port r =
    if r.store.request_port_checked then r.store else check_request_port r

unfoldable pub port : Request → Text
port r = (get_request_or_listener_port r).request_port

unfoldable pub port_num : Request → ℤ
port_num r = (get_request_or_listener_port r).request_port_num

-- The port's text and its number agree, whichever of the URI, the parameter and the listener gave
-- them, if the listener's port is a 64-bit number and a store that was filled before agrees.
port_num-atoi :
    (r : Request)
    → IsInt64 r.listener_port
    → (r.store.request_port_checked ≡ true
        → r.store.request_port_num ≡ value (atoi r.store.request_port))
    → port_num r ≡ value (atoi (port r))
unfolding get_request_or_listener_port port port_num
port_num-atoi r h k = ground (arith, k, atoi-itoa r.listener_port h)

-- Once a request's store is filled, the port stays, also when the URI and the parameters are rewritten.
pub port_sticks :
    (r r' : Request)
    → r'.store ≡ get_request_or_listener_port r
    → (port r' ≡ port r) × (port_num r' ≡ port_num r)
unfolding get_request_or_listener_port port port_num
port_sticks r r' e = ground arith
