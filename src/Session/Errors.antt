-- ===== src/Session/Errors.antt =====
-- `tErrors` of tspc-advanced/include/errors.h, as far as a session uses them.
use gw6c.Base.{ℕ}

abbrev pub no_error : ℕ
no_error = 0

abbrev pub tsp_error : ℕ
tsp_error = 2

abbrev pub socket_error : ℕ
socket_error = 3

abbrev pub interface_setup_failed : ℕ
interface_setup_failed = 4

abbrev pub keepalive_timeout : ℕ
keepalive_timeout = 5

abbrev pub tunnel_error : ℕ
tunnel_error = 7

abbrev pub tsp_version_error : ℕ
tsp_version_error = 8

abbrev pub authentication_error : ℕ
authentication_error = 9

abbrev pub lease_expired : ℕ
lease_expired = 10

abbrev pub server_side_error : ℕ
server_side_error = 11

abbrev pub broker_redirection : ℕ
broker_redirection = 19

abbrev pub broker_redirection_error : ℕ
broker_redirection_error = 20

abbrev pub cant_connect : ℕ
cant_connect = 21
