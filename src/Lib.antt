-- ===== src/Lib.antt =====
-- The Gateway6 client, tspc-advanced: what its parts do, and what is proved of them.
--
-- The client sets up an IPv6 tunnel with a broker by the Tunnel Setup Protocol (TSP). Its main
-- function, `tspMain`, chooses a server, and then loops: it picks a transport and a version of
-- the protocol, makes one attempt (`tspSetupTunnel`), and acts on the status of the attempt. An
-- attempt connects, reads the capabilities of the broker, authenticates, asks for the tunnel and
-- runs it. At each reply the broker may redirect the client to a list of other brokers, which
-- the client measures, sorts, saves, and then tries one after the other.
--
-- The files, and the code they are about (paths from the root of the repository):
--
--   Base      names of the libraries, Boolean tests and lists on native numbers, bit operations,
--             and `Run`, the outcome of a call that may end the process by `exit`.
--   Buffer    tspc-advanced/src/lib/buffer.c: `Buffer` is the structure, `init`, `clear`,
--             `append_space`, `append`, `get`, `consume`, `consume_end` and `free` are the functions
--             `buffer_…` of these names, `restart` is the loop of `buffer_append_space` behind its
--             label. `Queue` is the byte queue that the functions implement.
--   Buffer.Aux  tspc-advanced/src/lib/bufaux.c: `put_int`, `get_string` and the others are
--             `buffer_put_int`, `buffer_get_string`, and so on; `put_32bit` and `get_32bit` are the
--             macros of include/getput.h.
--   Base64    tspc-advanced/src/lib/base64.c: `decode` is `base64decode`, and so on.
--   Checksum  tspc-advanced/src/net/net_cksm.c.
--   Broker    tspc-advanced/src/tsp/tsp_redirect.c: `add_broker` is `tspAddBrokerToList`,
--             `create_broker_list`, `insert_in_broker_list` and `sort_broker_list` are the functions
--             `tsp…` of these names, `add_all` is one of the three loops of the first, and
--             `get_broker_distances` is `tspGetBrokerDistances` of platform/unix-common. `Files` is
--             about the broker list file and the last server file, `Log` about the text of a
--             list, `Redirect` about `tspHandleRedirect`.
--   Session   `Capability` is tsp_cap.c, `Auth` is tsp_auth.c and `Setup` is `tspSetupTunnel` of
--             tsp_client.c, in tspc-advanced/src/tsp. The parts of `tspSetupTunnel` are functions:
--             `after_authentication`, `request_tunnel`, `take_answer` and `run_tunnel`. `Payload` is
--             `tspAddPayloadString`, on a record of the size, the capacity and the text.
--             `Digest` is `AuthDIGEST_MD5` of tsp_auth.c: `extract_challenge` is
--             `ExtractChallenge`, whose loop is a scanner that takes one byte at a time; in `Login`
--             `respond` builds the message and the answer that it asks for, and `verify` and
--             `finish` judge the replies.
--             `Passdss` is tsp_auth_passdss.c: the messages, the transcript that is signed and the
--             keys; `Keys` is the key file with `freadline`, `is_dsakey_in_keyfile` and
--             `add_dsakey_to_keyfile`, `Login` is `AuthPASSDSS_3DES_1`, and `Layout` has the messages,
--             from the draft that the code quotes. The file as a table of hosts and keys is
--             `print` in `Table`.
--             `Mutual` puts runs of the two exchanges in the place of what `Auth` takes as arguments.
--   Tunnel    tspc-advanced/src/tsp/tsp_setup.c: the checks of an answer and the environment of the
--             template script; `Setup` runs the script, `Start` is `tspStartLocal` of
--             tspc-advanced/platform/linux/tsp_local.c with `tspPerformTunnelLoop` of tsp_tun_mgt.c
--             and tsp_lease.c. `delegate` is what `set_tsp_env_variables` does with the prefix.
--   Client    the loop of `tspMain`: `State` holds its variables, `start` chooses the first server,
--             `choose_transport` is the switch on the mode, `dispatch` the chain of tests on the
--             status, `cant_connect` its largest branch, `pass` the body of the loop and `loop` the
--             loop over what the passes meet. `tries` of `Walk` lists what the passes of that loop
--             connect to.
--   Keepalive tspc-advanced/src/net/net_ka.c: `keepalive_do` is `NetKeepaliveDo`, `round` is its part
--             at the time of an event, `keepalive_read` and `keepalive_write` note traffic. `Loop` is
--             `TunMainLoop` of tspc-advanced/platform/linux/tsp_tun.c, which runs a tunnel.
--   Rudp      tspc-advanced/src/net/net_rudp.c: `send_recv` is `internal_send_recv`, `send_loop` and
--             `select_loop` are its two loops, `init`, `deinit`, `update`, `get_timestamp`,
--             `get_adjusted_rto` and `get_sai` are the functions of the engine, `connect` and `close`
--             are `NetRUDPConnect` and `NetRUDPClose`. `Stats` is the state of the engine.
--   Xml       `Xml` and `Xml.Parser` are `XMLParse` of tspc-advanced/src/xml/xmlparse.c, one function
--             for each stretch of its loop. `Tunnel` is tspc-advanced/src/xml/xml_tun.c: `Handlers`
--             has the functions `process_…` of nodes with other nodes in them, `Payload` has
--             `tspXMLParse`, the tables, and `tspExtractPayload` of tsp_client.c. `Request` is
--             tspc-advanced/src/xml/xml_req.c, with the configuration as it is left. `Elements`,
--             `Message` and `Asks` print documents, for the theorems on the parser.
--   Prefix    `IsAddressInPrefix` of tspc-advanced/src/lib/lib.c.
--
-- How the code is modelled. A C string is the list of its bytes without the final zero, NULL is
-- `none`. A linked list of brokers is a List; where a pointer into it lives on, the list carries
-- the number of its allocation, and a pointer the number of the allocation it points into, so that
-- a read through a pointer that dangles is told from a good one (`bad_pointer`). `size_t` is 64 bits
-- wide with its wrap-around written out. What the outside gives (memory, files, threads, replies
-- of a broker) is an argument. `expand` is what `snprintf` makes of a format without arguments,
-- since the code passes addresses as formats. OpenSSL is a record of operations, whose laws are
-- those of its manual. The build is the one with V4V6_SUPPORT and without HAP6; `Tunnel` is what
-- Linux builds, which is without V4V6_SUPPORT.
--
-- Bounds and fuel. `restart` runs on fuel 3: after at most one move and one growth there is room.
-- `parse_loop` runs on the length of its text, since each pass takes at least the `<` of a tag, and
-- `read_attributes` on the length of what is left and one more, since each attribute takes a byte.
-- `scan_lines` runs on the length of the key file and one more, since each line takes a byte. The
-- other loops follow a list or a number: the connection loop the list of what its passes meet,
-- for all such lists, and reliable UDP the list of what its transmissions meet.
--
-- Not modelled: messages to the log and to the GUI; MD5 and OpenSSL themselves, which are
-- arguments; failures of `malloc` in
-- the XML parser, which the code reports, and in buffer.c, where it does not check them; the sleep
-- between attempts and the pause before a fallback; the start of `tspMain` up to the choice of the
-- server; overflow of `int` in `atoi`; the random times and the sockets of keepalive, the
-- configuration, and the platforms but for the two parts above. `Session.Setup` takes what
-- `tspExtractPayload` makes of a reply as an argument, and `Session.Auth` what DIGEST-MD5 and PASSDSS
-- come to, for which `Session.Mutual` puts their runs.
pub mod Base
pub mod Buffer
pub mod Base64
pub mod Checksum
pub mod Broker
pub mod Session
pub mod Tunnel
pub mod Client
pub mod Keepalive
pub mod Prefix
pub mod Rudp
pub mod Xml
