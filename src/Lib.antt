-- ===== src/Lib.antt =====
-- Vetera Bridge: an ESP32 firmware that gives old Symbian phones, which dial up over Bluetooth, a way
-- to the internet through WiFi.
--
-- How the program works. A phone opens an RFCOMM channel; main/ppp_link.c accepts it, by the
-- security mode, and runs PPP over it. The phone's name lookups go to main/dns_fwd.c, which
-- forwards them over WiFi, caches the replies, and answers with the bridge's own address while
-- WiFi is down. main/http_proxy.c takes the phone's connections to ports 80 and 443 out of the IP
-- stream and sends them to relays on the bridge, by a table of flows; the wrapper of the PPP
-- interface's output undoes the change on the way back. main/wifi_multi.c keeps WiFi up by the list
-- of saved networks. main/gateway.c shares the state with it: it hides the bridge while a phone is in
-- session, starts WiFi when PPP comes up, and reboots when memory runs out. main/bt_bootstrap.c
-- connects once to a newly paired phone. main/sec_button.c steps the security mode, main/bt_name.c gives
-- the bridge its Bluetooth name, main/debug_log.c switches the extended logging,
-- main/bookmarks.c keeps links for the phone's start page, and main/web_ui.c serves that page and the
-- forms for all of these.
--
-- Which file models what. A function has the name of the C function, less the module's prefix.
--   Prelude: shared names; Boolean tests and the conditional (Tests), lists of native length with the
--     lemmas on them (Lists), the wrap-around of uint8, uint16 and uint32 (Words).
--   Dns (main/dns_fwd.c): Cache, the reply cache as a list of sixteen entries and a position; Reply, the
--     replies that the bridge makes itself; Desc, the name for the log; Forward, the wait for the
--     upstream's reply; Server, one pass of the task and its loop; Watchdog, the heartbeat check.
--   Proxy (main/http_proxy.c): Checksum, the packets and the incremental checksums; Settings, the shared
--     settings and their keys in flash; Flow, the flow table; Hook, the input hook and the wrapper
--     of the interface's output; Sni, the server name of a TLS connection; Request, the rewriting
--     of a request's head; Session, the relay's sessions: their calls (Session), the phases before the
--     copying (Setup), the copying (Splice), and the rounds of the task (Task).
--   Ppp (main/ppp_link.c, main/sec_button.c): Names, the names of phones without security; Security, the
--     saved mode and the button; Handshake, the dial-up script; Link, the state and the handlers.
--   Wifi (main/wifi_multi.c): Saved, the list of networks and its blob in flash; Scan, the candidates of a
--     scan; Cycle, the attempts, retries and events; Watchdog, the heartbeat check.
--   Gateway (main/gateway.c): the application state over Wifi.Cycle, the hooks, the deferred start.
--   Bootstrap (main/bt_bootstrap.c): the connection into a newly paired phone.
--   DebugLog (main/debug_log.c): the flags of the extended logging.
--   Web (main/web_ui.c): the escaping, the links of the start page and the decoding of forms; Posts, the
--     bodies that are posted, and three handlers over Gateway, Naming and DebugLog.
--   Naming (main/bt_name.c): the Bluetooth name and its renames.
--   Bookmarks (main/bookmarks.c): Text, the cleaning of titles and addresses; Store, the list in flash.
--
-- How state and calls are modelled. A module's static variables are a record, and a handler is a
-- function from the record to the new record. What BTstack, lwIP, FreeRTOS and the sockets return
-- to the code is an argument; what the code asks of them is a list of actions, in order. A packet is
-- the list of its bytes, or the record of its header fields. Sections that the code runs under
-- one lock are one step.
--
-- Bounds and fuel. Integers are natural numbers, with the wrap-around of their C type written out where
-- the code can wrap. The walks over a name in a DNS packet run on fuel, the packet's length: each
-- round moves on by at least a byte. The parser of a ClientHello has the packet's length too, and moves on
-- by three bytes or more. The passes over the lines of a request's head have the head's length, and
-- each round takes a line end off it. All other loops are structural, over the table, the packet, or the
-- list of what a socket or a pin gave. The count of failed WiFi cycles, an int, is not given a bound.
--
-- What is not modelled: the registration calls at start-up, the creation of the relay's listeners, the
-- tasks' scheduling between two locked sections, the text of the log and of most pages, and the
-- Bluetooth port under components/, which is another project's code. Of main/gateway.c, the answers to
-- pairing requests are left out; of main/web_ui.c, the handlers that Web and Web.Posts do not name.
-- main/sdp_lap.c and main/main.c have no model: they fill a service record and start the tasks.
pub mod Bookmarks
pub mod Bootstrap
pub mod DebugLog
pub mod Dns
pub mod Gateway
pub mod Naming
pub mod Ppp
pub mod Prelude
pub mod Proxy
pub mod Web
pub mod Wifi
