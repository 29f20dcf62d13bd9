-- ===== src/Lib.antt =====
-- The AirPlay receiver of J.A.R.V.I.S (include/AirPlayServer/lib) and its microphone driver
-- (src/client/ac10x/ac108.c), modelled and verified.
--
-- The program receives audio and video from AirPlay clients. Audio packets come over UDP in any
-- order: raop_rtp.c hands them to raop_buffer.c, which decrypts them, puts them in the order of
-- their sequence numbers, asks for missing ones and hands them on for playing. Video packets come
-- over TCP: mirror_buffer.c decrypts them as one AES-CTR stream. raop_ntp.c follows the clock of the
-- client, and the control connection is HTTP: httpd.c, http_request.c and http_response.c. A client
-- pairs over it: raop_handlers.h calls pairing.c. raop_rtp.c and raop_rtp_mirror.c are the services
-- that receive the packets of audio and video.
--
-- The driver sets up the AC108 converters of the microphones over I2C: it programs their PLL, the
-- format of the audio interface and the slots that each of two chips sends in, and starts and stops
-- their clock.
--
-- Modules, with the files that they model (under include/AirPlayServer/lib, but for the driver's):
--   Prelude       shared names, lists over native numbers, C integer types
--   ByteUtils     byteutils.c: integers and NTP timestamps in packets
--   RaopBuffer    raop_buffer.c, and the playing loop of raop_rtp.c (`RaopBuffer.Runs.drain`)
--   MirrorBuffer  mirror_buffer.c, and the AES-CTR functions of crypto.c
--   HttpResponse  http_response.c: the response in a growing buffer
--   HttpRequest   http_request.c: the callbacks of the parser, and the header fields
--   Httpd         httpd.c: the table of connections, the start and stop of the server, and what its
--                 thread does for a connection
--   RaopNtp       raop_ntp.c: the exchanges with the client's clock and the offset taken from them
--   RaopRtp       raop_rtp.c: the audio service, its clock, its packets and pending requests
--   RaopRtpMirror raop_rtp_mirror.c: the video service, from the stream to blocks for the renderer
--   Pairing       pairing.c, and the handlers of pairing in raop_handlers.h
--   Raop          raop.c: the admission of a client and the choice of the handler of a request, and
--                 the handlers of raop_handlers.h for audio and video
--   Fairplay      fairplay_playfair.c, and its handler in raop_handlers.h
--   Utils         utils.c: hexadecimal text, hardware and network addresses, the split of a text
--   Ac108         src/client/ac10x/ac108.c, with the constants of include/ac10x/ac108.h: `Regmap` the
--                 state and the access to the registers, `Clock`, `Format`, `Params`, `Controls` and
--                 `Device` the operations; the other children prove what the registers hold
--   Tests         runs on small inputs, and the theorems at concrete inputs
--
-- Functions keep their C names without the prefix of their file (`raop_buffer_enqueue` is
-- `RaopBuffer.enqueue`). A function that changes a structure returns the new one. Unsigned
-- integers are native numbers with their wrap written out; `short` and `int` differences are taken
-- in `ℤ` and cut to their width. A `NULL` pointer is `none`. OpenSSL is a parameter: AES-CBC a
-- function on the cipher text, AES-CTR its key stream.
--
-- The loop of `raop_buffer_handle_resends` has 32769 rounds of fuel, which is enough since a
-- negative `short` difference is at least -32768. The playing loop takes its fuel as an argument;
-- the audio service gives it 33 rounds, more than the window has packets. The loop over the units of
-- a video payload has one round more than the payload has bytes, and each round moves on by four; an
-- `int` that overflows there is the result `overflow`, on which the thread has no defined behaviour.
-- The loop over the lines of GET_PARAMETER has one round more than bytes, and each takes two of them.
--
-- The growth of the response buffer has more fuel than the text is long, and each round adds a byte;
-- a number has fewer digits than its value plus one, the fuel of `decimal`. llhttp is a parameter: a
-- call of it is the list of callbacks that it makes. An `int64_t` of the clock is an integer.
--
-- The results of `accept`, `getsockname`, `listen` and `conn_init` are arguments of the operations of
-- Httpd; its loop over the sockets is a sequence of events (`Httpd.Runs.Event`).
--
-- The floating-point computations of raop_rtp.c (the mean of the offsets, and the playing time before
-- the first sync) are parameters, and a volume is counted in units of 2 ^ -149. OpenSSL and csrp are
-- the record `Pairing.Crypto`; random keys and the items of property lists are arguments. Where
-- OpenSSL derives no X25519 secret, `handle_error` ends the process, which is a fault of the model.
--
-- The kernel is the record `Ac108.Regmap.Kernel`: the calls on register maps, and those of the AC101
-- driver, whose source is not in the repository. What the kernel documents of a bus that works is the
-- record `Ac108.Works.Works`, a hypothesis of the theorems that need it; it says nothing of a NULL map.
-- The driver's `|=` of statuses is a flag, since the callers only test it, and a word of the format is
-- taken apart into its fields. The rates of the kernel's mask SNDRV_PCM_RATE_8000_96000 are an argument.
--
-- Not modelled: logging, failing allocations (the code does not check most of them), sockets,
-- threads, the announcement of the services (dnssd.c, netutils.c) and the rendering of audio and
-- video; the keys and the clock of the first SETUP request and the list of /info; the copies of other
-- libraries (llhttp, csrp, PlayFair, prometheus-cpp); and the C++ of src/client, which is the
-- receiver's command line, the microphone array and the voice assistant.
pub mod Prelude
pub mod Ac108
pub mod ByteUtils
pub mod RaopBuffer
pub mod MirrorBuffer
pub mod HttpResponse
pub mod HttpRequest
pub mod Httpd
pub mod RaopNtp
pub mod RaopRtp
pub mod RaopRtpMirror
pub mod Pairing
pub mod Raop
pub mod Fairplay
pub mod Utils
pub mod Tests
