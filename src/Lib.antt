-- ===== src/Lib.antt =====
-- pftp is an FTP proxy. A client handler reads the commands of one client (pftp/client_handler.go,
-- pftp/handle_commands.go) and passes them, cleaned, to the origin through a proxy
-- (pftp/proxy.go), which passes the origin's replies back. With the data channel proxy the two also
-- share a data handler (pftp/data_handler.go) that listens or dials on both sides of a transfer.
-- The configuration is in pftp/config.go, the TLS settings are in pftp/tls.go.
--
-- The files and the code:
-- Base: notation, tests on numbers, Go's int in 64 bits, results that may be a panic (Outcome).
-- Text, Net: what the program uses of Go's packages strings, strconv and net, on lists of bytes.
-- Config: config, tlsPair, NewConfig, loadConfig, validateConfig, dataPortRangeValidation; the With
--   options are in Config/Options.
-- Tls: getTLSProtocol, getCiphers, removeDuplicates, the configs toward client and origin with
--   their setters.
-- Address: parseLineToAddr, parseEPRTtoAddr, isPublicIP, getListenPort.
-- Command: commandLineCheck, getCommand, getCode.
-- World: connections, listeners and the answers of the network. What a call answers is a function of
--   the time of the call; every call leaves an event behind.
-- Data: newDataHandler, checkNeedListen, setNewListener, Close; parsePORTcommand, parseEPRTcommand,
--   parsePASVresponse and parseEPSVresponse are in Data/Announce, copyPackets and sendEOF in
--   Data/Copy, whose rounds are what the network answers; they are the fuel of that loop, and a loop
--   that has used them up waits. Data/Transfer has StartDataTransfer with clientListenOrDial,
--   originListenOrDial and run; Data/Connecting has their goroutines as steps in any order.
-- Proxy: the state of proxyServer, SetDataHandler and the like, and what startProxy does to a line
--   of the origin (rewrite) and to a reply of several lines (complete). Proxy/Relay has the loop of
--   startProxy; Proxy/Life has newProxyServer, Close and switchOrigin, Proxy/Switch the
--   sendProxyHeader and sendTLSCommand that a switch calls. Proxy/Signals has the goroutine that reads
--   from the origin, the loop of startProxy with getResponseFromOrigin, and switchOrigin, as steps on
--   their channels and flags.
-- Session: the state of clientHandler, Response, sendToOrigin, handleTransfer, handlePROXY; AUTH,
--   PBSZ and PROT are in Session/Secure, handleDATA is in Session/DataCommands, handleUSER and
--   connectProxy in Session/User. Session/Dispatch has handleCommand with the table of handlers, the
--   middleware and the recovery from a panic; Session/Start has newClientHandler and the two ends of
--   handleCommands, Session/Reading the loop readClientCommands. Session/Runs puts the commands of
--   the client and the replies of the origin in any order.
-- Server: pftp/server.go. NewFtpServer, Use, listen and stop; Server/Connections has the connections
--   as a step relation: a connection is accepted, checked against the limit, or ended, in any order.
--   Server/Shutdown has Start with serve and the signal as steps in any order.
-- Log: the logger, and commandLog of the client handler and of the proxy. An entry is a format with its
--   arguments, as logrus gets it.
-- Sockets: connectionCloser with what it logs, setReuseIPPort, safeSetChanel.
-- Deadlines: the deadlines of the two control connections with the flag of a transfer, over the
--   moments of a session, each with its time.
-- Main: main.go and example/webapi/webapi.go, the middleware that asks a web API for the origin.
--
-- A session is passed on explicitly, and a handler ends with a result, with nil, or with a panic.
-- The flag inDataTransfer, which all objects of a session share, is a field of the World. Texts are
-- lists of bytes. The Unicode part of strings.ToUpper, rand.Intn, the network, the files of
-- certificates, the TOML and JSON decoders and the HTTP client are parameters.
-- The loop of setNewListener has 31 rounds as fuel: it gives up when its counter is above 30. The loop
-- of startProxy has one round more than there are lines, since every round reads one.
-- In Proxy/Life and Session/Runs a switch of the origin and the loop that reads its replies take their
-- signals in order: the loop stops and closes the proxy, then the new connection is made; and the
-- lines that a dial brings are those that are read while the connection is set up. Commands and
-- replies are taken one at a time, as if each were handled as a whole, and no reply behind what ends
-- the loop that reads them. In Proxy/Signals the accesses to the channels and flags come in any order,
-- and the text of the lines is left out.
-- A server has fewer than 2 ^ 31 open connections, each of which is a file of the system.
--
-- A transfer runs beside its session. In Data/Transfer its two goroutines are taken in two orders behind
-- the connection of the client: the TLS of the client first, or the whole part of the origin first.
-- What the session does to the handler meanwhile shows in the rounds of the copying only. In
-- Data/Connecting the steps of the goroutines and the closing of the handler by the session come in
-- any order, and what the connections carry is left out.
--
-- Not modelled: the goroutines and channels beyond the above, socket options, the deadlines of data
-- connections and listeners, the output of logrus and the entries other than those of a command line
-- and of a close. A write either succeeds as a whole or fails.
pub mod Base
pub mod Text
pub mod Net
pub mod Address
pub mod Command
pub mod Config
pub mod Tls
pub mod World
pub mod Data
pub mod Proxy
pub mod Session
pub mod Server
pub mod Log
pub mod Sockets
pub mod Deadlines
pub mod Main
