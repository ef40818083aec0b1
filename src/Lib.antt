-- ===== src/Lib.antt =====
-- go-dqlite: the wire protocol, the connector, the client, the SQL driver and the roles management of
-- the Go client of dqlite.
--
-- The program. A client talks to a dqlite server over a connection. internal/protocol holds a message,
-- whose buffer is used again by every request and response: request.go encodes a request into it,
-- protocol.go sends it and receives the answer, response.go decodes the answer, and Rows and Files walk
-- through its body. The connector dials the servers of a node store until one is the leader; client has
-- the requests of a cluster, and driver those of database/sql. app keeps a node in a cluster; app/roles.go
-- decides from a picture of the cluster which node should change its role.
--
-- The files. Prelude holds the shared names, tests, list lemmas and integers; Outcome says how a run
-- ends: it returns, panics, or never returns; Node is NodeInfo and NodeRole of
-- internal/protocol/store.go.
--
-- Message is internal/protocol/message.go and buffer.go. State is the record of a message, and
-- actions on it with a do notation; init and reset are Init and reset. Put has the put methods,
-- bufferForPut, putHeader and finalize; Values has putNamedValues and putNamedValues32 with the
-- datatype codes; Get has the get methods; Rows has columnTypes, Next and Close of Rows and Next of
-- Files, and Columns has ColumnTypes.
-- A method has the Go name in snake case. The other children are proofs: Copy, Grow, Writes, Words,
-- Text, Fields, Params and Header for the writers, Reads, ReadText, ReadRows and ReadAll for the readers,
-- RoundTrip for one behind the other, Start for Init, Binding for the parameters that are refused, and
-- Ending for readers that end.
--
-- Protocol has Constants (constants.go), Request (request.go), Schema (the go:generate lines of schema.go
-- as data) and Encoding, which sets the encoders against the schema; Response (response.go, and
-- DecodeNodeCompat of protocol.go) and Decoding.
-- Connection is Call, Interrupt, send, recv and Close of protocol.go over a net.Conn that is a parameter;
-- Delivery, Failing, Exchange, Keeping, Total and Progress are proofs about them. Session is one connection with the two
-- messages of a user of protocol.go, and the steps on them, with errors as values and a do notation.
--
-- Connector is internal/protocol/connector.go and config.go: Config has NewConnector, Handshake the
-- handshake and what is asked of a server, Attempt has connectAttemptOne and the loop of
-- connectAttemptAll, Connect has connectAttemptAll, Connect and makeRetryStrategies, and Delay the
-- sleep between attempts. Progress, Ends, Closing, Table, Leaks,
-- Steps, Registration, Served and Search are proofs.
--
-- Client is client/client.go, one function for each request, and its child Opening has New and FindLeader
-- (client/leader.go); Answered, Served and Opened are proofs. Driver is driver/driver.go: Errors has driverError,
-- Conn the connection, transactions and statements, Rows the rows, and Open the options and the Connector,
-- which opens a database; Verdicts, Exec and Opened are proofs.
--
-- App/Roles is app/roles.go: Assume, Handover and Adjust with their helpers under the Go names. Its
-- children are proofs; Runtime states what is relied on of the Go runtime.
--
-- Examples runs the code on small input.
--
-- Choices. Bytes and words are natural numbers; a conversion that wraps is written out, as uint32(offset)
-- of putHeader and the product m.words * messageWordSize of the readers. A slice index out of range is a
-- panic. A float64 is its bit pattern and a string its bytes. The loop of bufferForPut runs on fuel,
-- as many rounds as bytes are needed: each round at least doubles a buffer that is not empty, so that
-- this is enough, and a run out of fuel is a run that never returns. recvBody grows its buffer in the
-- same way, and recvPeek takes as many rounds as bytes at most, since each fills one; the loop of
-- Interrupt has its rounds as an argument. The other loops are structural. Go's time formatting and
-- parsing, the order in which it iterates a map, and sort.Slice are parameters. The last two have
-- hypotheses: an iteration visits each entry once, and sort.Slice permutes its slice and sorts it where the comparison is a strict weak order.
-- So are the network with its dials, the clock, the contexts' deadlines and the retry package: a
-- network counts the dials that have succeeded less the closes, and a retry ends behind the first
-- attempt that succeeds, while a limit of more than one lets the first attempt pass. A read of a net.Conn
-- may return any bytes or a negative count, with an error or without one.
--
-- Not modelled: dialing itself (dial.go), the node stores and the texts of roles, app/app.go with its
-- goroutines, TLS and files, the shell, commands and benchmark, all of them largely input and output; the
-- cgo bindings; log lines, tracing, the calls without a context that are deprecated, and the texts wrapped
-- around errors.
pub mod Prelude
pub mod Outcome
pub mod Node
pub mod Message
pub mod Protocol
pub mod App
pub mod Connector
pub mod Client
pub mod Driver
pub mod Examples
