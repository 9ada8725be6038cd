-- ===== src/Lib.antt =====
-- The shared contracts of GossipCache, an in-process L1 cache with a memory-first L2 hub. The
-- repository holds the contracts that nodes and hubs agree on; the hub's runtime and the node's
-- facade are not written yet. A node asks the hub for records and sends it mutations over the data
-- RPC, and hears of invalidations over the control stream. Both sides check every message with the
-- `Validate` methods, and turn it into protobuf and back with the conversion functions.
--
-- The parts, and the files that model them:
--   internal/wire       Wire: Protocol (ProtocolRange, Validate, Negotiate), Version (VersionTag),
--                       Status, Record (GetRecordFields), MutationId, Options (WriteOptions, the
--                       enumerations, TTLMillis), Partition (xxHash64, PartitionOf), Requests
--                       (GetRequest, SetRequest, DeleteRequest)
--   internal/rpc        Rpc: Handshake, Read and Mutation (types.go), Status (status.go), Dedup
--                       (dedup.go), Convert (convert.go: Enums, ToProto, FromProto), Ports
--   internal/control    Control: Session, Batch and Delivery (types.go), Convert (convert.go: Values,
--                       ToProto, FromProto, Envelope)
--   internal/l1         L1: Hub and Contract (hub.go), Clones (fake_contract.go too)
--   api/gen/gossipcache/v1
--                       Pb: the fields of the generated messages, which the conversions read
--   google.golang.org/protobuf
--                       Encoding: `proto.Size`, what the limits are about, as a parameter
-- The Clone methods of each package are in its Clones module. The conversions over the arrays that
-- they copy are in Rpc.Transfer (mutations), Rpc.Transfer.Reads (reads and their answers),
-- Control.Transfer (batches), Control.Transfer.Sessions (hellos and subscriptions), and
-- Control.Transfer.Envelope and ServerEnvelope (whole messages of the two streams). The error values
-- of all packages are in Errors, and the arrays that slices share in Ownership. Common holds what Go
-- and its standard library contribute: int64, words of 64 bits, byte lists and the trimming of
-- texts. The modules below a part are its theorems, and the Tests modules run it on concrete
-- inputs.
--
-- How the code is read. A method `T.Validate` is `validate_t`, a function keeps its name. A
-- `[]byte` is a list of numbers below 256, and a nil slice is the empty one: no modelled check or
-- conversion tells them apart. Only for the Clone methods and in the Transfer modules, which are
-- about sharing, a slice is a view of an array in a store (Ownership), each struct has a `Held`
-- form with such slices, and `Writes` are the runs of a program that may change some of the
-- arrays; a pointer to a version is nil or a view of one cell. The pointers to messages that reads
-- and hellos hold are such views too, so that a transport may write to a message behind them; those
-- in batches and mutations, and the pointers elsewhere, are Options. A conversion that allocates in a
-- loop allocates at the end of it: no address is observed.
-- An `error` is an Option of what `errors.Is` finds in it: the sentinel under the text that
-- fmt.Errorf adds. A pair of a value and an error is a pair where the code returns a value beside
-- the error, and a Result where that value is the zero value. The panic of PartitionOf is the
-- outer `none` of an Option. A uint is a number with its wrap-around written out where the code
-- can reach it; time.Duration is an int64. A string is its code points, and strings.TrimSpace
-- removes those that unicode.IsSpace names.
--
-- The limits of internal/control are on the bytes of the protobuf encoding. `ProtobufSize` in
-- Encoding is a record of a size function and of what the encoding's documentation says of it, one
-- law for each message of the control stream and for mutations: the size is the sum of the fields,
-- a field takes its tag, its varint and its bytes, and a number of zero takes none. The theorems
-- on sizes take such a record as their parameter, and Encoding.Concrete gives one, `summed`. The
-- Types modules and Control.Convert.Payloads say which values the fields of the Go types can hold,
-- since the model's numbers have no bound of their own.
--
-- The loops of xxHash64 run on fuel: the length of the input, which is enough since each round
-- takes 8 or 32 bytes. Every other loop is structural.
--
-- HubClient and FakeHooks are records of functions over a type of states (L1.Contract): they have
-- no implementation here, so that nothing is stated of them.
--
-- A message has the fields that the schema declares. The bytes of unknown fields that a message of the
-- runtime may carry along, and that proto.Size counts, are not among them; no code here reads them.
--
-- Not modelled: the protobuf runtime, and what is generated for it and for gRPC beside the fields of
-- the messages (reflection, descriptors, getters, the service stubs), which hold no decision of this
-- repository; the context.Context of a call; the texts that fmt.Errorf adds to its sentinels; the
-- tests, the schema, the documents and the build files. Every function and method of internal/wire,
-- internal/rpc, internal/control and internal/l1 has a definition here.
pub mod Common
pub mod Errors
pub mod Ownership
pub mod Encoding
pub mod Wire
pub mod Pb
pub mod Rpc
pub mod L1
pub mod Control
