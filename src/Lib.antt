-- ===== src/Lib.antt =====
-- The Go prototype of an OpenAgent peer (internal/sae and internal/p2p): nodes that announce tasks
-- and facts to each other as signed envelopes over gossip, keep what they hear in a local store, and
-- answer requests for details.
--
-- internal/sae. Sae/Envelope holds `SAEEnvelope` and its canonical form, Sae/Validate the validation
-- and the encoding, Sae/Sign the signatures and DIDs, Sae/Build the constructors of task_sae.go and
-- agentfact_sae.go. What the code calls of go-libp2p and of Go's standard library is a parameter,
-- the record of Sae/Libs, with the documented laws as named hypotheses.
--
-- internal/p2p/store.go. Store/State holds the records of the store and its files, Store/Files the
-- two file routines, Store/Tasks `ApplyTask` and `NextTaskSeq`, Store/Facts `ApplyFact` and
-- `NextFactSeq`, Store/Rates `AllowPeer`, Store/Records the methods on payloads, peers, sessions and
-- events, Store/Gc `GCExpired`, Store/Open `OpenStore`. The mutex makes each method one step:
-- Store/Run is any interleaving of them. The readings of the clock, the answers of the file system
-- and the orders in which Go visits a map are arguments. A file is the value whose text it holds;
-- what the layout of json.MarshalIndent makes of the raw JSON in a payload is an argument too, since
-- that is not read back as it was.
--
-- internal/p2p. Policy is policy.go, Topics the lists of topics of gossip.go and node.go, Gossip the
-- topics that a node joins and publishes to, Negotiate/Frame the frame of rpc_negotiate.go,
-- Detail/Ref `BuildDetailRef` and Detail/Parse `ParseDetailRef` of rpc_fetch.go, over the functions of
-- packages url and path in Detail/Path; Detail/RoundTrip relates the two. Hosts is hosts.go, with the
-- key file, and Discovery discovery.go, with what the network and the DHT answer as arguments.
--
-- internal/p2p/node.go. Node/State is `enforceEnvelopePolicy`, Node/Inbound `handleEnvelope` and
-- `readLoop`, which run the store's methods on what gossip delivers. Node/Publish is `PublishTask` and
-- `PublishFact`: Node/Publish/Draft makes and signs the envelope, the rest stores its detail, applies
-- it and publishes it. Node/Session holds the answering sides of the two stream protocols
-- (`handleFetch`, `handleNegotiate`), Node/Fetch and Node/Negotiation the asking sides
-- (`FetchRemoteDetail`, `SendNegotiation`) and the handler of negotiation streams. Node/Peers holds
-- the callbacks for peers and connections, Node/Config and Node/Start `NewNode` and `Close`, with what
-- each error of `NewNode` stops. Node/Life is the step relation of a running node, one constructor
-- for each method that changes it: its goroutines interleave these steps.
--
-- cmd. Command and Command/Api are the handlers of agent.go, from the decoded request to the status
-- and the value of the response, Command/Flags the list flags of p2p.go and the configuration that
-- `run` makes of the flags.
--
-- Error has one constructor for each error of the program. GoMap is Go's map as an association list,
-- Text the functions of package strings, Clock the instants of package time, Exec the methods that
-- change a node and may fail.
--
-- Integers. Times are nanoseconds since Go's zero time, as natural numbers; the sequence numbers are
-- uint64 values and wrap at 2^64, the counter of a rate window wraps at 2^63. No definition runs on
-- fuel but the printing of decimals, whose fuel is the number plus one.
--
-- Not modelled: the libraries (libp2p, its DHT, mDNS and pubsub, JSON, net/http, package flag), whose
-- answers are arguments; the choice of a handler by net/http; signals, the shutdown of the HTTP
-- server and the exit code (cmd/p2p.go, cmd/main.go). Connections that the network opens or drops by
-- itself while `NewNode` runs are steps of Node/Life. Texts are sequences of Unicode code
-- points, as JSON decoding yields them.
pub mod Prelude
pub mod Error
pub mod GoMap
pub mod Text
pub mod Clock
pub mod Sae
pub mod Negotiate
pub mod Detail
pub mod Store
pub mod Policy
pub mod Topics
pub mod Exec
pub mod Gossip
pub mod Discovery
pub mod Node
pub mod Command
pub mod Hosts
