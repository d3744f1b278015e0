-- ===== src/Lib.antt =====
-- The verification of crisp-qes: an anonymous petition system in which a citizen enrolls with a
-- qualified electronic signature and signs petitions through a walletless relayer.
--
-- The parts, and the files that model them (paths from the repository's root):
--
-- * Pedersen, of packages/lotl-flattener/src/ca/pedersen.ts: field elements as 32 bytes
--   (`bigint_to_be32`, `bytes_be_to_bigint`) and `pedersen_hash_fields`. The hash of bb.js is the
--   parameter `bb`, from byte buffers and an index to bytes.
-- * Tree, of packages/lotl-flattener/src/tree/merkle.ts: `build_tree` and `prove_inclusion`, with
--   the walk `compute_root` of packages/circuit/src/merkle.nr, which checks the proofs.
-- * MerkleIndex, of packages/oprf/src/merkle.ts: the tree that the OPRF service keeps in memory;
--   an operation takes the index and returns the next one.
-- * Oprf.Store, of packages/oprf/src/db.ts: the four tables as lists of rows, a function for each
--   statement; a broken unique constraint is `none`.
-- * Oprf.Attestation and Oprf.Dob, of attestation.ts and dob.ts there: the checks on a signed
--   envelope, the artifact that binds it to a request, dates of birth and ages.
-- * Oprf.Voprf, of oprf.ts there: the blind evaluation and its proof, over an abstract group.
-- * Oprf.Service and Oprf.Register, of app.ts there: the routes, from the state (store and tree) to
--   the reply and the next state. What they throw is a value, with the state as it was left.
-- * Oprf.Attester, of attester.ts there (and its port service/attester.mjs of the threshold service):
--   the digest of a root update and its signature; what it calls is a record of functions.
-- * RateLimit, of packages/relayer/src/rateLimit.ts: the limiter, a map from addresses to times.
-- * Relayer.Errors, of errors.ts there: what viem throws, as its chain of causes, and the replies.
-- * Relayer.Requests and Relayer.Handlers, of app.ts there: the bodies and the three routes that
--   send a transaction; an outcome has the reply, the limiter's map and the calls that were sent.
-- * Relayer.SendTx, of chain.ts there: the queue of writes with its managed nonce.
-- * Asn1, of packages/sdk/src/asn1.ts: the search of bytes and the length octets of DER.
-- * V3, of packages/oprf/v3-grumpkin: the threshold service. Words and Gate are of
--   service/proof-gate.mjs, the words of a proof and the checks of the two proofs; Merkle is of
--   service/merkle.mjs, the tree that computes its levels again; Challenge and ChainSync are of
--   challenge.mjs and chain-sync.mjs there; Server is of server.mjs, the start (`boot`) and the routes
--   (Server.BlindEval, Server.Register), from the state and what the chain answers to the reply and
--   the next state. Threshold is of threshold/threshold-oprf.mjs, the key in shares and the combination
--   of partial evaluations, with `combine_threshold` of packages/web/src/lib/grumpkin.ts; Kdf is of the
--   same file, the scalars that are derived from a seed; Dleq, Wire and Node are of lib.mjs and
--   service/oprf-node.mjs, a node's evaluation with its proof, points in hex and the node's answer.
-- * Common has what the parts share, and Tests the theorems at concrete inputs.
--
-- How they interact: the service enrolls a commitment (Oprf.Register) in its store and its tree and
-- signs the two roots; the relayer (Relayer.Handlers) sends the update, and later the signatures,
-- whose root must be the live one; the circuit walks the paths that the tree gave out. The threshold
-- service takes proofs in place of the envelope, and reads its tree from the registry's events.
--
-- Bounds: the indices have depth 20. Tree, whose depth is open, shifts a position as the source does,
-- in signed words of 32 bits; the positions of V3.Merkle are taken to be below 2 ^ 31. The loop over
-- the windows of blocks has a round for every block up to the latest, and a round passes at least
-- one. A scalar is derived in 256 rounds, as in the source. Decimal printing has fuel for 80 digits,
-- and the numbers printed have at most 256 bits. The other recursions are structural.
--
-- Parameters are the libraries: bb.js (its hash and its verifier), the field and the curve of
-- Grumpkin, viem's clients, encoders and function selectors, @noble/curves, pkijs, Keccak, SHA-256 and
-- base64. The parser of envelopes, p7s.ts of packages/sdk, is not modelled: the checks of an envelope
-- start from what it returns. Times are natural numbers and texts that are encoded are ASCII.
-- Requests run one at a time: of the interleavings at the awaits, only two enrollments whose appends
-- overlap are modelled (`overlap` in Oprf.Register.Races). Not modelled are the configuration
-- loaders, the transaction status route, the logs, the nonces of the proofs of evaluations and the
-- resolution of keys of the threshold service, the LOTL filters, the web client and the contracts.
pub mod Common
pub mod Pedersen
pub mod Tree
pub mod MerkleIndex
pub mod RateLimit
pub mod Relayer
pub mod Oprf
pub mod V3
pub mod Asn1
pub mod Tests
