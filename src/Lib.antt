-- ===== src/Lib.antt =====
-- The on-chain core of the platform's server: the manager that signs, sends and follows transactions, the
-- indexer that turns a chain's logs into stored events, and what is computed from those events: the
-- redemption requests, the purchases, the compliance status of investors, the history of transactions,
-- and the split of an income over the holders.
--
-- The parts, and the files that model them (paths under server/internal):
--   blockchain/txmanager.go       TxManager. Fees has buildTx, buildBumpedTx, checkFeeCaps, ceilPercent and
--                                 bumpFeeField; Guards the codec, the lease, needsInterventionTx and
--                                 allocateNonce; Prepare what is signed; Submit, Replace and Refresh the
--                                 operations of those names, with what they call.
--   dal/models/transaction.go     Models.Transaction
--   dal/models/chain_event.go, indexer_checkpoint.go   Models.ChainEvent
--   dal/memory/transaction.go     Store.Transactions
--   dal/memory/nonce_lease.go     Store.NonceLeases
--   dal/memory/chain_event.go, block_hash.go, indexer_checkpoint.go, chain_chunk.go   Store.Chain
--   indexer/indexer.go            Indexer. Ancestor has findCommonAncestor, rollback, rewind and
--                                 ResetToTrustedCheckpoint; Scan has scanChunk, the validation of logs and
--                                 commitChunk; Poll has scanAndCommitChunk and Poll; DeadLetters and
--                                 Retry have recordDeadLetter and RetryDeadLetter, over
--                                 dal/memory/dead_letter.go in Store.DeadLetters.
--   redemption/projector.go, redemption.go   Redemption, with the read model of
--                                 dal/memory/redemption_request.go and Models.Redemption
--   txindex/txindex.go            TxIndex
--   compliance/projector.go, dal/memory/investor.go   Compliance, with Models.Investor
--   sales/projector.go, dal/memory/purchase.go   Sales, with Models.Purchase
--   income/merkle.go              Income.Merkle
--   income/snapshot.go            Income.Snapshot
-- The manager works on the transaction records and the leases; the indexer on the events, the block
-- hashes and the checkpoint. Redemption folds the stored events into requests and Compliance into
-- statuses, TxIndex adds records of transactions to those of the manager, and Income replays the events
-- up to a block, with Redemption's requests, and commits to the shares in a tree. The in-memory
-- repositories stand for all stores.
--
-- State and effects. An operation takes the stores and gives its result and the stores after it, so an
-- error keeps what was written before it. `World` of TxManager.Monad also lists the transactions that
-- were handed to the node; `World` of Indexer.State counts the calls to the source. A Go map is an
-- association list in the order of first insertion, which stands for the unspecified order of a Go range.
-- One operation reads the clock once. The mutex per address makes one replica's calls follow each other;
-- other replicas act on the stores, as any function, between the acquisition of a nonce lease and its
-- renewal. The node answers the calls of one operation of the manager from one view; the indexer's source
-- may answer each call from another chain.
--
-- Parameters. The node, the signer, go-ethereum's encoding of transactions (with what it documents as
-- `CodecLaws`), the indexer's source and its event decoder. Addresses and hashes are numbers, also where
-- the source keeps their canonical text; `value` and `input` of a record are the number and the bytes
-- whose text the source keeps. Keccak-256 over 32-byte words is a parameter, as are `IsHexAddress` with
-- `HexToAddress`; `strconv.ParseInt` and `SetString` in base 10 are written out in Common. The fees
-- of a transaction are integers, as `big.Int` is, and what the node suggests, the caps and the value are
-- natural numbers. A bump percentage is the 64 bits of an `int64`, and 100 plus it wraps as one. Gas limits,
-- nonces, tokens, the bounds of a chunk, a span that is halved and the block after a chunk wrap at 2^64 as
-- the source computes them. The block after a common ancestor does not need to, since it is not above the
-- checkpoint's block.
--
-- The indexer is the one that the platform's command sets up, with the history of block hashes and the
-- chunk committer, and without them the rollback falls back to its fixed window. Waits between attempts
-- are left out. Sorting is by insertion.
--
-- Fuel. The loop of commitChunk over the blocks of a chunk runs on their number plus two, and it gives
-- `none` for a chunk up to the largest `uint64`, where the counter of the source never passes the bound and
-- the loop does not end; so do the functions that call it. `scan_chunk` runs on the length of the range
-- plus the retries plus two, and `scan_loop` on the number of blocks plus one: each call shrinks the range
-- or uses an attempt, and each chunk moves on by a block at least. The proof loop of the Merkle tree runs
-- on the index of the leaf, which each round halves.
--
-- Not modelled: the other services (the services around income, compliance and sales, KYC, projects,
-- audit), the documents of a snapshot, the decoders over generated ABIs, the HTTP API, configuration,
-- keys, IPFS, the database drivers, the generated bindings, paging of records.
pub mod Common
pub mod Compliance
pub mod Income
pub mod Indexer
pub mod Models
pub mod Redemption
pub mod Sales
pub mod Store
pub mod Tests
pub mod TxIndex
pub mod TxManager
