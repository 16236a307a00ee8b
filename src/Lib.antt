-- ===== src/Lib.antt =====
-- A model of the core of martinez, an Ethereum client in Rust: the state of a block under execution
-- with its journal, the rules by which blocks, headers and transactions are accepted, the tables,
-- checks, stack and memory instructions of the virtual machine, the execution of a block and its
-- write to a database in memory, the loop over the stages of a sync, and the set of prefixes of the
-- trie.
--
-- The parts of the program and their files:
--
-- State (src/state/intra_block_state.rs, delta.rs, object.rs, interface.rs, models/account.rs and
-- models/log.rs). `IntraBlockState` caches the accounts and slots that it reads from the database,
-- which is the record `Db` of the three reads of the `State` trait. State/Objects has `get_object` and
-- `ensure_object`, State/Accounts the operations on accounts and code, State/Access the access sets,
-- logs and refunds, State/Slots the storage slots, State/Journal `Delta::revert` and the snapshots.
-- Each operation takes the state and returns the new one; one that can fail returns a `Result`, whose
-- faults are an error of the database and a panic. An error ends the block, so no state is kept
-- beside it. State/Runs has the runs of operations between a snapshot and its revert; State/Extends
-- and State/Undo relate a state to the one that the revert gives back, State/Revert and State/Answers
-- state it, and State/Effects, Balances and Lives say what single operations do.
--
-- Consensus (src/consensus/base.rs, mod.rs, ethash/mod.rs, ethash/difficulty.rs,
-- src/chain/intrinsic_gas.rs, src/chain/protocol_param.rs, and of src/models header.rs,
-- transaction.rs, chainspec.rs, revision.rs). Consensus/Types has the data; Fees the base fee and the
-- fees of a transaction; Headers, Ommers, Blocks and Transactions the checks; Difficulty and Rewards
-- the formulas of Ethash. Eip1559 states the rules of the base fee, Bomb those of the bomb and its
-- delays, and Rules which formula the switches select; Canonical shows that the engine follows them. The engine's fields are the record `Ethash`, the reads of the chain and the
-- hashes of a body's parts are the record `ChainState`, and the system's clock is an argument.
-- Accepted says what the checks of a block give together, and Mined those of the engine.
--
-- Evm (src/execution/evm/opcode.rs, interpreter.rs, instructions/properties.rs and
-- instructions/instruction_table.rs). OpCodes has the numbers of the instructions, Properties and
-- GasCosts the tables, as rows of which the first one of an instruction counts; Requirements the
-- table of a revision and the check before each instruction; Stack and Instructions (state.rs and
-- instructions/arithmetic.rs, boolean.rs, bitwise.rs, stack_manip.rs) the stack, on which a push past
-- its buffer is an outcome of its own, and unsigned instructions; Heights sets them against the
-- properties; Power and Log have EXP, its gas and `log2floor`; Jumps the analysis of a code and
-- Reached what it finds. The loop of the analysis runs on fuel, which is the length of the code:
-- each round goes on by one at least; the loop of EXP has the fuel 256, the bits of its exponent.
-- Memory (instructions/memory.rs) has the memory with the cost of its growth, its loads and stores,
-- Copies the instructions that copy to it and the hash of a part of it, over `Frame`, which is the
-- stack, the memory and the gas of `ExecutionState`. A slice out of bounds is a panic. Bytes, Parts,
-- Loads and Copied say what is read, what it costs, and what is copied.
--
-- Store (src/state/in_memory_state.rs, and `write_to_db` of src/state/intra_block_state.rs).
-- `InMemoryState` is the database in memory, with the changes of each block for their unwinding, the
-- blocks and the canonical chain. Store/Updates has its accounts, code and storage, Store/Blocks the
-- rest, and Store/Write the loops of `write_to_db`, over the record `Writer` of the writes of the
-- `State` trait. A missing inner map is an empty one. The orders in which the maps of the block state
-- are iterated are the argument `Orders`. Loops and Leaves say what each loop leaves, Reads what is
-- read after all of them, Unwind what the unwinding gives back, and Chain and Canonical what is found
-- after a block is inserted, made canonical or cut off.
--
-- Processor (src/execution/processor.rs). `Processor` has the two fields that change, the block state
-- and the gas used so far. Execute has the operations from the check of a transaction to the write of
-- the block; it uses the block state (State), the checks and fees (Consensus) and the writes (Store).
-- The virtual machine, the engine and the hashes of receipts and logs are the record `Machine`, and
-- the iteration of a set is the record `SetOrder`. Checks, Gas, Blocks and Accepted say what the
-- checks accept, what a transaction is charged, how the transactions follow each other, and what a
-- written block satisfies.
--
-- Sync (src/stagedsync/mod.rs and stage.rs). Loop has `StagedSync::run` over any stages, which are
-- records of their `execute` and `unwind`, and any table of their progress. A transaction of the
-- database is the value that it holds; what is not committed is dropped at the next iteration, but
-- not what the stages keep themselves. The loop that unwinds a stage has its progress as fuel, which
-- is enough if the stage lowers it each time; the invocations of a stage and the iterations of `run`
-- may go on for ever, so their fuel is an argument, and running out of it is an outcome of its own.
-- Outcomes has the facts on outcomes, Kept and Unwound the unwinding, Completed what holds on return.
--
-- Prefix (src/trie/prefix_set.rs and util.rs). The set of prefixes is the list of its keys in their
-- order; Types has its operations, Laws says what it answers.
--
-- Conventions. Addresses, hashes, bytes and machine integers are natural numbers. Arithmetic on u64
-- and U256 wraps around as it does in the production profile, with the modulus written out; where the
-- source cannot overflow the modulus is left out. The counts of incarnations are not bounded. A
-- HashMap is a function into options, a HashSet one into Booleans; where the source iterates a set,
-- the order is an argument. The loops are structural: the revert pops as many entries as the journal
-- is longer than the snapshot, and the search for kinship recurs on its number of generations, so no
-- fuel is needed. The bomb of the difficulty shifts by a number of periods, which is below 256 for
-- all block numbers below 25 million past the delay; beyond, where the shift of the source panics or
-- wraps, the model takes the power modulo 2^256. The theorems on the difficulty stay below that.
--
-- Not modelled: hashing, signatures, RLP and seals, which are other crates or encodings; calls between
-- contracts and the loop of the interpreter, for which the processor has a parameter; the
-- database on disk, the trie, the work of the stages, the network and the RPC.
pub mod Base
pub mod State
pub mod Consensus
pub mod Evm
pub mod Store
pub mod Processor
pub mod Sync
pub mod Prefix
