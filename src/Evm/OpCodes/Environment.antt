-- ===== src/Evm/OpCodes/Environment.antt =====
-- src/execution/evm/opcode.rs: the numbers of the instructions for the environment and the block.
use martinez.Base.{ℕ}

abbrev pub op_address : ℕ
op_address = 0x30

abbrev pub op_balance : ℕ
op_balance = 0x31

abbrev pub op_origin : ℕ
op_origin = 0x32

abbrev pub op_caller : ℕ
op_caller = 0x33

abbrev pub op_callvalue : ℕ
op_callvalue = 0x34

abbrev pub op_calldataload : ℕ
op_calldataload = 0x35

abbrev pub op_calldatasize : ℕ
op_calldatasize = 0x36

abbrev pub op_calldatacopy : ℕ
op_calldatacopy = 0x37

abbrev pub op_codesize : ℕ
op_codesize = 0x38

abbrev pub op_codecopy : ℕ
op_codecopy = 0x39

abbrev pub op_gasprice : ℕ
op_gasprice = 0x3a

abbrev pub op_extcodesize : ℕ
op_extcodesize = 0x3b

abbrev pub op_extcodecopy : ℕ
op_extcodecopy = 0x3c

abbrev pub op_returndatasize : ℕ
op_returndatasize = 0x3d

abbrev pub op_returndatacopy : ℕ
op_returndatacopy = 0x3e

abbrev pub op_extcodehash : ℕ
op_extcodehash = 0x3f

abbrev pub op_blockhash : ℕ
op_blockhash = 0x40

abbrev pub op_coinbase : ℕ
op_coinbase = 0x41

abbrev pub op_timestamp : ℕ
op_timestamp = 0x42

abbrev pub op_number : ℕ
op_number = 0x43

abbrev pub op_difficulty : ℕ
op_difficulty = 0x44

abbrev pub op_gaslimit : ℕ
op_gaslimit = 0x45

abbrev pub op_chainid : ℕ
op_chainid = 0x46

abbrev pub op_selfbalance : ℕ
op_selfbalance = 0x47

abbrev pub op_basefee : ℕ
op_basefee = 0x48
