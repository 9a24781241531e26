-- ===== src/Lib.antt =====
-- A model of VxSig, which makes signatures for AV engines from similar binaries, and what is
-- proved of it.
--
-- The program compares a row of binaries with BinDiff. A match chain table has a column for each
-- binary, with the functions, basic blocks and instructions that are matched with those of the
-- next one. The chains get ids; the functions and the basic blocks that occur in all columns, in
-- the same order, are the candidates. For each candidate the bytes of its instructions in all
-- columns are folded to a common subsequence and to a regular expression; the expressions make a
-- raw signature of pieces, which a formatter trims and prints for ClamAV or YARA.
--
-- Files, and the code under vxsig/ that they are about:
--   Prelude: shared names; Booleans, lists, integers and `operator==`. SortedMap: std::map, std::set.
--   Subsequence: the specification of the sequence algorithms.
--   Hamming: HammingDistance of hamming.h.
--   Lcs: ComputeSingleLcsRow and LongestCommonSubsequence of longest_common_subsequence.h.
--   CommonSubsequence: PruneSequence and CommonSubsequence of common_subsequence.h.
--   Regex: RegexFromSubsequence of subsequence_regex.h.
--   Signature: the messages of vxsig.proto. Signature/Subset: GetRelevantSignatureSubset, TrimLast
--     and TrimLowWeight of signature_formatter.cc.
--   MatchChain: the columns of match_chain_table.h. MatchChain/Insert: insertion, MatchChainInserter
--     and FinishChain; MatchChain/Ids: PropagateIds and BuildIdIndices; MatchChain/Metadata: the
--     callbacks of AddFunctionData, all of match_chain_table.cc.
--   DiffReader: ParseBinDiff of diff_result_reader.cc. BinExport: RenderExpression of
--     binexport_reader.cc, and BinExport/Parse: ParseBinExport.
--   Generic: ToRawSignatureProto of generic_signature.cc; its children Instructions, Penalty and
--     Matches: AddInstructionBytes, PenalizeShortAtoms and GenericSignatureFromMatches.
--   Candidates: candidates.cc. SignatureId: SignatureDefinitionHasher of signature_definition_hash.cc.
--   Format: what the formatters share, with a child for the masks. ClamAv, Yara: DoFormat and DoFormatDatabase of
--     clamav_signature_formatter.cc and of yara_signature_formatter.cc. Formatter: SignatureFormatter.
--   Yara/Head, Yara/Lines: the form of a YARA rule, stated apart from the code.
--   Siggen: AddDiffResult and AddFunctionData of match_chain_table.cc, and AvSignatureGenerator of
--     siggen.cc; Siggen/Generate: Generate and its stages; Siggen/Generate/Main: SiggenMain.
--   Tests: runs at concrete inputs, one of them from the files to the signature.
--
-- A failed CHECK, a fatal log and fuel that runs out are `none`, an absl::Status is a `Result`, which
-- also has `undefined` for an access out of bounds. Fuel: LongestCommonSubsequence has one unit more
-- than the first sequence has items, since each half is shorter; CommonSubsequence has
-- a unit for each sequence, since a round leaves fewer; RegexFromSubsequence recurs on the common
-- subsequence; AddInstructionBytes and PenalizeShortAtoms have one for each byte, since a round
-- takes one at least; RenderExpression has one for each index from the root of the expression on,
-- since a child stands behind its parent. The loop over the rows of a database has its rounds given
-- from outside, and needs one more than there are rows. Counters of type int are natural numbers,
-- where they count items that are in memory; the size_t of the ClamAV formatter wraps around at 2^64.
-- The masked nibbles of a piece, int32 in vxsig.proto, are natural numbers, as ToRawSignatureProto
-- writes them. TrimLowWeight subtracts weights and sizes into an int; the model compares them, which
-- is the same for differences below 2^31.
--
-- Parameters: SQLite, the parser of .BinExport files and GetInstructionAddress, the functions on
-- paths, std::sort and std::shuffle, absl::BytesToHexString, absl::Hex, std::to_string, CityHash64,
-- "%04x" and the serialization of messages, the parsers of the flags, the date of the build, and the
-- addresses of objects. Not modelled: what is printed on the way (DumpMatchChainTable among it), what
-- an error leaves in the generator, the loop of SetFunctionWeights, which comes behind a return that
-- is always taken, the log line of Sqlite3Closer, the checks that are compiled for debugging only, and
-- the tests of the repository.
pub mod Prelude
pub mod Subsequence
pub mod Hamming
pub mod Lcs
pub mod CommonSubsequence
pub mod Regex
pub mod Signature
pub mod SortedMap
pub mod MatchChain
pub mod DiffReader
pub mod BinExport
pub mod Generic
pub mod Candidates
pub mod SignatureId
pub mod Format
pub mod ClamAv
pub mod Yara
pub mod Formatter
pub mod Siggen
pub mod Tests
