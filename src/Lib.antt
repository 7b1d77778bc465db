-- ===== src/Lib.antt =====
-- proxykit-go: proxy addresses, a parser for proxy formats, and pools over proxy files.
--
-- A proxy address is a scheme, an endpoint `host:port` and credentials. The package at the root
-- checks addresses and turns them into URLs and back. The parser compiles a format such as
-- `%t://%u:%p@%h:%d` once and reads texts by it; it asks the root package whether what it has read is
-- valid. A pool reads a file of proxies line by line, block by block, in the order of the file or in a
-- shuffled one, for one reader or for several shards; a batch takes over the lines of a block. The
-- lines of a pool are texts that the parser reads.
--
-- Base: bytes and strings as lists of codes, the functions of Go's package strings that the code
-- calls, lists under the native numbers, words of 64 bits with their wrap-around.
--
-- Proxy, for proxy.go:
--   Scheme: ProxyScheme, IsValid, DefaultPort, ParseScheme. Port: isValidPort. Credentials:
--   isPrintableASCII, IsValidCredentials, IsValidCredentialsFor. Host: isDigitLabel, isIPv4Literal,
--   isValidHostLabel, isValidIPLiteral, IsValidHost. Netip: what isValidIPLiteral asks of
--   netip.ParseAddr. Split: SplitHostnamePort. Record: the struct Proxy with its accessors and
--   methods. Validate: ValidateHostnamePort and Validate. Url: FromURL, ExportURL and LogValue over
--   the fields of url.URL.
--
-- Parser, for proxyparser/proxyparser.go:
--   Errors: the errors, schemeOf, assignField, invalidProxyFormat. Format: New with countFormatOps,
--   detectParserKind and the two passes over the instructions. Field: a round of parseInto's loop.
--   Strict: parseStrictSchemeHostPort and parseStrictFullCredentials. Generic: the loop and what
--   follows it, for an input that has no index; what isValidFast answers is an argument. Sound, Total
--   and RoundTrip are about them.
--
-- Pool, for proxypool/proxypool.go and proxypool/batch.go:
--   Sizes: the constants, shardItemCount, ceilingQuotient, positiveOrDefault, exceedsLineLimit, and
--   BufferBytes of internal/blockread. Modular: addModulo, multiplyModulo, greatestCommonDivisor.
--   Permutation: mix64, permutationParams and the step from index to index. Open: Options and Open.
--   State: the struct Pool, startCycleLocked, validateSourceLocked, rotationLocked, blockReadRange,
--   Reset, Close. Extend and Block: loadBlockLocked with the functions that it calls, and MaxGap of
--   internal/lineindex. Walk: loadNextBlockLocked, nextLineLocked, nextLocked,
--   upcomingBlocksLocked. Batch: Batch.Next, Batch.Lines, NextBatch. Capacity: the capacities that
--   resized and growOffsets choose, which the state leaves out. Indexing: indexBlockLocked. Lines sets
--   the blocks of a pool against the bytes of the file: Lines/Reference has the lines of a content, all
--   and those of one block; Lines/Loaded to Lines/Loading are about the load of a block, Lines/Takes
--   about Next, Lines/Runs to Lines/Ordered about the rounds and lines of a cycle, as a step relation,
--   Lines/Limited to Lines/Errors about the errors of a load, and Lines/Finishes and Lines/Complete
--   about a whole cycle. The other modules are about these.
--
-- State is passed on explicitly: an operation takes a pool or a cursor and returns the one behind
-- it, with a result or an error. A nil pointer is `none`, and so is a result of -1. What the
-- operating system answers about the open file is a parameter, `File`: the metadata, and the bytes
-- and the error of a read. netip.ParseAddr and url.URL are modelled as far as they are used.
--
-- Numbers are natural numbers. Words that may wrap around, in mix64, addModulo and
-- startCycleLocked, are reduced modulo 2^64; the other sizes are words of 32 or 64 bits that Open
-- bounds. An int of 64 bits is assumed.
--
-- Loops are structural but for those that stand on fuel: multiplyModulo on 64 rounds, one for each
-- bit; greatestCommonDivisor on its second argument, which falls; the search of permutationParams on
-- as many rounds as there are candidates; the scan of a format on its length, since a round reads a
-- byte or more; parseInto on the number of instructions and one, since a round goes on to a later
-- instruction; extendLineLocked on the limit of a line, since a round adds a byte or more;
-- indexBlockLocked on the bytes of the stretch, since a call examines one or more;
-- loadNextBlockLocked on the regions and blocks of two cycles, since a cycle without a line is the
-- last.
--
-- Not modelled: the shortcuts of proxyparser/fastpath.go over internal/structuralindex, which take
-- eight bytes of a text as a word. parseInto asks them first: parseStrictFast before the special parsers,
-- which are modelled as what it calls where parseStrictFast has not answered; the bitmaps of an index for
-- the positions of delimiters, where the input has one; and isValidFast before Validate. So the switch of
-- parseInto and the exported methods of Parse around it are left out. The vector kernels and the scalar
-- kernel of internal/lineindex: line_ends of Extend stands for the line ends that Ends is documented to
-- find, and has_crlf for its hint where that is exact; the loop of indexBlockLocked, in Indexing, has any
-- kernel of this contract as an argument, and the load of a block takes what the loop comes to. The
-- reads ahead of Options.Prefetch with proxypool/ahead.go; file.go, internal/fileopen and the platform
-- files of internal/blockread, which call the operating system; Stats; the texts of errors; and the
-- mutex, which serializes the calls on a pool.
pub mod Base
pub mod Proxy
pub mod Parser
pub mod Pool
mod Tests
