-- ===== src/Lib.antt =====
-- A verification library for the C web server of ylem, storage/src/lighttpd/src (a lighttpd with
-- the storage modules of ylem): the data structures and the text routines that every request
-- passes through.
--
-- The program. A connection reads bytes into a chunk queue, parses a request out of them, passes it
-- through the plugins, and queues the response as chunks of memory and files that the network
-- backends write. All text is kept in the string buffer; methods, versions and statuses are looked up
-- in key-value tables; a request's path is decoded and simplified before a file name is made of it;
-- the stat cache keeps its entries in a splay tree.
--
-- The files, with the sources below storage/src/lighttpd/src that they model:
--   Base                 shared names: native numbers, Boolean tests, C's `int`, lists, faults
--   Memory               `size_t` sums, bounds-checked `memcpy`, `malloc` and `realloc`
--   Buffer               buffer.c: `buffer_prepare_*`, `buffer_copy_*`, `buffer_append_*`, `buffer_reset`
--     Buffer.Inv         the representation invariant and the two `prepare` functions
--     Buffer.Append      what the appending functions leave
--     Buffer.Copy        what the copying functions leave
--   Encoding             buffer.c: `buffer_append_string_encoded`, `hex2int`, `buffer_urldecode_*`
--     Encoding.Chars     the six tables `encoded_chars_*` and `hex_chars`
--     Encoding.Bytewise  lengths and bytes of encoded text
--     Encoding.Append    the function on the storage
--     Encoding.Decode    decoding after encoding
--     Encoding.Url       decoding on the storage
--   Path                 buffer.c: `buffer_path_simplify`
--     Path.Segments      the segments of a path and their resolution
--     Path.Token         one token of the loop as one segment
--     Path.Correct       the loop as a resolution
--     Path.Proper        the segments of the result
--   Compare              buffer.c: `buffer_caseless_compare`
--     Compare.Caseless   its two loops against case folding
--   Letters              buffer.c: `light_is*`, `buffer_to_lower`, `buffer_to_upper`
--     Letters.Fold       the two functions on the storage
--   Chunk                chunk.c: the queue with its list of spare chunks
--     Chunk.Queue        the invariant of the queue, linking of chunks
--     Chunk.Finished     removal of finished chunks, reset of the queue
--     Chunk.Lifetime     one chunk from its allocation to its reuse
--     Chunk.Contents     the bytes that a queue stands for
--   Network              network.c: `network_write_chunkqueue`; network_write.c: its backend with `write`
--     Network.Chunks     what one chunk sends and what it has left
--     Network.Queue      what is sent of a queue, and what it keeps
--     Network.Complete   a queue that is sent as a whole
--     Network.Writing    connections.c: `connection_handle_write`, and the runs of its calls
--   Prepare              connections.c: `connection_handle_write_prepare`
--     Prepare.Delimited  how a client finds the end of a response
--   Connections          connections.c: the array of connections
--     Connections.Slots  its invariant, and taking a connection
--     Connections.Removal, Connections.Deletion   giving it back
--   Printing             buffer.c: `LI_ltostr`, `buffer_append_long`, `buffer_append_long_hex`
--     Printing.Reversal  the exchange of the bytes from both ends
--     Printing.Decimal   printed numbers and `strtol`
--     Printing.Storage   the functions on the storage
--   Range                mod_staticfile.c: `http_response_parse_range`, and where it is called
--     Range.Numbers      how far `strtoll` reads
--     Range.Cut          what one range asks for, cut to the file
--     Range.Inside       all ranges of a header
--     Range.Single       one range of two numbers
--   Arrays               array.c: `array_get_index` and `array_get_element`
--     Arrays.Ints        the `int` of the search
--     Arrays.Search      what the search finds, and that it ends
--   Keyvalue             keyvalue.c: the tables and the lookups in them
--     Keyvalue.Lookup    the lookups in both directions, the error pages
--     Keyvalue.Slots     the growing arrays `KVB(x)` and their `*_append` functions
--     Keyvalue.Append    appending to them
--     Keyvalue.Expressions  appending a regular expression
--   HttpChunk            http_chunk.c: the framing of a chunked response
--     HttpChunk.Digits   the digits of a length
--     HttpChunk.Length   the line with a length, in its buffer
--     HttpChunk.Decode   a reader of chunked bodies
--     HttpChunk.Steps    what the steps of the functions put into the write queue
--     HttpChunk.Frame    what each function puts there
--     HttpChunk.Trip     a whole response
--   Request              request.c: the parts of a connection that the parser writes, its outcomes
--     Request.Numbers    `strtol` and `strtoul` of the C library
--     Request.Host       `request_check_hostname`
--       Request.Host.Allowed   the characters it lets through
--     Request.Split      `http_request_split_value`
--       Request.Split.Elements what it does to a list joined by commas
--     Request.Line       the loop of `http_request_parse` over the first line
--       Request.Line.Read      a well-formed first line
--     Request.Field      the header fields that the parser acts on
--       Request.Field.Signs, Request.Field.Names   the search among their names
--       Request.Field.Store    what a field leaves in the connection
--     Request.Headers    the loop of `http_request_parse` over the header lines
--       Request.Headers.Trip   the loop on well-formed lines
--     Request.Finish     the checks after both loops
--       Request.Finish.Rules   requests that pass them
--     Request.Parse      `http_request_parse`
--       Request.Parse.Steps, Request.Parse.Answers  the state that a refusal leaves
--     Request.Samples    an association list as the array of headers
--   Splay                splaytree.c: splaying, insertion, deletion, ranks
--     Splay.Loop, Splay.Inorder, Splay.Sizes, Splay.Keys, Splay.Order, Splay.Update
-- The modules named Tests hold runs at concrete inputs.
--
-- How the state corresponds. A pointer to an object that one owner reaches is the object itself,
-- passed and returned; NULL is `none`, the empty list or `leaf`. A storage of bytes is a list of
-- numbers below 256, as long as the allocation; writing outside of it is a fault, `none`. Chunks are
-- shared by three pointers of the queue and carry an address. `size_t` is a natural number whose
-- sums are taken modulo 2^64 where the source adds; `int` keys are integers. The system calls of a
-- chunk's reset are listed in the order of their execution.
--
-- The request parser. Its state is the record Request; what it does next is an Outcome: it goes
-- on with a state, returns 0 with an answer, returns 1 with a body to read, or uses storage that is
-- gone or was never there (a fault). A pointer into the text of a field is null, live with the text
-- from there, or freed. Positions in the buffer are the bytes that are still to be read, and the
-- bytes that the loop has seen of a line are kept until the line ends. The array of headers is the
-- interface HeaderArray, a table of fields with operations and no laws, which stands for array.c and
-- data_string.c: it finds the value of a name, takes a new field, appends to a value that is there,
-- and says whether the value moves when a folded line is appended, which leaves a pointer into it
-- freed. Log lines are left out.
--
-- Connections. The parser, the preparation of a response, the sending and the array of connections
-- each keep the fields of the connection that they use: Request, ResponseState, Network.Traffic, and
-- an address with its place. A connection in the array is shared, and has an address. In a prepared
-- response, a header is absent, unused or has a value, and chunks are listed by what they stand for,
-- with the frames around a file as http_chunk.c writes them.
--
-- Ranges and sending. An `off_t` is its bits, below 2^64, compared after 2^63 is added. The chunks
-- that a range queues are listed by what they stand for, a text or a part of the file. The system
-- that a queue is sent through is the record Network.System: at each turn, what `write` takes, the
-- size in the stat cache, whether `open` and `mmap` succeed, and the bytes of a file, which do not
-- change while it is sent; the corking of the socket is left out.
--
-- Parameters. `malloc` and `realloc` (Memory.Allocator) return objects of the size that is asked for,
-- and `realloc` keeps the old bytes; the source asserts or assumes that they succeed. The library
-- pcre is a function from texts to compiled expressions and one that studies them, with no laws.
--
-- Bounds. The search in an array halves its step, an `int`, in each turn: its fuel is 33, which is
-- more than a step that is not negative has bits. From a negative step, which next_power_of_2 =
-- 2^32 gives, the source's loop need not end, and the model may run out of fuel. A printed number has
-- 19 digits at most and its fuel is 20; the loop over ranges takes the length of the header plus
-- one, since each range is a byte at least. The other loops run down a list, a tree or a count. The
-- reader of chunked bodies, which is no part of the program, takes the length of the text. The
-- hypotheses called IsSmall say that a size and what is added to it stay below 2^64.
--
-- Not modelled: insertion into arrays (array.c), the state machine of connections (connections.c,
-- server.c), the network backends but the one with `write`, event handlers, the plugins but the
-- ranges of mod_staticfile.c, and the configuration. Left aside altogether are code that is
-- generated (configparser.c, mod_ssi_exprparser.c), code of other projects (lemon.c, md5.c), and
-- the trackers, clients and web pages of ylem, which are written in Perl, C++ and PHP.
pub mod Base
pub mod Memory
pub mod Buffer
pub mod Chunk
pub mod Splay
pub mod Path
pub mod Arrays
pub mod Compare
pub mod Connections
pub mod Encoding
pub mod HttpChunk
pub mod Keyvalue
pub mod Letters
pub mod Network
pub mod Prepare
pub mod Printing
pub mod Range
pub mod Request
