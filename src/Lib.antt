-- ===== src/Lib.antt =====
-- The shared library of OML (soml/lib/shared), the client's text writer (soml/lib/client) and the
-- server (soml/server): the buffer that messages are built in and read from, the binary protocol
-- that a client sends measurements with, the texts of both, and what the server makes of a client's
-- headers, schemas and rows of text. The queue of the proxy (soml/proxy_server) stands beside them.
--
-- Parts, and how they meet:
-- (Mem) The allocator of soml/lib/shared/mem.c. A block carries its size in a word in front, which
--   is where sizes wrap. malloc(3), realloc(3) and calloc(3) are the parameter Libc, and LibcLaws
--   is what the program relies on of them. Mem/Copy has its copies, Mem/Counts its counters,
--   driven by the calls that change them.
-- (Mbuf) MBuffer of soml/lib/shared/mbuf.h and the functions of soml/lib/shared/mbuf.c, under
--   their own names, in the monad M: `none` is a failed assertion or an access outside the
--   storage, after which the program does not go on. A pointer into the storage is its offset from
--   `base`; a pointer that would come to lie before `base` is a fault. Sizes are size_t and wrap
--   at 2 ^ 64, the comparisons that the assertions make as an int are made as an int. Mbuf/Storage
--   has creation and growth, Mbuf/Transfer writing, printing, reading and searching, Mbuf/Message
--   the message mark and the repacking. Mbuf/Invariant has the invariant, Mbuf/View what a client
--   sees of a buffer, Mbuf/Trace the promise to a client over a sequence of calls.
-- (Value) OmlValue of soml/lib/client/oml2/omlc.h, with a case for each concrete type. An integer
--   is its bit pattern. The type double is the parameter Doubles, with frexp(3), ldexp(3) and the
--   conversions of the compiler.
-- (Marshal, Unmarshal) marshal_value() and unmarshal_value() of soml/lib/shared/marshal.c, which
--   write to and read from an MBuffer, one helper for each group of cases; Marshal/Packet and
--   Unmarshal/Packet have the packet around the values, from marshal_init() to marshal_finalize()
--   and from unmarshal_init() to unmarshal_values(). Marshal/Wire is the format: the one that
--   the comment at the head of marshal.c describes, but for the length of a blob, which the comment
--   shows in one byte and the code writes in four. The 1 and the 0 that they return are `true` and `false`; a
--   value that unmarshal_value() does not set stays the `old` one. The pointer of
--   marshal_finalize() into storage that mbuf_write() has given to realloc(3) is a fault.
-- (Base64, Strings) soml/lib/shared/base64.c, both ways; the escapes of string_utils.c, the check
--   of names of validate.c and what oml_util.c searches and cuts. A string is its bytes before the
--   final zero, and `none` is an access behind that zero. Value/Names has the names of types, and
--   Value/Text what soml/lib/shared/oml_value.c reads from a text for each of them.
-- (Numbers) strtol(3) and its relatives, atoi(3) and the integers of printf(3) as the program calls
--   them.
-- (Schema) struct schema of soml/lib/shared/schema.h and the functions of schema.c that build it,
--   read it from a client's headers, write it there and compare two of them. `none` is a fault and
--   `some none` the NULL that schema_from_meta() returns.
-- (Server) soml/server: Server/Database the tables of a database and the one for a client's schema
-- (database.c), Server/Client the arrays of a client's handler, its schemas, the keys of its
--   headers and the loop over its header lines (client_handler.c), Server/Lines the columns of a
--   line of text. The loop's MBuffer is the bytes of it that are not read. A client's pointer to a
--   database is a place in the list of open ones, so that clients share what one of them changes.
--   What the backend opens, creates and numbers is the parameter Backend.
-- (Server/Client/Samples) The rows of text of client_handler.c, from the bytes that are not read to
--   what is inserted. An insertion into the database is the record Sample. A row whose number of
--   columns is wrong, or whose table is not there, inserts none.
-- (Client) soml/lib/client: Client/TextWriter is text_writer.c, a row of a stream as text. Row is
--   what the loop over the values prints, in order, and print_row prints it into the MBuffer.
--   Client/Arrival has a row of the client at the server.
-- (Proxy) soml/proxy_server: Proxy/Queue is message_queue.c, on a memory of nodes that are allocated
--   or not. The message and the cursor of a node, which the queue does not look at, are left out.
-- (Base) The tests, lists, integers and bytes that these share. Tests: small buffers, an allocator
--   and a type of doubles that have what the theorems ask for.
--
-- Bounds and fuel: the loop of mbuf_print() runs on print_rounds = 3 rounds. A first round that
-- finds too little room asks for as much as the text needs, so the second has room or there is
-- none, and the third is never begun. The halving in oml_calloc() runs four times, after which a
-- word's size of 8 has come to 0. The offsets of a buffer are kept below 2 ^ 31, as its assertions
-- ask.
--
-- The loop of schema_from_meta() runs on the length of the text, of which each round takes at
-- least a character, and the loop that cuts a line of text on the 30 places of its array. The loop
-- over header lines runs once for each unread byte, and once more; a round that goes on takes a
-- line. So does the loop over the rows of text. The search for a table's name runs for the names
-- "_2" to "_9" behind the first, and the loop of msg_queue_destroy() once for each node.
--
-- Not modelled: logging and reports; mbuf_destroy() and the accessors that return a pointer.
-- Memory for schemas, tables and handlers is found. The number of clients of a database is not
-- counted, and the client keeps no copy of its rows of stream 0. The client's other writers and filters, the
-- database backends, the event loop and the rest of the proxy stand beside these parts.
-- soml/lib/shared/marshal2.c is in no build target and soml/lib/shared/cJSON.c is another
-- project's.
pub mod Base
pub mod Mem
pub mod Mbuf
pub mod Value
pub mod Marshal
pub mod Unmarshal
pub mod Base64
pub mod Strings
pub mod Numbers
pub mod Schema
pub mod Server
pub mod Client
pub mod Proxy
pub mod Tests
