-- ===== src/Lib.antt =====
-- The Python bindings of NSS (src/*.c): the parts that compute something themselves.
--
-- The extension modules wrap NSS and NSPR for Python. Most of their code moves objects between the two;
-- the code that is modelled here has an algorithm of its own: the buffered reads of sockets
-- (src/py_nspr_io.c), the table of error numbers (src/py_nspr_error.c), the callbacks and the versions
-- of SSL sockets (src/py_ssl.c), and in src/py_nss.c the hexadecimal and PEM texts, indented lines, the
-- decoding of DER, the SecItem type, the password and nickname callbacks with the thread-local store,
-- and the tables of constants and OIDs.
--
-- - Prelude passes on the library's names and holds lists, tests and integers over native numbers.
--   Prelude/Bits has the facts about `|`, `&` and shifts that the decoders use.
-- - Socket: `_readline`, `Socket_readlines`, `Socket_iternext`, `_recv` and `Socket_read`. The state is
--   the open connection and the ReadAhead buffer, of which the valid bytes are kept. PR_Recv and the
--   allocator are a parameter, Transport; Socket/Stream states what a byte stream promises of PR_Recv,
--   and Readline, Readlines and Amounts prove what each read returns.
-- - Hex: `raw_data_to_hex` (Hex/Write) and `read_hex` (Hex/Read).
-- - Der: `sec_strip_tag_and_length` and booleans (Tag), the members of a SET or SEQUENCE (Sequence),
--   bit strings (BitString) and their tables of names (BitTable), integers (Integer), UCS-2 (Ucs2),
--   escaped ASCII (Escape), and `der_any_secitem_to_pystr` (Text), whose recursion Text/Trees compares
--   with a tree.
-- - Errors: `init_nspr_errors`, `lookup_nspr_error` and `get_error_desc`.
-- - Pem: `base64_to_SECItem` and `SECItem_to_base64`; `PL_strnstr` and the base64 codec of NSS are a
--   parameter, Library.
-- - Format: `line_fmt_tuple`, `make_line_fmt_tuples` and `py_indented_format`; Format/Size compares the
--   buffer with what is written, Format/Align the columns.
-- - GeneralNames: `CERT_CopyGeneralNameList`, `CERTGeneralName_list_to_tuple` and their like, over a heap
--   of nodes and an arena that may refuse any request. GeneralNames/Rings says what a circular list is,
--   Copies and Walks follow the loops; Holders has the copies of distribution points, key identifiers
--   and access descriptions, and Outcomes and Issuers what becomes of a list of issuers.
-- - Lines: the macros `FMT_OBJ_AND_APPEND` and its like of src/py_nspr_common.h, `format_from_lines`, and
--   the `format_lines` functions: of keys and algorithms (Lines/Keys), extensions (Extensions),
--   certificates and requests (Certificates), tokens, keys in them and PKCS 12 items (Tokens), SSL
--   information (Ssl, of src/py_ssl.c) and verification logs (VerifyLog). An object is what its getters
--   answer; Python and NSS are a parameter, Api. Lines/Shape has a rule for every step, and its children
--   apply them; Printable gathers the objects and joins Lines with Format.
-- - SecItem: `SecItem_init`, `SecItem_richcompare`, `SecItem_item`, `SecItem_slice` and
--   `SecItem_subscript`. It decodes ASCII data by Pem.
-- - Dict: Python dicts as association lists. Threads: the thread-local store (`set_thread_local` and
--   its like), a dict for each thread.
-- - Callbacks: the callbacks of SSL sockets and their setters; Callbacks/Password and Nickname those
--   that are kept in the thread-local store, and Callbacks/Own what a thread finds there after the calls
--   of all threads. The objects and the calls of Python are a parameter, Python.
-- - Names: `_AddIntConstantWithLookup`, `_AddIntConstantAlias` and the lookups by name and number;
--   Names/Ssl the versions of the SSL library, Names/Oid dotted decimals and the attribute names, Names/Rdn
--   the text of an RDN.
--   `str.lower` and `str.replace` are parameters, and so are the numbers that NSS gives its constants.
-- - Flags: the macros BIT_FLAGS_TO_LIST and the functions that list bit flags by them; the sort of Python
--   is a parameter, Lists.
--
-- Octets are numbers below 256, C strings lists of them. A C `long` or a Python int is ℤ; sizes that
-- cannot be negative are ℕ. Where the code cuts a number to 32 bits, or an unsigned word can wrap, that
-- is written out; the levels of formatted lines are unbounded, and the theorems on them ask that they
-- fit a C int. Memory for buffers and lines is taken to be granted. Loops that the data bound are recursion on fuel, and `none` is running out of it: `_readline` and
-- `Socket_read` need more fuel than the connection has bytes, since every round but the last one takes
-- one; `read_hex` more than its input has characters; the binary search takes the table's length, since
-- the distance of its ends falls in every round; the text of a DER item takes the rounds that
-- Text/Trees counts; the loops over general names take one for each name. Each theorem that needs fuel
-- says how much.
--
-- Not modelled: reference counting and the release of memory, the Python argument parser, tracing, the
-- wrappers of NSS objects (certificates, keys, CRLs, PKCS 12) but for their lines, the other methods of
-- SSL sockets, network addresses, the list of the constants, and the Python files, which hold little logic of their own.
pub mod Callbacks
pub mod Der
pub mod Dict
pub mod Errors
pub mod Flags
pub mod Format
pub mod GeneralNames
pub mod Hex
pub mod Lines
pub mod Names
pub mod Pem
pub mod Prelude
pub mod SecItem
pub mod Socket
pub mod Threads
