-- ===== src/Lib.antt =====
-- Verification of YABWF, an HTTP server in C (a fork of Boa).
--
-- Parts of the program and the files that model them (paths are from the repository's root):
--   Util.Pathname       clean_pathname of src/util.c, the path of a request
--   Util.Uri            unescape_uri of src/util.c, with HEX_TO_DECIMAL of src/defines.h
--   Util.Decimal        simple_itoa and boa_atoi of src/util.c
--   Util.Date           month2int, date_to_tm, modified_since and rfc822_time_buf of src/util.c
--   Util.Host           check_host of src/util.c
--   Util.Log            sanitize_log_string of src/util.c
--   Escape              the bit table of src/escape.c and escape.h, and escape_string of src/buffer.c
--   Buffer              the output buffer of a request: the rest of src/buffer.c
--   IndexDir            the escaping functions of src/index_dir.c
--   Access              src/access.c, the rules that allow or deny a file
--   Hash                src/hash.c, the tables of MIME types and of home directories
--   Range               src/range.c: the pool of ranges, range_parse and ranges_fixup
--   Queue               src/queue.c, the ready, blocked and free requests, linked through the requests
--   MmapCache           src/mmap_cache.c, the table of mapped files with their use counts
--   Pipe                src/pipe.c: the output of CGI programs and the bytes of files, to the client
--   Cgi                 of src/cgi.c, the environment (Cgi.Variables) and the arguments of a CGI program
--   Request.Logline     process_logline of src/request.c, the request line
--   Request.Options     process_option_line of src/request.c, with add_accept_header and to_upper
--   Request.HeaderEnd   process_header_end of src/request.c, between a header and its answer, with strlower
--   Life                new_request, get_request and sanitize_request of src/request.c
--   Life.Freeing        free_request of src/request.c
--   Life.Turns          process_requests of src/request.c, a round over the ready queue
--   Loop                src/select.c: fdset_update and the rounds of the server's loop
--   Read                read_header of src/read.c, the bytes of a request cut into lines
--   Read.Body           read_body and write_body of src/read.c, the body of a POST
--   CgiStrip            of src/cgi_header.c, strip_cgi_prefix and the tokens of CGIStripPrefix
--   CgiHeader           of src/cgi_header.c, process_cgi_header, the header of a program's output
--   Examples            the theorems at concrete inputs
-- Prelude holds what these share. Where a file is large, the proofs stand in its child modules.
--
-- How the parts interact: request.c passes the URI of a request line through unescape_uri and
-- clean_pathname, its host through check_host, its Range header through range_parse; get.c fits
-- the ranges to the file by ranges_fixup; answers and the parts of pages go through req_write and
-- its escaping forms into the buffer of the request, which the queue of requests sends by
-- req_flush; read_header cuts what a client sends into lines, the first for process_logline and
-- the others for process_option_line; process_header_end puts the URI through unescape_uri and
-- clean_pathname, the host through check_host and the file through access_allow; read_body and
-- write_body take turns until a program can be started; process_cgi_header drops what
-- strip_cgi_prefix finds and sends the header by req_flush; a request stands in one queue:
-- get_request puts it into the ready queue, each round of the loop lets fdset_update make blocked
-- requests ready, and process_requests gives each ready request a turn with the handler of its
-- state, and block_request, ready_request and free_request move it when it waits, when its
-- descriptor is ready and when it is over; a header line sets a field of the request or goes
-- through add_cgi_env into its environment, which complete_env hands on to a CGI program; get.c
-- takes the map of a file from find_mmap, or has its ranges sent by io_shuffle; what a CGI program
-- writes goes through read_from_pipe and write_from_pipe; files are checked against the rules of
-- the configuration by access_allow; get.c asks get_mime_type for the type of a file and alias.c
-- get_home_dir for the directory of a user; names that the server writes into pages and headers go
-- through escape_string; numbers of headers are read by boa_atoi; what clients send is logged
-- through sanitize_log_string.
--
-- How the model is written: a C string is the list of its bytes without the terminator, and
-- reading behind its end gives 0. A loop over a string is a recursion on that list; where the code
-- moves a pointer by more than one byte, the recursion has the count of bytes still to be passed.
-- A linked list is a list. A result that stands for an error, such as -1, is `none` or `false`. An
-- unsigned long has `bits` bits, 32 or 64, and its arithmetic wraps at 2 ^ bits; chars are signed.
--
-- Bounds: simple_itoa runs on the 21 bytes of its buffer as fuel, where an unsigned int has at most
-- ten digits. The year of rfc822_time_buf is written on ten rounds of fuel, the most
-- digits of an unsigned int. The search of find_mmap runs on the 256 entries of its table as fuel,
-- and a theorem below shows that more makes no difference. The loop of strip_cgi_prefix over the
-- lines runs on one more than the place where it starts, and a theorem below shows that this is
-- enough. process_requests runs on a list of turns, what the handlers and the system do, and a
-- theorem below shows that one for each ready request and one more are enough. fdset_update runs
-- on as many steps as there are requests, and the theorems on the loop show that this is enough.
-- No other loop needs fuel.
--
-- Not modelled: sockets, files, processes and signals, which are system calls; what read, write,
-- lseek, sendfile, mmap and madvise give is an argument of the modelled functions. The log lines
-- that the modelled functions print. malloc fails only where escape_string, add_cgi_env and
-- hash_insert handle that, and where new_request does, whose malloc is a parameter, since the
-- program ends at other failures. fnmatch, getpwnam, sscanf and gmtime are parameters. atoi's
-- result for numbers that do not fit an int is a parameter, as C leaves it open. The socket
-- options, the closing of descriptors and the memory that is given back in request.c are left out.
-- The rest of cgi.c (starting a program), of util.c and of index_dir.c, and alias.c, get.c,
-- response.c, config.c and poll.c, the other form of the loop, have no model here, and neither
-- have the runs of signal handlers in the loop of select.c.
mod Prelude
pub mod Util
pub mod Escape
pub mod Buffer
pub mod Range
pub mod Access
pub mod Hash
pub mod IndexDir
pub mod Queue
pub mod MmapCache
pub mod Pipe
pub mod Cgi
pub mod CgiStrip
pub mod CgiHeader
pub mod Request
pub mod Read
pub mod Life
pub mod Loop
mod Examples
