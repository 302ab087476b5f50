-- ===== src/Lib.antt =====
-- Parts of the program: the read-eval-print front end of super.c, a line editor on a terminal
-- which Janet calls as `getline`, the JSON module of json/json.c, which Janet calls as
-- `json/encode` and `json/decode`, the SQLite binding of sqlite3/main.c, the HTTP server of
-- circlet/circlet.c, and the part of the IUP binding of iup_wrap.c that is written by hand. They
-- share the Prelude; the bindings of SQLite and HTTP take Janet values from Json/Value, and SQLite
-- takes results from Json/Result.
--
-- The state of the editor is one record, `Editor` in Shell/State, with the static variables
-- gbl_* of super.c as its fields, what the reads to come will give, what was written, and the
-- `Host`: the results of the calls of the system (ioctl, isatty, tcgetattr, tcsetattr, malloc,
-- getenv, sscanf, whether a write succeeds), which are parameters of the model. Every operation
-- is a function from this state to this state.
--
-- The parts, by file, with the functions of super.c that they model:
--   Prelude          tests on numbers, lists, C memory (memmove, strncpy, strings), decimal text
--   Shell/State      the static variables, and what a well-formed line is
--   Shell/Cursor     what the editor promises: a line as two lists around the cursor
--   Shell/Screen     clear, refresh, clearlines
--   Shell/Terminal   rawmode, norawmode, curpos, getcols
--   Shell/Edit       insert, kleft, kright, kbackspace, kdelete
--   Shell/Words      kleftw, krightw, kbackspacew, kdeletew
--   Shell/History    sdup, historymove, addhistory, replacehistory
--   Shell/Store      the same functions on pointers and blocks of memory, and janet_line_deinit
--   Shell/Matches    is_symbol_char_gen, get_symprefix, compare_bytes, check_match,
--                    longest_common_prefix, check_specials
--   Shell/Complete   kshowcomp
--   Shell/Keys       the switch in the loop of line, with its escape sequences
--   Shell/Prompt     line, simpleline, checktermsupport, janet_line_get, janet_line_getter
--   Shell/Frame, Shell/Drawn   which fields the operations leave alone
-- Below a part, Refine relates its code to Shell/Cursor or to the list of the history, and Valid
-- is about what stays well formed, as are History/Kept, Keys/Ready and Prompt/Fresh. Keys/Steady
-- and Prompt/Typing follow a line that is typed through the loop, and Prompt/Answer goes from the
-- prompt to the bytes handed back and the editor that is left, which Prompt/Lines repeats for one
-- call after the other. Below Shell/Store, Owned and Contents are about pointers that own their
-- blocks and the strings there, Adds, Replaces and Moves about single operations, Safe about all
-- lines of a process, and Refine about the history of the editor.
--
-- The parts meet as in the code: `janet_line_getter` sets the tables for completion and calls
-- `janet_line_get`, which puts the terminal into raw mode and runs `line`. That asks for the
-- width, makes an entry of the history, and runs rounds of `press`, one for each byte that is
-- read; `press` calls the operations on the line, and each of them draws with `refresh`.
--
-- The JSON module, by file:
--   Json/Result, Json/Value   error texts, Janet values, and the Platform: strtod, sprintf,
--                             janet_table_put and the recursion guard, parameters of the model
--   Json/Unicode     hexdig, tohex, decode_utf16_escape, UTF-8 and escapes
--   Json/Strings     skipwhite, decode_string and the string case of decode_one
--   Json/Decode      decode_one, json_decode
--   Json/Encode      the Encoder, encode_newline, encode_one, json_encode
--   Json/Printed     the text of a value, which Json/Encode/Refine compares with the encoder
--   Json/RoundTrip   encoding and then decoding; Json/RoundTrip/Again, decoding and then encoding
-- The decoder's pointer is the text from it on, and its error is a text and that pointer. The
-- loops over items and entries take the call of decode_one for a part as an argument; its fuel is
-- the recursion guard and two, that of a loop the length of the text and one.
-- A text ends at its first NUL, as in C. Numbers are patterns of doubles that only strtod makes and
-- only sprintf prints. The encoder's recursion follows the value, which is finite here.
--
-- The SQLite binding, by file:
--   Sql/Library      the functions of SQLite and of Janet that it calls, parameters of the model
--   Sql/Parameters   has_null, bind1, bindmany
--   Sql/Rows         execute, execute_collect
--   Sql/Connection   closedb, gcsqlite, sql_open, sql_close
--   Sql/Eval         sql_eval, sql_last_insert_rowid, sql_error_code
--   Sql/Methods      conn_methods, sql_conn_get
-- The World holds the library's state, which no function here looks into, the connections by number,
-- as Janet shares them, and a log of the calls that prepare, finalize and close. The loop over the
-- statements and the loop over the rows have fuel, which Sql/Eval/Total shows to be enough.
--
-- The HTTP server, by file:
--   Http/Server      build_http_request, send_http and http_handler
--   Http/Managers    cfun_manager, cfun_poll, do_bind, cfun_bind_http, manager_gc, manager_mark and
--                    connection_mark
--   Http/Reply, Http/Served, Http/Marked   what is sent for one event, for a sequence of requests
--                    behind the binding of a port, and what the collector keeps
-- What mongoose and Janet do is in the records Web, of Http/Server, and Mongoose, of Http/Managers.
-- The state of the fibers is a type of its own, which janet_continue changes; a fiber does not poll
-- or bind while it runs.
--
-- The IUP binding, by file:
--   Iup/Callbacks    IupSetThunkCallback_wrapped, janet_iup_universal_cb and
--                    IupGetAttributeAsString_wrapped
--   Iup/Thunks       push_thunk, get_thunk_by_id and call_thunk_N
--   Iup/Runs         calls and events in any order, the nested ones among them, as a relation
-- IUP and Janet are the record Library of Iup/Callbacks.
--
-- Bounds: the buffer has 1024 cells, the history 100, the matches 256. A loop that counts has its
-- count as fuel. The loop of `line` has the number of the reads to come and one more, and the loops
-- of `refresh` the width of the prompt and the line and one more.
--
-- A character is signed, as it is on the machines that the program is built for: bytes from 128 on
-- are not typed into the line. A call of exit and a call that C leaves undefined are values of the
-- field `status`; the loop stops after the round in which one happened, with the result `rejected`
-- and that status, and what the rest of that round does to the state has no meaning: a result says
-- that the code returned where the status is `running`. Where replacehistory finds no entry, the
-- count becomes -1 and the code goes on; the count of an `Editor` is never negative, so that this is
-- the status `uncounted`, of which nothing is shown. The bytes that a failed read leaves in an array
-- are a parameter. The `Host` gives its answers by the call and its argument, the same for the whole
-- of a line: a write, a tcsetattr or a malloc that fails in the middle of a line after others went
-- through is not a run of the model.
--
-- Shell/Store numbers the blocks of memory by the calls of malloc, so that a block that was freed is
-- never taken for a later one.
--
-- Not modelled: the terminal settings themselves, the overflow of int, the Windows branch, and main
-- of super.c and of app.c, which only call Janet; janet_line_init is empty. The wrappers of single
-- functions and constants in iup_wrap.c, and all of curl_wrap_app.c but a few lines of declarations,
-- are generated by SWIG; circlet/mongoose.c and sqlite3/sqlite3.h are other projects' code. The
-- scripts in Janet are another language.
pub mod Http
pub mod Iup
pub mod Json
pub mod Prelude
pub mod Shell
pub mod Sql
