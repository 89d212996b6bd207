-- ===== src/Lib.antt =====
-- The server, the database and the client of the peer-to-peer micropayment system.
--
-- Clients connect to the server over TCP. Each message is encrypted with RSA (include/util.hpp). For
-- each connection a thread of the server reads messages, splits them at `#` and calls the database,
-- which holds a row per user: name, address, ports, whether the user is online, and the balance.
-- A transfer is a message of the receiver's client to the server.
--
-- - Base: Boolean tests, lists and integers over native numbers, and texts as lists of bytes. A
--   C string is the text before the first NUL (`c_str`).
-- - Text/Split: `split` of src/server.cpp, and `strtok`. A text of n bytes is split in at most n
--   rounds of the loop, which is the fuel that `split` gives. Text/Split/Loop has the loop as a
--   relation, Text/Split/Fields the reference definition, Text/Split/Tokens what the parts are.
-- - Text/Number: `is_number` of src/server.cpp; `std::to_string` and `std::stoi`. A number n has at
--   most n + 1 digits, which is the fuel of `digits`.
-- - Database: src/Database.cpp and include/Database.hpp. Database/Storage has the row type and the
--   calls of sqlite_orm, a parameter: a storage is any type with these calls, and IsStorage says
--   what they do to the rows. Database/Amount has `double`, a parameter as well.
--   Database/Operations has one function for each operation of `class Database`; each returns the
--   table it leaves and its status. Database/Rows and Database/Tables are lemmas on rows;
--   Database/Spec is the abstract bank, a map from names to accounts, that Database/Refinement and
--   Database/Transfer show the operations to implement. Database/Total, Database/Validity,
--   Database/Payments and Database/Conservation are about the invariant and the sum of the
--   balances, Database/Commuting about two transfers in either order, Database/Interleaving about
--   two threads in `user_transaction` at once, a call of the storage at a time, Database/Sessions
--   and Database/Logins about logouts, Database/History and Database/Growth about any sequence of
--   calls. Database/Lifecycle has the constructor, the destructor and `callback`. A run has at most
--   214748 calls, so that the sum of all balances fits a 32-bit `int`.
-- - Process: how a piece of a program ends (`Result`), and the console on which the programs read
--   what is typed, print, and run commands (Process/Console). Process/Questions has the loop that
--   asks until an answer is typed, Process/Ports the search for a free port that `assign_port` and
--   `login_server` share, Process/Ensures the rules for what holds of the value of a step. What goes
--   to stderr is left out.
-- - Util: include/util.hpp. Util/Rsa has the wrappers of OpenSSL, a parameter with the documented
--   behaviour of a pair of 2048-bit keys; Util/Transport `send_P3` and `recv_P3`; Util/Delivery what
--   arrives. Util/Keys has the making, the removal and the reading of keys; Util/Keys/Letters,
--   Util/Keys/Names and Util/Keys/Files are about the identifier, the commands and the files. Util/Tls has the SSL functions, which nothing
--   calls.
-- - Server: `parse_command` (Server/Commands), the global variables (Server/State) and
--   `process_request` (Server/Handler) of src/server.cpp. A message is handled by a function of the
--   global variables that ends with a value, in an exception, in `exit(0)` or in undefined behaviour.
--   The bytes that each `recv` writes are an input, what is sent is part of the state. An entry of
--   `client_fds` holds a pointer to a variable of a thread, which dangles (`none`) once the thread has
--   ended, and to read it then is undefined; Server/Entries is about these entries. Server/Effects
--   has the rules for predicates that code keeps, Server/Answers those for the number of frames that it
--   sends, Server/Threads is about the counts of connections;
--   Server/Payments, Server/Ports and Server/Lists are about the messages of a transfer, of a login
--   and of the list. Server/System is the server with its queue and its threads, as a step relation: a
--   round of the loop of `process_request` is one step, and steps of several threads come in any
--   order; no step follows a round that ends the process. Server/Runs is about all states that are
--   reached. Server/Start is `main` up to its loop with `assign_port` and `check_db_status`,
--   Server/Start/Questions is about the answers to the latter, Server/Accepting is a round of the loop,
--   and Server/Shutdown has the signal handlers and what the next run finds.
-- - Client: src/client.cpp. Client/Peers has `parse_list_info` and `find_peer_info`, Client/Requests
--   the texts of the requests, `register_user`, `request_list` and `exit_server`. Client/Lists,
--   Client/Lookup, Client/Refresh and Client/Messages are about what client and server read in each
--   other's texts. Client/Transfers has `p2p_transaction`, whose
--   `new char[MAX_LENGTH]` gives memory with any content, `receiving` and `receive_thread`.
--   Client/Login is `login_server`, Client/Session what is printed and read and the end of a session,
--   Client/Start, Client/Choices and Client/Menu `main`. Each round of the menu has what the server,
--   the kernel and the files do in it as an input; the loop takes one round for each such input.
-- - Protocol: the clients and the server together. Protocol/Wire is about one message between a
--   client and a thread of the server, from the call of `send_P3` to the text that the other side
--   reads; what `recv` writes, and into what buffer, is an input (`Wire`). Protocol/Register,
--   Protocol/Login, Protocol/Refresh, Protocol/Payment and Protocol/Exit are each about a request
--   of the client, the round of `process_request` that handles it, and the answer;
--   Protocol/Outcomes and Protocol/Login/Refused are about transfers and logins that the server
--   refuses, Protocol/Running has the round of a transfer as a step of Server/System. Between the
--   sending of a request and its handling the table is the one that the thread finds in its round.
-- - Tests: a storage, a number type and a cipher that meet the assumptions, and small inputs.
--
-- Not modelled: what the threads of the server print; the interleaving of its threads within a
-- round, so where two threads meet in the same variable, but for `user_transaction`; the
-- installation of the signal handlers; the end of what is typed; the client's clock and counts of
-- bytes, and that its thread `receive_thread` runs beside the menu; the copies of sqlite_orm and
-- CTPL.
pub mod Base
pub mod Text
pub mod Database
pub mod Process
pub mod Util
pub mod Server
pub mod Client
pub mod Protocol
mod Tests
