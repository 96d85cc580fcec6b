-- ===== src/Lib.antt =====
-- Verification of assignments of this repository: the file server and client of A3, the chatroom
-- of A5/Chatroom, which contains a copy of the former, the traceroute of A5/Traceroute, the two
-- word counters and the signals of A1, the player of A4, and the listing and the tree of files of
-- A2.
--
-- Both servers give each connection a thread, which reads `struct Message` after `struct Message`
-- and calls the handler that a map has for the message's command. A client's console turns words
-- into messages. A file goes out as a message, then blocks of 512 bytes, then the rest. In the
-- chatroom a text goes from the client's `comm_sendmsg` to the server's `parse_msg`, from
-- `sendmsg_handler` through the FIFO of MessagePipe to `loop_dispatch`, and from there to the
-- connections that the table of users in shared memory names, where `comm_waitmsg` reads it.
--
-- Files:
-- - Prelude: what the modules share of the libraries, C strings and C's division of integers.
-- - Net: the socket calls, a monad of results with the error branches and the accesses out of
--   range, and what a theorem may assume of a connection; Net/Loopback is a connection for the
--   examples.
-- - Transfer: the loops over blocks of A3/Handlers.cc, A3/FileClient.cc and their copies in
--   A5/Chatroom/src, with the proofs of what is sent and received in Transfer/Send, Transfer/Recv
--   and Transfer/Received, of reads that return less than they ask for in Transfer/Pieces, and of
--   the accesses out of range in Transfer/Safety.
-- - Host: get_handler, comm_get and comm_put for any message struct, over a file system that is a
--   parameter; Host/Serve and Host/Fetch have their proofs, and Host/Start is the `main` of both
--   clients around their consoles.
-- - Listener: the arguments, set-up and accept loop of A3/FileServer.cc and
--   A5/Chatroom/src/Server.cc, with the proofs in Listener/Rounds; Ftp/Main and Chat/Main are the
--   two `main` functions.
-- - Ftp: A3. Ftp/Handlers is Handlers.cc, Ftp/Server is FileServer.cc, Ftp/Client is
--   FileClient.cc, Ftp/Session has the two sides together for one command, Ftp/Fetches for a
--   whole session of the console and the server's thread, and Ftp/Crashes the requests at which
--   it accesses what it must not.
-- - Chat: A5/Chatroom. Chat/Client is src/Client.cc, Chat/Server is src/Server.cc with the
--   handlers of src/Handlers.cc, Chat/Users is src/MessageSharedMemory.cc with conn_handler,
--   Chat/Pipe is src/MessagePipe.cc, Chat/Dispatch is loop_dispatch, and Chat/Session has the
--   whole way of a message.
-- - Chat/Console: the console of A5/Chatroom/src/Client.cc and what `cin` and `gets` read for it,
--   with the proofs in Chat/Console/Input, Chat/Console/Greeting and Chat/Console/Ends.
-- - Chat/Texts: many texts of one client in a row, from the lines of its console (Chat/Texts/Said)
--   to a round of the server's thread and one of the dispatcher (Chat/Texts/Served) that take turns
--   (Chat/Texts/InTurn) until the connection ends (Chat/Texts/Ended); Chat/Texts/Visit is a whole
--   visit of a client, with its name and id.
-- - Chat/Users/Race: the threads of several connections in conn_handler, and the lock of
--   src/MessageSharedMemory.cc, as steps; Chat/Users/Race/Alone has one thread that is not
--   disturbed, Chat/Users/Race/Lost two that disturb each other.
-- - Chat/Room: the threads of many clients and the dispatcher, a message at a time and in any
--   order, as steps over `clithread` and `loop_dispatch`; Chat/Room/Order is what is said of a
--   state, and Chat/Room/Runs has the proofs about the steps.
-- - Chat/Heard: the loop of `comm_waitmsg` in Client.cc; Chat/Heard/Told joins it to the room,
--   and Chat/Heard/Taken has it at one connection with `comm_get`.
-- - Chat/Stored: a PUT from `comm_put` of the chatroom's client to the file that its server
--   writes.
-- - Chat/Users/Segment: the constructor of src/MessageSharedMemory.cc, and how the table is
--   attached.
-- - Chat/Poll: the interface MessagePoll of include/MessagePoll.h, as a mailbox,
--   and sequences of its calls; Chat/Pipe/Queue has MessagePipe as one.
-- - Words: A1/EngWordsSeparator.cc, with the proofs about getContentStr in Words/Content,
--   getWords in Words/Separate, parseAndCount in Words/Count, Words/Ordered and, as a bag of
--   words, Words/Bag, and the whole program in Words/Program; Words/Regex is
--   A1/EngWordsSeparator_regex.cc, with boost's splitting as a parameter.
-- - Listing: A2/ls_l.c; Listing/Permissions compares its permissions with what `ls -l` shows, and
--   Listing/Lines has the lines of `main`.
-- - Tree: A2/ls_tree.c, over a file system that is a parameter; Tree/Rendered compares it with a
--   tree.
-- - Traceroute: the checksum and the request of A5/Traceroute/icmp.cc and main.cc, with the
--   proofs in Traceroute/Checksum; Traceroute/Hops is Packet.cc and the loop of main.cc, with the
--   proofs in Traceroute/Hops/Replies, Traceroute/Hops/Outcomes and, for whole traces,
--   Traceroute/Hops/Trace. Traceroute/Datagrams is what main.cc reads in its buffer, with the
--   proofs in Traceroute/Datagrams/Headers, for the answers to its requests,
--   Traceroute/Datagrams/Quoted, and for their identifiers Traceroute/Datagrams/Identifiers.
--   Traceroute/Program is the whole of main.cc, with the wrappers of sockwrap.cc;
--   Traceroute/Program/Routes and Traceroute/Program/Traced have whole runs of it,
--   Traceroute/Program/Blind the runs with a process id of more than 16 bits.
-- - Signals: A1/signal_comm.cc.
-- - Player: A4/mp3player.c, with what libav and ALSA answer as arguments and the calls of them as
--   the result; Player/Played has the proofs about the loop over packets, Player/Runs those about
--   `main`.
-- - Ftp/Tests, Chat/Tests, Words/Tests, Listing/Tests, Tree/Tests, Traceroute/Tests,
--   Player/Tests, Transfer/Tests and Chat/Main/Tests: the theorems at concrete inputs.
--
-- The state of a thread is passed explicitly: the connection, the files, and in the chatroom the
-- table and the bytes in the FIFO. The threads at the lock of MessagePipe, at the table and in
-- the whole room are step relations instead. Code that reads memory that nothing has set takes
-- what it holds as an argument (`stale`, `Leftover`, `msg`). MessagePipe opens and
-- closes the FIFO in each call: `held` says whether another thread has it open when getMessage closes
-- it, and what is left in it is discarded where none has; `reader` says whether the dispatcher has it
-- open when a thread writes. An access outside of an object, a
-- call of a null pointer and a write through one are the result `fault`. The loops over blocks
-- recurse on the rounds that are left, which is the quotient that the code computes. `clithread`
-- takes the number of messages that it handles at most, and says whether it would wait for
-- another one; `loop_dispatch` takes the number of messages and `console` the number of commands,
-- of which one more than the input has characters is enough. `wait_messages` takes the number of
-- messages, of which one more than were sent is enough to see the end of the connection.
-- `print_file` of ls_tree has fuel for the depth of the tree.
--
-- Not modelled: how printed lines are laid out, but for ls_tree; the bytes of a message struct,
-- which the compiler lays out and which are a parameter with a round trip (`Layout`); the
-- kernel's sockets, FIFO and files; how the threads of a client take turns within one message;
-- the libav headers in A4/libav, another project's; A3/test.cc, a scratch program. `compare` of
-- ls_tree only orders the list of `scandir`, which the parameter answers. `append_lines` of the
-- word counter has fuel, of which one more than the file's bytes is enough.
pub mod Prelude
pub mod Net
pub mod Transfer
pub mod Host
pub mod Listener
pub mod Ftp
pub mod Chat
pub mod Traceroute
pub mod Words
pub mod Listing
pub mod Tree
pub mod Player
pub mod Signals
