-- ===== src/Lib.antt =====
-- InfoLogger, the logging system of the ALICE experiment: a client library writes log messages to a
-- local daemon, infoLoggerD, which transports them to a central server. A message is a list of typed
-- fields; the client encodes it to one line of text for each line of the message, the server decodes
-- the lines and converts messages of older protocols to the default one. Between the threads of the
-- transport stand circular queues of pointers.
--
-- Files:
-- - Base and its children: tests of numbers into Bool, lists over native numbers, C's integers.
-- - Ring: circular arrays, the part that all the circular structures share.
-- - CText: C strings as lists of bytes; CText.Numbers is "%d" in printf and in sscanf.
-- - Fifo: struct FIFO of src/utility.c with FIFO_new, FIFO_write, FIFO_read, FIFO_read_index and the
--   rest; Fifo.Queue is the abstract queue, Fifo.Window and Fifo.Trace the refinement.
-- - LineBuffer: struct lineBuffer of src/utility.c, which splits what a socket delivers into lines;
--   LineBuffer.Line is about the line cut off, LineBuffer.Taken about what goes in,
--   LineBuffer.Conserved about all the bytes that it takes and gives.
-- - CircularTable: struct circular_table of src/permanentFIFO.c; CircularTable.Holds shows a table as a
--   list.
-- - FifoFile: the file of a FIFO as the blocks that its reads find, ct_save and ct_load;
--   FifoFile.Clean: permFIFO_file_clean on the three files of a FIFO.
-- - PermFifo: struct permFIFO with permFIFO_new, permFIFO_write, permFIFO_read, permFIFO_ack,
--   permFIFO_flush and permFIFO_destroy. PermFifo.Queue is the abstract queue; PermFifo.Entries,
--   PermFifo.Tables, PermFifo.Lookup, PermFifo.Load are about the loops; PermFifo.Stored is what the
--   tables and the file hold, which PermFifo.Acks, PermFifo.Writes, PermFifo.Append, PermFifo.Reads,
--   PermFifo.ReadStore and PermFifo.ReadFile keep; PermFifo.Trace, PermFifo.Restart,
--   PermFifo.Cleaning and PermFifo.Recover are about whole runs and the start.
-- - DispatchStats: InfoLoggerDispatchStats of src/InfoLoggerDispatchStats.cxx without its connections;
--   DispatchStats.Counts is about the counts, DispatchStats.Current about the windows.
-- - OnlineBrowser: InfoLoggerDispatchOnlineBrowser of src/InfoLoggerDispatchBrowser.cxx, its clients
--   and what is written to them; OnlineBrowser.Delivery is about what they get.
-- - DispatchSql: InfoLoggerDispatchSQL of src/InfoLoggerDispatchSQL.cxx and the queue of
--   src/InfoLoggerDispatch.cxx; DispatchSql.Rows is about what is inserted, DispatchSql.Retry about
--   failures.
-- - KeyValue: getKeyValuePairsFromString of src/infoLoggerUtils.cxx; KeyValue.Pieces cuts a text into pairs,
--   KeyValue.Trim is about white space, KeyValue.RoundTrip about the
--   text of some pairs.
-- - InfoLoggerDaemon: doLoop of src/infoLoggerD.cxx, its clients and what goes to the server;
--   InfoLoggerDaemon.Lines is about the lines it reads, InfoLoggerDaemon.Clients about its clients.
-- - TransportFiles: TR_file of src/transport_files.h, with TR_file_id_compare.
-- - TransportClient: struct _TR_client of src/transport_client.c and the calls of other threads.
--   TransportClient.Transfer, TransportClient.Replies and TransportClient.Transmit are STATE_CONNECTED of
--   TR_client_state_machine: its variables and the two parts of a turn of its loop, which
--   TransportClient.Steps puts among the calls of other threads. TransportClient.Wire with its children
--   is about the bytes that go to the socket, TransportClient.Order with its children about the order of
--   the files, TransportClient.Released about acknowledged files. TransportClient.Connection is the rest
--   of the state machine; TransportClient.Connection.Loop is about the end of
--   the loop in STATE_CONNECTED, TransportClient.Connection.Pace about the waits,
--   TransportClient.Connection.Shutdown about its end.
-- - Message: the structures of src/infoLoggerMessage.h and the protocol tables of
--   src/infoLoggerMessage.c, infoLog_msg_findField, infoLog_msg_init, infoLog_msg_create.
-- - Message.Encode: infoLog_msg_encode with mysprintf. Message.Encode.Bounds is about its end and its
--   buffer, Message.Encode.Held, Message.Encode.Record and Message.Encode.Lines about the text it
--   writes.
-- - Message.Convert: infoLog_proto_init and infoLog_msg_convert.
-- - Message.Decode: infoLog_decode of src/infoLoggerMessageDecode.c; Message.Decode.Fields and
--   Message.Decode.RoundTrip are about what it reads of an encoded message.
-- - Context: InfoLoggerContext of src/InfoLoggerContext.cxx; Context.Fields is about its fields.
-- - Logger.Options: severities and message options of include/InfoLogger/InfoLogger.hxx.
-- - Logger.Compose: the part of pushMessage in src/InfoLogger.cxx that makes the message;
--   Logger.Compose.Values is about its fields.
-- - Logger.Flood, Logger.State, Logger.Push: the rest of pushMessage, with the flood statistics, the
--   filters and the outputs as a list of events, and the flood protection; Logger.Push.Announce and
--   Logger.Push.FloodFile are about the flood file.
-- - Logger.History: historyReset, historyGetSummary and the part of pushMessage that keeps the history;
--   Logger.History.Kept is about what it holds.
-- - Logger.AutoMute: the `log` that takes an AutoMuteToken; Logger.AutoMute.Interval is about one interval.
-- - Logger.Api: the calls of class InfoLogger that use these; Logger.Api.Endm is about the stream operators.
-- - Tests, Tests.Client, Tests.Daemon, Tests.Database, Tests.Dispatch, Tests.KeyValue,
--   Tests.PermFifo, Tests.Transmission and Tests.Transport: the theorems at concrete inputs.
--
-- The encoder's loop on the lines has fuel, one more than the length of the text that is split; each
-- turn takes at least a line feed off it. `double`, with its printing and scanning, is a parameter
-- (`Real`), with the documented behaviour of the C library as hypotheses (`Laws`). The clock, the
-- opening of files and the environment of a process are parameters too (`World`, `Host`). Times are
-- natural numbers of micro- or nanoseconds. Unsigned counters wrap around; `int` is the integers.
-- A call of a permanent FIFO is what it does under its mutex, and a wait ends with what the other
-- threads made of the FIFO; an offset into its file is a number of blocks. The loops over a table have
-- the number of its items as fuel, the cleaning of a file three turns as in the code. Which
-- system calls fail is an argument of this cleaning and of `new_with`; `new` is the case where none
-- does, and those on a FIFO file in use succeed.
-- Memory management is not modelled: allocation succeeds, and a pointer is an Option or an index.
-- The FIFOs of the transport client are the abstract queues of Fifo.Queue, as Fifo.Trace justifies; a
-- blob's size is the number of its bytes. The state machine of the client has no fuel: a run is over a
-- list of turns or of steps, with what the system calls answer in them.
-- The start of the daemons, the transport server and proxy, the sockets, the database itself and the
-- command-line tools are not modelled: they are system calls and library calls for the most part, or
-- stand on parts not yet here.
pub mod Base
pub mod Ring
pub mod CText
pub mod Fifo
pub mod LineBuffer
pub mod CircularTable
pub mod FifoFile
pub mod PermFifo
pub mod Message
pub mod Context
pub mod DispatchSql
pub mod DispatchStats
pub mod InfoLoggerDaemon
pub mod KeyValue
pub mod Logger
pub mod OnlineBrowser
pub mod TransportClient
pub mod TransportFiles
pub mod Tests
