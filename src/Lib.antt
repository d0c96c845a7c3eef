-- ===== src/Lib.antt =====
-- PeerStreamer's streamers: a peer-to-peer program that takes a stream in, cuts it into chunks,
-- trades the chunks with its neighbours, and plays what it received.
--
-- The main loop of a receiving peer (`loop` of loop.c) sends offers once a period, has the neighbours
-- updated with every tenth of them (topology.c), and hands each message to the part that it is for. That
-- of the source (`source_loop`) also takes chunks from the input and pushes them to neighbours.
-- Signalling messages (chunk_signaling.c) are offers, accepts, acknowledgements and buffer maps: an offer
-- (`send_offer` of streaming.c) is answered by the chunks that `get_chunks_to_accept` picks, which are
-- locked (chunklock.c) so that no other neighbour is asked for them; an accept is answered by the chunks
-- themselves (`send_accepted_chunks`). The offers that are under way are transactions (transaction.c),
-- which an acknowledgement ends; how long they took and how many were accepted sets the period of the
-- offers (ratecontrol.c). A chunk that comes in (`received_chunk`) is unlocked, given to the output
-- (output-grapes.c), which puts the chunks in order, or streamed to another program
-- (output-chunkstream.c), which reads it as its input (input-chunkstream.c), and kept in the chunk
-- buffer. All parts register what they do with measures.c. The neighbours are chosen with the sets of
-- node ids of nodeid_set.c. config.c keeps settings in a file;
-- streamer.c reads the command line and starts one of the two main loops.
--
-- Which file models what:
--   Common                shared names, Boolean tests on numbers; Common.Lists, Common.Ints and
--                         Common.Texts have lists, whole numbers and texts with atoi and %d over the
--                         native numbers
--   Chunk                 struct chunk and the attribute block of streaming.c
--   Timer                 compatibility/timer.h, tv2int and int2tv of ratecontrol.c
--   Output                output-grapes.c: output_init, buffer_free, buffer_flush, output_deliver
--   Input                 input-grapes.c: input_open and input_get
--   Chunkstream           Output for output-chunkstream.c, Input for input-chunkstream.c; the module
--                         itself has the frame of a chunk in the stream; Through joins the two ends
--   Chunklock             chunklock.c: the table of locks and its functions
--   NodeidSet             nodeid_set.c: every function
--   Transaction           transaction.c: the doubly linked list on a heap
--   Measures              measures.c: print_every and print_measures; Measures.Register has the
--                         registration functions
--   Payload               payload.h: the headers of a payload and of a frame
--   Grapes                what the sources use of GRAPES's chunk buffers, chunk id sets and schedulers,
--                         as records of operations with what their documentation says of them;
--                         Grapes.Lists fills the first two with lists, Grapes.First the schedulers with
--                         one that takes the first pairs
--   Streaming             streaming.c: Needs for needs and _needs, Attributes for the attribute
--                         blocks, Accept for cb_to_bmap and get_chunks_to_accept, Offer for
--                         compose_offer_cset, Offering for send_offer, Send for send_accepted_chunks,
--                         Push for add_chunk, generated_chunk and send_chunk, Receive for
--                         received_chunk and the messages that it sends
--   Signaling             chunk_signaling.c: the handlers and sigParseData
--   RateControl           ratecontrol.c: every function
--   Topology              topology.c: the choice of neighbours in update_peers; Topology.Inactive has
--                         the loop that drops peers, Topology.Rtt the ranking by round trip times, and
--                         Topology.Update the whole of update_peers on the peer set
--   Loop                  loop.c: tout_init and loop; Loop.Source has source_loop
--   Streamer              streamer.c: cmdline_parse and atod_kmg; Streamer.Launch has main and
--                         am_i_source
--   Config                config.c: config_parse_entry, config_load, config_dump
-- A static variable is a field of the state that a function takes and returns. Functions of one name
-- in the source and here are one function; `_needs` is `set_needs`, `sigParseData` is
-- `sig_parse_data`, and each reg_* function of measures.c is an event. Modules below a part prove what
-- holds of it; those called Tests run it.
--
-- Bounds and fuel. Chunk ids are natural numbers (the int of the source without its negative part,
-- but for the -1 of "not set", which is `none`), and so are node ids; the counters of measures.c
-- do not wrap. The 16 bits of a transaction id and of a hop count, the 32 bits of the size of a frame,
-- the 64 bits of deadlines and delays and the bytes of headers are written out; where a difference of
-- times or a number of a text may be negative, it is an integer (ℤ). The loops of output-grapes.c take
-- the size of the buffer as their number of rounds, which is enough since each round empties a slot. A
-- walk of the linked list of transaction.c takes fuel: a round for each element and one for NULL.
-- config_load reads a line in each round, and so a round for each byte is enough. The other loops run
-- down a number or a list: the main loops run over a list of what wakes them up, the stream over lists
-- of what each call of send and recv returns. The buffers of the streams have 2 ^ 19 bytes. recv takes
-- as many bytes as there is room for; chunk_write gives the encoder the room behind what is pending,
-- and where the code and its size do not fit behind that, it writes past the end of sendbuf, which is
-- undefined in C: there the model has no result (`none`). Times are whole numbers of microseconds, and
-- what the clock says is an argument: one reading for all locks of chunk_locks_cleanup, which reads it
-- for each, and two for print_every, which reads it again in print_measures.
--
-- A global that several parts change is an argument or a field where it is read: `period` is a field of
-- the states of the main loops, which an acknowledgement sets to any length (`acknowledged`), and the
-- settings of the command line are arguments or fields too.
--
-- What other libraries do is an argument or a field of a record: the sets, buffers, schedulers and the
-- peer set of GRAPES, its chunkiser, its encoder and decoder of chunks, what the calls of the system
-- return, and the arithmetic, parsing and printing of `double`. Each record is filled by a concrete one
-- in a Tests module, in Grapes.Lists or in Grapes.First.
--
-- Not modelled: getopt and the start of the network (init of streamer.c), sockets (net_helpers.c), the
-- threads of loop-mt.c, the measuring library behind measures-monl.c, the ALTO client of
-- topology-ALTO.c and debugging output, which are mostly calls of other libraries; the weights and
-- scores of streaming.c, one-line conversions into floating point that are handed to the schedulers of
-- GRAPES; end_measures and get_receive_delay of measures.c; and config_free and input_close, which only
-- free.
pub mod Common
pub mod Chunk
pub mod Output
pub mod Timer
pub mod Chunklock
pub mod NodeidSet
pub mod Transaction
pub mod Grapes
pub mod Input
pub mod Streaming
pub mod Measures
pub mod Payload
pub mod Signaling
pub mod Topology
pub mod Loop
pub mod Chunkstream
pub mod RateControl
pub mod Config
pub mod Streamer
