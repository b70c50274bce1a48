-- ===== src/Lib.antt =====
-- Verification of somerubbish, a collection of C programs of which the largest are a namespace server
-- and a file synchroniser. Each file of this library opens with the code that it is about; paths are
-- from the root of the repository.
--
-- Nss        nss.c, nss.h, namespace_server.c: nodes and what the code takes from outside (Nss/Node),
--            binary_seach_file (Nss/Search), get_ns_node (Nss/Path), mkfile, rmfile, cd and ls
--            (Nss/Files). A pointer is an address in a store of nodes; a call takes the namespace
--            and returns the new one. Address 0 is NULL. `none` is a read outside an array, a NULL
--            that is followed, or a name that does not fit into the buffer. strcmp and the tests of
--            a file type, which are macros that no file defines, are the record Outside; the
--            theorems name what they need of strcmp. The search takes the number of children as
--            fuel, which is enough since each call raises the lower bound.
--            The red-black tree of users (Nss/Rbt) is a store of nodes with NIL_NODE at 0; what it
--            holds is a tree with a place in it (Nss/Rbt/Tree). The rotations are in Nss/Rbt/Turn
--            and Rotate, the repair after an insertion in Round to Loop, the search in Way, Locate
--            and Found, rb_insert in Attach, Insert and State, rb_delete in Nss/Rbt/Delete: one
--            round of its repair in Gap to CasesRight, the loop in Ends to Loop, the node that goes
--            in Unlink to Whole. The neighbours of a node are in Nss/Rbt/Walk. A loop takes fuel,
--            enough when it is the depth of the tree, three more for rb_insert, four for rb_delete
--            and one for a neighbour.
-- Rsync      rsync/rsync_utility.c, rsync/src.c, rsync/dst.c, rsync/rsync.h: the rolling checksum,
--            with every u32 and u64 sum reduced (Rsync/Checksum), the hash table of the receiver's
--            blocks with its chains as lists (Rsync/Chunk), the list of delta blocks (Rsync/Delta), whose loop
--            takes the bytes of the region as fuel, enough for every loop that advances, the buffer
--            over the file that is sent (Rsync/Buffer), with lseek and read as the record Posix, and
--            the search of main for duplicate blocks (Rsync/Search), on fuel,
--            which is enough when it is more than the bytes of the file, since the search ends in
--            its first round; `none` is the end of fuel or a read before the buffer. What is sent
--            and what the receiver makes of it is Rsync/Transfer, and the blocks of its old file
--            are Rsync/Blocks: a socket is a list of bytes, and the layout of a struct and the bytes
--            that a call of read gives are the record Outside. Read takes a round for each byte as
--            fuel, which is enough while the bytes are there; at the end of a file no fuel is, and
--            `none` stands for that and for a copy past a buffer.
-- Graph      graph/adjacent_list.c, graph/matrix_graph.c, graph/multi_way_tree.c: their circular
--            queue (Graph/Queue), one model for the three copies; graph/MaxDistanceInTree.c: the
--            longest distance in a tree (Graph/Distance).
-- Locks      md_distribute_mutex/new_md_mutex_server.c, hash.c: the table of counted mutexes
--            (Locks/Table), get_zz_mutex and put_zz_mutex as changes of it (Locks/Server), with how
--            many entries were put in front of the chain between its early read and the lock, what
--            they do when there are none (Locks/Server/Counts), and the race of two threads
--            (Locks/Server/Race).
-- Threadpool threadpool/threadpool.c: the linked queue of tasks over a store of what is allocated
--            (Threadpool/Queue), its calls (Threadpool/Queue/Calls), and all threads in any order
--            (Threadpool/Queue/Order). The loop that frees the queue takes fuel, enough when it is
--            more than the length of the queue.
-- Rod        dynamic_programming/cut_rod.c, dp_cut_rod.c: the recursion, on fuel that is enough when
--            it is more than the length (Rod/Cut/Recursion), and the table with the first pieces
--            (Rod/Cut/Table). `none` is also a read or a write outside an array.
-- Religion   algorithm/ubiquitous_religion.c: disjoint sets. get_father takes fuel, enough when it is
--            a bound of the ranks (Religion/Sets/Forest); Union is in Religion/Sets/Joins.
-- Xml        xml_msg.c, xml_msg.h, sn_sckt.h: the messages and the documents made of them
--            (Xml/Message), the parsers (Xml/Parse), and the functions that move them through a
--            buffer (Xml/Buffer). libxml2 is the record Libxml; ComparesNames and IsLibxml are
--            what is used of its documentation, the second for XML names and plain texts; `none`
--            is a text that does not fit into its buffer.
-- Kmp        algorithm/kmp.c: the table of partial matches (Kmp/Table) and the search (Kmp/Search), on
--            fuel that is enough when it is more than twice the length of the text. strncmp is a
--            parameter. The table is a function of the index.
-- Utility    utility.c: atoi_u32 and atoi_u64 (Utility/Decimal), one loop for both widths.
-- Libc       byte strings and what C says of strcmp.
-- Prelude    Boolean tests, C arrays as lists with native indices, `int` and its conversion, and
--            total correctness of code that may fail.
-- Tests      runs of the models, and the theorems at concrete inputs.
--
-- Not modelled: thread_func of the lock server, the user file and login of the namespace server,
-- what prints its red-black tree, the connection of the synchroniser, the allocator, the graph
-- searches, the sorting and the other small algorithms; processes, sockets, libxml2, OpenSSL and
-- Tokyo Tyrant are outside the models.
pub mod Prelude
pub mod Graph
pub mod Kmp
pub mod Libc
pub mod Locks
pub mod Utility
pub mod Threadpool
pub mod Rod
pub mod Religion
pub mod Xml
pub mod Nss
pub mod Rsync
pub mod Tests
