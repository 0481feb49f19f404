-- ===== src/Lib.antt =====
-- A model of TCPHandoff, a pair of kernel modules: a front end that accepts clients, watches their
-- sockets and reads the request that decides to which backend a connection goes, and a backend that
-- takes over connections that front ends hand to it.
--
-- The front end. `Server` is the accepting thread (frontend/tcpha_fe_server.c): `setup_server_socket`,
-- the accept loop and `tcpha_fe_server_daemon`; `Server.Unload` follows the parts from loading to
-- unloading, and `Server.Bag` forgets which pool holds a connection. Each client goes to `tcpha_fe_conn_create`. `Herder`
-- has the connections and the herders, one to a processor (frontend/tcpha_fe_client_connection.c and
-- .h): `tcpha_fe_conn_create`, `search_least` for its loop, `tcpha_fe_conn_destroy`; in
-- `Herder.Lifecycle` `init_connections`, `herder_init`, `herder_destroy`, `destroy_connections`; in
-- `Herder.Run` the loop `tcpha_fe_herder_run`. `Poll` is the eventpoll of a herder
-- (frontend/tcpha_fe_poll.c and .h), one function to an operation under its name in C: `tcp_epoll_init`,
-- `_insert`, `_remove`, `_setflags`, `_wait`, `_wakeup` and `_destroy`; `Poll.Tree` has the tree of
-- items, `tcp_ep_hash_insert` and `tcp_ep_hash_find`, and `Sock` the order of sockets, `tcp_cmp_sock`.
-- `Processor` is the work that a herder queues (frontend/tcpha_fe_connection_processor.c):
-- `process_connection`, `process_pollin`, `process_pollrdhup`, and in `Processor.Work` the queue,
-- `processor_init` and `processor_destroy`. `Http` is the header of a request
-- (frontend/tcpha_fe_http.c and .h): `http_process_connection`, a function to each of its three loops.
-- `Frontend` is the module of the kernel (frontend/tcpha_fe.c): `tcpha_init`, `tcpha_exit`, and the
-- thread that accepts clients in between.
--
-- `Poll.System` has all eventpolls that the operations make of one that `tcp_epoll_init` has set
-- up, one operation after the other; `Poll.Mailbox` has what the eventpoll promises to one socket;
-- `Poll.Hook` takes `tcp_epoll_insert` apart into the steps between which something may arrive at
-- the socket; `Poll.Sleep` takes `tcp_epoll_wait` apart into the steps between which a socket may
-- wake the herder; `Poll.Cache` has the cache for items and the count of its users, with which
-- `tcp_epoll_init` and `tcp_epoll_destroy` end. `Herder.Stop` has the steps of a herder's thread
-- and those of `destroy_connection_herders` that stop it, in any order, `Herder.Drain` and
-- `Herder.Starve` its rounds where no socket wakes and where many do, and `Processor.Workers` the
-- steps of `process_pollin` where several workers take them for one connection. `Pipeline` follows
-- what a client sends from its socket to the header of its request, through `Poll`, `Herder` and
-- `Processor`.
--
-- The backend. `Backend` has the structures, `Backend.Listener` the accepting thread,
-- `Backend.Server` the list of front ends, `establish_be_fe_connection` and `stop_fe_connections`,
-- `Backend.Daemon` the loop of `be_fe_connection_daemon`, `Backend.Message` `parse_message` (all of
-- backend/tcpha_be_fe_connection.c), and `Backend.Handoff` the command table, its handlers and the
-- copy of a socket (backend/tcpha_be_handoff_connection.c). `Backend.Module` is the module of the kernel
-- (backend/tcpha_be.c): `tcpha_be_init` and `tcpha_be_exit`.
--
-- The modules below a part hold the proofs about it, each file for what it proves; `Examples` files hold
-- the theorems at concrete values. `Common` has the lists and tests over native numbers, the words,
-- what a read delivers, and the outcomes of code that may wait for ever or fault.
--
-- How the state is read. A machine integer is its bit pattern, with the wrap-around written out;
-- `int` overflow wraps, `char` is signed as on x86, and pointers have 64 bits. Memory that the code
-- reads through pointers is a function from addresses, with a mark on what is allocated. A kernel list
-- is the list of its entries, but for the list of front ends, whose pointers are modelled. Code that
-- runs under a lock is one step; the lock of a pool is a part of the state, since it is taken twice. A
-- loop that waits for `kthread_should_stop` is a recursion on the list of its rounds. The loops over
-- the header are recursions on the bytes that are left. `stop_loop` follows pointers that may run in a
-- circle, on fuel: 2 is enough for every list that the code makes, and one more than the number of
-- entries for a list in order.
--
-- Parameters. `RbTree` has the kernel's `rb_insert_color` and `rb_erase`, which keep the order of the
-- items; `ListHead` has `list_add` and `list_del`; `sk_clone` is a function from addresses, which
-- may fault; whether `kthread_stop` of a herder comes back is a mark on the herder, and `Herder.Stop`
-- shows when it does. The results of allocation, of `poll`, of `kernel_recvmsg` and of the
-- socket calls are arguments.
--
-- Not modelled: the copies of kernel functions for old kernels (frontend/tcpha_fe_socket_functions.c);
-- output; memory that the code does not test for NULL, but where a definition says so; operations of two
-- threads that run at the same time, but for the sockets that wake a herder between its steps, what
-- happens while a herder sleeps, the stopping of a herder, and several workers for one connection, which the
-- kernel's work queue takes in turn.
pub mod Common
pub mod Http
pub mod Sock
pub mod Poll
pub mod Herder
pub mod Processor
pub mod Server
pub mod Frontend
pub mod Pipeline
pub mod Backend
