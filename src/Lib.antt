-- ===== src/Lib.antt =====
-- The repository is a collection of C programs for the book "Advanced Programming in the UNIX
-- Environment". This library models its parts that keep state across calls and threads.
--
-- - thread/thread_pool/thread_pool.c: ThreadPool (the struct threadpool_t, threadpool_create,
--   threadpool_add, the worker threadpool_thread, the manager adjust_thread, the flag of
--   threadpool_destroy). A thread's function is cut wherever it gives up a lock, and each piece is one
--   function on Pool. ThreadPool/System composes the pieces to a step relation in which any thread may
--   go next and a waiting thread may wake at any time. ThreadPool/Queue sees the circular array as a
--   list, ThreadPool/Resize counts the threads that the manager adds, ThreadPool/Invariant and
--   ThreadPool/Order hold the invariants (ThreadPool/Pieces: what the pieces do to the queue),
--   ThreadPool/Runs has the theorems on all runs, ThreadPool/Shutdown those on the time after
--   threadpool_destroy. The signals are not modelled: POSIX lets a wait return without one, so that
--   every run of the program is one of the model, and only what holds in all runs is stated.
-- - thread/mythreadpool/thread_pool.c and thread_pool.h: MyThreadPool (the same pool with a single
--   lock, written a second time), MyThreadPool/System (its step relation, with the lock that the
--   manager keeps), MyThreadPool/Stuck (no task is ever counted), MyThreadPool/Locked (the lock).
-- - unix网络编程/IO多路复用/epoll/epoll_reactor/server.c: EpollReactor (eventset, eventadd, eventdel,
--   acceptconn, recvdata, senddata, initlistensocket and the turn of the loop in main).
--   EpollReactor/Slots, Handlers and Loop are about the pointers to slots that epoll keeps,
--   EpollReactor/Lengths about the number of slots, EpollReactor/Echo about the data.
-- - thread/synchronization/condition_val/producer_consumer.c: ProducerConsumer/CondVal (the cells, the
--   turns of producer and consumer, waits and signals as a step relation), CondVal/Turns (a turn as one
--   on a stack), CondVal/Runs (what holds in all runs).
-- - process/semaphore/produecr_consumer/main.c: ProducerConsumer/Semaphore (the cells, the semaphores as
--   counters, the pieces of a turn as steps), Semaphore/Runs. ProducerConsumer holds what both share.
-- - unix网络编程/IO多路复用/poll/server.c: PollServer (the table of clients and the turn of the loop in
--   main), PollServer/Turn (which clients a turn serves), PollServer/Arrival (the entry that a new
--   connection gets), PollServer/Told (a turn told without the code's own steps).
-- - unix网络编程/IO多路复用/epoll/epoll_ET/server.c and epoll_LT/server.c: EpollServer (both programs as
--   one, over the kernel interface), EpollServer/Watches (what epoll watches), EpollServer/Drain (what a
--   client gets back).
-- - epoll_ET/client.c and epoll_LT/client.c, beside these servers: EpollServer/Conversation (the client
--   and the server as steps over a connection), Conversation/Talk (what holds in all runs).
-- - process/CGI_server/cgi_server.h: CgiServer (cgi_conn::init and process over a socket), CgiServer/Line
--   (a request's line on the list of bytes), CgiServer/Buffer (the array), CgiServer/Round (a turn with
--   new data), CgiServer/Process (the whole call). The fuel of process is the number of turns.
-- - process/processpool/processpool.h: ProcessPool (the constructor, run, run_child, run_parent),
--   ProcessPool/Family (the processes after the forks), ProcessPool/Loops (when the loops end),
--   ProcessPool/Shutdown (the parent and the signals).
-- - timer/timer_list/timer_list.cpp and timer_list.h: TimerList (addTimer, deleteTimer, adjust, tick on
--   a heap), TimerList/Nodes (the nodes and the commands on them), TimerList/Segment (doubly linked
--   segments), TimerList/Insert, Cycle, Delete, Tick and Destroy (the operations). The fuel of a loop
--   is the number of nodes it may visit; out_of_fuel marks a loop that goes on.
-- - timer/timer_list/main.cpp: TimerServer (the events of a turn, over TimerList and the kernel
--   interface), TimerServer/Handlers (a new connection and the end of one), TimerServer/Clients (a
--   client that connects and leaves), TimerServer/Idle (the end of a turn).
-- - unix网络编程/IO多路复用/select/server.c: SelectServer (the set, the table of clients, a turn),
--   SelectServer/Spares (turns without a call on a descriptor), SelectServer/Forgets (the descriptors
--   that fall out of the set), SelectServer/Serves (the loop over the clients).
-- - process/semaphore/reader_writer/main.c: ReaderWriter (the semaphores as counters, the pieces of a
--   turn as steps), ReaderWriter/Runs (who is where in all runs), ReaderWriter/Data (the buffer).
-- - process/semaphore/sem_init/slock.c: NamedLock (s_alloc, s_lock, s_trylock, s_unlock),
--   NamedLock/Names (more names than are in use), NamedLock/Tries (the loop of s_alloc). The fuel is the
--   number of names that s_alloc may try.
-- - thread/synchronization/mutex/main.c: SharedCounter (the threads' pieces as steps), SharedCounter/Runs.
-- - thread/thread_create/main.c: Handshake (the two threads as steps), Handshake/Runs.
-- - unix网络编程/IO多路复用/epoll/reactor/server.c and main.c: FileReactor (the events, the handlers, the
--   loop over the ready events), FileReactor/Rearm (a descriptor that is registered again),
--   FileReactor/Client (a client's data and its end), FileReactor/OpenTable (a kernel for concrete
--   inputs that knows which descriptors are open).
-- - timer/timer_wheel/timer_wheel.cpp and timer_wheel.h: TimerWheel (the constructor, addTimer,
--   deleteTimer, tick on a heap), TimerWheel/Unusable (what a program can do with a wheel).
-- - Kernel: the part of epoll that the event loops use, as an interface of operations and laws;
--   Kernel/Table is an implementation of it by a function.
-- - Ring: a circular array read as a list; Base: Boolean tests, lists and sums over the native numbers.
-- - The modules named Examples hold the witnesses and runs on small inputs.
--
-- Pointers, thread ids and descriptors are numbers, and 0 is NULL. The sizes and counters of the pools
-- are natural numbers where the source has int; the sizes given at the creation bound those of the
-- first pool until a shutdown. What malloc, pthread_create, pthread_kill, accept, recv
-- and send answer is an argument. Every loop is a recursion on
-- the number of rounds left or on the answers that come in; only CgiServer.process, the loops of
-- TimerList and TimerWheel, and the tries of NamedLock have fuel. Enough are the size of the buffer, the
-- length of the list, and the number of names in use, each and one.
--
-- Not modelled: the joins in threadpool_destroy (the file does not compile there), threadpool_free,
-- the order in which condition variables wake their waiters, output to the terminal, the calls that set
-- up the listening socket, the clients of the other servers, s_free of slock.c, whose work is done by
-- sem_close and free. The programs that only show one system call (fork, exec, the file calls) keep no
-- state of their own.
pub mod Base
pub mod CgiServer
pub mod EpollReactor
pub mod EpollServer
pub mod FileReactor
pub mod Handshake
pub mod Kernel
pub mod MyThreadPool
pub mod NamedLock
pub mod PollServer
pub mod ProcessPool
pub mod ProducerConsumer
pub mod ReaderWriter
pub mod Ring
pub mod SelectServer
pub mod SharedCounter
pub mod ThreadPool
pub mod TimerList
pub mod TimerServer
pub mod TimerWheel
