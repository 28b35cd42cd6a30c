-- ===== src/Lib.antt =====
-- A model of the programs of a systems programming course, each a C program of its own: a
-- file server with its clients (Midterm), a concurrent copy of a directory (Homework5), a
-- parking lot (Homework3), a shell for files of grades (Homework1), processes over FIFOs
-- (Homework2), a pide shop (Final).
--
-- CopyTool models Homework5/hw5.c. A manager walks the source directory (process_directory,
-- in CopyTool.Walk) and puts pairs of descriptors into a circular buffer (buffer_t, in
-- CopyTool.Buffer); workers take the pairs and copy. CopyTool.Walk gives the calls that the
-- walk makes, as a list of actions: what the file system answers is part of the directory
-- that is walked. CopyTool.Threads puts the manager (manager_thread) and the workers
-- (worker_thread) together, their critical sections in any order; its waits are in loops, so
-- that a wait is a step that cannot be taken yet. barrier_wait, which waits in no loop, is
-- CopyTool.Barrier, with and without spurious wake-ups. CopyTool.Signals puts the threads,
-- the barrier and the condition variables together: which threads sleep, and which call wakes
-- them. CopyTool.Main is main with its arguments, the start of the threads, and the
-- statistics that it prints when they have ended; the time is computed in double, which is an
-- argument. CopyTool.Limit is the walk of Homework4/hw4.h, which ends the program when a
-- source cannot be opened for want of descriptors, and CopyTool.Limit.Main main of
-- Homework4/hw4.c with its threads, of which the code is otherwise that of Homework5; the
-- signals of the condition variables have no counterpart there, and the exit at EMFILE, with
-- its clean-up, is one step.
--
-- FileServer models Midterm. FileServer.Queue is queue.h, the linked list of process ids,
-- with its nodes in an explicit heap (Heap.Chain holds the lemmas on chains of nodes); its
-- loops run on fuel, and a queue whose nodes form a chain has enough with its size.
-- FileServer.Command is parse_command of concurrent_file_access_system.h on the bytes of the
-- input, and FileServer.Command.Help the help texts of server.c. FileServer.Files has the
-- operations of server.c on the files of its directory (list, read_file, write_to_file,
-- upload_file, download_file, archive_server): the directory is a list of names and contents,
-- and whether the system's calls succeed is an argument. fgets is called once more than the
-- file has bytes at most, which is the fuel of its loop; a line that it reads ends for
-- read_file at its first NUL. FileServer.Requests is handle_request with send_response and
-- log_message. FileServer.Main is the loop of main with the processes that it forks: the one
-- that reads the FIFO, and its parents, each blocked in waitpid; each process has its own
-- copy of the two lists of clients, which are lists here, as FileServer.Queue justifies.
-- FileServer.Startup is main up to this loop: the directory, the log and the FIFO, each call
-- of which may fail.
--
-- Parking models Homework3/hw3.c: the owner and the attendant of a kind of vehicle (carOwner,
-- carAttendant and their counterparts) as steps that interleave, and the loop of
-- simulateParkingLot around them.
--
-- FileServer.Client models Midterm/client.c: the start of the client and its loop, over the
-- bytes of its input; what is written into the server's FIFO is a list of requests, which the
-- theorems of FileServer.Client.Shutdown hand to the loop of the server.
--
-- Grades models Homework1/hw1.h and Homework1/hw1.c. displayFirst5 and displayPage (Grades)
-- and sortAll, addStudentGrade, searchStudent and displayAll (Grades.Students) work on the
-- content of a file, in the pieces of 1024 bytes in which it is read; each piece takes a byte
-- at least, so that a step of fuel for each byte, and two for the end, are enough. strtok_r
-- of Common.Memory works on an array with its NUL bytes, since the program cuts arrays that
-- end with no NUL; what lies in an array before it is read into is an argument, and so is
-- qsort. Grades.Commands has executeCommand with its commands, Grades.Shell readLine and the
-- loop of main: each round takes what the system does for it, so that the list of rounds is
-- the fuel, and one more round than there are lines before exit is enough. The log file is
-- kept apart from the other files.
--
-- Fifos models Homework2/hw2.c: what the parent writes into the two FIFOs, byte by byte, and
-- what its children (child_process1, child_process2) make of it, where the sum of the first
-- child comes before the command of the parent. Fifos.Processes has the ends of the
-- processes: the children exit unless a FIFO blocks them for ever, which is an argument, the
-- handler of SIGCHLD fetches and counts them (sigchld_handler), and the parent waits in its
-- busy loop and then in the loop of wait at the end of main; the steps of the three are taken
-- in any order. Fifos.Startup is main up to there, with the names in the directory as its
-- state. The loop of the first child runs on fuel, and one more than the bytes in the FIFO is
-- enough.
--
-- PideShop models Final. PideShop.Orders has the way of an order through the threads of
-- server.c (handle_client, manager_worker, cook_worker, delivery_worker) as steps in any
-- order; the queues are lists there, as PideShop.Queue justifies, which is queue.c and
-- remove_order_from_queue on explicit memory (Heap). The loops of remove_order_from_queue run
-- on fuel, and one more than the size of the queue is enough. PideShop.Oven has the cooks at
-- the oven: each cook takes a place (oven_capacity_sem) and a tool (oven_sem), and the cooks
-- take turns in any order. The queue of the oven is its size there: a call of enqueue or
-- dequeue is taken to be over before the next one, and no order is cancelled. PideShop.Work
-- puts the two together: a cook takes the steps of PideShop.Orders, and between them those of
-- PideShop.Oven, beside the other threads. In both, a call on a queue is one step, and so is
-- the removal of an order from the three queues; on the queue of the oven, which no lock
-- guards in the code, these calls may overlap. PideShop.Matrices is complex_matrix.c, what a
-- cook computes: a matrix is a function of its indices, its memory is what malloc leaves, and
-- each operation on long long int keeps 64 bits (Common.Longs). PideShop.Client has
-- place_order and signal_handler of client.c; what they send is handed to the threads of
-- PideShop.Orders, and PideShop.Client.Told is what a client reads of their messages where
-- each read gives a whole one; PideShop.Client.Opening is main of client.c, and the number
-- that each thread takes from order_id, in two steps. PideShop.Threads is thread_pool.c, with
-- the numbers that the workers get, and PideShop.Main the rest of server.c: the calls of main
-- that may fail, the threads that it starts, its loop over the connections, and the handler
-- of SIGINT. What a call of the system finds is an argument; malloc and pthread_create
-- succeed, as the code takes for granted.
--
-- Common has the names that all parts use: Boolean tests and lists on the native numbers,
-- texts as lists of bytes, Common.Strings and Common.Memory the functions strtok, strtok_r
-- and atoi as the C standard and glibc describe them, Common.Disk the files of a directory,
-- Common.Sums sums over lists, Common.Loops counted loops, Common.Longs the integers of 64
-- bits, and Common.Numerals atoi on the digits that %d writes. An int that counts (the things
-- found by the copy tool, the vehicles, the orders and their numbers) is a number without a
-- bound: the theorems on the copy tool bound what they print, the others hold of the code as
-- long as its ints do not overflow; atoi wraps as glibc does.
--
-- Not modelled: in the copy tool, waits that end without a signal beside CopyTool.Barrier,
-- and pthread_create that fails; in the file server, the print of the uploaded content, an
-- array without a NUL; in the shop, a read of a part of a message, and calls on the queue of
-- the oven that overlap; in Fifos, what comes of a sum that is late; the handlers of SIGINT
-- but those of Final, the log of the shop beyond its start, delivery_sem, which only makes
-- couriers wait, the delays and most prints, the floating-point distances of
-- Final/delivery.c, and the older Homework2/test.c. The folders of the hand-ins below
-- Homework2 and Homework5 hold copies of the same files.
pub mod Common
pub mod CopyTool
pub mod Fifos
pub mod FileServer
pub mod Grades
pub mod Heap
pub mod Parking
pub mod PideShop
