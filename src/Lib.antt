-- ===== src/Lib.antt =====
-- SDP-Labs: a model of the C programs of the laboratories, with proofs of what they do.
--
-- Parts, and how they interact:
--
-- - Kernel, lab06: the semaphores and condition variables that lab06/src/file.c adds to the xv6 kernel,
--   over sleep, wakeup, kill and the scheduler of lab06/xv6-cond-martino/proc.c.
--   Kernel/Proc.antt is the process table (`Proc`, `fall_asleep`, `tidy_up`, `wakeup`, `kill`).
--   Kernel/Semaphore.antt is `struct semaphore`, sem_alloc, sem_init, sem_destroy, sem_wait, sem_post.
--   Kernel/Condition.antt is `struct condition` and cond_alloc to cond_broadcast.
--   Kernel/Machine.antt puts the three tables together. Its `Step` has one constructor for each system
--     call, and one for each return of `sleep`; `Reach` is any sequence of steps. The C code of a call
--     between `acquire` and `release`, or the `sleep` that gives the lock up, is one step. A call that
--     sleeps inside a loop is split there: `sem_wait` ends at its sleep, `sem_wait_resume` goes on behind it.
--   Kernel/Machine/Initial.antt is the kernel with its tables of zeros, where the runs start.
--   Kernel/Semaphore/Balance.antt and Kernel/Condition/Accounts.antt hold the accounts of one entry;
--     Kernel/Machine/ carries them over all steps, and counts grants and releases over a run.
--   Kernel/Args.antt is the fetching of arguments in lab06/src/syscall.c, and Kernel/Calls.antt the system
--     calls of lab06/src/sysfile.c on the two tables, and their dispatch; each is a `Step`.
-- - Lab03: the ring buffers of lab03/lab3.1.c and lab03/prod_cons.c (Lab03/Ring.antt), and the producer
--   and the consumer of the latter, in any interleaving (Lab03/ProdCons.antt). `limit` is the 10000 of
--   the source.
--   Lab03/Offices.antt is the rest of lab03/lab3.1.c with lab03/office.h: studentFunction, officeFunction
--   and officeSpecialFunction over the queues, `cond` and `st_count`, in any interleaving. `State` holds
--   the queues as lists of their items, `Step` has one constructor for each send, receive and
--   critical section. Lab03/Offices/Flow.antt counts what is owed to each student, Account.antt is the
--   invariant, Work.antt the number of steps that are left. A wait on a condition variable is a step that is
--   there when the test of its loop holds, so that signals and lost wakeups are not part of the model.
-- - Paging: lab05/src/paging.c. Paging/Frames.antt is the bitset of frames, Paging/Alloc.antt gives frames
--   to pages and takes them back, Paging/Directory.antt is the directory of page tables, and Paging/Start.antt is
--   initialise_paging, with the calls of kmalloc as parameters; its fuel is more than 1025: a round
--   for each page of the first table, one for the test behind them, and one. The loops of
--   first_frame run on the number of words and on the 32 bits of a word, so they always end.
-- - Sorting: the bubble sort of lab01/lab1.1.c and of lab04/lab4.2.c, and the pass over the boundaries of
--   the latter's regions (Sorting/Bubble.antt); the split into regions, a round of the threads and
--   their loop of rounds, one thread after the other (Sorting/Regions.antt). A loop runs on the number of
--   its rounds; the fuel of the threads' loop is the number of inversions and one
--   (Sorting/Regions/Inversions.antt). Sorting/Barriers.antt is threadFunction with its two barriers, in any
--   interleaving: a call on a semaphore is a step, and so are a section under the mutex, the sort of a
--   region and the pass over the boundaries. Modes.antt names the modes that the threads go through
--   together, Branches.antt the branches of a step, Moves.antt has a lemma for each; Order.antt is what is sorted, Ending.antt the number
--   of steps left, Serial.antt the comparison with Sorting/Regions.antt.
--   Sorting/Merge.antt is the merge sort of lab02/merge.c and that of lab02/lab2.2.c, with threads for the
--   halves and a threshold. Both copy one number too many to each temporary array; `spare` and `behind` say
--   what lies behind the arrays. Its fuel is the depth of the recursion; the length of the region is enough.
--   Sorting/Quick.antt is the quicksort of lab04/qsort.c. Its fuel is one more than the length of the
--   region, and that of the partition one more than `j` at its start: `j` falls in every round.
-- - Matrix: the product v1 * mat * v2 of lab02/lab2.3.c by matrices (Matrix.antt), and by the threads of
--   lab02/lab2.3thread.c in any interleaving (Matrix/Threads.antt). A double is any type with its operations.
-- - Lab11: lab11/lab11es01/lab11es01/lab11es01.cpp, threads that apply operations to a file of accounts
--   under one of four kinds of lock (Lab11/Accounts.antt): doOperations, acquireSync and releaseSync, a call
--   on a file or a lock for each step. Lab11/Accounts/Exclusion.antt is the lock, Reads.antt what is read
--   under it, Amounts.antt the accounts with what the threads have not yet added to them.
-- - Lab12: lab12/lab12es01/lab12es01/lab12es01.cpp. Lab12/BigNumber.antt is its numbers of many digits
--   (multiply, factorial, myMultiply), Lab12/Doors.antt its producer and its four consumers in any
--   interleaving, by version C of producerWait, producerSignal, consumerWait and consumerSignal: each
--   statement on a door or a counter is a step, and so is a job. Lab12/Doors/Modes.antt names the modes
--   that the doors go through, and Jobs.antt joins the two parts, for numbers that are not negative. The fuel of `carry_loop` is the carry
--   and one: the carry falls in every round. `max_digits` is MAXDIGITS.
-- - Device: the message of lab07/chardev_SDP_lab/chardev_SDP_lab.c (Device.antt), and the device of
--   lab07/chardev_SDP_1/chardev_SDP-1.c (Device/Hello.antt), that of lab07/chardev_SDP_2/chardev_SDP_2.c
--   (Device/Echo.antt), which uses the copying loop of the former, and the file of /proc of
--   lab07/procfs-3/procfs-3.c (Device/ProcFile.antt). Linux's copies to and from user memory and sprintf
--   are parameters. An open is two steps, its test and what follows it.
-- - Common: lists, bits, counting, integers and tables with free slots over the native numbers.
--
-- Integers of C that index or count in the model without a bound are written as ℕ or ℤ; C leaves an
-- overflow of an int undefined. A 32-bit word keeps its wrap-around (`% 2 ^ 32`), a bit field its width.
--
-- Not modelled: the rest of xv6 and its user programs, a copy of another project; fork, exit and
-- wait of proc.c, which only move processes that stand in user code; the other calls of
-- lab06/src/sysfile.c; the registration of the modules of lab07 with Linux,
-- and its hello modules; page_fault and switch_page_directory of lab05, which only write text and
-- registers; the other C++ programs of lab08
-- to lab13, and versions A and B of lab12es01.cpp, which its VERSION leaves out. pthread, malloc, the
-- kernel's locks and those of Windows are not code of the repository that the model opens: a section
-- under a lock is a step, but for Lab11/Accounts.antt, where taking the lock and giving it up are steps.
pub mod Common
pub mod Kernel
pub mod Lab03
pub mod Lab11
pub mod Lab12
pub mod Paging
pub mod Sorting
pub mod Device
pub mod Matrix
