-- ===== src/Lib.antt =====
-- A verification of libdlb, a C library of data structures.
--
-- The parts and how they interact
--   Cbuf: the circular buffer of src/cbuf.c and src/cbuf.h. A producer fills the area at the tail and
--     a consumer empties the one at the head; `cbuf_move` joins two buffers.
--   Rbt: the red-black tree of src/rbt.c and src/rbt.h, intrusive and with parent links. Rbt/Insert and
--     Rbt/Remove have `rbt_insert` and `rbt_remove` with their repairs, Rbt/Iter the functions of
--     src/rbt_iter.c, and Rbt/Range the query of src/rbt_range.c. Rbt/Shape has the colour rules,
--     Rbt/Order search and insertion in sorted lists, Rbt/Keys the laws of a comparison, and
--     Rbt/Height the bound behind `MAX_H`.
--   Mailbox: the mailbox of io/mailbox.c, on which one thread waits for flags that others raise. When a
--     wait is met, the mailbox's task goes to the run queue, of which Mailbox/Waiting has the count of
--     the tasks put in and taken out.
--   Strbuf: the string buffer of src/strbuf.c and src/strbuf.h, over `malloc` and `realloc` as a
--     parameter (`Alloc`, with their promise `Base.Memory.IsRealloc`).
--   Strlcpy: the bounded copies of C strings in src/strlcpy.c.
--   Bytes: the readers and writers of integers in src/bytes.h.
--   Bint: the big integers of src/bint.c and src/bint.h. Bint/Magnitude has `mag_cmp`, `mag_add`,
--     `mag_sub` and `do_subtract`, which the signed operations of Bint/Signed call; Bint/Digit has the
--     digits of a small base, Bint/Multiply `chunk_mac` and `bint_mul`, and Bint/Bitwise the bits. Bint/Value
--     says what number a chain is; Bint/Chain is about the length of chains and Bint/Length about the
--     number of bits.
--   Hash: the hash table of src/hash.c and src/hash.h. Hash/Prime has the search for its size,
--     Hash/Resize `hash_capacity_hint`, Hash/Insert and Hash/Laws `hash_insert` and `hash_find`, and
--     Hash/Remove `hash_remove`; Hash/Spec is the set of nodes that they keep,
--     and Hash/Matches the nodes that match a key.
--   Runq: the queue of tasks of io/runq.c. Runq/Fifo has `runq_dispatch`, and Runq/Workers the steps of
--     a worker's thread among other threads. Runq/Start has the calls of `runq_init` and `runq_destroy`,
--     Runq/Start/Machine which of them are allowed, Runq/Start/Calls and Runq/Start/Life the proofs.
--   Waitq: the timers of io/waitq.c, which wait in a red-black tree and go to a run queue when they
--     expire. Waitq/Order has their order, Waitq/Set `wset_add` and `wset_remove`, Waitq/Timers
--     waiting, cancelling and rescheduling, Waitq/Expiry `waitq_dispatch`,
--     and Waitq/Deadline `waitq_next_deadline`.
--   Vector: the vector of src/vector.c. Vector/Capacity has the search for its capacity,
--     Vector/Contents and Vector/Push the elements.
--   Links: the doubly linked lists of src/list.c, rings of nodes in a memory of links. Links/Ring has
--     the rings, Links/Lists insertion and removal, and Links/Move `list_move`.
--   Slist: the singly linked lists of src/slist.c. Runq/Jobs has the job list of a run queue on them.
--   Base: what the parts share: Boolean tests, lists over the native numbers, arithmetic of `size_t`,
--     `memcpy` with its bounds, `realloc`, `strlen`, and permuted lists.
--
-- How state and operations correspond to the code
--   A function of the source keeps its name without the prefix of its file (`cbuf_move_in` is
--   `Cbuf.move_in`). A structure is a record or a data type; a function that updates it returns the new
--   one. `Outcome` has the result of code that can go wrong: `fault` is a dereference of NULL or a
--   copy outside an area, and `out_of_fuel` a loop that was cut off.
--   A `size_t` is a number, with `% 2 ^ 64` after each sum and difference (Base/Words).
--   A node of a tree is an item with two flags; its links down are subtrees, and its link up is the
--   list of the steps from the root (`Ancestors`). Updates of the links are `plug`, which puts a
--   subtree in its place. A comparison is a function from items to the sign of the `int`.
--
-- Bounds and fuel
--   A `cbuf` has at most 2 ^ 63 bytes, so that `head + size` does not wrap. The loops of Cbuf have
--   one more round than the bytes to move; each round but the last moves a byte. The loops on
--   trees, chains and lists are structural.
--   The loop of `strbuf_capacity_hint` has a round for each of the 59 powers of two from 32 to 2 ^ 63;
--   the theorems are about strings of fewer than 2 ^ 63 bytes, for which that is enough.
--   A chunk of a big integer has the four components that `BINT_CHUNK_SIZE` gives unless it is set
--   otherwise. `bint_chunk_alloc` is a parameter: a list with the answer to each call of an operation.
--   The count of the bits of a component has 32 rounds. The theorems on lengths and arithmetic are
--   about numbers of fewer than 2 ^ 31 bits, of which an `unsigned int` counts the bits of sums and
--   products.
--   A hash table has at most 2 ^ 24 nodes in the theorems: the loops of `hash_capacity_hint` then have
--   rounds enough, 27 doublings, 64 candidates for a prime, and 65536 divisors for each.
--   The loops of `waitq_dispatch` and `runq_dispatch` have a number of rounds as an argument; the
--   theorems say how many are enough.
--   An `int` that counts the workers of a run queue is taken up to 2 ^ 31 - 1, and an overflow of it is a
--   call that is not allowed.
--   The loop of `size_for` takes a bit away in each round; a round for each of the elements is enough.
--
-- What is not modelled
--   io/ (files, sockets, threads, clocks, queues of the operating system) is left out where it only
--   calls the system. Nor are the division, powers and shifts of the big integers, the interned strings
--   and allocators of src/, or `strbuf_printf` and `strbuf_vprintf` covered. Nor is `cbuf_move` from a
--   buffer to itself.
--   A chain of a hash table and a tree of timers have nodes by value. `hash_insert` of a node that is
--   already in the table is modelled up to the cut of the chain behind it, and `waitq_timer_wait` of a
--   timer that already waits up to the new deadline in the tree's node; the links that the two write
--   afterwards, into nodes that are in use, are not, and the theorems exclude both.

pub mod Base
pub mod Bint
pub mod Bytes
pub mod Cbuf
pub mod Hash
pub mod Links
pub mod Mailbox
pub mod Rbt
pub mod Runq
pub mod Slist
pub mod Strbuf
pub mod Strlcpy
pub mod Vector
pub mod Waitq
