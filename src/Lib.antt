-- ===== src/Lib.antt =====
-- The core of EEL, the Extensible Embeddable Language: values, the operators on them, tables with
-- their lookup and ownership, arrays, strings and their pool, the registry of exceptions, and the
-- byte FIFO; of the compiler, the reading of source text, the symbol table, and the events by
-- which it follows the flow of control.
--
-- How the parts interact: every operation works on values (`Value`, include/EEL_value.h), which
-- own or refer weakly to objects (`Objects`, src/core/e_object.h). The virtual machine calls an
-- operator (`Operate`, src/core/e_operate.h and e_operate.c), which computes on plain values and
-- calls a metamethod of an object's class. A table (`Table`, src/core/e_table.c) is one such
-- class: it keeps an array of items by hash code (`eel_v2hash` of src/core/e_util.h), whose block
-- grows by `eel_calcresize` (`Resize`) and whose items are moved by the loops of `Shift`; arrays
-- (`Array`, src/core/e_array.c) share both, and dynamic strings (`Dstring`, src/core/e_dstring.c)
-- the first. An operation that fails returns one of the codes of include/EEL_xno.h
-- (`Exceptions`), or of those that a module registered (`Registry`, src/core/e_exceptions.c).
-- Strings (`Strings`, src/core/e_string.c) are pooled by the hash of `eel_hashmem`, which is also
-- that of `Value`. The lexer reads source text through `Bio` (src/core/eelc/ec_bio.c); the parser
-- notes events in its stack of contexts (`Events`, src/core/eelc/ec_event.c) and asks them what
-- it knows; names are looked up in the tables of symbols that the parser fills (`Symtab`,
-- src/core/eelc/ec_symtab.c). Values are cast between classes by a matrix of casts (`Casts`,
-- src/core/e_cast.c). The FIFO (`Sfifo`, src/eelium/sfifo.c) stands alone.
--
-- Files and code:
--   Prelude       names passed on, Boolean tests, lists and integers over the native numbers
--   Exceptions    EEL_xno, and results that are a value or an exception
--   Value         EEL_value; eel_v_copy, eel_v_clone, eel_v_qcopy, eel_v_disown_nz of
--                 src/core/e_object.h; eel_v2hash. Copy counts what they own
--   Objects       weak references: eel_weakref_attach, eel__weakref_detach, eel_weakref_relocate and
--                 eel_kill_weakrefs of src/core/e_object.h. Owning has what copies and moves values,
--                 limbo, eel_o_disown_nz and eel_o__destruct. Refs, Wiring, Steps, Room and Runs are
--                 about weak references, Counts and Destroy about reference counts
--   Resize        eel_calcresize; Bounds
--   Shift         the moving loops; Laws, Gap
--   Table         EEL_table, t_setsize, insert_item
--   Table/Find    t__binary_find and t__find (find); Search, Sorted, Locate, Keys
--   Table/Ops     t__setindex (setindex), t_getindex, t_insert, t_delete, t_in, t_construct, t__clone,
--                 t_add, t_ipadd, eel_table_get; the invariant is IsValid of Order
--   Array         a_setsize, a_construct, a__clone, a_getindex, a_set_index, a_setindex, a_insert,
--                 a_add, a_ipadd of src/core/e_array.c; Laws. Delete has a_delete with
--                 eel_get_delete_range of src/core/e_object.h
--   Bio           EEL_bio and its functions; the invariant is IsValid of Lines, any use of an object
--                 is Reaches of Uses. Bio/Num has getfigure, parse_num, read_num, eel_bio_read_num:
--                 Moves, Total, Figures and RoundTrip
--   Events        EEL_cevlist, EEL_context as far as events go, ec_event.c, and what
--                 eel_context_push and eel_context_pop do to events; Combine and Merge, Scope, Branches
--   Strings       ps_find, ps_push, ps_unlink, ps_resurrect, ps_cache, eel_ps_nnew (nnew), and
--                 eel_s_str_in, eel_s_cmp of src/core/e_string.h; Find, Valid, Making, Intern, Cache,
--                 Nul, Search. Methods has s_compare, s_eq, s_in and s_getindex, which dynamic
--                 strings share
--   Registry      eel_x_register with already_registered, get_xentry, eel_x_name, eel_x_description of
--                 src/core/e_exceptions.c; Fill, Lookup
--   Dstring       ds_setsize, ds_nnew, ds_set_index, ds_setindex, eel_ds_write, ds_insert, ds_delete,
--                 ds_copy, ds_add, ds_ipadd of src/core/e_dstring.c; Laws, Edits
--   Casts         eel_realloc_cast_matrix, eel_set_casts, generic_indexable_cast of src/core/e_cast.c,
--                 eel_cast of e_cast.h; Matrix, Register, Order, Generic
--   Symtab        EEL_symbol, EEL_finder, eel_finder_init, eel_finder_go of src/core/eelc/ec_symtab.c;
--                 Visits, Search, Enumerate and Nesting are about what it finds. Names has eel_s_add,
--                 eel_s_find and eel_find_symbol of src/core/e_util.c; Parts, Adding
--   Sfifo         sfifo_init, sfifo_flush, sfifo_used, sfifo_space, sfifo_write, sfifo_read; the
--                 invariant is IsValid of Inv, the abstract view is contents of Refine
--   Operate       EEL_operators, EEL_MK2TYPES, eel_object_op, eel_object_rop; Logic, Compare, Arith,
--                 Bits and Unary have one function per eel_op_ function, Dispatch has eel__operate
--
-- State is passed explicitly: an operation on a table returns the new table, or an exception, and
-- the log of the calls on the object layer that it made (`Effect`). What lies outside is a
-- parameter: the memory manager (which sizes can be had), the metamethods, hash codes and
-- comparison of objects (`World`, `Machine`), the destructors of classes (`Classes`), the
-- floating point unit and the C library on the bits of doubles, and what a union's field holds
-- when the value has another type.
--
-- Integers have 32 bits: `Operate/Words` wraps around, sizes and indexes are numbers that are not
-- negative. Loops run on fuel where the code gives no list to walk along: the binary search on
-- the number of items, the loops that read a number on the length of the text, the growing loop
-- of eel_calcresize on the request, the loop of sfifo_init on 31 rounds, the search for a symbol
-- on the number of symbols and tables; Search, Bio/Num/Total, Bounds and Init show that this is
-- enough, or where a loop does not end.
--
-- Where the source comes to undefined behaviour that a property depends on, the model says so with a
-- value of its own: the overrun of a deletion (Array/Delete), a pool with an object whose fields were
-- never set (nnew of Strings), moving or disowning a weak reference that is not wired (Objects/Owning),
-- a name past its buffer, or NULL (Symtab/Names).
--
-- Not modelled: the checks of EEL_VM_CHECKING, a table that is added to itself, a dynamic string
-- that is inserted into itself, two threads on one FIFO at once, the casts of strings, the
-- other classes, the rest of the compiler, the virtual machine's instructions, the modules and
-- the libraries that they bind, and the copies of third-party libraries.
pub mod Prelude
pub mod Exceptions
pub mod Resize
pub mod Sfifo
pub mod Shift
pub mod Table
pub mod Value
pub mod Operate
pub mod Array
pub mod Bio
pub mod Events
pub mod Strings
pub mod Registry
pub mod Symtab
pub mod Casts
pub mod Dstring
pub mod Objects
pub mod Examples
