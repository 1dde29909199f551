-- ===== src/Lib.antt =====
-- The Dragon compiler (dragon/): Pascal to x86-64 assembly. The lexer and the parser, which flex and
-- bison generate, make a syntax tree; `analyze` of dragon/analysis.c walks it once, checks it against
-- the symbol table of dragon/symbol.c, and prints assembly as it goes. dragon/util.c has the
-- containers.
--
--  * Prelude, Exec: shared names, lists and integers over the native numbers; an action on a state
--    that may stop, for `span_err`, `abort` and undefined behaviour, with rules for what holds after.
--  * Util: Util.Vec is `struct ptrvec`, Util.Hash is `struct hash_table` with `HFOREACH`, Util.Hash.Pjw
--    is `hashpjw` (dragon/util.c, dragon/util.h). `Util.Vec.Push`, `Util.Hash.Lookup`,
--    `Util.Hash.Table` and `Util.Hash.Foreach` have their proofs. Util.List is `struct list` on a
--    memory of nodes; Util.List.Chain is what a list stands for, and the modules beside it are about
--    adding, popping, the loops and freeing.
--    Util.Memory is which blocks are allocated, with `D`, and what giving blocks back means;
--    Util.Memory.Containers is `list_free` and `ptrvec_free`, Util.Memory.Hash `hash_free`.
--  * Token, Ast: the tokens and the trees of dragon/ast.h, the paths and `is_relop` of dragon/ast.c;
--    Ast.Make is the constructors of dragon/ast.c. Ast.Owned is the trees as they lie in memory, with
--    an address for each block, and Ast.Owned.Free the destructors of dragon/ast.c.
--  * Print: `print_token` of dragon/token.c; Print.Trees is the printers of dragon/ast.c, Print.Layout
--    about the lines that they print, Print.Tokens about the names of tokens.
--  * Symbol: the state and the lookups of dragon/symbol.c; Symbol.Types is `stab_add_var` and the
--    `stab_resolve_type` functions, Symbol.Decls the other `stab_add_` functions, Symbol.Equality
--    `stab_types_eq`, Symbol.Print `stab_print_type`. Symbol.Owned is the table as it lies in memory,
--    with its destructors. Symbol.Invariant and its children carry the well-formedness of the table
--    through each of them; Symbol.Names is what holds of a table of names, Symbol.Scoping is about
--    entering and leaving scopes.
--  * Analysis: the state of dragon/analysis.h. Analysis.Registers is the register pool, with
--    Analysis.Registers.Stack about what is pushed and popped for the display, Analysis.Paths
--    `size_of_type` and `type_of_path`, Analysis.Exprs `analyze_magic`, `analyze_call` and
--    `analyze_expr`, Analysis.Stmts `check_assignability` and `analyze_stmt`, Analysis.Program
--    `do_imports`, `analyze_subprog` and `analyze`. Analysis.Keeps and Analysis.Silent are about what
--    they leave alone, Analysis.Labels about the labels and jumps of the code, Analysis.Typing about
--    the programs that they accept, Analysis.Accepts about expressions and statements on which they are
--    known to return, Analysis.Scopes about the scopes around subprograms and of a whole program and the
--    order of the code of nested subprograms.
--  * Driver: `main` of dragon/main.c and `compile_input` of dragon/driver.c, with the lexer, the parser
--    and the files as parameters. Driver.Flags is about the flags, Driver.Phases about
--    the exit status after a syntax error, Driver.Cleanup about what is given back after the analysis.
--  * Tests: runs on small inputs.
--
-- A function has the name it has in C. A vector of the symbol table is the list of its elements, the
-- chain of scopes a list with the innermost first, and an index past an end is undefined behaviour. A
-- `size_t` is a number below 2 ^ 64 and `RESOLVE_FAILURE` is 2 ^ 64 - 1, so theorems on lookups ask that
-- the arenas be shorter. The fuel of `stab_types_eq` is two more than the first index, since a pointer's
-- target is an older type; the loops over a list's nodes that end at null have one round more than
-- there are nodes; every other loop is on the structure of a list or a tree. The list of scopes is used
-- as a list of its elements, which the theorems on Util.List justify, as is a vector.
--
-- What is given back is modelled apart from the analysis: Ast.Owned and Symbol.Owned have the addresses
-- that Ast and Symbol leave out, and only the parts that a destructor looks at. An address that stands
-- twice is a block with two owners. The test for a null element of a list is left to the destructor of
-- the elements, each of which does nothing at null. In the analysis the frees are left out but where
-- `stab_add_type` reads a name that was freed, which is undefined; the `free_path` of the case for a
-- `for`, which frees a name of the tree, is not in the model.
--
-- Not modelled: `malloc` does not fail. The text of messages is left out, and so is what `span_diag`
-- and `DEBUG` print, and the spelling of the assembly, for which there is a data type of instructions,
-- its line ends included. The lexer and the parser are input of flex and bison, whose output is not in
-- the repository. dragon/pasprintf.c is a copy of another project's library, and dragon/rt.s is
-- assembly.
pub mod Prelude
pub mod Util
pub mod Exec
pub mod Token
pub mod Ast
pub mod Print
pub mod Symbol
pub mod Analysis
pub mod Driver
mod Tests
