-- ===== src/Symbol.antt =====
-- The symbol table of dragon/symbol.h and dragon/symbol.c: the arenas of variables and types, the
-- chain of scopes, and looking names up. The children have the other operations and the proofs.
--
-- A vector is the list of its elements (Util.Vec.Push has the reason), and an index past its end
-- is undefined behaviour. The chain lists the innermost scope first, so `list_add` and `list_pop`
-- work at its head. `scopes` only counts the scopes made: their structs are never read through
-- that vector, only freed at the end.
pub mod Print
pub mod Owned
pub mod Types
pub mod Decls
pub mod Equality
pub mod Names
pub mod Invariant
pub mod Scoping
use Prim.Native.Char.{code}
use cs.Prelude.{
  ℕ, suc, ◌+◌, ◌*◌, ◌^◌, String, Bool, true, false, not, List, [], ◌∷◌, ◌++◌, Option, none, some,
  get_elem?, length, set, ◌==◌, str_eq, if◌then◌else◌,
}
use cs.Prelude.Int.{ℤ, pos, negsuc}
use cs.Util.Hash.{HashTable, hash_new, hash_lookup, hash_insert, not_found}
use cs.Util.Hash.Pjw.{hashpjw}
use cs.Ast.{Subprogs}
use cs.Exec.{Stop, undefined, Result, ok, stop, Exec, ◌>>=◌, ◌>>◌, require}

-- `RESOLVE_FAILURE`, as a `size_t`.
abbrev pub resolve_failure : ℕ
resolve_failure = not_found

abbrev pub integer_type_idx : ℕ
integer_type_idx = 0

abbrev pub real_type_idx : ℕ
real_type_idx = 1

abbrev pub string_type_idx : ℕ
string_type_idx = 2

abbrev pub boolean_type_idx : ℕ
boolean_type_idx = 3

abbrev pub char_type_idx : ℕ
char_type_idx = 4

abbrev pub void_type_idx : ℕ
void_type_idx = 5

-- `ABI_POINTER_SIZE` and `ABI_POINTER_ALIGN`
abbrev pub abi_pointer_size : ℕ
abi_pointer_size = 8

-- `ABI_CLOSURE_SIZE` and `ABI_CLOSURE_ALIGN`
abbrev pub abi_closure_size : ℕ
abi_closure_size = 16

-- The field `magic`: 0 is `plain`, the rest are the `MAGIC_` constants.
pub data Magic : Type 0 where
  plain read readln write writeln : Magic

-- `struct stab_resolved_type`: types, and `args` the variables of a subprogram's parameters, are
-- indices into the arenas.
pub data ResolvedType : Type 0 where
  array : ℕ → ℕ → ℕ → ResolvedType
  boolean char integer real ref string void : ResolvedType
  func : Subprogs → List ℕ → ℕ → ResolvedType
  pointer : ℕ → ResolvedType
  record_of : List (String × ℕ) → ResolvedType

-- `struct stab_type`
pub record StabType : Type 0 where
  pub ty : ResolvedType
  pub name : String
  pub size : ℕ
  pub align : ℕ
  pub magic : Magic

-- `struct stab_var`
pub record StabVar : Type 0 where
  pub type : ℕ
  pub name : String
  pub disp_offset : ℤ
  pub stack_base_offset : ℤ
  pub captured : Bool

-- `struct stab_scope`: names to indices.
pub record Scope : Type 0 where
  pub vars : HashTable String
  pub funcs : HashTable String
  pub types : HashTable String

-- `struct stab`
pub record Stab : Type 0 where
  pub vars : List StabVar
  pub types : List StabType
  pub scopes : ℕ
  pub chain : List Scope

-- The bytes of a name; the lexer makes names of ASCII characters only.
abbrev pub codes : String → List ℕ
codes String.[] = []
codes (String.◌∷◌ c s) = code c ∷ codes s

unfoldable pub hash_string : String → ℕ
unfolding hashpjw
hash_string s = hashpjw (codes s)

unfoldable pub stab_scope_new : Scope
unfolding hash_string hash_new
stab_scope_new = record {
  vars = hash_new (2 ^ 8) hash_string str_eq;
  funcs = hash_new (2 ^ 8) hash_string str_eq;
  types = hash_new (2 ^ 8) hash_string str_eq;
}

-- A type of `stab_new`.
abbrev builtin : String → ResolvedType → ℕ → StabType
builtin name ty size = record { ty = ty; name = name; size = size; align = size; magic = plain }

unfoldable pub stab_new : Stab
stab_new = record {
  vars = [];
  types =
      builtin "integer" integer 8
      ∷ builtin "real" real 8
      ∷ builtin "string" string abi_pointer_size
      ∷ builtin "boolean" boolean 1
      ∷ builtin "char" char 1
      ∷ builtin "<void>" void 4
      ∷ [];
  scopes = 0;
  chain = [];
}

unfoldable pub stab_enter : Stab → Stab
unfolding stab_scope_new
stab_enter st = record st { chain = stab_scope_new ∷ st.chain; scopes = suc st.scopes }

-- `list_pop` writes through the node before the last: with fewer than two scopes there is none.
leave_chain : List Scope → Result (List Scope)
leave_chain [] = stop undefined
leave_chain (sc ∷ []) = stop undefined
leave_chain (sc ∷ sc' ∷ chain) = ok (sc' ∷ chain)

after_leave : Stab → Result (List Scope) → Result (Unit {0} × Stab)
after_leave st (ok chain) = ok (tt, record st { chain = chain })
after_leave st (stop e) = stop e

unfoldable pub stab_leave : Exec Stab (Unit {0})
unfolding leave_chain after_leave
stab_leave st = after_leave st (leave_chain st.chain)

-- The loops of the three `stab_resolve_` functions, over the table `of` of each scope.
unfoldable pub resolve_in : (Scope → HashTable String) → String → List Scope → ℕ
unfolding hash_lookup
resolve_in table name [] = resolve_failure
resolve_in table name (sc ∷ chain) =
    let id = hash_lookup (table sc) name in
    if id == resolve_failure then resolve_in table name chain else id

unfoldable pub stab_resolve_type_name : Stab → String → ℕ
unfolding resolve_in
stab_resolve_type_name st name = resolve_in (λ sc. sc.types) name st.chain

unfoldable pub stab_resolve_func : Stab → String → ℕ
unfolding resolve_in
stab_resolve_func st name = resolve_in (λ sc. sc.funcs) name st.chain

unfoldable pub stab_resolve_var : Stab → String → ℕ
unfolding resolve_in
stab_resolve_var st name = resolve_in (λ sc. sc.vars) name st.chain

-- `list_last(st->chain)`
abbrev pub innermost : List Scope → Option Scope
innermost [] = none
innermost (sc ∷ chain) = some sc

-- A lookup in the innermost scope alone.
unfoldable pub local_in : (Scope → HashTable String) → String → Option Scope → Exec Stab Bool
unfolding hash_lookup
local_in table name none st = stop undefined
local_in table name (some sc) st = ok (not (hash_lookup (table sc) name == resolve_failure), st)

unfoldable pub stab_has_local_type : String → Exec Stab Bool
unfolding local_in
stab_has_local_type name st = local_in (λ sc. sc.types) name (innermost st.chain) st

unfoldable pub stab_has_local_var : String → Exec Stab Bool
unfolding local_in
stab_has_local_var name st = local_in (λ sc. sc.vars) name (innermost st.chain) st

unfoldable pub stab_has_local_func : String → Exec Stab Bool
unfolding local_in
stab_has_local_func name st = local_in (λ sc. sc.funcs) name (innermost st.chain) st

-- `STAB_TYPE` and `STAB_VAR`
abbrev pub stab_type : ℕ → Exec Stab StabType
stab_type id st = require (get_elem? st.types id) st

abbrev pub stab_var : ℕ → Exec Stab StabVar
stab_var id st = require (get_elem? st.vars id) st

-- `ptrvec_push` on the two arenas.
abbrev pub push_type : StabType → Exec Stab ℕ
push_type t st = ok (length st.types, record st { types = st.types ++ t ∷ [] })

abbrev pub push_var : StabVar → Exec Stab ℕ
push_var v st = ok (length st.vars, record st { vars = st.vars ++ v ∷ [] })

-- A change of the innermost scope.
abbrev on_chain : (Scope → Scope) → List Scope → Option (List Scope)
on_chain f [] = none
on_chain f (sc ∷ chain) = some (f sc ∷ chain)

abbrev pub on_innermost : (Scope → Scope) → Exec Stab (Unit {0})
on_innermost f st = elim (on_chain f st.chain) [
  | none ↦ stop undefined
  | some chain ↦ ok (tt, record st { chain = chain })
]

abbrev pub insert_var : String → ℕ → Scope → Scope
insert_var name id sc = record sc { vars = (hash_insert sc.vars name id).0 }

abbrev pub insert_func : String → ℕ → Scope → Scope
insert_func name id sc = record sc { funcs = (hash_insert sc.funcs name id).0 }

abbrev pub insert_type : String → ℕ → Scope → Scope
insert_type name id sc = record sc { types = (hash_insert sc.types name id).0 }
