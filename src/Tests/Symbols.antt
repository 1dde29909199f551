-- ===== src/Tests/Symbols.antt =====
-- The theorems on the symbol table at small tables.
use mathlib.Core.Option.{some-injective}
use cs.Prelude.{
  zero, suc, ap, ◌∙◌, ℕ, ◌≡◌, ◌≢◌, refl, ◌≤◌, ◌<◌, String, Bool, true, false, List, [], ◌∷◌, Option,
  none, some, length, ◌↔◌, get_elem?, arith,
}
use cs.Prelude.Int.{ℤ, pos}
use cs.Ast.{AstType, no_decls, decls, sub_function, DeclsList}
use cs.Exec.{ok}
use cs.Symbol.{
  pointer, Stab, StabType, func, stab_new, stab_enter, stab_leave, resolve_failure,
  stab_resolve_var, stab_resolve_func, stab_resolve_type_name,
}
use cs.Symbol.Types.{stab_resolve_type}
use cs.Symbol.Decls.{stab_add_decls, stab_add_func}
use cs.Symbol.Equality.{stab_types_eq}
use cs.Symbol.Equality.Laws.{SameType, stab_types_eq_iff}
use cs.Symbol.Equality.Total.{TargetsResolved, Answers, IsStab-PointersDown, stab_types_eq-IsStab}
use cs.Symbol.Scoping.{SameNames, leave-decls-enter}
use cs.Symbol.Invariant.{IsStab, stab_new-IsStab, stab_enter-IsStab}
use cs.Symbol.Invariant.Arena.{Grows}
use cs.Symbol.Invariant.Types.{Matched, Parameter, stab_resolve_type-IsStab}
use cs.Symbol.Invariant.Decls.{NamesMean, stab_add_decls-NamesMean}
use cs.Symbol.Invariant.Subprograms.{stab_add_func-means, stab_add_func-hides}
use cs.Symbol.{writeln}
use cs.Tests.Runs.{state_of}

-- A scope inside another one.
abbrev inner : Stab
inner = stab_enter (stab_enter stab_new)

inner-IsStab : IsStab inner
inner-IsStab = stab_enter-IsStab (stab_enter-IsStab stab_new-IsStab)

-- `x, y: integer` among the locals.
abbrev names : List String
names = "x" ∷ "y" ∷ []

abbrev declared : Stab
declared = state_of (stab_add_decls names AstType.integer (some (pos 0)) true inner) inner

declared_eq :
    stab_add_decls names AstType.integer (some (pos 0)) true inner ≡ ok (some (pos 16), declared)
unfolding stab_add_decls stab_resolve_type stab_enter cs.Util.Hash.lookup_entry
    cs.Symbol.Types.stab_add_var stab_new cs.Util.Hash.hash_insert cs.Util.Hash.write_last
    cs.Prelude.Int.◌+ℤ◌
declared_eq = refl

declared_fits : length declared.vars ≤ resolve_failure
unfolding stab_add_decls stab_resolve_type stab_enter cs.Util.Hash.lookup_entry
    cs.Symbol.Types.stab_add_var stab_new cs.Util.Hash.hash_insert cs.Util.Hash.write_last
declared_fits = omega arith

stab_add_decls-NamesMean_example :
    IsStab declared
    × (type : ℕ) × (s : Stab) × (stab_resolve_type AstType.integer "<decls>" inner ≡ ok (type, s))
    × NamesMean type names s declared
stab_add_decls-NamesMean_example =
    stab_add_decls-NamesMean names AstType.integer (some (pos 0)) (some (pos 16)) true inner
      declared inner-IsStab declared_eq declared_fits

-- The same names in a scope of their own.
abbrev outer_scope : Stab
outer_scope = stab_enter stab_new

leave-decls-enter_example :
    (w : Stab) × (stab_leave declared ≡ ok (tt, w)) × SameNames outer_scope w × IsStab w
leave-decls-enter_example =
    leave-decls-enter outer_scope declared names AstType.integer (some (pos 0)) (some (pos 16)) true
      (stab_enter-IsStab stab_new-IsStab) outer_scope-inside declared_eq
  where
    outer_scope-inside : outer_scope.chain ≢ []
    outer_scope-inside = unfold stab_enter in λ e. cc

-- `function f(x: integer): integer` where `x` is declared.
abbrev parameters : DeclsList
parameters = decls ("x" ∷ []) AstType.integer no_decls

abbrev with_func : Stab
with_func =
    state_of (stab_add_func "f" (AstType.func sub_function parameters AstType.integer) declared)
      declared

with_func_eq :
    stab_add_func "f" (AstType.func sub_function parameters AstType.integer) declared
    ≡ ok (tt, with_func)
unfolding stab_add_func stab_add_decls stab_resolve_type stab_enter cs.Util.Hash.lookup_entry
    cs.Symbol.Types.stab_add_var stab_new cs.Util.Hash.hash_insert cs.Util.Hash.write_last
    cs.Symbol.Types.stab_resolve_complex_type cs.Symbol.Types.add_parameters
with_func_eq = refl

with_func_fits : length with_func.types ≤ resolve_failure
unfolding stab_add_func stab_add_decls stab_resolve_type stab_enter cs.Util.Hash.lookup_entry
    cs.Symbol.Types.stab_add_var stab_new cs.Util.Hash.hash_insert cs.Util.Hash.write_last
    cs.Symbol.Types.stab_resolve_complex_type cs.Symbol.Types.add_parameters
with_func_fits = omega arith

with_func_vars_fit : length with_func.vars ≤ resolve_failure
unfolding stab_add_func stab_add_decls stab_resolve_type stab_enter cs.Util.Hash.lookup_entry
    cs.Symbol.Types.stab_add_var stab_new cs.Util.Hash.hash_insert cs.Util.Hash.write_last
    cs.Symbol.Types.stab_resolve_complex_type cs.Symbol.Types.add_parameters
with_func_vars_fit = omega arith

declared-IsStab : IsStab declared
declared-IsStab = stab_add_decls-NamesMean_example.0

stab_add_func-means_example :
    IsStab with_func
    × Grows declared with_func
    × (args : List ℕ) × (retty : ℕ) × (type : StabType) × (type.ty ≡ func sub_function args retty)
    × (get_elem? with_func.types (stab_resolve_func with_func "f") ≡ some type)
    × ((s : Stab) × (stab_resolve_type AstType.integer "<func ret>" declared ≡ ok (retty, s)))
    × Matched (Parameter declared with_func) (("x", AstType.integer) ∷ []) args
stab_add_func-means_example =
    stab_add_func-means "f" sub_function parameters AstType.integer declared with_func
      declared-IsStab with_func_eq with_func_fits

stab_add_func-hides_example :
    (stab_resolve_var with_func "x" ≢ stab_resolve_var declared "x") × Unit {0}
stab_add_func-hides_example =
    stab_add_func-hides "f" sub_function parameters AstType.integer declared with_func
      declared-IsStab with_func_eq with_func_vars_fit

-- `type p = ^integer`
abbrev pointed : Stab
pointed = state_of (stab_resolve_type (AstType.pointer AstType.integer) "p" inner) inner

pointed_eq : stab_resolve_type (AstType.pointer AstType.integer) "p" inner ≡ ok (6, pointed)
unfolding stab_resolve_type stab_enter stab_new
pointed_eq = refl

pointed-IsStab : IsStab pointed
pointed-IsStab =
    let all =
      stab_resolve_type-IsStab (AstType.pointer AstType.integer) "p" inner pointed 6 inner-IsStab
        pointed_eq in
    all.0

pointed_fits : length pointed.types ≤ resolve_failure
unfolding stab_resolve_type stab_enter stab_new
pointed_fits = omega arith

pointer_of : (x t : StabType) (p : ℕ) → some x ≡ some t → t.ty ≡ pointer p → x.ty ≡ pointer p
pointer_of x t p e k = ap (λ (y : StabType). y.ty) (some-injective x t e) ∙ k

pointed_resolved : TargetsResolved pointed
unfolding stab_resolve_type stab_enter stab_new
pointed_resolved zero p t e k r = absurd (cc (pointer_of _ t p e k))
pointed_resolved (suc zero) p t e k r = absurd (cc (pointer_of _ t p e k))
pointed_resolved (suc (suc zero)) p t e k r = absurd (cc (pointer_of _ t p e k))
pointed_resolved (suc (suc (suc zero))) p t e k r = absurd (cc (pointer_of _ t p e k))
pointed_resolved (suc (suc (suc (suc zero)))) p t e k r = absurd (cc (pointer_of _ t p e k))
pointed_resolved (suc (suc (suc (suc (suc zero))))) p t e k r = absurd (cc (pointer_of _ t p e k))
pointed_resolved (suc (suc (suc (suc (suc (suc zero)))))) p t e k r =
    let zero_target : 0 ≡ p = cc (pointer_of _ t p e k) in omega arith
pointed_resolved (suc (suc (suc (suc (suc (suc (suc i))))))) p t e k r = cc

stab_types_eq-IsStab_example : Answers pointed (stab_types_eq 6 6 pointed)
stab_types_eq-IsStab_example =
    stab_types_eq-IsStab 6 6 pointed pointed-IsStab pointed_fits pointed_resolved six six
  where
    six : 6 < length pointed.types
    six = unfold stab_resolve_type stab_enter stab_new in omega arith

stab_types_eq_iff_example : (stab_types_eq 6 0 pointed ≡ ok (true, pointed)) ↔ SameType pointed 6 0
stab_types_eq_iff_example =
    stab_types_eq_iff 6 0 pointed (IsStab-PointersDown pointed pointed-IsStab pointed_fits)
