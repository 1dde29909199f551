-- ===== src/Symbol/Scoping.antt =====
-- Entering and leaving a scope with `stab_enter` and `stab_leave` of dragon/symbol.c.
use cs.Prelude.{ℕ, ◌^◌, ◌≡◌, ◌≢◌, refl, sym, ◌∙◌, ap, List, [], ◌∷◌, Option, String, Bool, str_eq}
use cs.Prelude.Int.{ℤ}
use cs.Ast.{AstType}
use cs.Exec.{ok}
use cs.Exec.Rules.{After, returns, stops}
use cs.Util.Hash.Table.{lookup-hash_new}
use cs.Symbol.{
  Scope, Stab, stab_scope_new, stab_enter, stab_leave, leave_chain, after_leave, resolve_in,
  stab_resolve_type_name, stab_resolve_func, stab_resolve_var,
}
use cs.Symbol.Decls.{stab_add_decls}
use cs.Symbol.Invariant.{IsStab, stab_enter-IsStab, stab_leave-IsStab}
use cs.Symbol.Invariant.Arena.{Leaves, outer}
use cs.Symbol.Invariant.Decls.{stab_add_decls-Leaves}

-- Every name of a variable, a subprogram and a type means the same in both tables.
pub record SameNames (s t : Stab) : Type 0 where
  pub var : (q : String) → stab_resolve_var t q ≡ stab_resolve_var s q
  pub func : (q : String) → stab_resolve_func t q ≡ stab_resolve_func s q
  pub type : (q : String) → stab_resolve_type_name t q ≡ stab_resolve_type_name s q

pub SameNames-of_chain : {s t : Stab} → t.chain ≡ s.chain → SameNames s t
unfolding stab_resolve_var stab_resolve_func stab_resolve_type_name
SameNames-of_chain e = record {
  var = λ q. ap (resolve_in (λ sc. sc.vars) q) e;
  func = λ q. ap (resolve_in (λ sc. sc.funcs) q) e;
  type = λ q. ap (resolve_in (λ sc. sc.types) q) e;
}

-- A scope that was just entered hides no name of a variable, a subprogram or a type.
pub stab_enter-SameNames : (st : Stab) → SameNames st (stab_enter st)
unfolding stab_enter stab_scope_new stab_resolve_var stab_resolve_func stab_resolve_type_name
    resolve_in
stab_enter-SameNames st = record {
  var = λ q. rw (lookup-hash_new (2 ^ 8) hash str_eq q) refl;
  func = λ q. rw (lookup-hash_new (2 ^ 8) hash str_eq q) refl;
  type = λ q. rw (lookup-hash_new (2 ^ 8) hash str_eq q) refl;
}
  where
    hash : String → ℕ
    hash = stab_scope_new.vars.hash

-- Leaving a scope drops the innermost one and nothing else.
pub stab_leave-After :
    (st : Stab)
    → After
        (λ _ u. (sc : Scope) × (st.chain ≡ sc ∷ u.chain) × (u ≡ record st { chain = u.chain }))
        (stab_leave st)
unfolding stab_leave leave_chain after_leave
stab_leave-After st = go st.chain refl
  where
    go :
        (c : List Scope)
        → st.chain ≡ c
        → After
            (λ _ u. (sc : Scope) × (st.chain ≡ sc ∷ u.chain) × (u ≡ record st { chain = u.chain }))
            (after_leave st (leave_chain c))
    go [] e = stops
    go (a ∷ []) e = stops
    go (a ∷ b ∷ c) e = returns (a, e, refl)

-- Leaving a scope in which only the innermost scope changed.
pub leave_around :
    (st : Stab) (sc : Scope) (rest : List Scope)
    → outer st.chain ≡ sc ∷ rest
    → stab_leave st ≡ ok (tt, record st { chain = sc ∷ rest })
unfolding stab_leave leave_chain after_leave
leave_around st sc rest e = go st.chain e
  where
    go :
        (c : List Scope)
        → outer c ≡ sc ∷ rest
        → after_leave st (leave_chain c) ≡ ok (tt, record st { chain = sc ∷ rest })
    go [] e = cc
    go (a ∷ []) e = cc
    go (a ∷ b ∷ c) e = rw e refl

-- When, from a well-formed table that is inside some scope, a scope is entered and a declaration of
-- names in it returns, leaving the scope succeeds, gives a well-formed table, and restores what
-- every name of a variable, a subprogram and a type meant before, names that were hidden included.
pub leave-decls-enter :
    (st u : Stab) (names : List String) (t : AstType) (off off' : Option ℤ) (flag : Bool)
    → IsStab st
    → st.chain ≢ []
    → stab_add_decls names t off flag (stab_enter st) ≡ ok (off', u)
    → (w : Stab) × (stab_leave u ≡ ok (tt, w)) × SameNames st w × IsStab w
leave-decls-enter st u names t off off' flag h ne e = go st.chain refl
  where
    l : Leaves (stab_enter st) u
    l = stab_add_decls-Leaves names t off flag (stab_enter st) u (stab_enter-IsStab h) e

    go :
        (c : List Scope)
        → st.chain ≡ c
        → (w : Stab) × (stab_leave u ≡ ok (tt, w)) × SameNames st w × IsStab w
    go [] e = absurd (ne e)
    go (sc ∷ rest) e =
        let entered : outer (stab_enter st).chain ≡ sc ∷ rest = unfold stab_enter in e in
        let around = l.around ∙ entered in
        let left = leave_around u sc rest around in
        (
          record u { chain = sc ∷ rest },
          left,
          SameNames-of_chain (sym e),
          stab_leave-IsStab l.good left,
        )
