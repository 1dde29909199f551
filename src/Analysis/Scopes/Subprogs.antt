-- ===== src/Analysis/Scopes/Subprogs.antt =====
-- The scopes around `analyze_subprog` of dragon/analysis.c.
use cs.Prelude.{ℕ, ◌≡◌, refl, sym, ◌∙◌, ap, String, Bool, true, false, List, [], ◌∷◌, Option}
use cs.Prelude.Int.{ℤ}
use cs.Util.Hash.{Bucket}
use cs.Ast.{
  Subprogs, AstType, AstStmt, AstSubdecl, subdecl, SubdeclList, no_subdecls, sub, AstTypeDecl,
  DeclsList,
}
use cs.Exec.{Result, ok, stop, Exec, ◌>>=◌, ◌>>◌}
use cs.Exec.Rules.{After, returns, stops, After-bind, After-mono, After-intro, After_of_eq}
use cs.Symbol.{Scope, Stab, StabVar, stab_enter, stab_leave}
use cs.Symbol.Scoping.{SameNames, SameNames-of_chain, stab_leave-After}
use cs.Symbol.Invariant.{IsStab, stab_enter-IsStab, stab_leave-IsStab}
use cs.Symbol.Invariant.Arena.{outer}
use cs.Symbol.Invariant.Subprograms.{stab_add_func-After}
use cs.Analysis.{Acx, with_stab, on_stab, Insn, add_rsp}
use cs.Analysis.Program.{
  begin_subprog, add_locals, local_entries, capture_loop, restore_display, check_result,
  copy_result, if_function, finish_subprog, end_subprog, analyze_subprog, analyze_subprogs,
  declare_subprog, keep_captured, frame_size,
}
use cs.Analysis.Keeps.{
  Moves, Keeps-refl, keep_then, pure-Keeps, stop_if-Keeps, require-Keeps, emit-Keeps, on_stab-Keeps,
}
use cs.Analysis.Keeps.Reads.{stab_var-Reads}
use cs.Analysis.Keeps.Paths.{gimme-Keeps, takeback-Keeps}
use cs.Analysis.Keeps.Stmts.{stmt-Keeps}
use cs.Analysis.Keeps.{Keeps}
use cs.Analysis.Scopes.{
  Later, Later-same, Later-trans, Held-refl, Held-of_chain, Holds, held_then, Holds-Keeps,
  table_held,
}
use cs.Analysis.Scopes.Locals.{add_locals-Leaves}

pub capture-Keeps : (entries : Bucket String) → Moves Keeps (capture_loop entries)
unfolding capture_loop
capture-Keeps [] a = returns (Keeps-refl a)
capture-Keeps ((name, id) ∷ entries) a =
    keep_then (on_stab-Keeps (stab_var-Reads id))
      (λ v.
        keep_then (emit-Keeps _)
          (λ _. keep_then (capture-Keeps entries) (λ vs. pure-Keeps (keep_captured v vs))))
      a

pub entries-Keeps : Moves Keeps local_entries
entries-Keeps a = require-Keeps _ a

pub display-Keeps : (captured : List StabVar) → Moves Keeps (restore_display captured)
unfolding restore_display
display-Keeps captured =
    keep_then gimme-Keeps (λ r. keep_then (emit-Keeps _) (λ _. takeback-Keeps r))

copy-Keeps : (b : Bool) (slot : ℕ) → Moves Keeps (copy_result b slot)
copy-Keeps false slot = pure-Keeps _
copy-Keeps true slot = keep_then gimme-Keeps (λ r.
    keep_then (on_stab-Keeps (stab_var-Reads slot))
      (λ v. keep_then (emit-Keeps _) (λ _. takeback-Keeps r)))

pub check_result-Keeps : Moves Keeps check_result
check_result-Keeps a = stop_if-Keeps _ _ a

pub if_function-Keeps : (slot : ℕ) → Moves Keeps (if_function slot)
if_function-Keeps slot a = copy-Keeps _ slot a

-- The innermost scope was left.
abbrev Left : Stab → Stab → Type 0
Left s t = IsStab t × (t.chain ≡ outer s.chain) × Later s t

-- The action ends by leaving the innermost scope.
abbrev Leaving : {A : Type 0} → Exec Acx A → Type 0
Leaving m = (a : Acx) → IsStab a.st → After (λ _ b. Left a.st b.st) (m a)

Leaving-then :
    {A B : Type 0} {m : Exec Acx A} {f : A → Exec Acx B}
    → Holds m
    → ((x : A) → Leaving (f x))
    → Leaving (m >>= f)
Leaving-then h k a good = After-bind (h a good) (λ x b p.
    After-mono (k x b p.good) (λ _ c (good', e, l). (good', e ∙ p.around, Later-trans p.later l)))

leave-Leaving : Leaving (on_stab stab_leave)
leave-Leaving a good =
    go (stab_leave a.st) (stab_leave-After a.st) (After-intro _ (λ _ u e. stab_leave-IsStab good e))
  where
    go :
        (r : Result (Unit {0} × Stab))
        → After
            (λ _ u.
              (sc : Scope) × (a.st.chain ≡ sc ∷ u.chain) × (u ≡ record a.st { chain = u.chain }))
            r
        → After (λ _ u. IsStab u) r
        → After (λ _ b. Left a.st b.st) (with_stab a r)
    go (ok (x, u)) (returns (sc, e, same)) (returns h) = returns (
      h,
      ap outer (sym e),
      Later-same (ap (λ (t : Stab). t.vars) same) (ap (λ (t : Stab). t.types) same),
    )
    go (stop x) k h = stops

finish-Leaving :
    (body : AstStmt) (slot : ℕ) (off : Option ℤ) → Leaving (finish_subprog body slot off)
unfolding finish_subprog
finish-Leaving body slot off = Leaving-then (Holds-Keeps (emit-Keeps _)) λ _.
    Leaving-then (Holds-Keeps entries-Keeps) λ entries.
      Leaving-then (Holds-Keeps (capture-Keeps entries)) λ captured.
        Leaving-then (Holds-Keeps (stmt-Keeps body)) λ _.
          Leaving-then (Holds-Keeps check_result-Keeps) λ _.
            Leaving-then (Holds-Keeps (display-Keeps captured)) λ _.
              Leaving-then (Holds-Keeps (if_function-Keeps slot)) λ _.
                Leaving-then (Holds-Keeps (emit-Keeps (add_rsp (frame_size off) ∷ Insn.ret ∷ [])))
                  λ _. leave-Leaving

-- The table is well formed, the scopes are those of before, and the types stay.
abbrev pub Restores : {A : Type 0} → Exec Acx A → Type 0
Restores m =
    (a : Acx)
    → IsStab a.st
    → After (λ _ b. IsStab b.st × (b.st.chain ≡ a.st.chain) × Later a.st b.st) (m a)

-- In the scope that the first state enters.
abbrev pub Within : Acx → Acx → Type 0
Within a b = IsStab b.st × (outer b.st.chain ≡ a.st.chain) × Later a.st b.st

begin-Within :
    (name : String) (kind : Subprogs) (a : Acx)
    → IsStab a.st
    → After (λ _ b. Within a b) (begin_subprog name kind a)
unfolding begin_subprog stab_enter
begin-Within name kind a good = returns (stab_enter-IsStab good, refl, Later-same refl refl)

pub open-Within :
    (name : String) (kind : Subprogs) (ret : AstType) (args : DeclsList) (types : List AstTypeDecl)
    (ds : DeclsList) (a : Acx)
    → IsStab a.st
    → After
        (λ _ b. Within a b)
        ((begin_subprog name kind >> on_stab (add_locals name ret args types ds)) a)
open-Within name kind ret args types ds a good =
    After-bind (begin-Within name kind a good) (λ _ b w.
      After-mono (table_held (add_locals-Leaves name ret args types ds) b w.0)
        (λ _ c k. (k.good, k.around ∙ w.1, Later-trans w.2 k.later)))

-- Declaring a subprogram and analysing it.
declared-Holds :
    (d : AstSubdecl) → Restores (analyze_subprog d) → Holds (declare_subprog d >> analyze_subprog d)
unfolding analyze_subprog
declared-Holds (subdecl (AstType.func kind args ret) name types ds subs body) h a good =
    held_then
      (table_held
        (λ s good. After-mono (stab_add_func-After name kind args ret s good) (λ _ u x. x.leaves)))
      (λ _ b good. After-mono (h b good) (λ _ c k. Held-of_chain k.0 k.1 k.2)) a good
declared-Holds (subdecl head name types ds subs body) h a good =
    let d = subdecl head name types ds subs body in
    After-bind {P = λ _ _. Unit {0}} {r = declare_subprog d a} {f = λ _. analyze_subprog d}
      (After-intro _ (λ _ _ _. tt)) (λ _ b _. stops)

mutual
  unfolding analyze_subprog end_subprog

  pub subprog-Restores : (s : AstSubdecl) → Restores (analyze_subprog s)
  subprog-Restores (subdecl (AstType.func kind args ret) name types ds subs body) a good =
      After-bind (open-Within name kind ret args types ds a good) (λ slot b w.
        After-bind {P = λ _ f. IsStab f.st × (f.st.chain ≡ a.st.chain) × Later a.st f.st}
          (After-bind (subprogs-Holds subs b w.0) (λ _ c k.
            After-mono (finish-Leaving body slot.0 slot.1 c k.good)
              (λ _ f l. (l.0, l.1 ∙ k.around ∙ w.1, Later-trans w.2 (Later-trans k.later l.2)))))
          (λ _ f r. returns r))
  subprog-Restores (subdecl _ name types ds subs body) a good = stops

  pub subprogs-Holds : (ss : SubdeclList) → Holds (analyze_subprogs ss)
  subprogs-Holds no_subdecls a good = returns (Held-refl good)
  subprogs-Holds (sub d ss) a good =
      held_then (declared-Holds d (subprog-Restores d)) (λ _. subprogs-Holds ss) a good

-- When `analyze_subprog` returns from a well-formed symbol table, however deep the subprograms in
-- it are nested, every scope that was entered is left again: the table is well formed, every
-- name of a variable, a subprogram and a type means what it meant, and the types that there were and
-- those of the variables are as they were.
pub analyze_subprog-SameNames :
    (s : AstSubdecl) (a b : Acx)
    → IsStab a.st
    → analyze_subprog s a ≡ ok (tt, b)
    → IsStab b.st × SameNames a.st b.st × Later a.st b.st
analyze_subprog-SameNames s a b good returned =
    let (good', e, l) = After_of_eq (subprog-Restores s a good) returned in
    (good', SameNames-of_chain e, l)
