-- ===== src/Analysis/Typing/Subprograms.antt =====
-- The bodies of subprograms, as `analyze_subprog` of dragon/analysis.c accepts them: the tables in
-- which they are typed.
use cs.Prelude.{ℕ, ◌≡◌, refl, String, List, [], ◌∷◌, ◌++◌, Option}
use cs.Prelude.Int.{ℤ}
use cs.Ast.{
  Subprogs, AstType, DeclsList, AstTypeDecl, AstStmt, AstSubdecl, subdecl, SubdeclList, no_subdecls,
  sub,
}
use cs.Exec.{Result, ok, stop, Exec, ◌>>◌}
use cs.Exec.Rules.{After, returns, stops, After-bind, After-mono, After-intro, After_of_eq}
use cs.Symbol.{Stab, stab_enter}
use cs.Symbol.Decls.{stab_add_func}
use cs.Symbol.Invariant.{IsStab}
use cs.Analysis.{Acx, with_stab, on_stab, sub_rsp}
use cs.Analysis.Stmts.{analyze_stmt}
use cs.Analysis.Program.{
  begin_subprog, add_locals, finish_subprog, analyze_subprog, analyze_subprogs, declare_subprog,
  frame_size,
}
use cs.Analysis.Keeps.{Keeps-trans, Keeps-prints}
use cs.Analysis.Scopes.{Later}
use cs.Analysis.Scopes.Subprogs.{
  capture-Keeps, entries-Keeps, Within, open-Within, subprog-Restores,
}
use cs.Symbol.Invariant.Subprograms.{stab_add_func-After}
use cs.Analysis.Typing.{env_of}
use cs.Analysis.Typing.Pieces.{WellTyped, stmt_later}
use cs.Analysis.Typing.Stmts.{analyze_stmt-WellTyped}

abbrev name_of : AstSubdecl → String
name_of (subdecl head name types ds subprogs body) = name

abbrev head_of : AstSubdecl → AstType
head_of (subdecl head name types ds subprogs body) = head

-- A subprogram in a table, and the subprograms of a scope from one table to another.
mutual
  -- The body is typed in the table that entering a scope, adding the names, and declaring the
  -- subprograms inside make of the one around.
  pub data TypedSub : Stab → AstSubdecl → Type 0 where
    typed :
        {st t u : Stab} {kind : Subprogs} {args : DeclsList} {ret : AstType} {name : String}
        {types : List AstTypeDecl} {ds : DeclsList} {subprogs : SubdeclList} {body : AstStmt}
        {slot : ℕ × Option ℤ}
        → add_locals name ret args types ds (stab_enter st) ≡ ok (slot, t)
        → TypedSubs t subprogs u
        → IsStab u
        → WellTyped (env_of u) body
        → TypedSub st (subdecl (AstType.func kind args ret) name types ds subprogs body)

  -- Each one is declared before its body is looked at; the names that come after mean the same and
  -- have the same types in the table that it leaves.
  pub data TypedSubs : Stab → SubdeclList → Stab → Type 0 where
    none_left : {st : Stab} → TypedSubs st no_subdecls st
    one_more :
        {st t t' u : Stab} {d : AstSubdecl} {ds : SubdeclList}
        → stab_add_func (name_of d) (head_of d) st ≡ ok (tt, t)
        → TypedSub t d
        → t'.chain ≡ t.chain
        → Later t t'
        → TypedSubs t' ds u
        → TypedSubs st (sub d ds) u

-- An operation of the table gives just what it gives.
pub on_stab-exact :
    {A : Type 0} (m : Exec Stab A) (a : Acx) → After (λ x b. m a.st ≡ ok (x, b.st)) (on_stab m a)
on_stab-exact m a = go (m a.st)
  where
    go : {A : Type 0} (r : Result (A × Stab)) → After (λ x b. r ≡ ok (x, b.st)) (with_stab a r)
    go (ok (x, u)) = returns refl
    go (stop e) = stops

open-exact :
    (name : String) (kind : Subprogs) (ret : AstType) (args : DeclsList) (types : List AstTypeDecl)
    (ds : DeclsList) (a : Acx)
    → After
        (λ slot b. add_locals name ret args types ds (stab_enter a.st) ≡ ok (slot, b.st))
        ((begin_subprog name kind >> on_stab (add_locals name ret args types ds)) a)
unfolding begin_subprog
open-exact name kind ret args types ds a = on_stab-exact (add_locals name ret args types ds) _

body-WellTyped :
    (body : AstStmt) (slot : ℕ) (off : Option ℤ) (c : Acx)
    → After (λ _ _. WellTyped (env_of c.st) body) (finish_subprog body slot off c)
unfolding finish_subprog
body-WellTyped body slot off c =
    let k =
      Keeps-prints c (record c { ofd = c.ofd ++ sub_rsp (frame_size off) ∷ [] })
        (sub_rsp (frame_size off) ∷ []) refl in
    After-bind (entries-Keeps _) (λ entries e l.
      After-bind (capture-Keeps entries e) (λ captured f m.
        After-bind {P = λ _ _. WellTyped (env_of c.st) body}
          (After-intro (analyze_stmt body f) (λ _ g returned.
            stmt_later (Keeps-trans k (Keeps-trans l m))
              (analyze_stmt-WellTyped body f g returned)))
          (λ _ g h. After-intro _ (λ _ _ _. h))))

-- What is left by declaring a subprogram and analysing it.
abbrev Declared : AstSubdecl → Stab → Stab → Type 0
Declared d s u =
    (t : Stab) × (stab_add_func (name_of d) (head_of d) s ≡ ok (tt, t))
    × TypedSub t d
    × (u.chain ≡ t.chain)
    × Later t u
    × IsStab u

declared-Typed :
    (d : AstSubdecl)
    → ((b : Acx) → IsStab b.st → After (λ _ _. TypedSub b.st d) (analyze_subprog d b))
    → (a : Acx) → IsStab a.st
    → After (λ _ c. Declared d a.st c.st) ((declare_subprog d >> analyze_subprog d) a)
unfolding analyze_subprog
declared-Typed (subdecl (AstType.func kind args ret) name types ds subprogs body) h a good =
    let d = subdecl (AstType.func kind args ret) name types ds subprogs body in
    After-bind (on_stab-exact (stab_add_func name (AstType.func kind args ret)) a) (λ _ b e.
      let good' = (After_of_eq (stab_add_func-After name kind args ret a.st good) e).leaves.good in
      After-intro (analyze_subprog d b) (λ _ c returned.
        let (left, chain, later) = After_of_eq (subprog-Restores d b good') returned in
        (b.st, e, After_of_eq (h b good') returned, chain, later, left)))
declared-Typed (subdecl head name types ds subprogs body) h a good =
    let d = subdecl head name types ds subprogs body in
    After-bind {P = λ _ _. Unit {0}} {r = declare_subprog d a} {f = λ _. analyze_subprog d}
      (After-intro _ (λ _ _ _. tt)) (λ _ b _. stops)

mutual
  unfolding analyze_subprog

  sub-Typed :
      (d : AstSubdecl) (a : Acx)
      → IsStab a.st
      → After (λ _ _. TypedSub a.st d) (analyze_subprog d a)
  sub-Typed (subdecl (AstType.func kind args ret) name types ds subprogs body) a good =
      After-bind
        {P = λ slot b.
          Within a b × (add_locals name ret args types ds (stab_enter a.st) ≡ ok (slot, b.st))}
        (After-intro _ (λ slot b e. (
          After_of_eq (open-Within name kind ret args types ds a good) e,
          After_of_eq (open-exact name kind ret args types ds a) e,
        )))
        (λ slot b (w, e).
          After-bind
            {P = λ _ _.
              TypedSub a.st (subdecl (AstType.func kind args ret) name types ds subprogs body)}
            (After-bind (subs-Typed subprogs b w.0) (λ _ c (inner, good').
              After-mono (body-WellTyped body slot.0 slot.1 c) (λ _ _ h. typed e inner good' h)))
            (λ _ f h. After-intro _ (λ _ _ _. h)))
  sub-Typed (subdecl _ name types ds subprogs body) a good = stops

  pub subs-Typed :
      (ss : SubdeclList) (a : Acx)
      → IsStab a.st
      → After (λ _ c. TypedSubs a.st ss c.st × IsStab c.st) (analyze_subprogs ss a)
  subs-Typed no_subdecls a good = returns (none_left, good)
  subs-Typed (sub d ds) a good =
      After-bind (declared-Typed d (sub-Typed d) a good)
        (λ _ c (t, added, body, chain, later, good').
          After-mono (subs-Typed ds c good')
            (λ _ f (rest, good''). (one_more added body chain later rest, good'')))
