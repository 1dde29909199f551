-- ===== src/Analysis/Scopes/Nesting.antt =====
-- Where `analyze_subprog` of dragon/analysis.c prints the code of the subprograms of a subprogram.
use cs.Prelude.{ℕ, ◌≡◌, refl, ◌∙◌, ap, String, List, [], ◌∷◌, ◌++◌, Option}
use cs.Prelude.Int.{ℤ}
use cs.Ast.{
  AstType, AstTypeDecl, DeclsList, Subprogs, AstStmt, AstSubdecl, subdecl, SubdeclList, no_subdecls,
  sub,
}
use cs.Exec.{Result, ok, stop, Exec, ◌>>=◌, ◌>>◌}
use cs.Exec.Rules.{After, returns, stops, After-bind, After-mono, After_of_eq}
use cs.Symbol.{Stab, stab_leave}
use cs.Symbol.Decls.{stab_add_func}
use cs.Analysis.{Acx, Insn, enter_subprogram, add_rsp, with_stab, on_stab}
use cs.Analysis.Program.{
  begin_subprog, add_locals, frame_size, finish_subprog, end_subprog, declare_subprog,
  analyze_subprog, analyze_subprogs,
}
use cs.Analysis.Keeps.{append_nil, append_assoc, Keeps, Moves, Moves-bind, emit-Keeps}
use cs.Analysis.Keeps.Stmts.{stmt-Keeps}
use cs.Analysis.Scopes.Subprogs.{
  capture-Keeps, entries-Keeps, check_result-Keeps, if_function-Keeps, display-Keeps,
}

-- Code was only added at the end.
abbrev Extends : Acx → Acx → Type 0
Extends a b = (is : List Insn) × (b.ofd ≡ a.ofd ++ is)

Extends-trans : (a b c : Acx) → Extends a b → Extends b c → Extends a c
Extends-trans a b c (is, e) (js, f) = (is ++ js, f ∙ ap (λ l. l ++ js) e ∙ append_assoc a.ofd is js)

Extends-then :
    {A B : Type 0} {m : Exec Acx A} {f : A → Exec Acx B}
    → Moves Extends m
    → ((x : A) → Moves Extends (f x))
    → Moves Extends (m >>= f)
Extends-then {m = m} {f} h k = Moves-bind m f Extends-trans h k

Extends-Keeps : {A : Type 0} {m : Exec Acx A} → Moves Keeps m → Moves Extends m
Extends-Keeps h a = After-mono (h a) (λ _ b k. k.code)

-- The symbol table prints nothing.
on_stab-Prints_none :
    {A : Type 0} (m : Exec Stab A) (a : Acx) → After (λ _ b. b.ofd ≡ a.ofd) (on_stab m a)
on_stab-Prints_none m a = go (m a.st)
  where
    go : {A : Type 0} (r : Result (A × Stab)) → After (λ _ b. b.ofd ≡ a.ofd) (with_stab a r)
    go (ok (x, u)) = returns refl
    go (stop e) = stops

on_stab-Extends : {A : Type 0} (m : Exec Stab A) → Moves Extends (on_stab m)
on_stab-Extends m a = After-mono (on_stab-Prints_none m a) (λ _ b e. ([], e ∙ append_nil a.ofd))

finish-Extends :
    (body : AstStmt) (slot : ℕ) (off : Option ℤ) → Moves Extends (finish_subprog body slot off)
unfolding finish_subprog
finish-Extends body slot off = Extends-then (Extends-Keeps (emit-Keeps _)) λ _.
    Extends-then (Extends-Keeps entries-Keeps) λ entries.
      Extends-then (Extends-Keeps (capture-Keeps entries)) λ captured.
        Extends-then (Extends-Keeps (stmt-Keeps body)) λ _.
          Extends-then (Extends-Keeps check_result-Keeps) λ _.
            Extends-then (Extends-Keeps (display-Keeps captured)) λ _.
              Extends-then (Extends-Keeps (if_function-Keeps slot)) λ _.
                Extends-then (Extends-Keeps (emit-Keeps (add_rsp (frame_size off) ∷ Insn.ret ∷ [])))
                  λ _. on_stab-Extends stab_leave

-- The added code starts with the entry of the subprogram.
abbrev Enters : String → Acx → Acx → Type 0
Enters name a b = (is : List Insn) × (b.ofd ≡ a.ofd ++ enter_subprogram name ∷ is)

Enters-Extends : (name : String) (a b c : Acx) → Enters name a b → Extends b c → Enters name a c
Enters-Extends name a b c (is, e) (js, f) =
    (is ++ js, f ∙ ap (λ l. l ++ js) e ∙ append_assoc a.ofd (enter_subprogram name ∷ is) js)

-- Up to the subprograms inside only the entry is printed.
open-Prints :
    (name : String) (kind : Subprogs) (retty : AstType) (args : DeclsList)
    (types : List AstTypeDecl) (ds : DeclsList) (a : Acx)
    → After
        (λ _ b. b.ofd ≡ a.ofd ++ enter_subprogram name ∷ [])
        ((begin_subprog name kind >> on_stab (add_locals name retty args types ds)) a)
unfolding begin_subprog
open-Prints name kind retty args types ds a =
    on_stab-Prints_none (add_locals name retty args types ds) _

abbrev name_of : AstSubdecl → String
name_of (subdecl head name types ds subs body) = name

declare-Prints_none :
    (d : AstSubdecl) (a : Acx) → After (λ _ b. b.ofd ≡ a.ofd) (declare_subprog d a)
unfolding analyze_subprog
declare-Prints_none (subdecl head name types ds subs body) a =
    on_stab-Prints_none (stab_add_func name head) a

-- Declaring a subprogram prints nothing before its code.
declared-Enters :
    (d : AstSubdecl) (a : Acx)
    → ((b : Acx) → After (λ _ c. Enters (name_of d) b c) (analyze_subprog d b))
    → After (λ _ c. Enters (name_of d) a c) ((declare_subprog d >> analyze_subprog d) a)
declared-Enters d a h = After-bind (declare-Prints_none d a) (λ _ b e.
    After-mono (h b) (λ _ c (is, f). (is, f ∙ ap (λ l. l ++ enter_subprogram (name_of d) ∷ is) e)))

mutual
  unfolding analyze_subprog end_subprog

  subprog-Enters :
      (d : AstSubdecl) (a : Acx) → After (λ _ b. Enters (name_of d) a b) (analyze_subprog d a)
  subprog-Enters (subdecl (AstType.func kind args retty) name types ds subs body) a =
      After-bind (open-Prints name kind retty args types ds a) (λ slot b e.
        After-bind {P = λ _ c. Enters name a c}
          (After-mono
            (Extends-then (subprogs-Extends subs) (λ _. finish-Extends body slot.0 slot.1) b)
            (λ _ c x. Enters-Extends name a b c ([], e) x))
          (λ _ c x. returns x))
  subprog-Enters (subdecl _ name types ds subs body) a = stops

  subprogs-Extends : (ss : SubdeclList) → Moves Extends (analyze_subprogs ss)
  subprogs-Extends no_subdecls a = returns ([], append_nil a.ofd)
  subprogs-Extends (sub d ss) a =
      After-bind {P = λ _ c. Extends a c}
        (After-mono (declared-Enters d a (subprog-Enters d))
          (λ _ c (is, e). (enter_subprogram (name_of d) ∷ is, e)))
        (λ _ c x. After-mono (subprogs-Extends ss c) (λ _ f y. Extends-trans a c f x y))

falls :
    (kind : Subprogs) (args : DeclsList) (retty : AstType) (name : String)
    (types : List AstTypeDecl) (ds : DeclsList) (inner : AstSubdecl) (rest : SubdeclList)
    (body : AstStmt) (a : Acx)
    → After
        (λ _ b.
          (is : List Insn) × (b.ofd
            ≡ a.ofd ++ enter_subprogram name ∷ enter_subprogram (name_of inner) ∷ is))
        (analyze_subprog
          (subdecl (AstType.func kind args retty) name types ds (sub inner rest) body)
          a)
unfolding analyze_subprog end_subprog
falls kind args retty name types ds inner rest body a =
    After-bind (open-Prints name kind retty args types ds a) (λ slot b e.
      After-bind {P = λ _ c. Enters (name_of inner) b c}
        (After-bind
          (After-bind (declared-Enters inner b (subprog-Enters inner)) (λ _ c x.
            After-mono (subprogs-Extends rest c)
              (λ _ f y. Enters-Extends (name_of inner) b c f x y)))
          (λ _ c x.
            After-mono (finish-Extends body slot.0 slot.1 c)
              (λ _ f y. Enters-Extends (name_of inner) b c f x y)))
        (λ _ c (is, f). returns (
          is,
          f
              ∙ ap (λ l. l ++ enter_subprogram (name_of inner) ∷ is) e
              ∙ append_assoc a.ofd (enter_subprogram name ∷ [])
                  (enter_subprogram (name_of inner) ∷ is),
        )))

-- When `analyze_subprog` returns on a subprogram that declares others, the code that it added starts
-- with the entry of the outer one, and the entry of the first inner one comes right behind it.
pub analyze_subprog-falls_through :
    (kind : Subprogs) (args : DeclsList) (retty : AstType) (name : String)
    (types : List AstTypeDecl) (ds : DeclsList) (inner : AstSubdecl) (rest : SubdeclList)
    (body : AstStmt) (a b : Acx)
    → analyze_subprog (subdecl (AstType.func kind args retty) name types ds (sub inner rest) body) a
      ≡ ok (tt, b)
    → (is : List Insn) × (b.ofd
        ≡ a.ofd ++ enter_subprogram name ∷ enter_subprogram (name_of inner) ∷ is)
analyze_subprog-falls_through kind args retty name types ds inner rest body a b returned =
    After_of_eq (falls kind args retty name types ds inner rest body a) returned
