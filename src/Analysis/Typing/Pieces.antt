-- ===== src/Analysis/Typing/Pieces.antt =====
-- The typing relation for statements, and the types in the pieces of `analyze_stmt` of
-- dragon/analysis.c: assignments, bounds, conditions, and sequences.
use mathlib.Core.Path.{subst}
use cs.Prelude.{
  ℕ, ◌≤◌, ◌≡◌, refl, ◌∙◌, List, [], ◌∷◌, some, inl, ◌++◌, arith, Bool, true, false, not, ◌==◌,
  String, get_elem?,
}
use cs.Ast.{
  AstPath, AstExpr, ExprList, AstStmt, assign, for_to, ite, proc, stmts, wdo, skip, StmtList,
  no_stmts, stmt,
}
use cs.Exec.{
  Result, ok, stop, Exec, continue, ◌>>◌, stop_if, span_err, incompatible_assignment,
  while_not_boolean, for_end_not_integer, Stop, for_variable_not_integer,
}
use cs.Exec.Rules.{
  After, returns, stops, After-bind, After-stop_if, After-mono, After_of_eq, After-intro,
}
use cs.Symbol.{Stab, stab_enter, integer_type_idx, boolean_type_idx}
use cs.Symbol.Equality.{stab_types_eq}
use cs.Symbol.Scoping.{stab_enter-SameNames}
use cs.Analysis.{Acx, Resu, Insn, push, jne, cmp_one, emit, on_stab, with_stab, next_label}
use cs.Analysis.Registers.{reg_takeitback}
use cs.Analysis.Stmts.{assign_to, check_bounds, enter, analyze_stmt}
use cs.Analysis.Keeps.{
  type_at, Keeps, Keeps-trans, Moves, keep_then, emit-Keeps, next_label-Keeps, stop_if-Keeps,
}
use cs.Analysis.Keeps.Paths.{takeback-Keeps}
use cs.Analysis.Keeps.Reads.{types_eq-Reads}
use cs.Analysis.Keeps.Stmts.{Inside, entered, opening, stmt-Keeps}
use cs.Analysis.Typing.{Env, env_of, env_of-Keeps, HasType, AllTyped}
use cs.Analysis.Typing.Calls.{same_type}

-- A comparison of two types that found them the same, in a table with these names and types.
pub record Compared (env : Env) (t u : ℕ) : Type 0 where
  pub st : Stab
  pub same_env : env_of st ≡ env
  pub same : stab_types_eq t u st ≡ ok (true, st)

mutual
  pub data WellTyped (env : Env) : AstStmt → Type 0 where
    nothing : WellTyped env skip
    assigned :
        {l r : AstExpr} {t u : ℕ}
        → HasType env l t
        → HasType env r u
        → Compared env u t
        → WellTyped env (assign l r)
    counted :
        {id : String} {start end : AstExpr} {body : AstStmt}
        → HasType env start integer_type_idx
        → HasType env end integer_type_idx
        → env.var id ≡ some integer_type_idx
        → WellTyped env body
        → WellTyped env (for_to id start end body)
    chosen :
        {cond : AstExpr} {s t : AstStmt}
        → HasType env cond boolean_type_idx
        → WellTyped env s
        → WellTyped env t
        → WellTyped env (ite cond s t)
    called_with : {p : AstPath} {es : ExprList} → AllTyped env es → WellTyped env (proc p es)
    block : {ss : StmtList} → AllWellTyped env ss → WellTyped env (stmts ss)
    repeated :
        {cond : AstExpr} {body : AstStmt}
        → HasType env cond boolean_type_idx
        → WellTyped env body
        → WellTyped env (wdo cond body)

  pub data AllWellTyped (env : Env) : StmtList → Type 0 where
    none_left : AllWellTyped env no_stmts
    one_more :
        {s : AstStmt} {ss : StmtList}
        → WellTyped env s
        → AllWellTyped env ss
        → AllWellTyped env (stmt s ss)

-- Entering a scope changes no meaning.
pub env_of-entered : (a : Acx) → env_of (entered a).st ≡ env_of a.st
unfolding stab_enter
env_of-entered a = λ i. record {
  var = λ x. type_at a.st ((stab_enter-SameNames a.st).var x i);
  func = λ f. get_elem? a.st.types ((stab_enter-SameNames a.st).func f i);
  type = λ n. get_elem? a.st.types n;
}

pub stmt_later :
    {a b : Acx} {s : AstStmt} → Keeps a b → WellTyped (env_of b.st) s → WellTyped (env_of a.st) s
stmt_later {s = s} k h = subst (λ (v : Env). WellTyped v s) (env_of-Keeps k) h

compared-After :
    (t u : ℕ) (a : Acx)
    → After
        (λ b c. (c ≡ a) × (stab_types_eq t u a.st ≡ ok (b, a.st)))
        (on_stab (stab_types_eq t u) a)
compared-After t u a = go (stab_types_eq t u a.st) (types_eq-Reads t u a.st) refl
  where
    go :
        (r : Result (Bool × Stab))
        → After (λ _ s. s ≡ a.st) r
        → stab_types_eq t u a.st ≡ r
        → After (λ b c. (c ≡ a) × (stab_types_eq t u a.st ≡ ok (b, a.st))) (with_stab a r)
    go (ok (b, s)) (returns e) f = returns (rw e refl, rw e at f)
    go (stop x) h f = stops

pub assign_to-After :
    (l r : Resu) (a : Acx) → After (λ _ c. Compared (env_of a.st) r.type l.type) (assign_to l r a)
unfolding assign_to
assign_to-After l r a = After-bind (compared-After r.type l.type a) (λ same b (e, eq).
    After-stop_if (not same) (span_err incompatible_assignment) b _ (λ f. After-intro _ (λ _ _ _.
      let yes_same : same ≡ true = ground arith in
      record { st = a.st; same_env = refl; same = rw yes_same at eq })))

-- What is known of the inputs stays known in a sequence.
pub fact :
    {A B : Type 0} {X : Type 0} {r : Result (A × Acx)} (f : A → Exec Acx B)
    → After (λ _ _. X) r
    → After (λ _ _. X) (continue r f)
fact f h = After-bind h (λ _ _ x. After-intro _ (λ _ _ _. x))

pub stop_if-After :
    (b : Bool) (e : Stop) (a : Acx) → After (λ _ c. (c ≡ a) × (b ≡ false)) (stop_if b e a)
stop_if-After true e a = stops
stop_if-After false e a = returns (refl, refl)

pub bounds-After :
    (s e : Resu) (a : Acx)
    → After
        (λ _ c. (c ≡ a) × (s.type ≡ integer_type_idx) × (e.type ≡ integer_type_idx))
        (check_bounds s e a)
bounds-After s e a = After-stop_if (not (s.type == integer_type_idx)) _ a _ (λ f.
    After-mono (stop_if-After (not (e.type == integer_type_idx)) (span_err for_end_not_integer) a)
      (λ _ c h. (h.0, same_type s.type 0 f, same_type e.type 0 h.1)))

pub opening-After :
    (i : Resu) (reg : String) (a : Acx)
    → After
        (λ _ c. Inside a c × (i.type ≡ integer_type_idx))
        ((stop_if (not (i.type == integer_type_idx)) (span_err for_variable_not_integer)
            >> enter
            >> emit (push reg ∷ [])
            >> next_label)
          a)
opening-After i reg a =
    After-intro _ (λ l c e. (After_of_eq (opening i reg a) e, After_of_eq integer e))
  where
    integer :
        After
          (λ _ _. i.type ≡ integer_type_idx)
          ((stop_if (not (i.type == integer_type_idx)) (span_err for_variable_not_integer)
              >> enter
              >> emit (push reg ∷ [])
              >> next_label)
            a)
    integer = fact _ (
        fact _ (
          After-bind (stop_if-After (not (i.type == integer_type_idx)) _ a)
            (λ _ b h. After-intro _ (λ _ _ _. same_type i.type 0 h.1))))

pub Compared-later :
    {a b : Acx} {t u : ℕ} → Keeps a b → Compared (env_of b.st) t u → Compared (env_of a.st) t u
Compared-later k c = record { st = c.st; same_env = c.same_env ∙ env_of-Keeps k; same = c.same }

pub relabelled :
    (a : Acx) (n : ℕ) (is : List Insn)
    → a.label ≤ n
    → Keeps a (record a { label = n; ofd = a.ofd ++ is })
relabelled a n is h = record {
  chain = refl;
  types = refl;
  var_count = refl;
  var_types = λ i. refl;
  toplevel = refl;
  kind = refl;
  func = refl;
  assigned = inl refl;
  labels = h;
  code = (is, refl);
}

-- A statement after an action, and an action after a typed statement.
pub then_stmt :
    {A : Type 0} {m : Exec Acx A} (s : AstStmt)
    → ((a : Acx) → After (λ _ _. WellTyped (env_of a.st) s) (analyze_stmt s a))
    → Moves Keeps m
    → (a : Acx) → After (λ _ b. Keeps a b × WellTyped (env_of a.st) s) ((m >> analyze_stmt s) a)
then_stmt s h k a = After-bind (k a) (λ _ b l.
    After-intro _ (λ _ c e.
      (Keeps-trans l (After_of_eq (stmt-Keeps s b) e), stmt_later l (After_of_eq (h b) e))))

pub then_keep :
    {A B X : Type 0} {a : Acx} {r : Result (A × Acx)} {f : A → Exec Acx B}
    → After (λ _ b. Keeps a b × X) r
    → ((x : A) → Moves Keeps (f x))
    → After (λ _ b. Keeps a b × X) (continue r f)
then_keep h k = After-bind h (λ x b (l, y). After-mono (k x b) (λ _ c m. (Keeps-trans l m, y)))

-- The test of a condition, and the label after it.
pub condition-After :
    (c : Resu) (e : Stop) (a : Acx)
    → After
        (λ _ b. Keeps a b × (c.type ≡ boolean_type_idx))
        ((stop_if (not (c.type == boolean_type_idx)) e >> next_label) a)
condition-After c e a =
    After-stop_if (not (c.type == boolean_type_idx)) e a _
      (λ f. After-mono (next_label-Keeps a) (λ _ b k. (k, same_type c.type 3 f)))

-- The test of the condition of a `while`.
abbrev pub guard : Resu → ℕ → Exec Acx (Unit {0})
guard r l =
    stop_if (not (r.type == boolean_type_idx)) (span_err while_not_boolean)
    >> emit (cmp_one r.reg.name ∷ jne l ∷ [])
    >> reg_takeitback r.reg

pub guard-After :
    (r : Resu) (l : ℕ) (a : Acx)
    → After (λ _ b. Keeps a b × (r.type ≡ boolean_type_idx)) (guard r l a)
guard-After r l a = After-intro (guard r l a) (λ _ b e. (
  After_of_eq
      (keep_then (keep_then (stop_if-Keeps _ _) (λ _. emit-Keeps _)) (λ _. takeback-Keeps r.reg) a)
      e,
  After_of_eq boolean e,
))
  where
    boolean : After (λ _ _. r.type ≡ boolean_type_idx) (guard r l a)
    boolean = fact _ (
        fact _ (
          After-mono (stop_if-After (not (r.type == boolean_type_idx)) _ a)
            (λ _ _ q. same_type r.type 3 q.1)))
