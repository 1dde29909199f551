-- ===== src/Analysis/Keeps.antt =====
-- What analysing a program's text leaves alone: the relation, and the rules to prove it of the
-- pieces that the functions of dragon/analysis.c are made of.
pub mod Reads
pub mod Paths
pub mod Exprs
pub mod Stmts
pub mod Laws
pub mod Subprogs
use mathlib.Core.Path.{subst}
use mathlib.Core.Option.{map}
use cs.Prelude.{
  ℕ, zero, suc, ◌+◌, ◌≡◌, refl, ap, sym, ◌∙◌, ◌<◌, ◌≤◌, ◌⊎◌, inl, inr, List, [], ◌∷◌, ◌++◌, Option,
  none, some, Bool, true, false, String, length, get_elem?, set, arith,
}
use cs.Exec.{Result, ok, stop, Stop, Exec, pure, halt, require, stop_if, continue, ◌>>=◌, ◌>>◌}
use cs.Exec.Rules.{After, returns, stops, After-bind, After-mono}
use cs.Symbol.{Stab, StabVar}
use cs.Analysis.{Acx, Insn, emit, with_stab, on_stab, next_label}

-- The type of a variable of the arena.
abbrev pub type_at : Stab → ℕ → Option ℕ
type_at st i = map (λ (v : StabVar). v.type) (get_elem? st.vars i)

-- From one state to a later one: the scopes, the types and the variables' types stay, as do the
-- fields on the subprogram that is analysed; code is only added, and labels only grow.
pub record Keeps (a b : Acx) : Type 0 where
  pub chain : b.st.chain ≡ a.st.chain
  pub types : b.st.types ≡ a.st.types
  pub var_count : length b.st.vars ≡ length a.st.vars
  pub var_types : (i : ℕ) → type_at b.st i ≡ type_at a.st i
  pub toplevel : b.toplevel ≡ a.toplevel
  pub kind : b.current_func_type ≡ a.current_func_type
  pub func : b.current_func_name ≡ a.current_func_name
  pub assigned : (b.ret_assigned ≡ a.ret_assigned) ⊎ (b.ret_assigned ≡ true)
  pub labels : a.label ≤ b.label
  pub code : (is : List Insn) × (b.ofd ≡ a.ofd ++ is)

pub append_nil : (xs : List Insn) → xs ≡ xs ++ []
append_nil [] = refl
append_nil (x ∷ xs) = ap (λ l. x ∷ l) (append_nil xs)

pub append_assoc : (xs ys zs : List Insn) → (xs ++ ys) ++ zs ≡ xs ++ (ys ++ zs)
append_assoc [] ys zs = refl
append_assoc (x ∷ xs) ys zs = ap (λ l. x ∷ l) (append_assoc xs ys zs)

pub Keeps-refl : (a : Acx) → Keeps a a
Keeps-refl a = record {
  chain = refl;
  types = refl;
  var_count = refl;
  var_types = λ i. refl;
  toplevel = refl;
  kind = refl;
  func = refl;
  assigned = inl refl;
  labels = omega arith;
  code = ([], append_nil a.ofd);
}

pub Keeps-trans : {a b c : Acx} → Keeps a b → Keeps b c → Keeps a c
Keeps-trans {a} h k = record {
  chain = k.chain ∙ h.chain;
  types = k.types ∙ h.types;
  var_count = k.var_count ∙ h.var_count;
  var_types = λ i. k.var_types i ∙ h.var_types i;
  toplevel = k.toplevel ∙ h.toplevel;
  kind = k.kind ∙ h.kind;
  func = k.func ∙ h.func;
  assigned = join h.assigned k.assigned;
  labels = omega arith;
  code =
      let (is, e) = h.code in
      let (js, f) = k.code in (is ++ js, f ∙ ap (λ l. l ++ js) e ∙ append_assoc a.ofd is js);
}
  where
    join : {x y z : Bool} → (y ≡ x) ⊎ (y ≡ true) → (z ≡ y) ⊎ (z ≡ true) → (z ≡ x) ⊎ (z ≡ true)
    join (inl e) (inl f) = inl (f ∙ e)
    join (inr e) (inl f) = inr (f ∙ e)
    join e (inr f) = inr f

-- An action that only prints and uses registers.
pub Keeps-prints :
    (a b : Acx) (is : List Insn)
    → b ≡ record a { ofd = a.ofd ++ is; rs = b.rs; mismatches = b.mismatches }
    → Keeps a b
Keeps-prints a b is e = subst (Keeps a) (sym e) (record {
  chain = refl;
  types = refl;
  var_count = refl;
  var_types = λ i. refl;
  toplevel = refl;
  kind = refl;
  func = refl;
  assigned = inl refl;
  labels = omega arith;
  code = (is, refl);
})

-- Where the action returns, its states are related.
abbrev pub Moves : {A : Type 0} → (Acx → Acx → Type 0) → Exec Acx A → Type 0
Moves P m = (a : Acx) → After (λ _ b. P a b) (m a)

pub Moves-bind :
    {A B : Type 0} {P Q R : Acx → Acx → Type 0} (m : Exec Acx A) (f : A → Exec Acx B)
    → ((a b c : Acx) → P a b → Q b c → R a c)
    → Moves P m
    → ((x : A) → Moves Q (f x))
    → Moves R (m >>= f)
Moves-bind m f join h k a = After-bind (h a) (λ x b p. After-mono (k x b) (λ _ c q. join a b c p q))

-- In sequence.
pub keep_then :
    {A B : Type 0} {m : Exec Acx A} {f : A → Exec Acx B}
    → Moves Keeps m
    → ((x : A) → Moves Keeps (f x))
    → Moves Keeps (m >>= f)
keep_then {m = m} {f} h k = Moves-bind m f (λ a b c. Keeps-trans) h k

pub pure-Keeps : {A : Type 0} (x : A) → Moves Keeps (pure {S = Acx} x)
pure-Keeps x a = returns (Keeps-refl a)

pub halt-Keeps : {A : Type 0} (e : Stop) → Moves Keeps (halt {S = Acx} {A = A} e)
halt-Keeps e a = stops

pub stop_if-Keeps : (b : Bool) (e : Stop) → Moves Keeps (stop_if b e)
stop_if-Keeps true e a = stops
stop_if-Keeps false e a = returns (Keeps-refl a)

pub require-Keeps : {A : Type 0} (o : Option A) → Moves Keeps (require {S = Acx} o)
require-Keeps none a = stops
require-Keeps (some x) a = returns (Keeps-refl a)

pub emit-Keeps : (is : List Insn) → Moves Keeps (emit is)
emit-Keeps is a = returns (Keeps-prints a _ is refl)

pub next_label-Keeps : Moves Keeps next_label
next_label-Keeps a = returns (record {
  chain = refl;
  types = refl;
  var_count = refl;
  var_types = λ i. refl;
  toplevel = refl;
  kind = refl;
  func = refl;
  assigned = inl refl;
  labels = omega arith;
  code = ([], append_nil a.ofd);
})

-- An operation of the symbol table that only reads it.
abbrev pub Reads : {A : Type 0} → Exec Stab A → Type 0
Reads m = (st : Stab) → After (λ _ u. u ≡ st) (m st)

pub on_stab-Keeps : {A : Type 0} {m : Exec Stab A} → Reads m → Moves Keeps (on_stab m)
on_stab-Keeps {m = m} h a = go (m a.st) (h a.st)
  where
    go :
        {A : Type 0} (r : Result (A × Stab))
        → After (λ _ u. u ≡ a.st) r
        → After (λ _ b. Keeps a b) (with_stab a r)
    go (ok (x, u)) (returns e) = returns (rw e (Keeps-refl a))
    go (stop e) h = stops

pub require-Reads : {A : Type 0} (f : Stab → Option A) → Reads (λ st. require (f st) st)
require-Reads f st = go (f st)
  where
    go : {A : Type 0} (o : Option A) → After (λ _ u. u ≡ st) (require {A = A} o st)
    go none = stops
    go (some x) = returns refl

pub ruleset keeping = (
  keep_then, pure-Keeps, halt-Keeps, stop_if-Keeps, require-Keeps, emit-Keeps, next_label-Keeps,
  on_stab-Keeps,
)
