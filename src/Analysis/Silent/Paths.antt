-- ===== src/Analysis/Silent/Paths.antt =====
-- What `reg_gimme`, `reg_takeitback`, `size_of_type`, `type_of_path` of dragon/analysis.c and the
-- readers of dragon/symbol.c leave alone.
use mathlib.Core.Option.{map}
use cs.Prelude.{
  ℕ, zero, suc, ◌+◌, ◌≡◌, refl, ap, sym, ◌∙◌, List, [], ◌∷◌, some, Bool, true, false, String,
  str_eq, inl, inr, length-set, get_elem?, set, arith, if◌then◌else◌, Option-cases,
}
use cs.Ast.{AstPath}
use cs.Exec.{Exec, pure}
use cs.Exec.Rules.{After, returns, stops, After-bind, After-mono}
use cs.Symbol.{StabVar, ResolvedType, stab_var}
use cs.Analysis.{Acx, Reg, on_stab, load_display, lea_local}
use cs.Analysis.Registers.{reg_gimme, reg_takeitback}
use cs.Analysis.Registers.Pool.{reg_gimme-Prints, reg_takeitback-Prints}
use cs.Analysis.Paths.{
  size_of_tag, size_of_type, capture, capture_once, times_align, load_address, enter_field,
  find_field, access_field, walk, load_value, type_of_path,
}
use cs.Analysis.Keeps.{Keeps-refl, Moves}
use cs.Analysis.Keeps.Reads.{stab_type-Reads, stab_var-Reads, reading, resolve-Reads}
use cs.Analysis.Silent.{
  silence, Silent, Silent-refl, Silent-trans, Silent-prints, Silent-then, pure-Silent, halt-Silent,
  emit-Silent, on_stab-Silent,
}

pub gimme-Silent : Moves Silent reg_gimme
gimme-Silent a =
    After-mono (reg_gimme-Prints a) (λ _ b (is, plain, pool, e). Silent-prints a b is plain pool e)

pub takeback-Silent : (r : Reg) → Moves Silent (reg_takeitback r)
takeback-Silent r a =
    After-mono (reg_takeitback-Prints r a)
      (λ _ b (is, plain, pool, e). Silent-prints a b is plain pool e)

-- Capturing a variable changes neither its type nor any other variable.
type_at-set :
    (vars : List StabVar) (id i : ℕ) (v w : StabVar)
    → get_elem? vars id ≡ some v
    → w.type ≡ v.type
    → map (λ (x : StabVar). x.type) (get_elem? (set vars id w) i)
      ≡ map (λ (x : StabVar). x.type) (get_elem? vars i)
type_at-set [] id i v w h e = refl
type_at-set (x ∷ vars) zero zero v w h e =
    let same : x ≡ v = cc in ap some (e ∙ ap (λ (y : StabVar). y.type) (sym same))
type_at-set (x ∷ vars) zero (suc i) v w h e = refl
type_at-set (x ∷ vars) (suc id) zero v w h e = refl
type_at-set (x ∷ vars) (suc id) (suc i) v w h e = type_at-set vars id i v w h e

capture-Silent :
    (id : ℕ) (v : StabVar) (a : Acx)
    → get_elem? a.st.vars id ≡ some v
    → After (λ _ b. Silent a b) (capture_once id v a)
capture-Silent id v a h = go v.captured
  where
    go : (b : Bool) → After (λ _ b. Silent a b) ((if b then pure tt else capture id v) a)
    go true = returns (Silent-refl a)
    go false = returns (record {
      keeps = record {
        chain = refl;
        types = refl;
        var_count = length-set a.st.vars id _;
        var_types = λ i. type_at-set a.st.vars id i v _ h refl;
        toplevel = refl;
        kind = refl;
        func = refl;
        assigned = inl refl;
        labels = omega arith;
        code = (Keeps-refl a).code;
      };
      same_pool = refl;
      same_label = refl;
      same_definitions = λ n. refl;
      same_jumps = λ n. refl;
    })

pub load_address-Silent :
    (here : Bool) (id : ℕ) (reg : String) → Moves Silent (load_address here id reg)
unfolding load_address
load_address-Silent true id reg =
    Silent-then (on_stab-Silent (stab_var-Reads id))
      (λ v. emit-Silent (lea_local reg v.stack_base_offset ∷ []) refl)
load_address-Silent false id reg = λ a. After-bind (var_of id a) (λ v b (same, at).
    After-bind (capture-Silent id v b (rw same at)) (λ _ c k.
      After-mono
        (Silent-then (on_stab-Silent (stab_var-Reads id))
          (λ v'. emit-Silent (load_display reg (times_align v'.disp_offset) ∷ []) refl) c)
        (λ _ d l. Silent-trans (rw same at k) l)))
  where
    var_of :
        (id : ℕ) (a : Acx)
        → After (λ v b. (b ≡ a) × (get_elem? a.st.vars id ≡ some v)) (on_stab (stab_var id) a)
    var_of id a = elim (Option-cases (get_elem? a.st.vars id)) [
      | inl e ↦ rw e stops
      | inr (v, e) ↦ rw e (returns (refl, refl))
    ]

size_of_tag-Silent : (t : ResolvedType) → Moves Silent (size_of_tag t)
unfolding size_of_tag
size_of_tag-Silent ResolvedType.ref a = stops
size_of_tag-Silent _ a = returns (Silent-refl a)

pub size_of_type-Silent : (id : ℕ) → Moves Silent (size_of_type id)
unfolding size_of_type
size_of_type-Silent id =
    Silent-then (on_stab-Silent (stab_type-Reads id)) (λ t. size_of_tag-Silent t.ty)

enter_field-Silent :
    (t : ResolvedType) (reg : String) (offset : ℕ) → Moves Silent (enter_field t reg offset)
unfolding enter_field
enter_field-Silent (ResolvedType.pointer p) reg offset =
    Silent-then (on_stab-Silent (stab_type-Reads p))
      (λ t. Silent-then (emit-Silent _ refl) (λ _. pure-Silent t.ty))
enter_field-Silent ty reg offset = Silent-then (emit-Silent _ refl) (λ _. pure-Silent ty)

find_field-Silent :
    (n reg : String) (offset : ℕ) (fields : List (String × ℕ))
    → Moves Silent (find_field n reg offset fields)
unfolding find_field
find_field-Silent n reg offset [] = halt-Silent _
find_field-Silent n reg offset ((name, id) ∷ fields) =
    go (str_eq name n)
      (Silent-then (on_stab-Silent (stab_type-Reads id)) (λ t. enter_field-Silent t.ty reg offset))
      (Silent-then (size_of_type-Silent id)
        (λ size. find_field-Silent n reg (offset + size) fields))
  where
    go :
        {x y : Exec Acx ResolvedType} (b : Bool)
        → Moves Silent x
        → Moves Silent y
        → Moves Silent (if b then x else y)
    go true h k = h
    go false h k = k

pub walk-Silent :
    (reg : String) (names : List String) (t : ResolvedType) → Moves Silent (walk reg t names)
unfolding walk access_field
walk-Silent reg [] t = pure-Silent t
walk-Silent reg (n ∷ names) t = Silent-then (access t) (walk-Silent reg names)
  where
    access : (t : ResolvedType) → Moves Silent (access_field n reg t)
    access (ResolvedType.record_of fields) = find_field-Silent n reg 0 fields
    access _ = halt-Silent _

pub load_value-Silent : (b : Bool) (reg : String) → Moves Silent (load_value b reg)
load_value-Silent true reg = emit-Silent _ refl
load_value-Silent false reg = pure-Silent _

pub type_of_path-Silent : (p : AstPath) (b : Bool) → Moves Silent (type_of_path p b)
unfolding type_of_path
type_of_path-Silent p b =
    search
      (
        reading, silence, gimme-Silent, load_address-Silent, walk-Silent, load_value-Silent,
        resolve-Reads,
      )
      depth 30
