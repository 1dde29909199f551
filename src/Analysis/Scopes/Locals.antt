-- ===== src/Analysis/Scopes/Locals.antt =====
-- The declarations of a subprogram and of the program, and its imports: `add_types`,
-- `add_decl_list`, `add_locals` and `do_imports`.
use cs.Prelude.{String, List, [], ◌∷◌, Option, Bool, true, false}
use cs.Prelude.Int.{ℤ}
use cs.Ast.{AstType, AstTypeDecl, DeclsList, no_decls, decls}
use cs.Exec.Rules.{After, returns, After-bind, After-mono, After-intro}
use cs.Symbol.{Stab, Magic}
use cs.Symbol.Decls.{stab_add_magic_func}
use cs.Symbol.Invariant.{IsStab}
use cs.Symbol.Invariant.Arena.{Leaves, Leaves-refl, Leaves-trans}
use cs.Symbol.Invariant.Vars.{stab_add_var-After}
use cs.Symbol.Invariant.Types.{resolve_type-After}
use cs.Symbol.Invariant.Decls.{stab_add_decls-Leaves}
use cs.Symbol.Invariant.Subprograms.{stab_add_type-After}
use cs.Symbol.Invariant.Magic.{add_magic-After}
use cs.Analysis.Program.{add_types, add_decl_list, add_locals}

pub add_types-Leaves :
    (types : List AstTypeDecl) (s : Stab) → IsStab s → After (λ _ u. Leaves s u) (add_types types s)
unfolding add_types
add_types-Leaves [] s good = returns (Leaves-refl good)
add_types-Leaves (t ∷ types) s good =
    After-bind (stab_add_type-After t.name t.type s good) (λ _ u a.
      After-mono (add_types-Leaves types u a.leaves.good) (λ _ v l. Leaves-trans a.leaves l))

pub decl_list-Leaves :
    (ds : DeclsList) (off : Option ℤ) (arguments : Bool) (s : Stab)
    → IsStab s
    → After (λ _ u. Leaves s u) (add_decl_list ds off arguments s)
unfolding add_decl_list
decl_list-Leaves no_decls off arguments s good = returns (Leaves-refl good)
decl_list-Leaves (decls names t ds) off arguments s good =
    After-bind (After-intro _ (λ off' u e. stab_add_decls-Leaves names t off arguments s u good e))
      (λ off' u l.
        After-mono (decl_list-Leaves ds off' arguments u l.good) (λ _ v k. Leaves-trans l k))

pub add_locals-Leaves :
    (name : String) (ret : AstType) (args : DeclsList) (types : List AstTypeDecl) (ds : DeclsList)
    (s : Stab)
    → IsStab s
    → After (λ _ u. Leaves s u) (add_locals name ret args types ds s)
unfolding add_locals
add_locals-Leaves name ret args types ds s good =
    After-bind (add_types-Leaves types s good) (λ _ t l₁.
      After-bind (decl_list-Leaves args _ false t l₁.good) (λ _ u l₂.
        After-bind (decl_list-Leaves ds _ true u l₂.good) (λ off v l₃.
          After-bind (resolve_type-After ret "<retslot>" v l₃.good) (λ type w r.
            After-mono (stab_add_var-After r.leaves.good name type off true r.known) (λ _ x a.
              Leaves-trans l₁
                (Leaves-trans l₂ (Leaves-trans l₃ (Leaves-trans r.leaves a.leaves))))))))

pub magic-Leaves :
    (which : Magic) (s : Stab) → IsStab s → After (λ _ u. Leaves s u) (stab_add_magic_func which s)
magic-Leaves which s good = After-mono (add_magic-After which s good) (λ _ u a. a.leaves)
