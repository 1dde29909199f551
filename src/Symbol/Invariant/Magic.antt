-- ===== src/Symbol/Invariant/Magic.antt =====
-- The invariant through `stab_add_magic_func` of dragon/symbol.c.
use cs.Prelude.{
  ◌++◌, length-append, get_elem?-append_self, [], ◌∷◌, ◌≡◌, refl, ◌<◌, ◌≤◌, inl, [], ◌∷◌, some,
  length, get_elem?, arith, length-append, get_elem?-append_self,
}
use cs.Ast.{sub_function}
use cs.Exec.{ok}
use cs.Exec.Rules.{After, After-bind, After_of_eq, After-intro}
use cs.Symbol.{Magic, plain, Stab, StabType, func, insert_func, stab_resolve_func, resolve_failure}
use cs.Symbol.Decls.{magic_name, check_magic, stab_add_magic_func}
use cs.Symbol.Invariant.{IsStab}
use cs.Symbol.Invariant.Arena.{Grows, Leaves, Leaves-trans, append-Leaves, on_innermost-After}
use cs.Symbol.Invariant.Subprograms.{insert_func-Leaves, resolve_func-insert}

-- A built-in was declared.
pub record AddedMagic (which : Magic) (st u : Stab) : Type 0 where
  pub leaves : Leaves st u
  type : StabType
  magic : type.magic ≡ which
  means :
      length u.types ≤ resolve_failure
      → get_elem? u.types (stab_resolve_func u (magic_name which)) ≡ some type

pub add_magic-After :
    (which : Magic) (st : Stab)
    → IsStab st
    → After (λ _ u. AddedMagic which st u) (stab_add_magic_func which st)
unfolding stab_add_magic_func
add_magic-After which st h =
    After-bind {P = λ _ s. s ≡ st} (After-intro _ (λ _ s e. checked which s e)) (λ _ s same.
      rw same (
        let t : StabType = record {
          ty = func sub_function [] 0;
          name = magic_name which;
          size = 0;
          align = 0;
          magic = which;
        } in
        let l = append-Leaves h t (tt, inl (omega (arith, h.arena.builtins))) in
        let inside : length st.types < length (st.types ++ t ∷ []) =
          omega (arith, length-append {0} st.types (t ∷ [])) in
        on_innermost-After (insert_func (magic_name which) (length st.types))
          (record st { types = st.types ++ t ∷ [] })
          (λ sc rest c. record {
            leaves = Leaves-trans l (
                insert_func-Leaves l.good sc rest (magic_name which) (length st.types) c
                  (inl inside));
            type = t;
            magic = refl;
            means = λ fits.
                rw
                  (resolve_func-insert l.good sc rest (magic_name which) (length st.types) c
                    (omega (arith, inside)))
                  (get_elem?-append_self st.types t);
          })))
  where
    checked : (w : Magic) (s : Stab) → check_magic w st ≡ ok (tt, s) → s ≡ st
    checked plain s e = cc
    checked _ s e = cc

-- When a built-in is declared in a well-formed table and `stab_add_magic_func` returns, with fewer
-- than 2 ^ 64 types made, the table is well formed, the arenas still hold what they held, and the
-- name of the built-in means a type that is marked as this built-in.
stab_add_magic_func-means :
    (which : Magic) (st u : Stab)
    → IsStab st
    → stab_add_magic_func which st ≡ ok (tt, u)
    → length u.types ≤ resolve_failure
    → IsStab u
      × Grows st u
      × (type : StabType) × (type.magic ≡ which)
      × (get_elem? u.types (stab_resolve_func u (magic_name which)) ≡ some type)
stab_add_magic_func-means which st u h e fits =
    let a = After_of_eq (add_magic-After which st h) e in
    (a.leaves.good, a.leaves.grows, a.type, a.magic, a.means fits)
