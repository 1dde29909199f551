-- ===== src/Symbol/Names.antt =====
-- The tables of a scope: hash tables from names to indices, compared by `strcmp`.
use text.Mathlib.TextPositions.{eq_refl}
use cs.Prelude.{
  ℕ, ◌^◌, ◌≡◌, refl, ap, ◌∙◌, ◌<◌, ◌≤◌, ◌⊎◌, inl, inr, String, Bool, true, false, str_eq, eq_iff,
  if◌then◌else◌, Option-cases, arith,
}
use cs.Util.Hash.{HashTable, not_found, hash_new, hash_lookup, hash_insert, write_last, bucket_of}
use cs.Util.Hash.Lookup.{KeyLaws, IsValid}
use cs.Util.Hash.Table.{hash_new-IsValid, lookup-hash_new, hash_insert-IsValid, lookup-hash_insert}

-- An index below `n`, or that of a failed resolution.
abbrev pub Known : ℕ → ℕ → Type 0
Known n id = (id < n) ⊎ (id ≡ not_found)

-- A valid table of names whose indices are below `n`.
pub record Names (n : ℕ) (tab : HashTable String) : Type 0 where
  pub valid : IsValid tab
  pub comp : tab.comp ≡ str_eq
  pub ids : (name : String) → Known n (hash_lookup tab name)

str_eq_symm : (a b : String) → str_eq a b ≡ str_eq b a
str_eq_symm a b = ground (arith, eq_iff a b, eq_iff b a)

str_eq_trans : (a b c : String) → str_eq a b ≡ true → str_eq b c ≡ true → str_eq a c ≡ true
str_eq_trans a b c h k = ground (arith, eq_iff a b, eq_iff b c, eq_iff a c)

-- Text equality fits every hash function.
pub str_eq-KeyLaws : (hash : String → ℕ) → KeyLaws hash str_eq
str_eq-KeyLaws hash = record {
  comp_refl = λ a. eq_refl a;
  comp_symm = str_eq_symm;
  comp_trans = str_eq_trans;
  hash-comp = λ a b h. ap hash ((eq_iff a b).0 h);
}

Names-KeyLaws : {n : ℕ} {tab : HashTable String} → Names n tab → KeyLaws tab.hash tab.comp
Names-KeyLaws {tab = tab} ok = rw ok.comp (str_eq-KeyLaws tab.hash)

pub hash_new-Names : (n : ℕ) (hash : String → ℕ) → Names n (hash_new (2 ^ 8) hash str_eq)
hash_new-Names n hash = record {
  valid = hash_new-IsValid (2 ^ 8) hash str_eq (omega arith);
  comp = unfold hash_new in refl;
  ids = λ name. inr (lookup-hash_new (2 ^ 8) hash str_eq name);
}

comp-hash_insert :
    {K : Type 0} (tab : HashTable K) (k : K) (v : ℕ) → (hash_insert tab k v).0.comp ≡ tab.comp
unfolding hash_insert
comp-hash_insert tab k v = elim (Option-cases (write_last tab.comp k v (bucket_of tab k))) [
  | inl e ↦ rw (e, hash_insert)
  | inr ((old, r), e) ↦ rw (e, hash_insert)
]

pub lookup-Names :
    {n : ℕ} {tab : HashTable String} (ok : Names n tab) (k q : String) (id : ℕ)
    → hash_lookup (hash_insert tab k id).0 q ≡ (if str_eq q k then id else hash_lookup tab q)
lookup-Names {tab = tab} ok k q id =
    lookup-hash_insert tab (Names-KeyLaws ok) ok.valid k q id
    ∙ ap (λ (c : String → String → Bool). if c q k then id else hash_lookup tab q) ok.comp

pub hash_insert-Names :
    {n : ℕ} {tab : HashTable String} (k : String) (id : ℕ)
    → Names n tab
    → Known n id
    → Names n (hash_insert tab k id).0
hash_insert-Names {tab = tab} k id ok h = record {
  valid = hash_insert-IsValid tab (Names-KeyLaws ok) ok.valid k id;
  comp = comp-hash_insert tab k id ∙ ok.comp;
  ids = λ q. rw (lookup-Names ok k q id) (if_Known (str_eq q k) h (ok.ids q));
}
  where
    if_Known : {m a b : ℕ} (t : Bool) → Known m a → Known m b → Known m (if t then a else b)
    if_Known true x y = x
    if_Known false x y = y

pub Known-mono : {n m id : ℕ} → n ≤ m → Known n id → Known m id
Known-mono h (inl lt) = inl (omega arith)
Known-mono h (inr e) = inr e

pub Names-mono : {n m : ℕ} {tab : HashTable String} → n ≤ m → Names n tab → Names m tab
Names-mono h ok = record { valid = ok.valid; comp = ok.comp; ids = λ q. Known-mono h (ok.ids q) }
