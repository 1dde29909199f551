-- ===== src/Util/Vec/Push.antt =====
-- `ptrvec_push` and `ptrvec_pop` of dragon/util.c against the list of a vector's elements.
use mathlib.Core.List.{append_assoc, append-nil}
use cs.Prelude.{
  if◌then◌else◌, ◌==◌, false, none, ℕ, zero, suc, ◌*◌, ◌≡◌, refl, ◌∙◌, ap, sym, ◌<◌, ◌≤◌, some,
  List, [], ◌∷◌, ◌++◌, length, get_elem?, set, take, replicate, length-append, length-set,
  length-replicate, get_elem?-set_ne, ltb, Bool-cases, inl, inr, arith, lt→ltb,
}
use cs.Util.Vec.{
  Ptrvec, ptrvec_wcap, doubled, ptrvec_reserve, ptrvec_push, ptrvec_pop, contents, push_all,
  ptrvec_new,
}

-- The block is as large as the struct records, and a cell is free.
pub record IsValid {A : Type 0} (v : Ptrvec A) : Type 0 where
  pub room : v.len < v.capacity
  pub block : length v.cells ≡ v.capacity

module _ {A : Type 0} where
  length-take_le : (n : ℕ) (xs : List A) → n ≤ length xs → length (take n xs) ≡ n
  length-take_le zero xs h = refl
  length-take_le (suc n) [] h = elim h [ ]
  length-take_le (suc n) (x ∷ xs) h = ap suc (length-take_le n xs (omega arith))

  take-append : (n : ℕ) (xs ys : List A) → n ≤ length xs → take n (xs ++ ys) ≡ take n xs
  take-append zero xs ys h = refl
  take-append (suc n) [] ys h = elim h [ ]
  take-append (suc n) (x ∷ xs) ys h = ap (λ l. x ∷ l) (take-append n xs ys (omega arith))

  take-take : (n m : ℕ) (xs : List A) → n ≤ m → take n (take m xs) ≡ take n xs
  take-take zero m xs h = refl
  take-take (suc n) zero xs h = elim h [ ]
  take-take (suc n) (suc m) [] h = refl
  take-take (suc n) (suc m) (x ∷ xs) h = ap (λ l. x ∷ l) (take-take n m xs (omega arith))

  take-set :
      (n : ℕ) (xs : List A) (v : A)
      → n < length xs
      → take (suc n) (set xs n v) ≡ take n xs ++ v ∷ []
  take-set zero [] v h = elim h [ ]
  take-set zero (x ∷ xs) v h = refl
  take-set (suc n) [] v h = elim h [ ]
  take-set (suc n) (x ∷ xs) v h = ap (λ l. x ∷ l) (take-set n xs v (omega arith))

  pub ptrvec_wcap-IsValid : (null : A) (cap : ℕ) → 0 < cap → IsValid (ptrvec_wcap null cap)
  unfolding ptrvec_wcap
  ptrvec_wcap-IsValid null cap h = record { room = h; block = length-replicate cap null }

  -- The vector that `ptrvec_reserve` leaves where there is a block.
  reserved : A → Ptrvec A → ℕ → Ptrvec A
  reserved null v n = if ltb n v.capacity then v else doubled null v

  ptrvec_reserve_run :
      (null : A) (v : Ptrvec A) (n : ℕ)
      → 0 < v.capacity
      → ptrvec_reserve null v n ≡ some (reserved null v n)
  unfolding ptrvec_reserve reserved
  ptrvec_reserve_run null v n pos =
      let positive : (v.capacity == 0) ≡ false = ground arith in
      elim (Bool-cases (ltb n v.capacity)) [ inl lt ↦ rw lt refl | inr ge ↦ rw (ge, positive) refl ]

  -- After `ptrvec_reserve` the block has a cell beyond the wanted length.
  ptrvec_reserve_room :
      (null : A) (v : Ptrvec A) (n : ℕ)
      → n ≤ v.capacity
      → 0 < v.capacity
      → length v.cells ≡ v.capacity
      → (n < (reserved null v n).capacity)
        × (length (reserved null v n).cells ≡ (reserved null v n).capacity)
        × ((k : ℕ) → k ≤ v.capacity → take k (reserved null v n).cells ≡ take k v.cells)
        × ((reserved null v n).len ≡ v.len)
  unfolding reserved
  ptrvec_reserve_room null v n le pos block = elim (Bool-cases (ltb n v.capacity)) [
    | inl lt ↦ (ground arith, rw lt block, rw lt (λ k h. refl), rw lt)
    | inr ge ↦ (
      ground arith,
      rw ge (
          length-take_le (v.capacity * 2) (v.cells ++ replicate v.capacity null)
            (rw (length-append, length-replicate, block) (omega arith))),
      rw ge (λ k h.
          take-take k (v.capacity * 2) (v.cells ++ replicate v.capacity null) (omega arith)
          ∙ take-append k v.cells (replicate v.capacity null) (omega arith)),
      rw ge,
    )
  ]

  pushed : (null : A) (v : Ptrvec A) (x : A) → Ptrvec A
  pushed null v x =
      let grown = reserved null (record v { len = suc v.len }) (suc v.len) in
      record grown { cells = set grown.cells v.len x }

  ptrvec_push_run :
      (null : A) (v : Ptrvec A) (x : A)
      → IsValid v
      → ptrvec_push null v x ≡ some (v.len, pushed null v x)
  unfolding ptrvec_push pushed
  ptrvec_push_run null v x ok =
      let old = record v { len = suc v.len } in
      let grown = reserved null old (suc v.len) in
      let (room, block, same, len) =
        ptrvec_reserve_room null old (suc v.len) (omega (arith, ok.room)) (omega (arith, ok.room))
          ok.block in
      rw
        (
          ptrvec_reserve_run null old (suc v.len) (omega (arith, ok.room)),
          lt→ltb v.len (length grown.cells) (omega arith),
        )
        refl

  -- Pushing onto a valid vector writes inside the block, returns the old length as the index,
  -- leaves the vector valid, and appends the element to what the vector holds.
  pub ptrvec_push-contents :
      (null : A) (v : Ptrvec A) (x : A)
      → IsValid v
      → (w : Ptrvec A) × (ptrvec_push null v x ≡ some (v.len, w))
        × IsValid w
        × (contents w ≡ contents v ++ x ∷ [])
        × (w.len ≡ suc v.len)
  ptrvec_push-contents null v x ok =
      let old = record v { len = suc v.len } in
      let grown = reserved null old (suc v.len) in
      let (room, block, same, len) =
        ptrvec_reserve_room null old (suc v.len) (omega (arith, ok.room)) (omega (arith, ok.room))
          ok.block in
      (
        pushed null v x,
        ptrvec_push_run null v x ok,
        unfold pushed in
            record { room = omega arith; block = length-set grown.cells v.len x ∙ block },
        unfold pushed in
            rw len (
              take-set v.len grown.cells x (omega arith)
              ∙ ap (λ l. l ++ x ∷ []) (same v.len (omega (arith, ok.room)))),
        unfold pushed in len,
      )

  pop-pushed :
      (null : A) (v : Ptrvec A) (z : A)
      → IsValid v
      → (ptrvec_pop (pushed null v z)).0
        ≡ get_elem? (reserved null (record v { len = suc v.len }) (suc v.len)).cells (suc v.len)
  unfolding ptrvec_pop pushed
  pop-pushed null v z ok =
      let old = record v { len = suc v.len } in
      let grown = reserved null old (suc v.len) in
      let (room, block, same, len) =
        ptrvec_reserve_room null old (suc v.len) (omega (arith, ok.room)) (omega (arith, ok.room))
          ok.block in
      rw len (get_elem?-set_ne grown.cells v.len (suc v.len) z (omega arith))

  -- The cell that `ptrvec_pop` reads after a push onto a valid vector is the one beyond the pushed
  -- element: what it returns is the same whichever element was pushed.
  pub pop-push_ignores :
      (null : A) (v : Ptrvec A) (x y : A) (i j : ℕ) (vx vy : Ptrvec A)
      → IsValid v
      → ptrvec_push null v x ≡ some (i, vx)
      → ptrvec_push null v y ≡ some (j, vy)
      → (ptrvec_pop vx).0 ≡ (ptrvec_pop vy).0
  pop-push_ignores null v x y i j vx vy ok hx hy =
      let ex : vx ≡ pushed null v x = cc (ptrvec_push_run null v x ok) in
      let ey : vy ≡ pushed null v y = cc (ptrvec_push_run null v y ok) in
      rw (ex, ey) (pop-pushed null v x ok ∙ sym (pop-pushed null v y ok))

  push_all-contents :
      (null : A) (v : Ptrvec A) (xs : List A)
      → IsValid v
      → (w : Ptrvec A) × (push_all null xs v ≡ some w) × IsValid w × (contents w ≡ contents v ++ xs)
  unfolding push_all
  push_all-contents null v [] ok = (v, refl, ok, sym (append-nil _))
  push_all-contents null v (x ∷ xs) ok =
      let (u, e, valid, held, _) = ptrvec_push-contents null v x ok in
      let (w, e', valid', held') = push_all-contents null u xs valid in
      (w, rw e e', valid', held' ∙ ap (λ l. l ++ xs) held ∙ append_assoc (contents v) (x ∷ []) xs)

  new_empty :
      (null x : A) → (w : Ptrvec A) × (ptrvec_new null [] ≡ some w) × (ptrvec_push null w x ≡ none)
  unfolding ptrvec_new push_all ptrvec_push ptrvec_wcap ptrvec_reserve
  new_empty null x = (ptrvec_wcap null 0, refl, refl)

  -- `ptrvec_new` of one argument or more succeeds with a valid vector that holds just the arguments,
  -- although it makes the vector as large as their number; with no argument it makes an empty vector
  -- onto which no element can be pushed: the push ends in `abort` or writes outside of the block.
  pub ptrvec_new-contents :
      (null x : A) (xs : List A)
      → ((w : Ptrvec A) × (ptrvec_new null (x ∷ xs) ≡ some w) × IsValid w × (contents w ≡ x ∷ xs))
        × ((w : Ptrvec A) × (ptrvec_new null [] ≡ some w) × (ptrvec_push null w x ≡ none))
  ptrvec_new-contents null x xs = (new_full, new_empty null x)
    where
      new_full :
          (w : Ptrvec A) × (ptrvec_new null (x ∷ xs) ≡ some w) × IsValid w × (contents w ≡ x ∷ xs)
      new_full =
          unfold ptrvec_new in
          push_all-contents null (ptrvec_wcap null (length (x ∷ xs))) (x ∷ xs)
            (ptrvec_wcap-IsValid null (length (x ∷ xs)) (omega arith))
