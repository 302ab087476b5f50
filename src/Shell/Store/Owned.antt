-- ===== src/Shell/Store/Owned.antt =====
-- Pointers that own the blocks of memory: each block is allocated and belongs to one pointer.
use puny_gui.Prelude.{
  ℕ, ◌≡◌, ◌≢◌, sym, ap, subst, ◌∙◌, fun_ext, List, [], ◌∷◌, ◌++◌, Option, none, some, arith, update,
}

-- The pointers own all blocks and no other, and none of them is NULL.
abbrev pub Owned : List (Option ℕ) → (ℕ → Option (List ℕ)) → Type 0
Owned [] blocks = (a : ℕ) → blocks a ≡ none
Owned (none ∷ ps) blocks = ⊥
Owned (some a ∷ ps) blocks =
    ((text : List ℕ) × (blocks a ≡ some text)) × Owned ps (update blocks a none)

-- A pointer that owns its block, with what is left when that is freed.
abbrev pub OwnsOne : Option ℕ → List (Option ℕ) → (ℕ → Option (List ℕ)) → Type 0
OwnsOne none ps blocks = ⊥
OwnsOne (some a) ps blocks =
    ((text : List ℕ) × (blocks a ≡ some text)) × Owned ps (update blocks a none)

module _ (blocks : ℕ → Option (List ℕ)) where
  -- A block that is given and taken back.
  update_back :
      (a : ℕ) (o : Option (List ℕ)) → blocks a ≡ none → update (update blocks a o) a none ≡ blocks
  update_back a o e = fun_ext λ j. ground arith

  update_swap :
      (a c : ℕ) (o p : Option (List ℕ))
      → a ≢ c
      → update (update blocks a o) c p ≡ update (update blocks c p) a o
  update_swap a c o p n = fun_ext λ j. ground arith

  update_same : (a : ℕ) (o p : Option (List ℕ)) → update (update blocks a o) a p ≡ update blocks a p
  update_same a o p = fun_ext λ j. ground arith

  update_other : (a c : ℕ) (o : Option (List ℕ)) → c ≢ a → update blocks a o c ≡ blocks c
  update_other a c o n = ground arith

  freed_other : (c a : ℕ) {text : List ℕ} → update blocks c none a ≡ some text → a ≢ c
  freed_other c a e p = ground arith

absurd_some : {text : List ℕ} → none ≡ some text → ⊥
absurd_some e = cc

-- A pointer in the middle.
pub Owned-split :
    (ps : List (Option ℕ)) (p : Option ℕ) (qs : List (Option ℕ)) (blocks : ℕ → Option (List ℕ))
    → Owned (ps ++ (p ∷ qs)) blocks
    → OwnsOne p (ps ++ qs) blocks
Owned-split [] none qs blocks h = h
Owned-split [] (some a) qs blocks h = h
Owned-split (none ∷ ps) p qs blocks h = absurd h
Owned-split (some c ∷ ps) none qs blocks (own, h) = Owned-split ps none qs (update blocks c none) h
Owned-split (some c ∷ ps) (some a) qs blocks ((text, e), h) =
    let ((text', e'), rest) = Owned-split ps (some a) qs (update blocks c none) h in
    let other : a ≢ c = λ p. freed_other blocks c a e' p in
    (
      (text', sym (update_other blocks c a none other) ∙ e'),
      (
        (text, update_other blocks a c none (λ p. other (sym p)) ∙ e),
        subst (Owned (ps ++ qs)) (update_swap blocks c a none none (λ p. other (sym p))) rest,
      ),
    )

-- A new block for a pointer in the middle.
pub Owned-insert :
    (ps : List (Option ℕ)) (a : ℕ) (text : List ℕ) (qs : List (Option ℕ))
    (blocks : ℕ → Option (List ℕ))
    → Owned (ps ++ qs) blocks
    → blocks a ≡ none
    → Owned (ps ++ (some a ∷ qs)) (update blocks a (some text))
Owned-insert [] a text qs blocks h e =
    ((text, ground arith), subst (Owned qs) (sym (update_back blocks a (some text) e)) h)
Owned-insert (none ∷ ps) a text qs blocks h e = h
Owned-insert (some c ∷ ps) a text qs blocks ((text', e'), h) e =
    let other : a ≢ c = λ p. absurd_some (sym e ∙ ap blocks p ∙ e') in
    (
      (text', update_other blocks a c (some text) (λ p. other (sym p)) ∙ e'),
      subst (Owned (ps ++ (some a ∷ qs))) (sym (update_swap blocks a c (some text) none other)) (
          Owned-insert ps a text qs (update blocks c none) h
            (update_other blocks c a none other ∙ e)),
    )
