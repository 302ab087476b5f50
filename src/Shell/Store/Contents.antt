-- ===== src/Shell/Store/Contents.antt =====
-- The strings at a list of pointers, and what a new block and a freed one do to them.
use puny_gui.Prelude.{
  ℕ, zero, suc, ◌≡◌, refl, sym, ap, ap₂, ◌∙◌, List, [], ◌∷◌, ◌++◌, Option, none, some, arith,
  update, take, slice, All, length, length-slice,
}
use puny_gui.Shell.Store.{Store}
use puny_gui.Shell.Store.Owned.{Owned}

abbrev pub Blocks : Type 0
Blocks = ℕ → Option (List ℕ)

abbrev pub text_at : Blocks → Option ℕ → Option (List ℕ)
text_at blocks none = none
text_at blocks (some a) = blocks a

abbrev pub contents : Blocks → List (Option ℕ) → List (Option (List ℕ))
contents blocks [] = []
contents blocks (p ∷ ps) = text_at blocks p ∷ contents blocks ps

-- The strings of the history.
abbrev pub shown : Store → List (Option (List ℕ))
shown s = contents s.blocks (slice s.cells 0 s.count)

-- The pointers point to blocks.
abbrev pub IsHeld : Blocks → List (Option ℕ) → Type 0
IsHeld blocks = All λ p. (a : ℕ) × (text : List ℕ) × (p ≡ some a) × (blocks a ≡ some text)

still_there :
    (blocks : Blocks) (a c : ℕ) {text : List ℕ}
    → update blocks a none c ≡ some text
    → blocks c ≡ some text
still_there blocks a c e = ground arith

IsHeld-update :
    (blocks : Blocks) (a : ℕ) (ps : List (Option ℕ))
    → IsHeld (update blocks a none) ps
    → IsHeld blocks ps
IsHeld-update blocks a [] h = tt
IsHeld-update blocks a (p ∷ ps) ((c, text, e, e'), h) =
    ((c, text, e, still_there blocks a c e'), IsHeld-update blocks a ps h)

pub Owned-IsHeld : (blocks : Blocks) (ps : List (Option ℕ)) → Owned ps blocks → IsHeld blocks ps
Owned-IsHeld blocks [] h = tt
Owned-IsHeld blocks (none ∷ ps) h = absurd h
Owned-IsHeld blocks (some a ∷ ps) ((text, e), h) =
    ((a, text, refl, e), IsHeld-update blocks a ps (Owned-IsHeld (update blocks a none) ps h))

pub IsHeld-front :
    (blocks : Blocks) (ps qs : List (Option ℕ)) → IsHeld blocks (ps ++ qs) → IsHeld blocks ps
IsHeld-front blocks [] qs h = tt
IsHeld-front blocks (p ∷ ps) qs h = (h.0, IsHeld-front blocks ps qs h.1)

pub IsHeld-back :
    (blocks : Blocks) (ps qs : List (Option ℕ)) → IsHeld blocks (ps ++ qs) → IsHeld blocks qs
IsHeld-back blocks [] qs h = h
IsHeld-back blocks (p ∷ ps) qs h = IsHeld-back blocks ps qs h.1

kept_at :
    (blocks : Blocks) (a c : ℕ) {text : List ℕ} (o : Option (List ℕ))
    → blocks c ≡ some text
    → blocks a ≡ none
    → update blocks a o c ≡ blocks c
kept_at blocks a c o e n = ground arith

-- A new block.
pub contents-update :
    (blocks : Blocks) (a : ℕ) (o : Option (List ℕ)) (ps : List (Option ℕ))
    → blocks a ≡ none
    → IsHeld blocks ps
    → contents (update blocks a o) ps ≡ contents blocks ps
contents-update blocks a o [] n h = refl
contents-update blocks a o (p ∷ ps) n ((c, text, e, e'), h) =
    ap₂ ◌∷◌ (rw e (kept_at blocks a c o e' n)) (contents-update blocks a o ps n h)

-- A block that is freed, and pointers that still point to blocks.
pub contents-freed :
    (blocks : Blocks) (a : ℕ) (ps : List (Option ℕ))
    → IsHeld (update blocks a none) ps
    → contents (update blocks a none) ps ≡ contents blocks ps
contents-freed blocks a [] h = refl
contents-freed blocks a (p ∷ ps) ((c, text, e, e'), h) =
    ap₂ ◌∷◌ (rw e (e' ∙ sym (still_there blocks a c e'))) (contents-freed blocks a ps h)

pub contents-append :
    (blocks : Blocks) (ps qs : List (Option ℕ))
    → contents blocks (ps ++ qs) ≡ contents blocks ps ++ contents blocks qs
contents-append blocks [] qs = refl
contents-append blocks (p ∷ ps) qs = ap (text_at blocks p ∷◌) (contents-append blocks ps qs)

pub contents-take :
    (blocks : Blocks) (n : ℕ) (ps : List (Option ℕ))
    → contents blocks (take n ps) ≡ take n (contents blocks ps)
contents-take blocks zero ps = refl
contents-take blocks (suc n) [] = refl
contents-take blocks (suc n) (p ∷ ps) = ap (text_at blocks p ∷◌) (contents-take blocks n ps)

-- The array of the strings.
abbrev pub strings : Store → ℕ → Option (List ℕ)
strings s j = text_at s.blocks (s.cells j)

pub contents-slice :
    (s : Store) (i n : ℕ) → contents s.blocks (slice s.cells i n) ≡ slice (strings s) i n
contents-slice s i zero = refl
contents-slice s i (suc n) = ap (strings s i ∷◌) (contents-slice s (suc i) n)

pub length-shown : (s : Store) → length (shown s) ≡ s.count
length-shown s = ap length (contents-slice s 0 s.count) ∙ length-slice (strings s) 0 s.count
