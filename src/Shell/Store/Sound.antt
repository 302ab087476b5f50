-- ===== src/Shell/Store/Sound.antt =====
-- What the operations on the history do to its memory: a copy, and a block that is freed.
use puny_gui.Prelude.{
  ℕ, suc, ◌+◌, ◌≤◌, ◌≡◌, refl, ap, ap₂, Bool, true, List, ◌∷◌, ◌++◌, Option, none, some, arith,
  length, update, slice, drop,
}
use puny_gui.Shell.State.{history_max}
use puny_gui.Shell.Store.{Store, free_block, sdup}
use puny_gui.Shell.Store.Owned.{Owned, OwnsOne, Owned-insert}
use puny_gui.Shell.Store.Contents.{Blocks, contents, shown, IsHeld, contents-update, contents-freed}

-- The entries own all blocks, and the blocks to come are not there yet.
pub record IsSound (s : Store) : Type 0 where
  pub owned : Owned (slice s.cells 0 s.count) s.blocks
  pub unborn : (a : ℕ) → s.top ≤ a → s.blocks a ≡ none
  pub bounded : s.count ≤ history_max

-- An operation succeeds, with a state of some kind.
abbrev pub Succeeds : (Store → Type 0) → Option Store → Type 0
Succeeds P o = (t : Store) × (o ≡ some t) × P t

abbrev pub freed : Option ℕ → (ℕ → Option (List ℕ)) → ℕ → Option (List ℕ)
freed none blocks = blocks
freed (some a) blocks = update blocks a none

-- A pointer that owns its block can be freed.
pub free_block_lem :
    (p : Option ℕ) (qs : List (Option ℕ)) (s : Store)
    → OwnsOne p qs s.blocks
    → (free_block p s ≡ some (record s { blocks = freed p s.blocks })) × Owned qs (freed p s.blocks)
unfolding free_block
free_block_lem none qs s h = absurd h
free_block_lem (some a) qs s ((text, e), h) = (rw (free_block, e) refl, h)

pub freed-unborn :
    (p : Option ℕ) (blocks : ℕ → Option (List ℕ)) (a : ℕ)
    → blocks a ≡ none
    → freed p blocks a ≡ none
freed-unborn none blocks a e = e
freed-unborn (some b) blocks a e = ground arith

-- The state behind a copy of a line.
abbrev pub copied : List ℕ → Store → Store
copied line s = record s { blocks = update s.blocks s.top (some line); top = s.top + 1 }

pub sdup_lem :
    (malloc : ℕ → Bool) (line : List ℕ) (s : Store)
    → malloc (length line + 1) ≡ true
    → sdup malloc line s ≡ (some s.top, copied line s)
unfolding sdup
sdup_lem malloc line s e = rw e refl

pub copied-unborn :
    (line : List ℕ) (s : Store)
    → IsSound s
    → (a : ℕ) → s.top + 1 ≤ a
    → (copied line s).blocks a ≡ none
copied-unborn line s h a l = let e = h.unborn a (omega arith) in ground arith

-- A new block for a new pointer among the others.
pub copied-Owned :
    (line : List ℕ) (s : Store) (ps qs : List (Option ℕ))
    → Owned (ps ++ qs) s.blocks
    → s.blocks s.top ≡ none
    → Owned (ps ++ (some s.top ∷ qs)) (copied line s).blocks
copied-Owned line s ps qs h e = Owned-insert ps s.top line qs s.blocks h e

-- What an operation leaves: the strings of the history, and the index.
abbrev pub Becomes : List (Option (List ℕ)) → ℕ → Store → Type 0
Becomes es i t = IsSound t × (shown t ≡ es) × (t.index ≡ i)

-- The other pointers keep their strings.
pub freed-kept :
    (p : Option ℕ) (blocks : Blocks) (ps : List (Option ℕ))
    → IsHeld (freed p blocks) ps
    → contents (freed p blocks) ps ≡ contents blocks ps
freed-kept none blocks ps h = refl
freed-kept (some a) blocks ps h = contents-freed blocks a ps h

pub copied-texts :
    (line : List ℕ) (s : Store) (ps : List (Option ℕ))
    → s.blocks s.top ≡ none
    → IsHeld s.blocks ps
    → contents (copied line s).blocks (some s.top ∷ ps) ≡ some line ∷ contents s.blocks ps
copied-texts line s ps n h =
    ap₂ ◌∷◌ (ground arith) (contents-update s.blocks s.top (some line) ps n h)

pub behind_first :
    (s : Store) (n : ℕ) → s.count ≡ suc n → drop 1 (shown s) ≡ contents s.blocks (slice s.cells 1 n)
behind_first s n c = ap (λ k. drop 1 (contents s.blocks (slice s.cells 0 k))) c
