-- ===== src/Shell/Complete/Valid.antt =====
-- `kshowcomp` and the well-formedness of the line.
use puny_gui.Prelude.{
  ℕ, zero, suc, ◌-◌, ◌≤◌, ◌≡◌, refl, ap, ◌∙◌, Bool, false, not, ◌&&◌, List, [], ◌∷◌, Option, none,
  some, arith, All, length, drop, ◌==◌, if_ind, dec_lt,
}
use puny_gui.Shell.State.{Editor, Key, symbol, other, IsValid, IsValid-same, line_max}
use puny_gui.Shell.Edit.Valid.{insert-IsValid}
use puny_gui.Shell.Words.{forth_while}
use puny_gui.Shell.Frame.{Frame, Frame-refl, Frame-trans, insert-Frame}
use puny_gui.Shell.Drawn.{Drawn-IsValid, show_matches-Drawn}
use puny_gui.Shell.Matches.{
  is_symbol_char_gen, get_symprefix, check_match, check_specials, check_all, specials,
  longest_common_prefix,
}
use puny_gui.Shell.Matches.Order.{NoNull, check_match-NoNull}
use puny_gui.Shell.Matches.Prefix.{Begins, longest_common_prefix_lem}
use puny_gui.Shell.Complete.{
  check_table, check_env, find_matches, to_symbol_end, insert_all, complete_with, complete_symbol,
  complete_by, kshowcomp, show_matches,
}

-- No symbol holds a NUL.
abbrev pub IsKey : Key → Type 0
IsKey (symbol m) = NoNull m
IsKey other = Unit

abbrev pub IsTables : Option (List (List Key)) → Type 0
IsTables none = Unit
IsTables (some env) = All (All IsKey) env

check_table-NoNull :
    (src : List ℕ) (table : List Key) (ms : List (List ℕ))
    → All IsKey table
    → All NoNull ms
    → All NoNull (check_table src table ms)
unfolding check_table
check_table-NoNull src [] ms k h = h
check_table-NoNull src (other ∷ t) ms k h = check_table-NoNull src t ms k.1 h
check_table-NoNull src (symbol m ∷ t) ms k h =
    check_table-NoNull src t (check_match src m ms) k.1 (check_match-NoNull src m ms k.0 h)

check_env-NoNull :
    (src : List ℕ) (env : List (List Key)) (ms : List (List ℕ))
    → All (All IsKey) env
    → All NoNull ms
    → All NoNull (check_env src env ms)
unfolding check_env
check_env-NoNull src [] ms k h = h
check_env-NoNull src (t ∷ env) ms k h =
    check_env-NoNull src env (check_table src t ms) k.1 (check_table-NoNull src t ms k.0 h)

check_all-NoNull :
    (src : List ℕ) (tests ms : List (List ℕ))
    → All NoNull tests
    → All NoNull ms
    → All NoNull (check_all src tests ms)
unfolding check_all
check_all-NoNull src [] ms k h = h
check_all-NoNull src (t ∷ tests) ms k h =
    check_all-NoNull src tests (check_match src t ms) k.1 (check_match-NoNull src t ms k.0 h)

specials-NoNull : All NoNull specials
specials-NoNull = omega arith

find_matches-NoNull :
    (src : List ℕ) (env : List (List Key)) → All (All IsKey) env → All NoNull (find_matches src env)
unfolding find_matches check_specials
find_matches-NoNull src env k =
    check_all-NoNull src specials _ specials-NoNull (check_env-NoNull src env [] k tt)

Begins-NoNull : (xs ys : List ℕ) → Begins xs ys → NoNull ys → NoNull xs
Begins-NoNull [] ys b n = tt
Begins-NoNull (x ∷ xs) [] b n = absurd b
Begins-NoNull (x ∷ xs) (y ∷ ys) b n = (omega (arith, b.0, n.0), Begins-NoNull xs ys b.1 n.1)

lcp-NoNull : (ms : List (List ℕ)) → All NoNull ms → NoNull (longest_common_prefix ms)
unfolding longest_common_prefix
lcp-NoNull [] n = tt
lcp-NoNull (m ∷ ms) n = Begins-NoNull _ m (longest_common_prefix_lem m ms).0.0 n.0

drop-NoNull : (k : ℕ) (xs : List ℕ) → NoNull xs → NoNull (drop k xs)
drop-NoNull zero xs n = n
drop-NoNull (suc k) [] n = tt
drop-NoNull (suc k) (x ∷ xs) n = drop-NoNull k xs n.1

insert_all-IsValid : (cs : List ℕ) {s : Editor} → NoNull cs → IsValid s → IsValid (insert_all cs s)
unfolding insert_all
insert_all-IsValid [] n v = v
insert_all-IsValid (c ∷ cs) n v = insert_all-IsValid cs n.1 (insert-IsValid c false n.0 v)

insert_all-Frame : (cs : List ℕ) (s : Editor) → Frame s (insert_all cs s)
unfolding insert_all
insert_all-Frame [] s = Frame-refl s
insert_all-Frame (c ∷ cs) s = Frame-trans (insert-Frame c false s) (insert_all-Frame cs _)

-- The scan for the end of the symbol stops at the NUL of the line.
forth_while-le :
    (n : ℕ) (test : ℕ → Bool) (m : ℕ → ℕ) (p e : ℕ)
    → p ≤ e
    → test (m e) ≡ false
    → forth_while n test m p ≤ e
unfolding forth_while
forth_while-le zero test m p e l h = l
forth_while-le (suc n) test m p e l h = elim (dec_lt p e) [
  | yes below ↦ ground (arith, forth_while-le n test m (suc p) e)
  | no here ↦ let q : p ≡ e = omega arith in rw (forth_while, q, h) (omega arith)
]

not_symbol : is_symbol_char_gen 0 ≡ false
unfolding is_symbol_char_gen
not_symbol = refl

to_symbol_end-IsValid : {s : Editor} → IsValid s → IsValid (to_symbol_end s)
unfolding to_symbol_end
to_symbol_end-IsValid {s} v = IsValid-same s _ v refl refl (
    forth_while-le (line_max - s.pos) is_symbol_char_gen s.buf s.pos s.len v.cursor
      (ap is_symbol_char_gen v.terminated ∙ not_symbol))

to_symbol_end-Frame : (s : Editor) → Frame s (to_symbol_end s)
unfolding to_symbol_end
to_symbol_end-Frame s = ground arith

-- A state that is valid and has the frame of `s`.
abbrev Kept : Editor → Editor → Type 0
Kept s t = IsValid t × Frame s t

insert_all-Kept : (cs : List ℕ) {s : Editor} → NoNull cs → IsValid s → Kept s (insert_all cs s)
insert_all-Kept cs {s} n v = (insert_all-IsValid cs n v, insert_all-Frame cs s)

show_matches-Kept : (ms : List (List ℕ)) {s t : Editor} → Kept s t → Kept s (show_matches ms t)
show_matches-Kept ms {s} {t} k =
    let d = show_matches-Drawn ms t in (Drawn-IsValid d k.0, Frame-trans k.1 d.frame)

complete_with-Kept :
    (prefix : List ℕ) (ms : List (List ℕ)) {s : Editor}
    → All NoNull ms
    → IsValid s
    → Kept s (complete_with prefix ms s)
unfolding complete_with
complete_with-Kept prefix ms {s} n v =
    if_ind (Kept s) ((inserted).lines_below == 0 && not (length prefix == length lcp)) (λ e. added)
      (λ e. show_matches-Kept ms added)
  where
    lcp : List ℕ
    lcp = longest_common_prefix ms

    s' : Editor
    s' = record s { matches = ms }

    inserted : Editor
    inserted = insert_all (drop (length prefix) lcp) s'

    start : Frame s s'
    start = record {
      history = refl;
      history_count = refl;
      historyi = refl;
      complete_env = refl;
      host = refl;
      reads = omega arith;
    }

    added : Kept s inserted
    added =
        let (w, f) =
          insert_all-Kept (drop (length prefix) lcp) {s = s'}
            (drop-NoNull (length prefix) lcp (lcp-NoNull ms n))
            (IsValid-same s s' v refl refl v.cursor) in
        (w, Frame-trans start f)

complete_symbol-Kept :
    (env : List (List Key)) {s : Editor}
    → All (All IsKey) env
    → IsValid s
    → Kept s (complete_symbol env s)
unfolding complete_symbol
complete_symbol-Kept env {s} k v =
    if_ind (Kept s) (length (get_symprefix s) == 0) (λ e. (v, Frame-refl s))
      (λ e.
        complete_with-Kept (get_symprefix s) (find_matches (get_symprefix s) env)
          (find_matches-NoNull (get_symprefix s) env k) v)

complete_by-Kept :
    (o : Option (List (List Key))) {s : Editor} → IsTables o → IsValid s → Kept s (complete_by o s)
unfolding complete_by
complete_by-Kept none k v = insert_all-Kept (32 ∷ 32 ∷ []) (omega arith) v
complete_by-Kept (some env) {s} k v =
    let (w, f) = complete_symbol-Kept env k (to_symbol_end-IsValid v) in
    (w, Frame-trans (to_symbol_end-Frame s) f)

-- With a well-formed line and tables whose symbols hold no NUL, completion leaves a well-formed
-- line, keeps the history, the tables and the host, and gives no read back.
pub kshowcomp-Kept :
    {s : Editor}
    → IsTables s.complete_env
    → IsValid s
    → IsValid (kshowcomp s) × Frame s (kshowcomp s)
unfolding kshowcomp
kshowcomp-Kept {s} k v = complete_by-Kept s.complete_env k v
